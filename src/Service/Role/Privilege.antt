-- ===== src/Service/Role/Privilege.antt =====
-- Which users hold a privileged role, through the requests of callers who are no administrators.
use rackd.Prelude.{
  ◌≡◌, ◌≤◌, sym, subst, ◌∙◌, Bool, true, false, not, ◌&&◌, List, [], ◌∷◌, ◌++◌, map, arith, any,
  keep, count, Bool-cases, inl, inr,
}
use rackd.Text.{Text, ◌==◌, eq_iff, ==_sound}
use rackd.Rows.{
  any-append, any_mono, any-keep, any_congr, count-append, count-keep-le, count-map, count_of_none,
  find-any, any_either, any-only, any-map, count_mono,
}
use rackd.Model.{Time, Role, UserRole}
use rackd.Store.{Store}
use rackd.Storage.Rbac.{update_row}
use rackd.Storage.Rbac.Users.{has_link, has_role}
use rackd.Storage.Rbac.Grants.{has_link-deleted}
use rackd.Service.Role.{is_privileged}
use rackd.Service.Role.Change.{Change, keeps, adds, updates, deletes, assigns, revokes}

-- The user has the role "admin" or a system role.
abbrev pub is_privileged_user : Text → Store → Bool
is_privileged_user user s = any (λ r. is_privileged r && has_role user s r.id) s.roles

abbrev is_role : Text → Role → Bool
is_role id r = r.id == id

-- The primary key of roles, and the foreign key of user_roles.
pub record IsKeyed (s : Store) : Type 0 where
  pub ids : (id : Text) → count (is_role id) s.roles ≤ 1
  pub refers : (user id : Text) → has_role user s id ≡ true → any (is_role id) s.roles ≡ true

update_row-is_role :
    (new : Role) (now : Time) (id : Text) (r : Role)
    → is_role id (update_row new now r) ≡ is_role id r
update_row-is_role new now id r = ground arith

module _ (id : Text) (rows : List Role) (c : count (is_role id) rows ≤ 1) where
  count-is_role-added :
      (r : Role) → any (is_role r.id) rows ≡ false → count (is_role id) (rows ++ r ∷ []) ≤ 1
  count-is_role-added r fresh = elim (Bool-cases (is_role id r)) [
    | inl h ↦
        let none_yet = subst (λ i. any (is_role i) rows ≡ false) ((eq_iff r.id id).0 h) fresh in
        ground
          (arith, count-append (is_role id) rows (r ∷ []), count_of_none (is_role id) rows none_yet)
    | inr h ↦ ground (arith, count-append (is_role id) rows (r ∷ []))
  ]

  count-is_role-updated :
      (new : Role) (now : Time) → count (is_role id) (map (update_row new now) rows) ≤ 1
  count-is_role-updated new now = ground (
    arith,
    count-map (is_role id) (update_row new now) rows,
    count_mono (λ r. is_role id (update_row new now r)) (is_role id) rows
        λ r h. sym (update_row-is_role new now id r) ∙ h,
  )

any-is_role-kept :
    (id other : Text) (rows : List Role)
    → other == id ≡ false
    → any (is_role other) rows ≡ true
    → any (is_role other) (keep (λ r. not (r.id == id)) rows) ≡ true
any-is_role-kept id other rows n h =
    any-keep (is_role other) (λ r. not (r.id == id)) rows
    ∙ any_mono (is_role other) (λ r. is_role other r && not (r.id == id)) rows
        (λ r e. ground (arith, eq_iff r.id other, eq_iff r.id id, eq_iff other id)) h

any-has_link-kept :
    (user id : Text) (p : UserRole → Bool) (links : List UserRole)
    → any (has_link user id) (keep p links) ≡ true
    → any (has_link user id) links ≡ true
any-has_link-kept user id p links h =
    any_mono (λ l. has_link user id l && p l) (has_link user id) links (λ l e. ground arith)
      (sym (any-keep (has_link user id) p links) ∙ h)

pub IsKeyed-Change : {s t : Store} → IsKeyed s → Change s t → IsKeyed t
IsKeyed-Change k (keeps e f) = record {
  ids = λ id. rw e (k.ids id);
  refers = λ user id h. rw e (k.refers user id (rw (sym f) h));
}
IsKeyed-Change {s} k (adds r fresh e f) = record {
  ids = λ id. rw e (count-is_role-added id s.roles (k.ids id) r fresh);
  refers = λ user id h. rw e (
      let old = k.refers user id (rw (sym f) h) in
      ground (arith, any-append (is_role id) s.roles (r ∷ [])));
}
IsKeyed-Change {s} k (updates new now e f) = record {
  ids = λ id. rw e (count-is_role-updated id s.roles (k.ids id) new now);
  refers = λ user id h. rw e (
      any-map (is_role id) (update_row new now) s.roles
      ∙ any_congr (λ r. is_role id (update_row new now r)) (is_role id) s.roles
          (update_row-is_role new now id)
      ∙ k.refers user id (rw (sym f) h));
}
IsKeyed-Change {s} k (deletes id e f) = record {
  ids = λ other.
      rw e (
        ground (arith, count-keep-le (is_role other) (λ r. not (r.id == id)) s.roles, k.ids other));
  refers = λ user other h.
      let left : any (has_link user other) (keep (λ l. not (l.role_id == id)) s.user_roles) ≡ true =
        rw (sym f) h in
      let both = has_link-deleted user id other s.user_roles in
      rw e (any-is_role-kept id other s.roles (ground arith) (k.refers user other (ground arith)));
}
IsKeyed-Change {s} k (assigns l r found plain e f) = record {
  ids = λ id. rw e (k.ids id);
  refers = λ user id h.
      let links : any (has_link user id) (s.user_roles ++ l ∷ []) ≡ true = rw (sym f) h in
      let it = (find-any (is_role l.role_id) s.roles r found).0 in
      rw e (elim (Bool-cases (has_role user s id)) [
        | inl old ↦ k.refers user id old
        | inr new ↦
            subst (λ i. any (is_role i) s.roles ≡ true)
              (==_sound l.role_id id
                (ground (arith, any-append (has_link user id) s.user_roles (l ∷ []))))
              it
      ]);
}
IsKeyed-Change {s} k (revokes user role e f) = record {
  ids = λ id. rw e (k.ids id);
  refers = λ other id h. rw e (
      k.refers other id
        (any-has_link-kept other id (λ l. not (has_link user role l)) s.user_roles (rw (sym f) h)));
}

-- The same test over the two tables.
abbrev privileged : Text → List Role → List UserRole → Bool
privileged user roles links = any (λ r. is_privileged r && any (has_link user r.id) links) roles

pub is_privileged_user-Change :
    {s t : Store} (user : Text)
    → IsKeyed s
    → Change s t
    → privileged user t.roles t.user_roles ≡ true
    → privileged user s.roles s.user_roles ≡ true
is_privileged_user-Change user k (keeps e f) h = rw (sym e, sym f) h
is_privileged_user-Change {s} user k (adds r fresh e f) h =
    let after : privileged user (s.roles ++ r ∷ []) s.user_roles ≡ true = rw (sym e, sym f) h in
    ground (
      arith,
      any-append (λ q. is_privileged q && has_role user s q.id) s.roles (r ∷ []),
      k.refers user r.id,
    )
is_privileged_user-Change {s} user k (updates new now e f) h =
    let after : privileged user (map (update_row new now) s.roles) s.user_roles ≡ true =
      rw (sym e, sym f) h in
    let p = λ (q : Role). is_privileged q && has_role user s q.id in
    sym (
      any-map p (update_row new now) s.roles
      ∙ any_congr (λ q. p (update_row new now q)) p s.roles (λ q. ground arith))
    ∙ after
is_privileged_user-Change {s} user k (deletes id e f) h =
    let p = λ (q : Role).
      is_privileged q
      && any (has_link user q.id) (keep (λ l. not (l.role_id == id)) s.user_roles) in
    let after : any p (keep (λ r. not (r.id == id)) s.roles) ≡ true = rw (sym e, sym f) h in
    any_mono (λ q. p q && not (q.id == id)) (λ q. is_privileged q && has_role user s q.id) s.roles
      (λ q g. ground (arith, has_link-deleted user id q.id s.user_roles))
      (sym (any-keep p (λ r. not (r.id == id)) s.roles) ∙ after)
is_privileged_user-Change {s} user k (assigns l r found plain e f) h =
    let p = λ (q : Role). is_privileged q && any (has_link user q.id) (s.user_roles ++ l ∷ []) in
    let after : any p s.roles ≡ true = rw (sym e, sym f) h in
    any_either p (λ q. is_privileged q && has_role user s q.id)
      (λ q. is_privileged q && q.id == l.role_id) s.roles
      (λ q g. ground (
        arith,
        any-append (has_link user q.id) s.user_roles (l ∷ []),
        eq_iff q.id l.role_id,
        eq_iff l.role_id q.id,
      ))
      (any-only (is_role l.role_id) is_privileged r s.roles (k.ids l.role_id) found plain) after
is_privileged_user-Change {s} user k (revokes other role e f) h =
    let links = keep (λ l. not (has_link other role l)) s.user_roles in
    let after : privileged user s.roles links ≡ true = rw (sym e, sym f) h in
    any_mono (λ q. is_privileged q && any (has_link user q.id) links)
      (λ q. is_privileged q && has_role user s q.id) s.roles
      (λ q g.
        ground (arith, any-has_link-kept user q.id (λ l. not (has_link other role l)) s.user_roles))
      after
