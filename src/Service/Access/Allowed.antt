-- ===== src/Service/Access/Allowed.antt =====
-- internal/service/rbac.go: who passes requirePermission, in terms of the rows of the store.
use rackd.Prelude.{
  ◌≡◌, ◌≢◌, refl, sym, ap, ◌∙◌, ◌↔◌, ◌⊎◌, inl, inr, Bool, true, false, ◌&&◌, ◌||◌, Option, none,
  some, List, [], ◌∷◌, ◌++◌, any, arith, Bool-cases, subst,
}
use rackd.Text.{Text, codes, ◌==◌, eq_iff, ==_refl, is_empty}
use rackd.Error.{ok}
use rackd.Model.{system, Caller, Permission, RolePermission, UserRole}
use rackd.Store.{Store, Env}
use rackd.Storage.Rbac.Users.{has_permission, granted, has_role, has_link, allows}
use rackd.Service.Access.{is_system, in_scope, scope_key, require_permission}
use rackd.Service.Access.Decision.{May, require_permission-May}
use mathlib.Core.List.{Memᴰ}

module _ {ℓ} {A : Type ℓ} where
  member_of_any :
      (p : A → Bool) (xs : List A) → any p xs ≡ true → (x : A) × Memᴰ x xs × (p x ≡ true)
  member_of_any p [] h = absurd (ground arith)
  member_of_any p (x ∷ xs) h = elim (Bool-cases (p x)) [
    | inl e ↦ (x, Memᴰ.head refl, e)
    | inr e ↦ let (y, m, q) = member_of_any p xs (ground (arith)) in (y, Memᴰ.tail m, q)
  ]

  any_of_member : (p : A → Bool) (x : A) (xs : List A) → Memᴰ x xs → p x ≡ true → any p xs ≡ true
  any_of_member p x [] m h = elim m [ ]
  any_of_member p x (y ∷ xs) (Memᴰ.head e) h =
      let here : p y ≡ true = ap p (sym e) ∙ h in ground arith
  any_of_member p x (y ∷ xs) (Memᴰ.tail m) h = let there = any_of_member p x xs m h in ground arith

-- Some role of the user has a permission with the resource and the action.
pub record HasGrant (id resource action : Text) (s : Store) : Type 0 where
  pub link : UserRole
  pub grant : RolePermission
  pub permission : Permission
  pub link_there : Memᴰ link s.user_roles
  pub grant_there : Memᴰ grant s.role_permissions
  pub permission_there : Memᴰ permission s.permissions
  pub of_user : link.user_id ≡ id
  pub of_role : grant.role_id ≡ link.role_id
  pub of_permission : grant.permission_id ≡ permission.id
  pub on_resource : permission.resource ≡ resource
  pub for_action : permission.action ≡ action

-- The token has no scopes, or one of them is resource:action or "*".
abbrev pub InScope : Option (List Text) → Text → Text → Type 0
InScope none resource action = Unit
InScope (some scopes) resource action =
    Memᴰ (resource ++ (codes ":" ++ action)) scopes ⊎ Memᴰ (codes "*") scopes

abbrev pub IsAllowed : Caller → Text → Text → Store → Type 0
IsAllowed c resource action s =
    (c.kind ≡ system)
    ⊎ ((c.user_id ≢ []) × InScope c.scopes resource action × HasGrant c.user_id resource action s)

is_system_iff : (c : Caller) → (is_system c ≡ true) ↔ (c.kind ≡ system)
unfolding is_system
is_system_iff c = ground arith

in_scope_iff :
    (scopes : Option (List Text)) (resource action : Text)
    → (in_scope scopes (scope_key resource action) ≡ true) ↔ InScope scopes resource action
unfolding in_scope
in_scope_iff none resource action = (λ h. tt, λ h. refl)
in_scope_iff (some scopes) resource action =
    let key = scope_key resource action in
    let passes : Text → Bool = λ t. t == key || t == codes "*" in
    (
      λ h.
          let (t, m, e) = member_of_any passes scopes h in
          elim (Bool-cases (t == key)) [
            | inl k ↦ inl (subst (λ u. Memᴰ u scopes) ((eq_iff t key).0 k) m)
            | inr k ↦ inr (subst (λ u. Memᴰ u scopes) ((eq_iff t (codes "*")).0 (ground (arith))) m)
          ],
      λ o. elim o [
        | inl m ↦ let same = ==_refl key in any_of_member passes key scopes m (ground (arith))
        | inr m ↦
            let same = ==_refl (codes "*") in
            any_of_member passes (codes "*") scopes m (ground (arith))
      ],
    )

has_grant :
    (id resource action : Text) (s : Store)
    → any (λ p. allows resource action p && granted id s p.id) s.permissions ≡ true
    → HasGrant id resource action s
unfolding granted
has_grant id resource action s h =
    let (p, there, e) =
      member_of_any (λ (q : Permission). allows resource action q && granted id s q.id)
        s.permissions h in
    let (g, given, f) =
      member_of_any (λ (l : RolePermission). l.permission_id == p.id && has_role id s l.role_id)
        s.role_permissions (ground (arith)) in
    let (l, linked, k) = member_of_any (has_link id g.role_id) s.user_roles (ground (arith)) in
    record {
      link = l;
      grant = g;
      permission = p;
      link_there = linked;
      grant_there = given;
      permission_there = there;
      of_user = (eq_iff l.user_id id).0 (ground (arith));
      of_role = sym ((eq_iff l.role_id g.role_id).0 (ground (arith)));
      of_permission = (eq_iff g.permission_id p.id).0 (ground (arith));
      on_resource = (eq_iff p.resource resource).0 (ground (arith));
      for_action = (eq_iff p.action action).0 (ground (arith));
    }

granted_of :
    (id resource action : Text) (s : Store)
    → HasGrant id resource action s
    → any (λ p. allows resource action p && granted id s p.id) s.permissions ≡ true
unfolding granted
granted_of id resource action s h =
    let by_user = (eq_iff h.link.user_id id).1 h.of_user in
    let by_role = (eq_iff h.link.role_id h.grant.role_id).1 (sym h.of_role) in
    let by_permission = (eq_iff h.grant.permission_id h.permission.id).1 h.of_permission in
    let on = (eq_iff h.permission.resource resource).1 h.on_resource in
    let for = (eq_iff h.permission.action action).1 h.for_action in
    let linked =
      any_of_member (has_link id h.grant.role_id) h.link s.user_roles h.link_there
        (ground (arith)) in
    let given =
      any_of_member
        (λ (l : RolePermission). l.permission_id == h.permission.id && has_role id s l.role_id)
        h.grant s.role_permissions h.grant_there (ground (arith)) in
    any_of_member (λ (q : Permission). allows resource action q && granted id s q.id) h.permission
      s.permissions h.permission_there (ground (arith))

has_permission_iff :
    (id resource action : Text) (s : Store)
    → id ≢ []
    → (has_permission id resource action s ≡ true) ↔ HasGrant id resource action s
unfolding has_permission granted
has_permission_iff [] resource action s n = absurd (n refl)
has_permission_iff (b ∷ id) resource action s n =
    (has_grant (b ∷ id) resource action s, granted_of (b ∷ id) resource action s)

full_text : (t : Text) → is_empty t ≡ false → t ≢ []
full_text [] h = absurd (ground arith)
full_text (b ∷ t) h = λ e. absurd (ground arith)

not_empty : (t : Text) → t ≢ [] → is_empty t ≡ false
not_empty [] n = absurd (n refl)
not_empty (b ∷ t) n = refl

May-of_allowed :
    (c : Caller) (resource action : Text) (s : Store)
    → IsAllowed c resource action s
    → May (some c) resource action s
May-of_allowed c resource action s (inl e) = inl ((is_system_iff c).1 e)
May-of_allowed c resource action s (inr (full, inside, has)) = inr (
  not_empty c.user_id full,
  (in_scope_iff c.scopes resource action).1 inside,
  (has_permission_iff c.user_id resource action s full).1 has,
)

May-iff :
    (o : Option Caller) (resource action : Text) (s : Store)
    → May o resource action s ↔ ((c : Caller) × (o ≡ some c) × IsAllowed c resource action s)
May-iff none resource action s = (λ h. absurd h, λ (c, e, h). absurd (ground arith))
May-iff (some c) resource action s = (
  λ h. elim h [
    | inl e ↦ (c, refl, inl ((is_system_iff c).0 e))
    | inr (full, inside, has) ↦
        let given = full_text c.user_id full in
        (
          c,
          refl,
          inr (
            given,
            (in_scope_iff c.scopes resource action).0 inside,
            (has_permission_iff c.user_id resource action s given).0 has,
          ),
        )
  ],
  λ (d, e, h).
      May-of_allowed c resource action s
        (let same : d ≡ c = ground (arith) in subst (λ x. IsAllowed x resource action s) same h),
)

-- requirePermission succeeds exactly for a caller that is the system, or that has a user, whose
-- scopes, if there are any, include resource:action or *, and for whom the tables have a link to a
-- role and a grant to that role of a permission with the resource and the action.
pub require_permission_iff :
    (env : Env) (resource action : Text) (s : Store)
    → ((require_permission env resource action s).0 ≡ ok tt)
      ↔ ((c : Caller) × (env.ctx.caller ≡ some c) × IsAllowed c resource action s)
require_permission_iff env resource action s =
    let may = require_permission-May env resource action s in
    let allowed = May-iff env.ctx.caller resource action s in
    (λ h. allowed.0 (may.0 h), λ h. may.1 (allowed.1 h))
