-- ===== src/Service/Conflict/Notes.antt =====
-- internal/service/conflict.go, DetectDuplicateIPs: what it does to the conflicts that are known.
use rackd.Prelude.{
  ◌≡◌, refl, sym, ap, ◌∙◌, ◌&&◌, Bool, true, false, not, List, [], ◌∷◌, ℕ, ◌+◌, any, count, arith,
  Bool-cases, inl, inr,
}
use rackd.Text.{Text, ◌==◌, is_empty}
use rackd.Error.{ok}
use rackd.Model.Conflict.{Conflict}
use rackd.Store.{Store, Env}
use rackd.Storage.Conflict.{active}
use rackd.Storage.Conflict.Find.{duplicates, find_duplicate_ips}
use rackd.Service.Access.{require_permission}
use rackd.Service.Conflict.{record_duplicate, record_duplicates, detect_duplicate_ips}
use rackd.Service.Conflict.Detect.{has_notes}
use rackd.Service.Conflict.Rounds.{
  is_watched, has_ip, record_duplicate-no_notes, record_duplicate-watched, record_duplicate-count,
  record_duplicate-clears, record_duplicates-first,
}

-- The conflict has notes, whatever its id.
abbrev noted : Conflict → Bool
noted c = not (is_empty c.notes)

duplicates-bare :
    (env : Env) (i : ℕ) (s : Store) (ips : List Text) → any noted (duplicates env i s ips) ≡ false
unfolding duplicates
duplicates-bare env i s [] = refl
duplicates-bare env i s (ip ∷ ips) =
    ground (arith, duplicates-bare env (i + 1) s ips, duplicates-bare env i s ips)

record_duplicates-no_notes :
    (env : Env) (id : Text) (cs : List Conflict) (s : Store)
    → any noted cs ≡ false
    → (record_duplicates env cs s).0 ≡ ok tt
    → any (has_notes id) s.conflicts ≡ false
    → any (has_notes id) (record_duplicates env cs s).1.conflicts ≡ false
unfolding record_duplicates
record_duplicates-no_notes env id [] s bare h n = n
record_duplicates-no_notes env id (c ∷ cs) s bare h n =
    let first = record_duplicates-first env c cs s h in
    ap (λ r. any (has_notes id) r.1.conflicts) first
    ∙ record_duplicates-no_notes env id cs (record_duplicate env c s).1 (ground (arith))
        (ap (λ r. r.0) (sym first) ∙ h) (record_duplicate-no_notes env id c s (ground (arith)) n)

record_duplicates-clears :
    (env : Env) (id ip : Text) (cs : List Conflict) (s : Store)
    → is_empty ip ≡ false
    → is_empty id ≡ false
    → any noted cs ≡ false
    → any (has_ip ip) cs ≡ true
    → any (is_watched id ip) s.conflicts ≡ true
    → (record_duplicates env cs s).0 ≡ ok tt
    → any (has_notes id) (record_duplicates env cs s).1.conflicts ≡ false
record_duplicates-clears env id ip [] s full n bare there w h = absurd (ground arith)
record_duplicates-clears env id ip (c ∷ cs) s full n bare there w h =
    let first = record_duplicates-first env c cs s h in
    let next = (record_duplicate env c s).1 in
    let done = ap (λ r. r.0) (sym first) ∙ h in
    ap (λ r. any (has_notes id) r.1.conflicts) first ∙ elim (Bool-cases (c.ip_address == ip)) [
      | inl same ↦
          record_duplicates-no_notes env id cs next (ground (arith)) done
            (record_duplicate-clears env id ip c s full n same w)
      | inr other ↦
          record_duplicates-clears env id ip cs next full n (ground (arith)) (ground (arith))
            (record_duplicate-watched env id ip c s w) done
    ]

record_duplicates-count :
    (env : Env) (id ip : Text) (cs : List Conflict) (s : Store)
    → is_empty ip ≡ false
    → any (is_watched id ip) s.conflicts ≡ true
    → (record_duplicates env cs s).0 ≡ ok tt
    → count (has_ip ip) (record_duplicates env cs s).1.conflicts ≡ count (has_ip ip) s.conflicts
unfolding record_duplicates
record_duplicates-count env id ip [] s full w h = refl
record_duplicates-count env id ip (c ∷ cs) s full w h =
    let first = record_duplicates-first env c cs s h in
    ap (λ r. count (has_ip ip) r.1.conflicts) first
    ∙ record_duplicates-count env id ip cs (record_duplicate env c s).1 full
        (record_duplicate-watched env id ip c s w) (ap (λ r. r.0) (sym first) ∙ h)
    ∙ record_duplicate-count env id ip c s full w

detect-recorded :
    (env : Env) (found : List Conflict) (s : Store)
    → (detect_duplicate_ips env s).0 ≡ ok found
    → (found ≡ find_duplicate_ips env s)
      × ((record_duplicates env found s).0 ≡ ok tt)
      × ((detect_duplicate_ips env s).1 ≡ (record_duplicates env found s).1)
unfolding detect_duplicate_ips require_permission
detect-recorded env found s h =
    let same : found ≡ find_duplicate_ips env s = ground arith in
    (same, ground (arith), ground (arith))

-- After a successful DetectDuplicateIPs that finds an address again, which is not empty and has an
-- active conflict with an id that is not empty, no conflict with that id has notes, and there are as
-- many conflicts of the address as before.
pub detect_duplicate_ips_clears :
    (env : Env) (found : List Conflict) (id ip : Text) (s : Store)
    → (detect_duplicate_ips env s).0 ≡ ok found
    → any (λ c. c.ip_address == ip) (find_duplicate_ips env s) ≡ true
    → any (λ c. (c.id == id && c.status == active) && c.ip_address == ip) s.conflicts ≡ true
    → is_empty id ≡ false
    → is_empty ip ≡ false
    → (any (λ c. c.id == id && not (is_empty c.notes)) (detect_duplicate_ips env s).1.conflicts
        ≡ false)
      × (count (λ c. c.ip_address == ip) (detect_duplicate_ips env s).1.conflicts
          ≡ count (λ c. c.ip_address == ip) s.conflicts)
unfolding find_duplicate_ips
detect_duplicate_ips_clears env found id ip s h there w n full =
    let run = detect-recorded env found s h in
    let bare : any noted found ≡ false = ap (any noted) run.0 ∙ duplicates-bare env 0 s _ in
    (
      ap (λ (t : Store). any (has_notes id) t.conflicts) run.2
          ∙ record_duplicates-clears env id ip found s full n bare
              (ap (any (has_ip ip)) run.0 ∙ there) w run.1,
      ap (λ (t : Store). count (has_ip ip) t.conflicts) run.2
          ∙ record_duplicates-count env id ip found s full w run.1,
    )
