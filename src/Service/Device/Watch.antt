-- ===== src/Service/Device/Watch.antt =====
-- internal/service/device.go, checkForIPConflicts: addresses whose conflicts are over.
use rackd.Prelude.{
  ◌≡◌, refl, ap, ◌∙◌, Bool, true, false, ◌||◌, List, [], ◌∷◌, ℕ, ◌+◌, length, any, keep, leb, arith,
}
use rackd.Text.{Text, ◌==◌, is_empty}
use rackd.Rows.Parts.{some_of_any}
use rackd.Model.Device.{Address, Device}
use rackd.Model.Conflict.{Conflict}
use rackd.Store.{Store, Env}
use rackd.Storage.Order.{any-sort_by}
use rackd.Storage.Conflict.{get_conflicts_by_ip, latest_first}
use rackd.Storage.Device.Listing.{Seen}
use rackd.Service.Device.{check_ip, check_ips, check_for_ip_conflicts}

-- Each address is empty or has a conflict, whatever its status.
abbrev pub AllKnown : List Address → Store → Type 0
AllKnown [] s = Unit
AllKnown (a ∷ addresses) s =
    (is_empty a.ip || any (λ c. c.ip_address == a.ip) s.conflicts ≡ true) × AllKnown addresses s

any-keep_self : (p : Conflict → Bool) (cs : List Conflict) → any p (keep p cs) ≡ any p cs
any-keep_self p [] = refl
any-keep_self p (c ∷ cs) = ground (arith, any-keep_self p cs)

check_ip-known :
    (seen : Seen) (env : Env) (uuid ip : Text) (s : Store)
    → any (λ c. c.ip_address == ip) s.conflicts ≡ true
    → check_ip seen env uuid ip s ≡ s
unfolding check_ip get_conflicts_by_ip
check_ip-known seen env uuid ip s h =
    let found = keep (λ c. c.ip_address == ip) s.conflicts in
    let there =
      any-sort_by (λ a b. leb b.detected_at a.detected_at) (λ c. c.ip_address == ip) found
      ∙ any-keep_self (λ c. c.ip_address == ip) s.conflicts
      ∙ h in
    ground (arith, some_of_any (λ c. c.ip_address == ip) (latest_first found))

check_ip-settled :
    (seen : Seen) (env : Env) (uuid ip : Text) (s : Store)
    → is_empty ip || any (λ c. c.ip_address == ip) s.conflicts ≡ true
    → check_ip seen env uuid ip s ≡ s
unfolding check_ip get_conflicts_by_ip
check_ip-settled seen env uuid [] s h = refl
check_ip-settled seen env uuid (b ∷ ip) s h = check_ip-known seen env uuid (b ∷ ip) s h

check_ips-known :
    (seen : Seen) (env : Env) (i : ℕ) (addresses : List Address) (s : Store)
    → AllKnown addresses s
    → check_ips seen env i addresses s ≡ s
unfolding check_ips
check_ips-known seen env i [] s h = refl
check_ips-known seen env i (a ∷ rest) s h =
    ap (check_ips seen env (i + 1) rest) (check_ip-settled seen env (env.row_uuid i) a.ip s h.0)
    ∙ check_ips-known seen env (i + 1) rest s h.1

-- checkForIPConflicts leaves the store as it is, if each address of the device is empty or has a
-- conflict already, of whatever status.
pub check_for_ip_conflicts-known :
    (watched : Bool) (seen : Seen) (env : Env) (device : Device) (s : Store)
    → AllKnown device.addresses s
    → check_for_ip_conflicts watched seen env device s ≡ s
check_for_ip_conflicts-known false seen env device s h = refl
check_for_ip_conflicts-known true seen env device s h =
    check_ips-known seen env (length device.addresses + length device.custom_fields)
      device.addresses s h
