-- ===== src/Net/Parse6.antt =====
-- netip.parseIPv6, without a zone: net.ParseIP refuses an address with one.
use rackd.Prelude.{
  ℕ, zero, suc, ◌+◌, ◌-◌, ◌*◌, ◌/◌, ◌%◌, Bool, true, false, not, ◌&&◌, Option, none, some, List, [],
  ◌∷◌, ◌++◌, ltb, leb, nat_eq, if◌then◌else◌, length, any,
}
use rackd.Text.{Text, is_empty}
use rackd.Net.Parse4.{is_digit, scan4}

-- The value of a hexadecimal digit.
abbrev hex_value : ℕ → Option ℕ
hex_value c =
    if is_digit c
    then some (c - b'0')
    else if leb b'a' c && leb c b'f'
    then some (c - b'a' + 10)
    else if leb b'A' c && leb c b'F'
    then some (c - b'A' + 10)
    else none

-- A group of at most four digits: its value, its number of digits and the rest of the text.
-- `none`: a fifth digit.
pub scan_hex : Text → ℕ → ℕ → Option (ℕ × ℕ × Text)
scan_hex [] acc off = some (acc, off, [])
scan_hex (c ∷ s) acc off = elim (hex_value c) [
  | none ↦ some (acc, off, c ∷ s)
  | some d ↦ if ltb 3 off then none else scan_hex s (acc * 16 + d) (off + 1)
]

zeros : ℕ → List ℕ
zeros zero = []
zeros (suc n) = 0 ∷ zeros n

-- The bytes read, `before` the ellipsis and `after` it, filled up to sixteen.
expand : Option (List ℕ) → List ℕ → Option (List ℕ)
unfolding zeros
expand none ip = if nat_eq (length ip) 16 then some ip else none
expand (some before) after =
    let n = length before + length after in
    if ltb n 16 then some (before ++ zeros (16 - n) ++ after) else none

-- The bytes so far; after an ellipsis, those before it are in `before`.
abbrev total : Option (List ℕ) → List ℕ → ℕ
total none ip = length ip
total (some before) ip = length before + length ip

abbrev no_ellipsis : Option (List ℕ) → Bool
no_ellipsis none = true
no_ellipsis (some b) = false

-- What follows a group: the end, or ':' and more text. `go` reads the next group.
abbrev after_group :
    (Option (List ℕ) → List ℕ → Text → Option (List ℕ))
    → Option (List ℕ)
    → List ℕ
    → Text
    → Option (List ℕ)
after_group go before ip [] = expand before ip
after_group go before ip (c ∷ []) = none
after_group go before ip (c ∷ c' ∷ s) =
    if nat_eq c b':'
    then if nat_eq c' b':'
      then if no_ellipsis before
        then if is_empty s then expand (some ip) [] else go (some ip) [] s
        else none
      else go before ip (c' ∷ s)
    else none

-- A trailing IPv4 address, at byte `total before ip`.
abbrev trailing : Option (List ℕ) → List ℕ → Option (List ℕ) → Option (List ℕ)
trailing before ip none = none
trailing before ip (some quad) =
    if no_ellipsis before && not (nat_eq (total before ip) 12)
    then none
    else if ltb 16 (total before ip + 4)
    then none
    else expand before (ip ++ quad)

abbrev starts_dot : Text → Bool
starts_dot [] = false
starts_dot (c ∷ s) = nat_eq c b'.'

-- The loop over the groups; the first argument is the number of groups that still fit.
groups : ℕ → Option (List ℕ) → List ℕ → Text → Option (List ℕ)
unfolding scan_hex expand scan4
groups zero before ip s = if is_empty s then expand before ip else none
groups (suc n) before ip s = elim (scan_hex s 0 0) [
  | none ↦ none
  | some (acc, off, rest) ↦
      if nat_eq off 0
      then none
      else if starts_dot rest
      then trailing before ip (scan4 s [] 0 0)
      else after_group (groups n) before (ip ++ acc / 256 ∷ acc % 256 ∷ []) rest
]

abbrev has_zone : Text → Bool
has_zone = any (λ c. nat_eq c b'%')

-- A leading "::", then the groups.
from_start : Text → Option (List ℕ)
unfolding groups
from_start (c ∷ c' ∷ s) =
    if nat_eq c b':' && nat_eq c' b':'
    then if is_empty s then expand (some []) [] else groups 8 (some []) [] s
    else groups 8 none [] (c ∷ c' ∷ s)
from_start s = groups 8 none [] s

unfoldable pub parse_ip6 : Text → Option (List ℕ)
unfolding from_start
parse_ip6 s = if has_zone s then none else from_start s
