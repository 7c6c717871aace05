-- ===== src/Net/Parse4.antt =====
-- netip.parseIPv4Fields.
use rackd.Prelude.{
  ℕ, ◌+◌, ◌-◌, ◌*◌, Bool, ◌&&◌, ◌||◌, Option, none, some, List, [], ◌∷◌, ◌++◌, ltb, leb, nat_eq,
  if◌then◌else◌, length,
}
use rackd.Text.{Text, is_empty}

abbrev pub is_digit : ℕ → Bool
is_digit c = leb b'0' c && leb c b'9'

-- The loop over the text: the fields read so far, the octet being read and its number of digits.
unfoldable pub scan4 : Text → List ℕ → ℕ → ℕ → Option (List ℕ)
scan4 [] fields val digits = if nat_eq (length fields) 3 then some (fields ++ val ∷ []) else none
scan4 (c ∷ s) fields val digits =
    let more = scan4 s fields (val * 10 + (c - b'0')) (digits + 1) in
    let next = scan4 s (fields ++ val ∷ []) 0 0 in
    if is_digit c
    then if nat_eq digits 1 && nat_eq val 0
      then none
      else if ltb 255 (val * 10 + (c - b'0'))
      then none
      else more
    else if nat_eq c b'.'
    then if nat_eq digits 0 || is_empty s
      then none
      else if nat_eq (length fields) 3
      then none
      else next
    else none

unfoldable pub parse_ip4 : Text → Option (List ℕ)
unfolding scan4
parse_ip4 s = scan4 s [] 0 0
