-- ===== src/Net/RoundTrip.antt =====
-- What IP.String prints, net.ParseIP reads back.
use rackd.Prelude.{
  ℕ, ◌<◌, ◌≡◌, some, List, [], ◌∷◌, ◌++◌, arith, ltb, if◌then◌else◌, append-nil, refl, length,
  false,
}
use rackd.Text.{Text, is_empty}
use rackd.Net.{IsIp4, quad, v4, parse_ip, decimal, format_ip, first_mark}
use rackd.Net.Parse4.{parse_ip4, scan4}

-- The number of digits of a byte.
abbrev width : ℕ → ℕ
width n = if ltb n 10 then 1 else if ltb n 100 then 2 else 3

scan4-decimal :
    (n : ℕ) (rest : Text) (fields : List ℕ)
    → n < 256
    → scan4 (decimal n ++ rest) fields 0 0 ≡ scan4 rest fields n (width n)
unfolding scan4 decimal
scan4-decimal n rest fields h = ground arith

is_empty-decimal : (n : ℕ) (rest : Text) → is_empty (decimal n ++ rest) ≡ false
unfolding decimal
is_empty-decimal n rest = ground arith

-- A point and a byte after an octet that has been read.
scan4-dot :
    (v n : ℕ) (rest : Text) (fields : List ℕ)
    → n < 256
    → length fields < 3
    → scan4 (b'.' ∷ (decimal n ++ rest)) fields v (width v)
      ≡ scan4 rest (fields ++ v ∷ []) n (width n)
unfolding scan4
scan4-dot v n rest fields h short =
    ground (arith, is_empty-decimal n rest, scan4-decimal n rest (fields ++ v ∷ []) h)

scan4-end :
    (v : ℕ) (fields : List ℕ)
    → length fields ≡ 3
    → scan4 [] fields v (width v) ≡ some (fields ++ v ∷ [])
unfolding scan4
scan4-end v fields h = ground arith

-- What `decimal` and the points of IP.String make, with an empty end.
format_ip-quad :
    (a b c d : ℕ)
    → format_ip (a ∷ b ∷ c ∷ d ∷ [])
      ≡ decimal a ++ b'.' ∷ (decimal b ++ b'.' ∷ (decimal c ++ b'.' ∷ (decimal d ++ [])))
unfolding format_ip
format_ip-quad a b c d = rw (append-nil (decimal d))

parse_ip4-format_ip : {bs : List ℕ} → IsIp4 bs → parse_ip4 (format_ip bs) ≡ some bs
unfolding parse_ip4
parse_ip4-format_ip (quad a b c d ha hb hc hd) =
    rw
      (
        format_ip-quad a b c d,
        scan4-decimal a _ [] ha,
        scan4-dot a b _ [] hb (omega arith),
        scan4-dot b c _ (a ∷ []) hc (omega arith),
        scan4-dot c d _ (a ∷ b ∷ []) hd (omega arith),
      )
      (scan4-end d (a ∷ b ∷ c ∷ []) refl)

-- A decimal digit is none of the marks '.', ':' and '%'.
first_mark-decimal :
    (n : ℕ) (rest : Text) → n < 256 → first_mark (decimal n ++ rest) ≡ first_mark rest
unfolding first_mark decimal
first_mark-decimal n rest h = ground arith

first_mark-format_ip : {bs : List ℕ} → IsIp4 bs → first_mark (format_ip bs) ≡ some b'.'
unfolding first_mark
first_mark-format_ip (quad a b c d ha hb hc hd) =
    rw (format_ip-quad a b c d) (
      first_mark-decimal a (b'.' ∷ (decimal b ++ b'.' ∷ (decimal c ++ b'.' ∷ (decimal d ++ []))))
        ha)

-- net.ParseIP of the text of a four-byte address gives the address back.
pub parse_ip-format_ip : {bs : List ℕ} → IsIp4 bs → parse_ip (format_ip bs) ≡ some (v4 bs)
unfolding parse_ip
parse_ip-format_ip q = rw (first_mark-format_ip q, parse_ip, parse_ip4-format_ip q)
