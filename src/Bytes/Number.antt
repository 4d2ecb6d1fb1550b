-- ===== src/Bytes/Number.antt =====
-- Decimal numbers: `std::stoi`, `std::stoull`, `std::to_string`.
pub mod RoundTrip
use rpi_server.Prelude.{
  ℕ, zero, suc, ◌+◌, ◌-◌, ◌*◌, ◌/◌, ◌%◌, ◌^◌, Bool, true, false, Option, none, some, List, [], ◌∷◌,
  ◌++◌, ltb, ◌==◌, if◌then◌else◌, length,
}
use rpi_server.Prelude.Int.{ℤ, pos, negsuc}
use rpi_server.Bytes.{Bytes, is_digit, is_space, skip_while, take_while}

-- The value of a run of digits, on top of what is read already.
unfoldable pub decimal : ℕ → Bytes → ℕ
decimal acc [] = acc
decimal acc (c ∷ s) = decimal (acc * 10 + (c - b'0')) s

-- A signed number at the start of a text: whether there is a minus sign, the digits, and the
-- number of bytes read, white space and sign included.
pub record Scanned : Type 0 where
  pub negative : Bool
  pub digits : Bytes
  pub consumed : ℕ

scan_sign : ℕ → Bytes → Scanned
scan_sign spaces [] = record { negative = false; digits = []; consumed = spaces }
scan_sign spaces (c ∷ s) =
    let bare = take_while is_digit (c ∷ s) in
    let signed = take_while is_digit s in
    if c == b'-'
    then record { negative = true; digits = signed; consumed = spaces + 1 + length signed }
    else if c == b'+'
    then record { negative = false; digits = signed; consumed = spaces + 1 + length signed }
    else record { negative = false; digits = bare; consumed = spaces + length bare }

unfoldable pub scan : Bytes → Scanned
unfolding scan_sign skip_while take_while
scan s = scan_sign (length s - length (skip_while is_space s)) (skip_while is_space s)

negate : ℕ → ℤ
negate zero = pos 0
negate (suc n) = negsuc n

in_int_range : Bool → ℕ → Option ℤ
unfolding negate
in_int_range negative v =
    if negative
    then if ltb (2 ^ 31) v then none else some (negate v)
    else if ltb v (2 ^ 31)
    then some (pos v)
    else none

with_count : ℕ → Option ℤ → Option (ℤ × ℕ)
with_count n none = none
with_count n (some v) = some (v, n)

stoi_digits : Scanned → Bytes → Option (ℤ × ℕ)
unfolding in_int_range decimal with_count
stoi_digits r [] = none
stoi_digits r (c ∷ s) = with_count r.consumed (in_int_range r.negative (decimal 0 (c ∷ s)))

-- `std::stoi(s, &consumed)`: the value and `consumed`. `none` is either of its exceptions, for a
-- text that begins with no number and for a number out of range.
unfoldable pub stoi : Bytes → Option (ℤ × ℕ)
unfolding scan stoi_digits
stoi s = let r = scan s in stoi_digits r r.digits

stoull_digits : Scanned → Bytes → Option (ℕ × ℕ)
unfolding decimal
stoull_digits r [] = none
stoull_digits r (c ∷ s) =
    let v = decimal 0 (c ∷ s) in
    if ltb v (2 ^ 64)
    then some ((if r.negative then (2 ^ 64 - v) % 2 ^ 64 else v), r.consumed)
    else none

-- `std::stoull(s, &consumed)`. A minus sign negates the value modulo 2 ^ 64.
unfoldable pub stoull : Bytes → Option (ℕ × ℕ)
unfolding scan stoull_digits
stoull s = let r = scan s in stoull_digits r r.digits

-- The digits of a number; the fuel is more than the number of digits.
to_digits : ℕ → ℕ → Bytes
to_digits zero n = []
to_digits (suc fuel) n =
    let more = to_digits fuel (n / 10) ++ ((b'0' + n % 10) ∷ []) in
    if ltb n 10 then (b'0' + n) ∷ [] else more

-- `std::to_string` of a number that is not negative.
unfoldable pub to_string : ℕ → Bytes
unfolding to_digits
to_string n = to_digits (suc n) n

unfoldable pub to_string_ℤ : ℤ → Bytes
unfolding to_string
to_string_ℤ (pos n) = to_string n
to_string_ℤ (negsuc n) = b'-' ∷ to_string (suc n)
