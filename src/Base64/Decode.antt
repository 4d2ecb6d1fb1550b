-- ===== src/Base64/Decode.antt =====
-- A decoder after RFC 4648, and what it makes of the output of `base64_encode`.
use rpi_server.Prelude.{
  ℕ, zero, suc, ◌+◌, ◌-◌, ◌*◌, ◌/◌, ◌%◌, ◌^◌, ◌≡◌, ◌<◌, refl, ap, ap₂, ◌∙◌, Bool, true, false, [],
  ◌∷◌, leb, ◌==◌, if◌then◌else◌, All, arith, get_or,
}
use rpi_server.Bytes.{Bytes}
use rpi_server.Base64.{alphabet, letter, group, base64_encode}

-- The value of a letter.
value_of : ℕ → ℕ
value_of c =
    if leb b'a' c
    then c - b'a' + 26
    else if leb b'A' c
    then c - b'A'
    else if c == b'+'
    then 62
    else if c == b'/'
    then 63
    else c - b'0' + 52

decode_group : ℕ → ℕ → ℕ → ℕ → Bytes → Bytes
unfolding value_of
decode_group c0 c1 c2 c3 rest =
    let v = value_of c0 * 2 ^ 18 + value_of c1 * 2 ^ 12 + value_of c2 * 2 ^ 6 + value_of c3 in
    let short = value_of c0 * 2 ^ 18 + value_of c1 * 2 ^ 12 + value_of c2 * 2 ^ 6 in
    if c2 == b'='
    then (value_of c0 * 2 ^ 18 + value_of c1 * 2 ^ 12) / 2 ^ 16 ∷ []
    else if c3 == b'='
    then short / 2 ^ 16 ∷ (short / 2 ^ 8 % 256) ∷ []
    else v / 2 ^ 16 ∷ (v / 2 ^ 8 % 256) ∷ (v % 256) ∷ rest

unfoldable pub decode : Bytes → Bytes
unfolding decode_group
decode (c0 ∷ c1 ∷ c2 ∷ c3 ∷ rest) = decode_group c0 c1 c2 c3 (decode rest)
decode _ = []

holds_to : (ℕ → Bool) → ℕ → Bool
holds_to test zero = true
holds_to test (suc n) = if test n then holds_to test n else false

holds_to_use : (test : ℕ → Bool) (k n : ℕ) → n < k → holds_to test k ≡ true → test n ≡ true
unfolding holds_to
holds_to_use test zero n l h = absurd (omega arith)
holds_to_use test (suc k) n l h = ground (arith, holds_to_use test k n)

-- A letter is read back, and is no padding.
letters_table :
    holds_to
      (λ n. if value_of (letter n) == n then (if letter n == b'=' then false else true) else false)
      64
    ≡ true
unfolding holds_to letter value_of
letters_table = refl

letter_read : (n : ℕ) → n < 64 → (value_of (letter n) ≡ n) × ((letter n == b'=') ≡ false)
letter_read n h = ground (arith, holds_to_use _ 64 n h letters_table)

three_bytes :
    (x y z a b c : ℕ) (rest : Bytes) → x ≡ a → y ≡ b → z ≡ c → x ∷ y ∷ z ∷ rest ≡ a ∷ b ∷ c ∷ rest
three_bytes x y z a b c rest e f g = rw (e, f, g) refl

letter_mod : (n : ℕ) → letter n ≡ letter (n % 64)
unfolding letter
letter_mod n = ap (λ (k : ℕ). get_or alphabet k 0) {x = n % 64} {y = n % 64 % 64} (omega arith)

value-letter : (n : ℕ) → value_of (letter n) ≡ n % 64
value-letter n = rw (letter_mod n) (letter_read (n % 64) (omega arith)).0

letter-no-pad : (n : ℕ) → (letter n == b'=') ≡ false
letter-no-pad n = rw (letter_mod n) (letter_read (n % 64) (omega arith)).1

abbrev IsByte : ℕ → Type 0
IsByte b = b < 256

-- The number that four letters stand for.
abbrev sum : ℕ → ℕ → ℕ → ℕ → ℕ
sum n0 n1 n2 n3 = n0 % 64 * 2 ^ 18 + n1 % 64 * 2 ^ 12 + n2 % 64 * 2 ^ 6 + n3 % 64

decode_three :
    (n0 n1 n2 n3 : ℕ) (rest : Bytes)
    → decode_group (letter n0) (letter n1) (letter n2) (letter n3) rest
      ≡ (sum n0 n1 n2 n3 / 2 ^ 16)
        ∷ (sum n0 n1 n2 n3 / 2 ^ 8 % 256)
        ∷ (sum n0 n1 n2 n3 % 256)
        ∷ rest
unfolding decode_group
decode_three n0 n1 n2 n3 rest =
    rw
      (
        value-letter n0,
        value-letter n1,
        value-letter n2,
        value-letter n3,
        letter-no-pad n2,
        letter-no-pad n3,
      )
      refl

decode_two :
    (n0 n1 n2 : ℕ) (rest : Bytes)
    → decode_group (letter n0) (letter n1) (letter n2) b'=' rest
      ≡ (sum n0 n1 n2 0 / 2 ^ 16) ∷ (sum n0 n1 n2 0 / 2 ^ 8 % 256) ∷ []
unfolding decode_group
decode_two n0 n1 n2 rest =
    rw (value-letter n0, value-letter n1, value-letter n2, letter-no-pad n2)
      (ap₂ (λ (x y : ℕ). x ∷ y ∷ []) (omega arith) (omega arith))

decode_one :
    (n0 n1 : ℕ) (rest : Bytes)
    → decode_group (letter n0) (letter n1) b'=' b'=' rest ≡ (sum n0 n1 0 0 / 2 ^ 16) ∷ []
unfolding decode_group
decode_one n0 n1 rest = rw (value-letter n0, value-letter n1) (ap (λ (x : ℕ). x ∷ []) (omega arith))

-- The six-bit parts of a number of 24 bits are the number.
sum_parts : (v : ℕ) → v < 2 ^ 24 → sum (v / 2 ^ 18) (v / 2 ^ 12) (v / 2 ^ 6) v ≡ v
sum_parts v h = omega arith

-- The decoder gets back exactly the bytes that were encoded, whatever their number.
pub decode-base64_encode : (s : Bytes) → All IsByte s → decode (base64_encode s) ≡ s
unfolding base64_encode decode decode_group group
decode-base64_encode [] h = refl
decode-base64_encode (a ∷ []) h =
    decode_one (a * 2 ^ 16 / 2 ^ 18) (a * 2 ^ 16 / 2 ^ 12) []
    ∙ ap (λ (x : ℕ). x ∷ []) (omega (arith, h.0))
decode-base64_encode (a ∷ b ∷ []) h =
    let v = a * 2 ^ 16 + b * 2 ^ 8 in
    decode_two (v / 2 ^ 18) (v / 2 ^ 12) (v / 2 ^ 6) []
    ∙ ap₂ (λ (x y : ℕ). x ∷ y ∷ []) (omega (arith, h.0, h.1.0)) (omega (arith, h.0, h.1.0))
decode-base64_encode (a ∷ b ∷ c ∷ rest) h =
    let v = a * 2 ^ 16 + b * 2 ^ 8 + c in
    decode_three (v / 2 ^ 18) (v / 2 ^ 12) (v / 2 ^ 6) v (decode (base64_encode rest))
    ∙ rw (sum_parts v (omega (arith, h.0, h.1.0, h.1.1.0)), decode-base64_encode rest h.1.1.1)
        (three_bytes _ _ _ a b c rest (omega (arith, h.0, h.1.0, h.1.1.0))
          (omega (arith, h.0, h.1.0, h.1.1.0)) (omega (arith, h.0, h.1.0, h.1.1.0)))
