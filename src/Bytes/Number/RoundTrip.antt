-- ===== src/Bytes/Number/RoundTrip.antt =====
-- Reading back what `std::to_string` writes.
use rpi_server.Prelude.{
  ℕ, zero, suc, ◌+◌, ◌-◌, ◌*◌, ◌/◌, ◌%◌, ◌^◌, ◌<◌, ◌≡◌, ◌≢◌, refl, ap, ◌∙◌, Bool, true, false, some,
  [], ◌∷◌, ◌++◌, ltb, if_elim, length, arith,
}
use rpi_server.Prelude.Int.{pos}
use rpi_server.Bytes.{Bytes, is_digit, is_space, skip_while, take_while, all_bytes}
use rpi_server.Bytes.Number.{Scanned, decimal, scan, stoi_digits, stoi, to_digits, to_string}

pub decimal-append :
    (acc : ℕ) (s : Bytes) (c : ℕ) → decimal acc (s ++ (c ∷ [])) ≡ decimal acc s * 10 + (c - b'0')
unfolding decimal
decimal-append acc [] c = refl
decimal-append acc (x ∷ s) c = decimal-append (acc * 10 + (x - b'0')) s c

decimal-to_digits : (fuel n : ℕ) → n < fuel → decimal 0 (to_digits fuel n) ≡ n
unfolding decimal to_digits
decimal-to_digits zero n h = absurd (omega arith)
decimal-to_digits (suc fuel) n h =
    if_elim (λ (d : Bytes). decimal 0 d ≡ n) (ltb n 10) (λ small. omega arith)
      (λ big.
        decimal-append 0 (to_digits fuel (n / 10)) (b'0' + n % 10)
        ∙ omega (arith, decimal-to_digits fuel (n / 10) (ground arith)))

pub decimal-to_string : (n : ℕ) → decimal 0 (to_string n) ≡ n
unfolding to_string
decimal-to_string n = decimal-to_digits (suc n) n (omega arith)

all_bytes-append :
    (p : ℕ → Bool) (s t : Bytes)
    → all_bytes p s ≡ true
    → all_bytes p t ≡ true
    → all_bytes p (s ++ t) ≡ true
unfolding all_bytes
all_bytes-append p [] t h k = k
all_bytes-append p (c ∷ s) t h k = ground (arith, all_bytes-append p s t)

digit_byte : (n : ℕ) → n < 10 → is_digit (b'0' + n) ≡ true
digit_byte n h = ground arith

all_digits : (fuel n : ℕ) → all_bytes is_digit (to_digits fuel n) ≡ true
unfolding all_bytes to_digits
all_digits zero n = refl
all_digits (suc fuel) n =
    if_elim (λ (d : Bytes). all_bytes is_digit d ≡ true) (ltb n 10)
      (λ small. ground (arith, digit_byte n))
      (λ big.
        all_bytes-append is_digit (to_digits fuel (n / 10)) _ (all_digits fuel (n / 10))
          (ground (arith, digit_byte (n % 10))))

pub to_string-digits : (n : ℕ) → all_bytes is_digit (to_string n) ≡ true
unfolding to_string
to_string-digits n = all_digits (suc n) n

append-ne-nil : (s : Bytes) (c : ℕ) → (s ++ (c ∷ [])) ≢ []
append-ne-nil [] c e = cc
append-ne-nil (x ∷ s) c e = cc

pub to_string-ne-nil : (n : ℕ) → to_string n ≢ []
unfolding to_string to_digits
to_string-ne-nil n =
    if_elim (λ (d : Bytes). d ≢ []) (ltb n 10) (λ _ e. cc)
      (λ _. append-ne-nil (to_digits n (n / 10)) (b'0' + n % 10))

pub take_while_all :
    (p : ℕ → Bool) (s t : Bytes)
    → all_bytes p s ≡ true
    → take_while p t ≡ []
    → take_while p (s ++ t) ≡ s
unfolding all_bytes take_while
take_while_all p [] t h k = k
take_while_all p (c ∷ s) t h k = ground (arith, take_while_all p s t)

not_space : (c : ℕ) → is_digit c ≡ true → is_space c ≡ false
not_space c h = ground arith

scan_digits :
    (c : ℕ) (s t : Bytes)
    → is_digit c ≡ true
    → take_while is_digit (c ∷ (s ++ t)) ≡ c ∷ s
    → scan (c ∷ (s ++ t)) ≡ record { negative = false; digits = c ∷ s; consumed = suc (length s) }
unfolding scan
scan_digits c s t h e = rw skip_front (simp e (ground arith))
  where
    skip_front : skip_while is_space (c ∷ (s ++ t)) ≡ c ∷ (s ++ t)
    skip_front = ground (arith, not_space c h)

stoi_of_scan : (s : Bytes) (r : Scanned) → scan s ≡ r → stoi s ≡ stoi_digits r r.digits
unfolding stoi
stoi_of_scan s r e = ap (λ (x : Scanned). stoi_digits x x.digits) e

head_digit : (c : ℕ) (s : Bytes) → all_bytes is_digit (c ∷ s) ≡ true → is_digit c ≡ true
unfolding all_bytes
head_digit c s h = ground arith

-- A run of digits in the range of `int` is read whole, up to the byte `t` begins with.
pub stoi_digits_lem :
    (s t : Bytes)
    → all_bytes is_digit s ≡ true
    → s ≢ []
    → take_while is_digit t ≡ []
    → decimal 0 s < 2 ^ 31
    → stoi (s ++ t) ≡ some (pos (decimal 0 s), length s)
stoi_digits_lem [] t h ne e r = absurd (ne refl)
stoi_digits_lem (c ∷ s) t h ne e r =
    stoi_of_scan (c ∷ (s ++ t)) _
      (scan_digits c s t (head_digit c s h) (take_while_all is_digit (c ∷ s) t h e))
    ∙ unfold stoi_digits in ground arith

-- `std::stoi` reads back what `std::to_string` writes, up to a byte that is no digit.
pub stoi-to_string :
    (n : ℕ) (t : Bytes)
    → n < 2 ^ 31
    → take_while is_digit t ≡ []
    → stoi (to_string n ++ t) ≡ some (pos n, length (to_string n))
stoi-to_string n t h e = rw (decimal-to_string n) at (
    stoi_digits_lem (to_string n) t (to_string-digits n) (to_string-ne-nil n) e
      (omega (arith, decimal-to_string n)))
