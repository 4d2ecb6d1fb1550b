-- ===== src/Parser/Extract/Starts.antt =====
-- Where `find_next_message_start` finds a message.
use rpi_server.Prelude.{
  ℕ, zero, suc, ◌+◌, ◌≤◌, ◌<◌, ◌≡◌, ◌≢◌, refl, ap, Bool, true, false, sym, subst, if_elim, ◌||◌,
  Option, none, some, ◌==◌, ◌-◌, ◌⊎◌, inl, inr, get_or, length, arith,
}
use native.Mathlib.Decide.{dec_lt}
use rpi_server.Bytes.{Bytes}
use rpi_server.Parser.Extract.{is_rtsp_message_start_at, next_start, find_next_message_start}

-- A frame or a message may start at the position.
abbrev pub starts_at : Bytes → ℕ → Bool
starts_at b i = get_or b i 0 == b'$' || is_rtsp_message_start_at b i

-- The first start behind the first byte.
abbrev pub IsNext : Bytes → ℕ → Type 0
IsNext b n =
    (1 ≤ n)
    × (n < length b)
    × (starts_at b n ≡ true)
    × ((k : ℕ) → 1 ≤ k → k < n → starts_at b k ≡ false)

abbrev pub HasNoNext : Bytes → Type 0
HasNoNext b = (k : ℕ) → 1 ≤ k → k < length b → starts_at b k ≡ false

at_first :
    (rounds : ℕ) (b : Bytes) (i : ℕ) (o : Option ℕ)
    → next_start (suc rounds) b i ≡ o
    → ((starts_at b i ≡ true) × (o ≡ some i))
      ⊎ ((starts_at b i ≡ false) × (next_start rounds b (i + 1) ≡ o))
unfolding next_start
at_first rounds b i o e =
    if_elim
      (λ (r : Option ℕ).
        r ≡ o
        → ((starts_at b i ≡ true) × (o ≡ some i))
          ⊎ ((starts_at b i ≡ false) × (next_start rounds b (i + 1) ≡ o)))
      (starts_at b i) (λ h f. inl (h, sym f)) (λ h f. inr (h, f)) e

some_index : {m n : ℕ} → some m ≡ some n → m ≡ n
some_index e = cc

no_rounds : (b : Bytes) (i n : ℕ) → next_start 0 b i ≢ some n
unfolding next_start
no_rounds b i n e = cc

next_start_bounds :
    (rounds : ℕ) (b : Bytes) (i n : ℕ)
    → next_start rounds b i ≡ some n
    → (i ≤ n) × (n < i + rounds) × (starts_at b n ≡ true)
next_start_bounds zero b i n e = absurd (no_rounds b i n e)
next_start_bounds (suc rounds) b i n e = elim (at_first rounds b i (some n) e) [
  | inl (h, f) ↦
      let same = some_index f in
      (omega (arith, same), omega (arith, same), subst (λ j. starts_at b j ≡ true) (sym same) h)
  | inr (h, f) ↦
      let (l, m, s) = next_start_bounds rounds b (i + 1) n f in
      (omega (arith, l), omega (arith, m), s)
]

next_start_before :
    (rounds : ℕ) (b : Bytes) (i n k : ℕ)
    → next_start rounds b i ≡ some n
    → i ≤ k
    → k < n
    → starts_at b k ≡ false
next_start_before zero b i n k e l m = absurd (no_rounds b i n e)
next_start_before (suc rounds) b i n k e l m = elim (at_first rounds b i (some n) e) [
  | inl (h, f) ↦ absurd (omega (arith, some_index f))
  | inr (h, f) ↦ elim (dec_lt i k) [
    | yes p ↦ next_start_before rounds b (i + 1) n k f (omega arith) m
    | no p ↦ let same : i ≡ k = omega arith in subst (λ j. starts_at b j ≡ false) same h
  ]
]

next_start-none :
    (rounds : ℕ) (b : Bytes) (i k : ℕ)
    → next_start rounds b i ≡ none
    → i ≤ k
    → k < i + rounds
    → starts_at b k ≡ false
next_start-none zero b i k e l m = absurd (omega arith)
next_start-none (suc rounds) b i k e l m = elim (at_first rounds b i none e) [
  | inl (h, f) ↦ cc
  | inr (h, f) ↦ elim (dec_lt i k) [
    | yes p ↦ next_start-none rounds b (i + 1) k f (omega arith) (omega arith)
    | no p ↦ let same : i ≡ k = omega arith in subst (λ j. starts_at b j ≡ false) same h
  ]
]

next_start_found :
    (rounds : ℕ) (b : Bytes) (i n : ℕ)
    → i ≤ n
    → n < i + rounds
    → starts_at b n ≡ true
    → ((k : ℕ) → i ≤ k → k < n → starts_at b k ≡ false)
    → next_start rounds b i ≡ some n
unfolding next_start
next_start_found zero b i n l m s f = absurd (omega arith)
next_start_found (suc rounds) b i n l m s f = elim (dec_lt i n) [
  | yes p ↦ rw (f i (omega arith) p) (
      next_start_found rounds b (i + 1) n (omega arith) (omega arith) s
        (λ k u v. f k (omega arith) v))
  | no p ↦
      let same : n ≡ i = omega arith in
      rw (subst (λ j. starts_at b j ≡ true) same s) (ap some (sym same))
]

next_start_missing :
    (rounds : ℕ) (b : Bytes) (i : ℕ)
    → ((k : ℕ) → i ≤ k → k < i + rounds → starts_at b k ≡ false)
    → next_start rounds b i ≡ none
unfolding next_start
next_start_missing zero b i f = refl
next_start_missing (suc rounds) b i f =
    rw (f i (omega arith) (omega arith))
      (next_start_missing rounds b (i + 1) (λ k u v. f k (omega arith) (omega arith)))

pub find-IsNext : (b : Bytes) (n : ℕ) → find_next_message_start b 1 ≡ some n → IsNext b n
unfolding find_next_message_start
find-IsNext b n e =
    let (l, m, s) = next_start_bounds (length b - 1) b 1 n e in
    (l, omega (arith, l, m), s, λ k u v. next_start_before (length b - 1) b 1 n k e u v)

pub find-HasNoNext : (b : Bytes) → find_next_message_start b 1 ≡ none → HasNoNext b
unfolding find_next_message_start
find-HasNoNext b e k u v = next_start-none (length b - 1) b 1 k e u (omega arith)

pub IsNext-find : (b : Bytes) (n : ℕ) → IsNext b n → find_next_message_start b 1 ≡ some n
unfolding find_next_message_start
IsNext-find b n (l, m, s, f) = next_start_found (length b - 1) b 1 n l (omega arith) s f

pub HasNoNext-find : (b : Bytes) → HasNoNext b → find_next_message_start b 1 ≡ none
unfolding find_next_message_start
HasNoNext-find b f = next_start_missing (length b - 1) b 1 (λ k u v. f k u (omega arith))
