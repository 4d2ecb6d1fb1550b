-- ===== src/Bytes/Find.antt =====
-- Laws of `find` and `is_prefix`.
use rpi_server.Prelude.{
  ℕ, zero, suc, ◌+◌, ◌≤◌, ◌<◌, ◌≡◌, refl, true, false, none, some, [], ◌∷◌, ◌++◌, length, drop,
  arith,
}
use rpi_server.Bytes.{Bytes, is_prefix, find}

pub is_prefix_split : (p s : Bytes) → is_prefix p s ≡ true → s ≡ p ++ drop (length p) s
unfolding is_prefix
is_prefix_split [] s h = refl
is_prefix_split (x ∷ p) [] h = cc
is_prefix_split (x ∷ p) (y ∷ s) h = ground (arith, is_prefix_split p s)

pub is_prefix-length : (p s : Bytes) → is_prefix p s ≡ true → length p ≤ length s
unfolding is_prefix
is_prefix-length [] s h = omega arith
is_prefix-length (x ∷ p) [] h = cc
is_prefix-length (x ∷ p) (y ∷ s) h = ground (arith, is_prefix-length p s)

pub is_prefix-append : (p s t : Bytes) → is_prefix p s ≡ true → is_prefix p (s ++ t) ≡ true
unfolding is_prefix
is_prefix-append [] s t h = refl
is_prefix-append (x ∷ p) [] t h = cc
is_prefix-append (x ∷ p) (y ∷ s) t h = ground (arith, is_prefix-append p s t)

pub is_prefix_self : (p t : Bytes) → is_prefix p (p ++ t) ≡ true
unfolding is_prefix
is_prefix_self [] t = refl
is_prefix_self (x ∷ p) t = ground (arith, is_prefix_self p t)

-- A text that is no shorter than `p` and that `p` does not begin, `p` begins with no ending.
pub is_prefix-append_false :
    (p s t : Bytes) → length p ≤ length s → is_prefix p s ≡ false → is_prefix p (s ++ t) ≡ false
unfolding is_prefix
is_prefix-append_false [] s t l h = cc
is_prefix-append_false (x ∷ p) [] t l h = absurd (omega arith)
is_prefix-append_false (x ∷ p) (y ∷ s) t l h = ground (arith, is_prefix-append_false p s t)

-- What `find` reports: the needle stands there, in full.
pub find_stands :
    (n s : Bytes) (i : ℕ)
    → find n s ≡ some i
    → (is_prefix n (drop i s) ≡ true) × (i + length n ≤ length s)
unfolding find
find_stands n [] zero h = ground (arith, is_prefix-length n [])
find_stands n [] (suc i) h = absurd (ground arith)
find_stands n (c ∷ s) zero h = ground (arith, is_prefix-length n (c ∷ s))
find_stands n (c ∷ s) (suc i) h = ground (arith, find_stands n s i)

-- It is the first place where the needle stands.
pub find_first_place :
    (n s : Bytes) (i j : ℕ) → find n s ≡ some i → j < i → is_prefix n (drop j s) ≡ false
unfolding find
find_first_place n [] i j h l = absurd (ground arith)
find_first_place n (c ∷ s) zero j h l = absurd (omega arith)
find_first_place n (c ∷ s) (suc i) zero h l = ground arith
find_first_place n (c ∷ s) (suc i) (suc j) h l = ground (arith, find_first_place n s i j)

-- Text behind does not move the first place.
pub find-append : (n s t : Bytes) (i : ℕ) → find n s ≡ some i → find n (s ++ t) ≡ some i
unfolding find
find-append n [] [] zero h = h
find-append n [] (c ∷ t) zero h = ground (arith, is_prefix-append n [] (c ∷ t))
find-append n [] t (suc i) h = absurd (ground arith)
find-append n (c ∷ s) t zero h = ground (arith, is_prefix-append n (c ∷ s) t)
find-append n (c ∷ s) t (suc i) h =
    ground (arith, find_stands n s i, is_prefix-append_false n (c ∷ s) t, find-append n s t i)

-- `find` fails exactly where the needle stands nowhere.
pub find-none : (n s : Bytes) (j : ℕ) → find n s ≡ none → is_prefix n (drop j s) ≡ false
unfolding find
find-none n [] zero h = ground arith
find-none n [] (suc j) h = ground arith
find-none n (c ∷ s) zero h = ground arith
find-none n (c ∷ s) (suc j) h = ground (arith, find-none n s j)
