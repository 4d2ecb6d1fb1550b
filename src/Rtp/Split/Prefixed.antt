-- ===== src/Rtp/Split/Prefixed.antt =====
-- `split_access_unit` on an access unit in which each NAL unit follows its length in four bytes.
use rpi_server.Prelude.{
  ap, ℕ, zero, suc, ◌+◌, ◌/◌, ◌%◌, ◌^◌, ◌≤◌, ◌<◌, ◌≡◌, refl, ◌∙◌, none, some, List, [], ◌∷◌, ◌++◌,
  append-nil, append_assoc, ltb, if_elim, length, length-append, take, drop, arith, All, take_left,
  take_all, drop_all, drop_left,
}
use rpi_server.Bytes.{Bytes}
use rpi_server.Rtp.{append_u32}
use rpi_server.Rtp.Split.AnnexB.{start_code_three, split_of_start}
use rpi_server.Rtp.Split.{
  read_u32, start_code_size, first_start, nal_size, push_nal, annexb_loop, prefixed_loop,
  finish_units, units_from, split_access_unit,
}

-- A NAL unit that a length of four bytes can stand before.
abbrev pub HasLength : Bytes → Type 0
HasLength nal = (0 < length nal) × (length nal < 2 ^ 32)

abbrev pub prefixed : List Bytes → Bytes
prefixed [] = []
prefixed (nal ∷ nals) = append_u32 [] (length nal) ++ (nal ++ prefixed nals)

read_u32-append_u32 : (n : ℕ) (s : Bytes) → n < 2 ^ 32 → read_u32 (append_u32 [] n ++ s) ≡ n
unfolding read_u32 append_u32
read_u32-append_u32 n s h = omega arith

prefixed_loop_more :
    (fuel : ℕ) (s : Bytes) (units : List Bytes) (size : ℕ)
    → read_u32 s ≡ size
    → 0 < size
    → size + 4 ≤ length s
    → prefixed_loop (suc fuel) s units
      ≡ prefixed_loop fuel (drop size (drop 4 s)) (units ++ (take size (drop 4 s) ∷ []))
unfolding prefixed_loop
prefixed_loop_more fuel s units size e p h = rw e (ground arith)

prefixed_loop-prefixed :
    (fuel : ℕ) (nals : List Bytes) (tail : Bytes) (units : List Bytes)
    → length (prefixed nals ++ tail) ≤ fuel
    → All HasLength nals
    → length tail < 4
    → prefixed_loop fuel (prefixed nals ++ tail) units ≡ (units ++ nals, tail)
unfolding prefixed_loop append_u32
prefixed_loop-prefixed zero [] [] units h p t = rw (append-nil units) refl
prefixed_loop-prefixed zero [] (c ∷ tail) units h p t = absurd (omega arith)
prefixed_loop-prefixed (suc fuel) [] tail units h p t = rw (append-nil units) (
    if_elim (λ (r : List Bytes × Bytes). r ≡ (units, tail)) (ltb (length tail) 4) (λ e. refl)
      (λ e. absurd (ground arith)))
prefixed_loop-prefixed zero (nal ∷ nals) tail units h p t = absurd (omega arith)
prefixed_loop-prefixed (suc fuel) (nal ∷ nals) tail units h p t =
    prefixed_loop_more fuel (append_u32 [] (length nal) ++ ((nal ++ prefixed nals) ++ tail)) units
      (length nal) (read_u32-append_u32 (length nal) ((nal ++ prefixed nals) ++ tail) p.0.1) p.0.0
      (omega (arith, length-append (nal ++ prefixed nals) tail, length-append nal (prefixed nals)))
    ∙ rw
        (
          append_assoc nal (prefixed nals) tail,
          take_left nal (prefixed nals ++ tail),
          drop_left nal (prefixed nals ++ tail),
        )
        (prefixed_loop-prefixed fuel nals tail (units ++ (nal ∷ []))
            (omega (
              arith,
              h,
              length-append (nal ++ prefixed nals) tail,
              length-append nal (prefixed nals),
              length-append (prefixed nals) tail,
            ))
            p.1 t
          ∙ rw (append_assoc units (nal ∷ []) nals) refl)

-- What `split_access_unit` makes of units and the bytes behind them.
abbrev pub with_tail : Bytes → List Bytes → Bytes → List Bytes
with_tail access_unit nals [] = nals
with_tail access_unit nals (d ∷ tail) = nals ++ (access_unit ∷ [])

pub split_of_none :
    (access_unit : Bytes)
    → first_start access_unit ≡ none
    → split_access_unit access_unit
      ≡ finish_units access_unit (prefixed_loop (length access_unit) access_unit [])
unfolding split_access_unit units_from
split_of_none access_unit h = rw h refl

finish_units-with_tail :
    (c : ℕ) (s : Bytes) (nal : Bytes) (nals : List Bytes) (tail : Bytes)
    → finish_units (c ∷ s) (nal ∷ nals, tail) ≡ with_tail (c ∷ s) (nal ∷ nals) tail
unfolding finish_units
finish_units-with_tail c s nal nals [] = refl
finish_units-with_tail c s nal nals (d ∷ tail) = refl

-- An access unit in which no start code occurs and which holds one NAL unit or more, each not
-- empty and behind its length in four bytes, and fewer than four bytes after them, is split into
-- exactly those units where nothing follows them, and into those units and the whole access unit
-- as one more where something does.
pub split-prefixed :
    (nal : Bytes) (nals : List Bytes) (tail : Bytes)
    → All HasLength (nal ∷ nals)
    → length tail < 4
    → first_start (prefixed (nal ∷ nals) ++ tail) ≡ none
    → split_access_unit (prefixed (nal ∷ nals) ++ tail)
      ≡ with_tail (prefixed (nal ∷ nals) ++ tail) (nal ∷ nals) tail
unfolding append_u32
split-prefixed nal nals tail p t h =
    split_of_none (prefixed (nal ∷ nals) ++ tail) h
    ∙ rw
        (prefixed_loop-prefixed (length (prefixed (nal ∷ nals) ++ tail)) (nal ∷ nals) tail []
          (omega arith) p t)
        (finish_units-with_tail _ _ nal nals tail)

low_byte :
    (n : ℕ)
    → 256 ≤ n
    → n < 512
    → (n / 2 ^ 24 % 256 ≡ 0) × (n / 2 ^ 16 % 256 ≡ 0) × (n / 2 ^ 8 % 256 ≡ 1)
low_byte n l u = (omega arith, omega arith, omega arith)

first_start_three : (t : Bytes) → first_start (0 ∷ 0 ∷ 1 ∷ t) ≡ some (0 ∷ 0 ∷ 1 ∷ t)
unfolding first_start
first_start_three t = rw (start_code_three t) refl

-- No start code begins in the unit.
abbrev pub NoStart : Bytes → Type 0
NoStart [] = Unit
NoStart (c ∷ s) = (start_code_size (c ∷ s) ≡ 0) × NoStart s

nal_size_all : (s : Bytes) → NoStart s → nal_size s ≡ length s
unfolding nal_size
nal_size_all [] n = refl
nal_size_all (c ∷ s) n = rw (n.0) (ap suc (nal_size_all s n.1))

-- The last NAL unit: a start code and a stretch in which no further one begins.
annexb_loop_last :
    (fuel k c d : ℕ) (s body : Bytes)
    → start_code_size (c ∷ s) ≡ suc k
    → drop k s ≡ d ∷ body
    → NoStart (d ∷ body)
    → annexb_loop (suc (suc fuel)) (c ∷ s) ≡ (d ∷ body) ∷ []
unfolding annexb_loop push_nal
annexb_loop_last fuel k c d s body e f n =
    rw
      (
        e,
        f,
        nal_size_all (d ∷ body) n,
        take_all (length (d ∷ body)) (d ∷ body) (omega arith),
        drop_all (length (d ∷ body)) (d ∷ body) (omega arith),
      )
      (ground arith)

-- A NAL unit of 256 to 511 bytes behind its length in four bytes comes back with the low byte of
-- the length in front of it, where no start code begins in the unit and that byte: the length is
-- read as a start code.
pub split-length_as_start :
    (nal : Bytes)
    → 256 ≤ length nal
    → length nal < 512
    → NoStart (length nal % 256 ∷ nal)
    → split_access_unit (prefixed (nal ∷ [])) ≡ (length nal % 256 ∷ nal) ∷ []
unfolding append_u32
split-length_as_start nal l u n =
    rw
      (
        append-nil nal,
        (low_byte (length nal) l u).0,
        (low_byte (length nal) l u).1,
        (low_byte (length nal) l u).2,
      )
      (split_of_start _ _ (first_start_three (length nal % 256 ∷ nal))
        ∙ annexb_loop_last (suc (suc (length nal))) 2 0 (length nal % 256)
            (0 ∷ 1 ∷ length nal % 256 ∷ nal) nal (start_code_three (length nal % 256 ∷ nal)) refl n)
