-- ===== src/Rtp/Split/AnnexB.antt =====
-- `split_access_unit` on an access unit in Annex B form.
use rpi_server.Prelude.{
  ℕ, zero, suc, ◌≤◌, ◌<◌, ◌≡◌, ◌≢◌, refl, ap, ◌∙◌, Bool, true, false, ◌&&◌, ◌==◌, some, List, [],
  ◌∷◌, ◌++◌, length, length-append, arith, map, take_left, drop_left,
}
use rpi_server.Bytes.{Bytes}
use rpi_server.Rtp.Split.{
  start_code_size, first_start, nal_size, push_nal, annexb_loop, units_from, split_access_unit,
}

-- The bytes 00 00 01 stand at the front.
abbrev pub is_mark : Bytes → Bool
is_mark (a ∷ b ∷ c ∷ s) = a == 0 && (b == 0 && c == 1)
is_mark _ = false

-- The bytes 00 00 01 stand nowhere.
abbrev pub IsFree : Bytes → Type 0
IsFree [] = Unit
IsFree (c ∷ s) = (is_mark (c ∷ s) ≡ false) × IsFree s

abbrev pub EndsWell : Bytes → Type 0
EndsWell [] = Unit
EndsWell (c ∷ []) = c ≢ 0
EndsWell (c ∷ d ∷ s) = EndsWell (d ∷ s)

-- A NAL unit with its start code: 00 00 00 01 where the flag is set, else 00 00 01.
abbrev pub Coded : Type 0
Coded = Bool × Bytes

abbrev pub annexb : List Coded → Bytes
annexb [] = []
annexb ((true, nal) ∷ units) = 0 ∷ 0 ∷ 0 ∷ 1 ∷ (nal ++ annexb units)
annexb ((false, nal) ∷ units) = 0 ∷ 0 ∷ 1 ∷ (nal ++ annexb units)

abbrev pub nals_of : List Coded → List Bytes
nals_of units = map (λ (u : Coded). u.1) units

-- A zero at the end of a NAL unit would read as the first byte of the start code behind it.
abbrev pub IsBefore : Bytes → List Coded → Type 0
IsBefore nal [] = Unit
IsBefore nal ((true, next) ∷ units) = Unit
IsBefore nal ((false, next) ∷ units) = EndsWell nal

-- What Annex B can carry: NAL units that are not empty, with no 00 00 01 in them, and with no zero
-- at the end in front of a start code of three bytes.
abbrev pub IsPlain : List Coded → Type 0
IsPlain [] = Unit
IsPlain ((b, nal) ∷ units) = (0 < length nal) × (IsFree nal × (IsBefore nal units × IsPlain units))

start_code_four : (t : Bytes) → start_code_size (0 ∷ 0 ∷ 0 ∷ 1 ∷ t) ≡ 4
unfolding start_code_size
start_code_four t = ground arith

pub start_code_three : (t : Bytes) → start_code_size (0 ∷ 0 ∷ 1 ∷ t) ≡ 3
unfolding start_code_size
start_code_three t = ground arith

-- In a NAL unit no start code begins, whatever comes behind it.
no_start_code :
    (c : ℕ) (s : Bytes) (units : List Coded)
    → IsFree (c ∷ s)
    → IsBefore (c ∷ s) units
    → start_code_size (c ∷ (s ++ annexb units)) ≡ 0
unfolding start_code_size
no_start_code c [] [] h b = ground arith
no_start_code c (c1 ∷ []) [] h b = ground arith
no_start_code c (c1 ∷ c2 ∷ []) [] h b = ground arith
no_start_code c [] ((true, n) ∷ units) h b = ground arith
no_start_code c (c1 ∷ []) ((true, n) ∷ units) h b = ground arith
no_start_code c (c1 ∷ c2 ∷ []) ((true, n) ∷ units) h b = ground arith
no_start_code c [] ((false, n) ∷ units) h b = ground arith
no_start_code c (c1 ∷ []) ((false, n) ∷ units) h b = ground arith
no_start_code c (c1 ∷ c2 ∷ []) ((false, n) ∷ units) h b = ground arith
no_start_code c (c1 ∷ c2 ∷ c3 ∷ s) units h b = ground arith

IsBefore-cons : (c : ℕ) (s : Bytes) (units : List Coded) → IsBefore (c ∷ s) units → IsBefore s units
IsBefore-cons c s [] b = tt
IsBefore-cons c s ((true, n) ∷ units) b = tt
IsBefore-cons c [] ((false, n) ∷ units) b = tt
IsBefore-cons c (d ∷ s) ((false, n) ∷ units) b = b

nal_size-annexb :
    (nal : Bytes) (units : List Coded)
    → IsFree nal
    → IsBefore nal units
    → nal_size (nal ++ annexb units) ≡ length nal
unfolding nal_size
nal_size-annexb [] [] n b = refl
nal_size-annexb [] ((true, m) ∷ units) n b = rw (start_code_four (m ++ annexb units)) refl
nal_size-annexb [] ((false, m) ∷ units) n b = rw (start_code_three (m ++ annexb units)) refl
nal_size-annexb (c ∷ s) units n b =
    rw (no_start_code c s units n b)
      (ap suc (nal_size-annexb s units n.1 (IsBefore-cons c s units b)))

push_nal-cons :
    (nal : Bytes) (later : List Bytes) → 0 < length nal → push_nal nal later ≡ nal ∷ later
unfolding push_nal
push_nal-cons [] later h = absurd (omega arith)
push_nal-cons (c ∷ nal) later h = refl

annexb_loop-annexb :
    (fuel : ℕ) (units : List Coded)
    → length (annexb units) ≤ fuel
    → IsPlain units
    → annexb_loop fuel (annexb units) ≡ nals_of units
unfolding annexb_loop
annexb_loop-annexb zero [] h p = refl
annexb_loop-annexb zero ((true, nal) ∷ units) h p = absurd (omega arith)
annexb_loop-annexb zero ((false, nal) ∷ units) h p = absurd (omega arith)
annexb_loop-annexb (suc fuel) [] h p = refl
annexb_loop-annexb (suc fuel) ((true, nal) ∷ units) h (l, (f, (b, p))) =
    rw
      (
        start_code_four (nal ++ annexb units),
        nal_size-annexb nal units f b,
        take_left nal (annexb units),
        drop_left nal (annexb units),
        annexb_loop-annexb fuel units (omega (arith, length-append nal (annexb units))) p,
      )
      (push_nal-cons nal (nals_of units) l)
annexb_loop-annexb (suc fuel) ((false, nal) ∷ units) h (l, (f, (b, p))) =
    rw
      (
        start_code_three (nal ++ annexb units),
        nal_size-annexb nal units f b,
        take_left nal (annexb units),
        drop_left nal (annexb units),
        annexb_loop-annexb fuel units (omega (arith, length-append nal (annexb units))) p,
      )
      (push_nal-cons nal (nals_of units) l)

first_start-annexb :
    (u : Coded) (units : List Coded) → first_start (annexb (u ∷ units)) ≡ some (annexb (u ∷ units))
unfolding first_start
first_start-annexb (true, nal) units = rw (start_code_four (nal ++ annexb units)) refl
first_start-annexb (false, nal) units = rw (start_code_three (nal ++ annexb units)) refl

pub split_of_start :
    (access_unit s : Bytes)
    → first_start access_unit ≡ some s
    → split_access_unit access_unit ≡ annexb_loop (length s) s
unfolding split_access_unit units_from
split_of_start access_unit s h = rw h refl

-- An access unit that is written with a start code of three or of four bytes before each NAL unit
-- is split into exactly those units, where each is not empty and has no 00 00 01 in it, and none
-- ends in a zero in front of a start code of three bytes.
pub split-annexb :
    (units : List Coded) → IsPlain units → split_access_unit (annexb units) ≡ nals_of units
unfolding split_access_unit
split-annexb [] p = refl
split-annexb (u ∷ units) p =
    split_of_start (annexb (u ∷ units)) (annexb (u ∷ units)) (first_start-annexb u units)
    ∙ annexb_loop-annexb (length (annexb (u ∷ units))) (u ∷ units) (omega arith) p
