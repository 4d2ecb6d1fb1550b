-- ===== src/Rtp/Bits.antt =====
-- The header bytes of fragments, checked at every byte by evaluation.
use Prim.Native.Nat.{bit_and, bit_or}
use rpi_server.Prelude.{
  ℕ, zero, suc, ◌+◌, ◌*◌, ◌/◌, ◌%◌, ◌<◌, ◌≡◌, refl, Bool, true, false, ◌==◌, ==_iff, arith,
  if◌then◌else◌,
}
use rpi_server.Rtp.{fu_byte}

-- The test succeeds at every number below the bound.
holds_below : (ℕ → Bool) → ℕ → Bool
holds_below test zero = true
holds_below test (suc bound) = if test bound then holds_below test bound else false

use_table :
    (test : ℕ → Bool) (bound n : ℕ) → n < bound → holds_below test bound ≡ true → test n ≡ true
unfolding holds_below
use_table test zero n below table = absurd (omega arith)
use_table test (suc bound) n below table = ground (arith, use_table test bound n)

abbrev as_bit : Bool → ℕ
as_bit true = 1
as_bit false = 0

-- An FU header: the start bit, the end bit and a type of at most six bits.
fu_ok : Bool → Bool → ℕ → Bool
unfolding fu_byte
fu_ok first end t = fu_byte t first end == (t + 128 * as_bit first + 64 * as_bit end)

fu_table : (first end : Bool) → holds_below (fu_ok first end) 64 ≡ true
unfolding holds_below fu_ok
fu_table true true = refl
fu_table true false = refl
fu_table false true = refl
fu_table false false = refl

pub fu_byte_sum :
    (first end : Bool) (t : ℕ)
    → t < 64
    → fu_byte t first end ≡ t + 128 * (if first then 1 else 0) + 64 * (if end then 1 else 0)
unfolding fu_ok
fu_byte_sum true true t h = (==_iff _ _).0 (use_table (fu_ok true true) 64 t h (fu_table true true))
fu_byte_sum true false t h =
    (==_iff _ _).0 (use_table (fu_ok true false) 64 t h (fu_table true false))
fu_byte_sum false true t h =
    (==_iff _ _).0 (use_table (fu_ok false true) 64 t h (fu_table false true))
fu_byte_sum false false t h =
    (==_iff _ _).0 (use_table (fu_ok false false) 64 t h (fu_table false false))

and_1f_table : holds_below (λ h. bit_and h 0x1f == h % 32) 256 ≡ true
unfolding holds_below
and_1f_table = refl

pub and_1f : (h : ℕ) → h < 256 → bit_and h 0x1f ≡ h % 32
and_1f h l = (==_iff _ _).0 (use_table _ 256 h l and_1f_table)

indicator_table : holds_below (λ h. bit_or (bit_and h 0xe0) 28 == h / 32 * 32 + 28) 256 ≡ true
unfolding holds_below
indicator_table = refl

pub fu_indicator : (h : ℕ) → h < 256 → bit_or (bit_and h 0xe0) 28 ≡ h / 32 * 32 + 28
fu_indicator h l = (==_iff _ _).0 (use_table _ 256 h l indicator_table)

and_3f_table : holds_below (λ h. bit_and (h / 2) 0x3f == h / 2 % 64) 256 ≡ true
unfolding holds_below
and_3f_table = refl

pub and_3f : (h : ℕ) → h < 256 → bit_and (h / 2) 0x3f ≡ h / 2 % 64
and_3f h l = (==_iff _ _).0 (use_table _ 256 h l and_3f_table)

header0_table :
    holds_below (λ h. bit_or (bit_and h 0x81) (49 * 2) == h / 128 * 128 + 98 + h % 2) 256 ≡ true
unfolding holds_below
header0_table = refl

pub fu_header0 : (h : ℕ) → h < 256 → bit_or (bit_and h 0x81) (49 * 2) ≡ h / 128 * 128 + 98 + h % 2
fu_header0 h l = (==_iff _ _).0 (use_table _ 256 h l header0_table)
