-- ===== src/Ingest/Segments.antt =====
-- src/media/channel_ingest.cpp: the name of the next recording.
use native.Mathlib.Decide.{dec_lt}
use rpi_server.Prelude.{
  ap, ℕ, zero, suc, ◌+◌, ◌%◌, ◌^◌, ◌≤◌, ◌<◌, ◌≡◌, refl, Bool, true, false, Option, none, some,
  if◌then◌else◌, if_elim, arith,
}
use rpi_server.Bytes.{Bytes}
use rpi_server.Ingest.{ChannelIngestConfig, build_segment_path}

-- `is_there` is the file system's `exists`; the index has 32 bits.
module _ (put_time : Bytes → ℕ → Bytes) (join : Bytes → Bytes → Bytes) (is_there : Bytes → Bool)
    (config : ChannelIngestConfig) (utc_ms : ℕ) where
  abbrev pub path : ℕ → Bytes
  path = build_segment_path put_time join config utc_ms

  unfoldable pub location_loop : ℕ → ℕ → Option Bytes
  location_loop zero collision_index = none
  location_loop (suc fuel) collision_index =
      let later = location_loop fuel ((collision_index + 1) % 2 ^ 32) in
      if is_there (path collision_index) then later else some (path collision_index)

  unfoldable pub format_segment_location : ℕ → Option Bytes
  unfolding location_loop
  format_segment_location fuel = location_loop fuel 0

  -- The first name from `n` on that is free.
  abbrev IsFirst : ℕ → Option Bytes → Type 0
  IsFirst n o =
      (i : ℕ) × (o ≡ some (path i))
      × (is_there (path i) ≡ false)
      × ((j : ℕ) → n ≤ j → j < i → is_there (path j) ≡ true)

  after_taken :
      (n free : ℕ) → is_there (path n) ≡ true → is_there (path free) ≡ false → n ≤ free → n < free
  after_taken n free taken h l = elim (dec_lt n free) [
    | yes p ↦ p
    | no p ↦ let e : n ≡ free = omega arith in let f = ap path e in cc
  ]

  location_loop-IsFirst :
      (fuel n free : ℕ)
      → is_there (path free) ≡ false
      → n ≤ free
      → free < 2 ^ 32
      → free < n + fuel
      → IsFirst n (location_loop fuel n)
  unfolding location_loop
  location_loop-IsFirst zero n free h l b f = absurd (omega arith)
  location_loop-IsFirst (suc fuel) n free h l b f =
      if_elim (IsFirst n) (is_there (path n))
        (λ taken.
          let more : n < free = after_taken n free taken h l in
          let small : (n + 1) % 2 ^ 32 ≡ n + 1 = omega arith in
          let (i, e, k, m) =
            location_loop-IsFirst fuel ((n + 1) % 2 ^ 32) free h (omega arith) b (omega arith) in
          (
            i,
            e,
            k,
            λ j a c. elim (dec_lt n j) [
              | yes p ↦ m j (omega arith) c
              | no p ↦ let e : n ≡ j = omega arith in let f = ap path e in cc
            ],
          ))
        (λ open_name. (n, refl, open_name, λ j a c. absurd (omega arith)))

  -- Where some name with an index below 2^32 is free, the loop ends within as many rounds as that
  -- index and one more, and the recording gets the first name that no file has.
  pub format_segment_location-IsFirst :
      (fuel free : ℕ)
      → is_there (path free) ≡ false
      → free < 2 ^ 32
      → free < fuel
      → IsFirst 0 (format_segment_location fuel)
  unfolding format_segment_location
  format_segment_location-IsFirst fuel free h b f =
      location_loop-IsFirst fuel 0 free h (omega arith) b (omega arith)
