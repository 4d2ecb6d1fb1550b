-- ===== src/Media/Clock.antt =====
-- RTP timestamps as a clock of 90 kHz.
use rpi_server.Prelude.{ℕ, ◌+◌, ◌-◌, ◌*◌, ◌/◌, ◌%◌, ◌^◌, ◌≡◌, ◌≤◌, refl, ltb, if_elim, arith}
use rpi_server.Prelude.Int.{ℤ, pos}
use rpi_server.FrameQueue.{OwnedLiveFrame}
use rpi_server.Media.{ClientMediaState, ticks, since, first_pts, frame_timestamp}

-- The longest span whose product with 90000 fits 63 bits: about 28 hours and 28 minutes.
abbrev pub longest_ns : ℕ
longest_ns = 102481911520608

ticks-exact : (ns : ℕ) → ns ≤ longest_ns → ticks ns ≡ ns * 9 / 100000 % 2 ^ 32
unfolding ticks
ticks-exact ns h =
    if_elim (λ (t : ℕ). t ≡ ns * 9 / 100000 % 2 ^ 32) (ltb (ns * 90000 % 2 ^ 64) (2 ^ 63))
      (λ small. omega (arith, h)) (λ big. absurd (ground (arith, h)))

first_known :
    (media : ClientMediaState) (f : ℕ) (pts : ℤ)
    → media.first_pts_ns ≡ pos f
    → first_pts media pts ≡ pos f
unfolding first_pts
first_known media f pts e =
    rw e (if_elim (λ (n : ℤ). n ≡ pos f) (ltb (f + 0) 0) (λ h. absurd (ground arith)) (λ h. refl))

-- The branch for a frame with a presentation time.
abbrev timed : ClientMediaState → ℤ → ℤ → ClientMediaState
timed media pts first = record media {
  first_pts_ns = first;
  last_timestamp = (media.timestamp_origin + ticks (since pts first)) % 2 ^ 32;
}

branch :
    (media : ClientMediaState) (frame : OwnedLiveFrame) (t : ℕ)
    → frame.pts_ns ≡ pos t
    → frame_timestamp media frame ≡ timed media (pos t) (first_pts media (pos t))
unfolding frame_timestamp
branch media frame t g = rw g (
    if_elim (λ (r : ClientMediaState). r ≡ timed media (pos t) (first_pts media (pos t)))
      (ltb (t + 0) 0) (λ h. absurd (ground arith)) (λ h. refl))

since-pos : (t f : ℕ) → since (pos t) (pos f) ≡ t - f
unfolding since
since-pos t f = omega arith

-- A frame with presentation time `t`, on a client whose first frame had time `f`, gets the
-- client's origin plus the ticks of 90 kHz from `f` to `t`, modulo 2 ^ 32, as long as those times
-- are at most 102481911520608 nanoseconds apart; the first time stays.
pub timestamp-exact :
    (media : ClientMediaState) (frame : OwnedLiveFrame) (f t : ℕ)
    → media.first_pts_ns ≡ pos f
    → frame.pts_ns ≡ pos t
    → t - f ≤ longest_ns
    → ((frame_timestamp media frame).last_timestamp
        ≡ (media.timestamp_origin + (t - f) * 9 / 100000) % 2 ^ 32)
      × ((frame_timestamp media frame).first_pts_ns ≡ pos f)
timestamp-exact media frame f t e g h =
    rw (branch media frame t g, first_known media f (pos t) e, since-pos t f, ticks-exact (t - f) h)
      (omega arith, refl)
