-- ===== src/Ingest/Waiting.antt =====
-- src/media/channel_ingest.cpp: `wait_before_reconnect`. The loads of the running flag are a
-- function of how many there were before.
use rpi_server.Prelude.{
  ℕ, zero, suc, ◌+◌, ◌-◌, ◌*◌, ◌≤◌, ◌<◌, ◌≡◌, ◌⊎◌, refl, Bool, true, false, ◌&&◌, Option, none,
  some, ltb, min, if◌then◌else◌, if_elim, if_elim, arith,
}
use native.Mathlib.Decide.{dec_lt}
use rpi_server.Prelude.Int.{ℤ, pos_part}

-- How often it slept, the milliseconds it slept in all, and the last load, which it returns.
pub record Waited : Type 0 where
  pub sleeps : ℕ
  pub slept_ms : ℕ
  pub result : Bool

unfoldable pub wait_loop : (ℕ → Bool) → ℕ → ℕ → ℕ → ℕ → Option Waited
wait_loop running zero remaining_ms loads slept = none
wait_loop running (suc fuel) remaining_ms loads slept =
    let wait_ms = min remaining_ms 100 in
    let later = wait_loop running fuel (remaining_ms - wait_ms) (suc loads) (slept + wait_ms) in
    if running loads && ltb 0 remaining_ms
    then later
    else some (record { sleeps = loads; slept_ms = slept; result = running (suc loads) })

-- A round takes a millisecond off at least.
unfoldable pub wait_before_reconnect : (ℕ → Bool) → ℤ → Option Waited
unfolding wait_loop
wait_before_reconnect running reconnect_delay_ms =
    wait_loop running (suc (pos_part reconnect_delay_ms)) (pos_part reconnect_delay_ms) 0 0

-- What a wait that has slept `slept` milliseconds at load `loads` comes to.
abbrev pub Ends : (ℕ → Bool) → ℕ → ℕ → ℕ → Waited → Type 0
Ends running remaining_ms loads slept w =
    (w.result ≡ running (suc w.sleeps))
    × ((running w.sleeps ≡ false) ⊎ (w.slept_ms ≡ slept + remaining_ms))
    × (w.slept_ms ≤ slept + remaining_ms)
    × (w.slept_ms + 100 * loads ≤ slept + 100 * w.sleeps)
    × ((i : ℕ) → loads ≤ i → running i ≡ false → w.sleeps ≤ i)

Ends-step :
    (running : ℕ → Bool) (remaining_ms loads slept : ℕ) (w : Waited)
    → running loads ≡ true
    → Ends running
        (remaining_ms - min remaining_ms 100)
        (suc loads)
        (slept + min remaining_ms 100)
        w
    → Ends running remaining_ms loads slept w
Ends-step running remaining_ms loads slept w up (r, c, b, s, f) = (
  r,
  ground arith,
  omega arith,
  omega arith,
  λ i l n. elim (dec_lt loads i) [ yes p ↦ f i p n | no p ↦ let e : loads ≡ i = omega arith in cc ],
)

Ends-over :
    (running : ℕ → Bool) (remaining_ms loads slept : ℕ)
    → (running loads && ltb 0 remaining_ms) ≡ false
    → Ends running remaining_ms loads slept
        (record { sleeps = loads; slept_ms = slept; result = running (suc loads) })
Ends-over running remaining_ms loads slept h =
    (refl, ground arith, omega arith, omega arith, λ i l n. l)

abbrev pub Finds : (ℕ → Bool) → ℕ → ℕ → ℕ → Option Waited → Type 0
Finds running remaining_ms loads slept o =
    (w : Waited) × (o ≡ some w) × Ends running remaining_ms loads slept w

pub wait_loop-Finds :
    (running : ℕ → Bool) (fuel remaining_ms loads slept : ℕ)
    → remaining_ms < fuel
    → Finds running remaining_ms loads slept (wait_loop running fuel remaining_ms loads slept)
unfolding wait_loop
wait_loop-Finds running zero remaining_ms loads slept h = absurd (omega arith)
wait_loop-Finds running (suc fuel) remaining_ms loads slept h =
    if_elim (Finds running remaining_ms loads slept) (running loads && ltb 0 remaining_ms)
      (λ more.
        let wait_ms = min remaining_ms 100 in
        let (w, e, k) =
          wait_loop-Finds running fuel (remaining_ms - wait_ms) (suc loads) (slept + wait_ms)
            (ground arith) in
        (w, e, Ends-step running remaining_ms loads slept w (ground arith) k))
      (λ over. (_, refl, Ends-over running remaining_ms loads slept over))

-- The wait before a reconnect ends, whatever the running flag does. It sleeps for the delay, or
-- stops where it finds the flag down, never sleeps longer, and once the flag is down at load `i`
-- it sleeps for `i` steps of at most 100 ms in all. It returns the load behind its last one.
pub wait_before_reconnect-Ends :
    (running : ℕ → Bool) (delay : ℤ)
    → (w : Waited) × (wait_before_reconnect running delay ≡ some w)
      × (w.result ≡ running (suc w.sleeps))
      × ((running w.sleeps ≡ false) ⊎ (w.slept_ms ≡ pos_part delay))
      × (w.slept_ms ≤ pos_part delay)
      × ((i : ℕ) → running i ≡ false → (w.sleeps ≤ i) × (w.slept_ms ≤ 100 * i))
unfolding wait_before_reconnect
wait_before_reconnect-Ends running delay =
    let (w, e, (r, c, b, s, f)) =
      wait_loop-Finds running (suc (pos_part delay)) (pos_part delay) 0 0 (omega arith) in
    (
      w,
      e,
      r,
      ground arith,
      omega arith,
      λ i n. (f i (omega arith) n, omega (arith, f i (omega arith) n)),
    )
