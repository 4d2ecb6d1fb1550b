-- ===== src/Ingest/Totals.antt =====
-- src/media/channel_ingest.cpp: the counters over the whole of `ChannelIngest::run`.
use rpi_server.Prelude.{
  subst, ℕ, ◌+◌, ◌^◌, ◌≤◌, ◌<◌, ◌≡◌, ◌⊎◌, inl, inr, refl, false, not, ◌||◌, Option, none, some,
  List, [], ◌∷◌, if_elim, length, arith,
}
use rpi_server.Ingest.{ChannelIngestConfig}
use rpi_server.Ingest.Attempt.{
  IngestState, new_ingest, fetch_add, AttemptResult, stopped, pipeline_error, end_of_stream, Ended,
  returned, thrown, unfinished, run_attempt,
}
use rpi_server.Ingest.Waiting.{Waited, wait_before_reconnect}
use rpi_server.Ingest.Account.{OnReturn, Same, Counts, Told, run_attempt-Told}
use rpi_server.Ingest.Run.{Turn, is_stopped, after_wait, after_attempt, connecting, run}

-- At the head of the loop every attempt so far has failed once and been followed by a reconnect.
abbrev AtHead : IngestState → Type 0
AtHead s =
    (s.connection_attempts ≡ s.reconnects)
    × (s.reconnects ≡ s.pipeline_errors + s.eos_events)
    × (s.first_buffers ≤ s.connection_attempts)

-- Behind the loop: the last attempt may have failed or not, with no reconnect behind it.
abbrev pub Totals : IngestState → Type 0
Totals s =
    (s.reconnects ≤ s.pipeline_errors + s.eos_events)
    × (s.pipeline_errors + s.eos_events ≤ s.connection_attempts)
    × (s.connection_attempts ≤ s.reconnects + 1)
    × (s.first_buffers ≤ s.connection_attempts)

fetch_add_small : (n : ℕ) → n + 1 < 2 ^ 64 → fetch_add n ≡ n + 1
unfolding fetch_add
fetch_add_small n h = omega arith

Same-first_buffers :
    (s t : IngestState)
    → Same s t
    → s.first_buffers + 1 < 2 ^ 64
    → t.first_buffers ≤ s.first_buffers + 1
Same-first_buffers s t h b = ground (arith, fetch_add_small s.first_buffers b)

-- What an attempt leaves, with the failure that it has counted, if any.
abbrev Left : AttemptResult → IngestState → IngestState → Type 0
Left k s t =
    Totals t
    × (t.connection_attempts ≡ s.connection_attempts + 1)
    × (t.reconnects ≡ s.reconnects)
    × (is_stopped k ≡ false → t.reconnects + 1 ≡ t.pipeline_errors + t.eos_events)

Counts-Left :
    (k : AttemptResult) (s t : IngestState)
    → AtHead s
    → s.connection_attempts + 1 < 2 ^ 64
    → Same (connecting s) t
    → Counts k (connecting s) t
    → Left k s t
unfolding connecting is_stopped
Counts-Left stopped s t h b same counts =
    let first = Same-first_buffers (connecting s) t same (omega arith) in
    ground (arith, fetch_add_small s.connection_attempts b)
Counts-Left pipeline_error s t h b same counts =
    let first = Same-first_buffers (connecting s) t same (omega arith) in
    ground (
      arith,
      fetch_add_small s.connection_attempts b,
      fetch_add_small s.pipeline_errors (omega arith),
    )
Counts-Left end_of_stream s t h b same counts =
    let first = Same-first_buffers (connecting s) t same (omega arith) in
    ground
      (arith, fetch_add_small s.connection_attempts b, fetch_add_small s.eos_events (omega arith))

told_failed :
    (r k : AttemptResult) → (r ≡ k) ⊎ (r ≡ stopped) → is_stopped r ≡ false → is_stopped k ≡ false
unfolding is_stopped
told_failed r k (inl e) h = subst (λ k. is_stopped k ≡ false) e h
told_failed stopped k (inr e) h = cc
told_failed pipeline_error k (inr e) h = cc
told_failed end_of_stream k (inr e) h = cc

-- A failed attempt and the wait behind it lead back to the head of the loop.
after_wait-Totals :
    (o : Option Waited) (s t : IngestState) (next : IngestState → Ended IngestState)
    → AtHead s
    → s.connection_attempts + 1 < 2 ^ 64
    → Totals t
    → (t.connection_attempts ≡ s.connection_attempts + 1)
    → (t.reconnects ≡ s.reconnects)
    → (t.reconnects + 1 ≡ t.pipeline_errors + t.eos_events)
    → ((u : IngestState)
        → AtHead u
        → u.connection_attempts ≡ s.connection_attempts + 1
        → OnReturn Totals (next u))
    → OnReturn Totals (after_wait o (record t { reconnects = fetch_add t.reconnects }) next)
unfolding OnReturn after_wait
after_wait-Totals none s t next h b totals c r e f = _
after_wait-Totals (some w) s t next h b totals c r e f =
    let one = fetch_add_small t.reconnects (omega arith) in
    if_elim (OnReturn Totals) w.result (λ up. f _ (ground arith) c) (λ down. ground arith)

after_attempt-Totals :
    (config : ChannelIngestConfig) (turn : Turn) (s : IngestState)
    (e : Ended (AttemptResult × IngestState)) (next : IngestState → Ended IngestState)
    → AtHead s
    → s.connection_attempts + 1 < 2 ^ 64
    → OnReturn (Told config (connecting s)) e
    → ((u : IngestState)
        → AtHead u
        → u.connection_attempts ≡ s.connection_attempts + 1
        → OnReturn Totals (next u))
    → OnReturn Totals (after_attempt config turn e next)
unfolding OnReturn after_attempt
after_attempt-Totals config turn s thrown next h b told f = _
after_attempt-Totals config turn s unfinished next h b told f = _
after_attempt-Totals config turn s (returned (r, t)) next h b (k, same, counts, or) f =
    let (totals, c, same_reconnects, failed) = Counts-Left k s t h b same counts in
    if_elim (OnReturn Totals) (not turn.running_after || is_stopped r) (λ stop. totals)
      λ go.
        after_wait-Totals (wait_before_reconnect turn.waiting config.reconnect_delay_ms) s t next h
          b totals c same_reconnects (failed (told_failed r k or (ground arith))) f

run-AtHead :
    (config : ChannelIngestConfig) (turns : List Turn) (s : IngestState)
    → AtHead s
    → s.connection_attempts + length turns < 2 ^ 64
    → OnReturn Totals (run config turns s)
unfolding OnReturn run
run-AtHead config [] s h b = _
run-AtHead config (t ∷ turns) s h b =
    if_elim (OnReturn Totals) (not t.running) (λ stop. ground arith)
      λ go.
        after_attempt-Totals config t s (run_attempt config t.attempt (connecting s)) _ h
          (omega arith) (run_attempt-Told config (connecting s) t.attempt refl)
          (λ u k c. run-AtHead config turns u k (omega arith))

-- When a new ingest has run, however its attempts went, and for fewer than 2^64 of them: there was
-- at most one failure and one first buffer for each attempt, and each reconnect follows a failure,
-- and at most the last attempt had no reconnect behind it.
pub run-Totals :
    (config : ChannelIngestConfig) (turns : List Turn)
    → length turns < 2 ^ 64
    → OnReturn Totals (run config turns new_ingest)
run-Totals config turns b =
    run-AtHead config turns new_ingest (refl, refl, omega arith) (omega arith)
