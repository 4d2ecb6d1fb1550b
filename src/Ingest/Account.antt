-- ===== src/Ingest/Account.antt =====
-- src/media/channel_ingest.cpp: what the counters of an ingest say of its attempts.
use rpi_server.Prelude.{
  ℕ, ◌+◌, ◌≡◌, ◌⊎◌, refl, Bool, true, false, not, ◌&&◌, ◌||◌, Option, none, some, List, [], ◌∷◌,
  leb, if◌then◌else◌, if_elim, inl, inr, arith,
}
use rpi_server.Prelude.Int.{pos_part}
use rpi_server.Bytes.{Bytes}
use rpi_server.Ingest.{ChannelIngestConfig}
use rpi_server.Ingest.Attempt.{
  IndexCall, IngestState, fetch_add, Callback, ingest_buffer, rtp_buffer, live_handoff,
  live_queue_overrun, on_ingest_buffer, on_callback, on_callbacks, BusMessage, silent,
  error_message, eos_message, element_message, index_call, call_index, handle_element_message,
  AttemptResult, stopped, pipeline_error, end_of_stream, Ended, returned, thrown, unfinished, Round,
  after_element, on_message, ingest_round, attempt_loop, drain_message, drain_loop, drained_element,
  Attempt, drained, finish, told, started, run_attempt,
}

-- What holds of whatever is returned.
unfoldable pub OnReturn : {A : Type 0} → (A → Type 0) → Ended A → Type 0
OnReturn P (returned a) = P a
OnReturn P thrown = Unit
OnReturn P unfinished = Unit

-- The counters of `t` against those of `s`, at which the attempt began; `seen` are its two flags.
abbrev pub Same : IngestState → IngestState → Type 0
Same s t =
    (t.connection_attempts ≡ s.connection_attempts)
    × (t.reconnects ≡ s.reconnects)
    × (t.first_buffer_seen ≡ t.attempt_first_buffer_seen)
    × (t.first_buffers
        ≡ (if t.attempt_first_buffer_seen then fetch_add s.first_buffers else s.first_buffers))

-- A result, with the one counter that it stands for counted up.
abbrev pub Counts : AttemptResult → IngestState → IngestState → Type 0
Counts stopped s t = (t.pipeline_errors ≡ s.pipeline_errors) × (t.eos_events ≡ s.eos_events)
Counts pipeline_error s t =
    (t.pipeline_errors ≡ fetch_add s.pipeline_errors) × (t.eos_events ≡ s.eos_events)
Counts end_of_stream s t =
    (t.pipeline_errors ≡ s.pipeline_errors) × (t.eos_events ≡ fetch_add s.eos_events)

abbrev Since : IngestState → IngestState → Type 0
Since s t = Same s t × Counts stopped s t

abbrev Counted : IngestState → AttemptResult × IngestState → Type 0
Counted s (result, t) = Same s t × Counts result s t

on_ingest_buffer-Same : (s t : IngestState) → Same s t → Same s (on_ingest_buffer t)
unfolding on_ingest_buffer
on_ingest_buffer-Same s t h = ground arith

on_callback-Since : (c : Callback) (s t : IngestState) → Since s t → Since s (on_callback c t)
unfolding on_callback on_ingest_buffer
on_callback-Since ingest_buffer s t h = ground arith
on_callback-Since rtp_buffer s t h = h
on_callback-Since live_handoff s t h = h
on_callback-Since live_queue_overrun s t h = h

on_callbacks-Since :
    (callbacks : List Callback) (s t : IngestState) → Since s t → Since s (on_callbacks callbacks t)
unfolding on_callbacks
on_callbacks-Since [] s t h = h
on_callbacks-Since (c ∷ callbacks) s t h =
    on_callbacks-Since callbacks s (on_callback c t) (on_callback-Since c s t h)

call_index-Since :
    (o : Option IndexCall) (throws : Bool) (s t u : IngestState)
    → Since s t
    → call_index o throws t ≡ some u
    → Since s u
unfolding call_index
call_index-Since none throws s t u h e = ground arith
call_index-Since (some call) throws s t u h e = ground arith

handle_element_message-Since :
    (config : ChannelIngestConfig) (said : Option (Bytes × Bytes)) (throws : Bool)
    (s t u : IngestState)
    → Since s t
    → handle_element_message config said throws t ≡ some u
    → Since s u
unfolding handle_element_message
handle_element_message-Since config none throws s t u h e = ground arith
handle_element_message-Since config (some (name, location)) throws s t u h e =
    call_index-Since (index_call config name location) throws s t u h e

module _ (config : ChannelIngestConfig) (s : IngestState) where
  after_element-Counted :
      (o : Option IngestState) (next : IngestState → Ended (AttemptResult × IngestState))
      → ((u : IngestState) → o ≡ some u → Since s u)
      → ((u : IngestState) → Since s u → OnReturn (Counted s) (next u))
      → OnReturn (Counted s) (after_element o next)
  unfolding OnReturn after_element
  after_element-Counted none next h f = _
  after_element-Counted (some u) next h f = f u (h u refl)

  on_message-Counted :
      (m : BusMessage) (t : IngestState) (next : IngestState → Ended (AttemptResult × IngestState))
      → Since s t
      → ((u : IngestState) → Since s u → OnReturn (Counted s) (next u))
      → OnReturn (Counted s) (on_message config m t next)
  unfolding OnReturn on_message
  on_message-Counted silent t next h f = f t h
  on_message-Counted error_message t next h f = ground arith
  on_message-Counted eos_message t next h f = ground arith
  on_message-Counted (element_message said throws) t next h f =
      after_element-Counted (handle_element_message config said throws t) next
        (λ u e. handle_element_message-Since config said throws s t u h e) f

  ingest_round-Counted :
      (deadline : ℕ) (r : Round) (t : IngestState)
      (next : IngestState → Ended (AttemptResult × IngestState))
      → Since s t
      → ((u : IngestState) → Since s u → OnReturn (Counted s) (next u))
      → OnReturn (Counted s) (ingest_round config deadline r t next)
  unfolding OnReturn ingest_round
  ingest_round-Counted deadline r t next h f =
      if_elim (OnReturn (Counted s)) (not r.running) (λ e. h)
        λ e.
          if_elim (OnReturn (Counted s)) (not t.attempt_first_buffer_seen && leb deadline r.now)
            (λ late. (h.0, ground arith)) (λ early. on_message-Counted r.message t next h f)

  attempt_loop-Counted :
      (deadline : ℕ) (rounds : List Round) (t : IngestState)
      → Since s t
      → OnReturn (Counted s) (attempt_loop config deadline rounds t)
  unfolding OnReturn attempt_loop
  attempt_loop-Counted deadline [] t h = _
  attempt_loop-Counted deadline (r ∷ rounds) t h =
      ingest_round-Counted deadline r (on_callbacks r.callbacks t) _
        (on_callbacks-Since r.callbacks s t h) (λ u k. attempt_loop-Counted deadline rounds u k)

  drained_element-Since :
      (o : Option IngestState) (next : IngestState → Ended IngestState)
      → ((u : IngestState) → o ≡ some u → Since s u)
      → ((u : IngestState) → Since s u → OnReturn (Since s) (next u))
      → OnReturn (Since s) (drained_element o next)
  unfolding OnReturn drained_element
  drained_element-Since none next h f = _
  drained_element-Since (some u) next h f = f u (h u refl)

  drain_message-Since :
      (m : BusMessage) (t : IngestState) (next : IngestState → Ended IngestState)
      → Since s t
      → ((u : IngestState) → Since s u → OnReturn (Since s) (next u))
      → OnReturn (Since s) (drain_message config m t next)
  unfolding OnReturn drain_message
  drain_message-Since silent t next h f = f t h
  drain_message-Since error_message t next h f = h
  drain_message-Since eos_message t next h f = h
  drain_message-Since (element_message said throws) t next h f =
      drained_element-Since (handle_element_message config said throws t) next
        (λ u e. handle_element_message-Since config said throws s t u h e) f

  drain_loop-Since :
      (deadline : ℕ) (rounds : List Round) (t : IngestState)
      → Since s t
      → OnReturn (Since s) (drain_loop config deadline rounds t)
  unfolding OnReturn drain_loop
  drain_loop-Since deadline [] t h = _
  drain_loop-Since deadline (r ∷ rounds) t h =
      let k = on_callbacks-Since r.callbacks s t h in
      if_elim (OnReturn (Since s)) (leb deadline r.now) (λ late. k)
        λ early.
          drain_message-Since r.message (on_callbacks r.callbacks t) _ k
            (λ u k. drain_loop-Since deadline rounds u k)

  drained-Counted :
      (e : Ended IngestState) → OnReturn (Since s) e → OnReturn (Counted s) (drained e)
  unfolding OnReturn drained
  drained-Counted (returned t) h = h
  drained-Counted thrown h = _
  drained-Counted unfinished h = _

  finish-Counted :
      (a : Attempt) (e : Ended (AttemptResult × IngestState))
      → OnReturn (Counted s) e
      → OnReturn (Counted s) (finish config a e)
  unfolding OnReturn finish
  finish-Counted a (returned (stopped, t)) h =
      if_elim (OnReturn (Counted s)) a.eos_sent
        (λ sent. drained-Counted _ (drain_loop-Since (a.drained_from + 10000) a.drain_rounds t h))
        (λ lost. h)
  finish-Counted a (returned (pipeline_error, t)) h = h
  finish-Counted a (returned (end_of_stream, t)) h = h
  finish-Counted a thrown h = _
  finish-Counted a unfinished h = _

  -- What the attempt reports: its result, or that it was stopped.
  abbrev pub Told : AttemptResult × IngestState → Type 0
  Told (r, t) = (k : AttemptResult) × Same s t × Counts k s t × ((r ≡ k) ⊎ (r ≡ stopped))

  told-Told :
      (running : Bool) (e : Ended (AttemptResult × IngestState))
      → OnReturn (Counted s) e
      → OnReturn Told (told running e)
  unfolding OnReturn told
  told-Told true (returned (k, t)) h = (k, h.0, h.1, inl refl)
  told-Told false (returned (k, t)) h = (k, h.0, h.1, inr refl)
  told-Told running thrown h = _
  told-Told running unfinished h = _

  started-Counted :
      (a : Attempt) (t : IngestState) → Since s t → OnReturn (Counted s) (started config a t)
  unfolding OnReturn started
  started-Counted a t h =
      if_elim (OnReturn (Counted s)) a.enters_playing
        (λ e. attempt_loop-Counted (a.started_at + pos_part config.startup_timeout_ms) a.rounds t h)
        (λ e. ground arith)

  -- An attempt that is reported to have failed has counted that failure and no other, and one
  -- first buffer at most.
  pub run_attempt-Told :
      (a : Attempt) → s.first_buffer_seen ≡ false → OnReturn Told (run_attempt config a s)
  unfolding OnReturn run_attempt
  run_attempt-Told a h =
      if_elim (OnReturn Told) (not a.pipeline_made || not a.elements_found) (λ e. _)
        λ e.
          told-Told a.running_after _
            (finish-Counted a _ (started-Counted a _ ((refl, refl, h, refl), (refl, refl))))
