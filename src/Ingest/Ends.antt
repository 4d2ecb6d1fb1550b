-- ===== src/Ingest/Ends.antt =====
-- src/media/channel_ingest.cpp: an attempt ends once it is told to stop, or at the startup deadline
-- where no buffer has come.
use rpi_server.Prelude.{
  ℕ, zero, suc, ◌+◌, ◌≤◌, ◌≡◌, ◌⊎◌, inl, inr, refl, Bool, false, not, ◌&&◌, ◌||◌, Option, none,
  some, List, [], ◌∷◌, leb, if_elim, get_elem?, take, All, arith,
}
use rpi_server.Prelude.Int.{pos_part}
use rpi_server.Bytes.{Bytes}
use rpi_server.Ingest.{ChannelIngestConfig}
use rpi_server.Ingest.Attempt.{
  IndexCall, IngestState, Callback, ingest_buffer, rtp_buffer, live_handoff, live_queue_overrun,
  on_callback, on_callbacks, BusMessage, silent, error_message, eos_message, element_message,
  index_call, call_index, handle_element_message, AttemptResult, stopped, pipeline_error,
  end_of_stream, Ended, returned, thrown, unfinished, Round, after_element, on_message,
  ingest_round, attempt_loop, drained_element, drain_message, drain_loop, Attempt, drained, finish,
  told, started, run_attempt,
}

abbrev pub Finishes : {A : Type 0} → Ended A → Type 0
Finishes (returned a) = Unit
Finishes thrown = Unit
Finishes unfinished = ⊥

-- No buffer reaches the tee.
abbrev pub Quiet : List Callback → Type 0
Quiet [] = Unit
Quiet (ingest_buffer ∷ callbacks) = ⊥
Quiet (rtp_buffer ∷ callbacks) = Quiet callbacks
Quiet (live_handoff ∷ callbacks) = Quiet callbacks
Quiet (live_queue_overrun ∷ callbacks) = Quiet callbacks

abbrev Unseen : IngestState → Type 0
Unseen s = s.attempt_first_buffer_seen ≡ false

on_callbacks-Unseen :
    (callbacks : List Callback) (s : IngestState)
    → Quiet callbacks
    → Unseen s
    → Unseen (on_callbacks callbacks s)
unfolding on_callbacks on_callback
on_callbacks-Unseen [] s q h = h
on_callbacks-Unseen (ingest_buffer ∷ callbacks) s q h = absurd q
on_callbacks-Unseen (rtp_buffer ∷ callbacks) s q h = on_callbacks-Unseen callbacks _ q h
on_callbacks-Unseen (live_handoff ∷ callbacks) s q h = on_callbacks-Unseen callbacks _ q h
on_callbacks-Unseen (live_queue_overrun ∷ callbacks) s q h = on_callbacks-Unseen callbacks _ q h

call_index-Unseen :
    (o : Option IndexCall) (throws : Bool) (s t : IngestState)
    → call_index o throws s ≡ some t
    → Unseen s
    → Unseen t
unfolding call_index
call_index-Unseen none throws s t e h = ground arith
call_index-Unseen (some call) throws s t e h = ground arith

handle_element_message-Unseen :
    (config : ChannelIngestConfig) (said : Option (Bytes × Bytes)) (throws : Bool)
    (s t : IngestState)
    → handle_element_message config said throws s ≡ some t
    → Unseen s
    → Unseen t
unfolding handle_element_message
handle_element_message-Unseen config none throws s t e h = ground arith
handle_element_message-Unseen config (some (name, location)) throws s t e h =
    call_index-Unseen (index_call config name location) throws s t e h

module _ (config : ChannelIngestConfig) where
  after_element-Finishes :
      (P : IngestState → Type 0) (o : Option IngestState)
      (next : IngestState → Ended (AttemptResult × IngestState))
      → ((t : IngestState) → o ≡ some t → P t)
      → ((t : IngestState) → P t → Finishes (next t))
      → Finishes (after_element o next)
  unfolding after_element
  after_element-Finishes P none next h f = _
  after_element-Finishes P (some t) next h f = f t (h t refl)

  on_message-Finishes :
      (m : BusMessage) (s : IngestState) (next : IngestState → Ended (AttemptResult × IngestState))
      → ((t : IngestState) → (Unseen s → Unseen t) → Finishes (next t))
      → Finishes (on_message config m s next)
  unfolding on_message
  on_message-Finishes silent s next f = f s (λ h. h)
  on_message-Finishes error_message s next f = _
  on_message-Finishes eos_message s next f = _
  on_message-Finishes (element_message said throws) s next f =
      after_element-Finishes (λ t. Unseen s → Unseen t)
        (handle_element_message config said throws s) next
        (λ t e h. handle_element_message-Unseen config said throws s t e h) f

  ingest_round-Finishes :
      (deadline : ℕ) (r : Round) (s : IngestState)
      (next : IngestState → Ended (AttemptResult × IngestState))
      → ((t : IngestState) → (Unseen s → Unseen t) → Finishes (next t))
      → Finishes (ingest_round config deadline r s next)
  unfolding ingest_round
  ingest_round-Finishes deadline r s next f =
      if_elim Finishes (not r.running) (λ h. _)
        λ h.
          if_elim Finishes (not s.attempt_first_buffer_seen && leb deadline r.now) (λ h. _)
            (λ h. on_message-Finishes r.message s next f)

  last_round :
      (deadline : ℕ) (q r : Round) (s : IngestState)
      (next : IngestState → Ended (AttemptResult × IngestState))
      → some q ≡ some r
      → (r.running ≡ false) ⊎ ((deadline ≤ r.now) × Unseen s)
      → Finishes (ingest_round config deadline q s next)
  unfolding ingest_round
  last_round deadline q r s next e (inl down) =
      if_elim Finishes (not q.running) (λ h. _) (λ h. absurd cc)
  last_round deadline q r s next e (inr (late, unseen)) =
      if_elim Finishes (not q.running) (λ h. _)
        λ h.
          if_elim Finishes (not s.attempt_first_buffer_seen && leb deadline q.now) (λ h. _)
            (λ h. absurd (ground arith))

  attempt_loop-Finishes :
      (deadline : ℕ) (rounds : List Round) (i : ℕ) (r : Round) (s : IngestState)
      → get_elem? rounds i ≡ some r
      → (r.running ≡ false)
        ⊎ ((deadline ≤ r.now)
            × All (λ (q : Round). Quiet q.callbacks) (take (suc i) rounds)
            × Unseen s)
      → Finishes (attempt_loop config deadline rounds s)
  unfolding attempt_loop
  attempt_loop-Finishes deadline [] i r s e h = cc
  attempt_loop-Finishes deadline (q ∷ rounds) zero r s e (inl down) =
      last_round deadline q r (on_callbacks q.callbacks s) _ e (inl down)
  attempt_loop-Finishes deadline (q ∷ rounds) zero r s e (inr (late, quiet, unseen)) =
      last_round deadline q r (on_callbacks q.callbacks s) _ e
        (inr (late, on_callbacks-Unseen q.callbacks s quiet.0 unseen))
  attempt_loop-Finishes deadline (q ∷ rounds) (suc i) r s e (inl down) =
      ingest_round-Finishes deadline q (on_callbacks q.callbacks s) _
        (λ t u. attempt_loop-Finishes deadline rounds i r t e (inl down))
  attempt_loop-Finishes deadline (q ∷ rounds) (suc i) r s e (inr (late, quiet, unseen)) =
      ingest_round-Finishes deadline q (on_callbacks q.callbacks s) _ (λ t u.
        attempt_loop-Finishes deadline rounds i r t e
          (inr (late, quiet.1, u (on_callbacks-Unseen q.callbacks s quiet.0 unseen))))

  drained_element-Finishes :
      (o : Option IngestState) (next : IngestState → Ended IngestState)
      → ((t : IngestState) → Finishes (next t))
      → Finishes (drained_element o next)
  unfolding drained_element
  drained_element-Finishes none next f = _
  drained_element-Finishes (some t) next f = f t

  drain_message-Finishes :
      (m : BusMessage) (s : IngestState) (next : IngestState → Ended IngestState)
      → ((t : IngestState) → Finishes (next t))
      → Finishes (drain_message config m s next)
  unfolding drain_message
  drain_message-Finishes silent s next f = f s
  drain_message-Finishes error_message s next f = _
  drain_message-Finishes eos_message s next f = _
  drain_message-Finishes (element_message said throws) s next f =
      drained_element-Finishes (handle_element_message config said throws s) next f

  drain_loop-Finishes :
      (deadline : ℕ) (rounds : List Round) (i : ℕ) (r : Round) (s : IngestState)
      → get_elem? rounds i ≡ some r
      → deadline ≤ r.now
      → Finishes (drain_loop config deadline rounds s)
  unfolding drain_loop
  drain_loop-Finishes deadline [] i r s e late = cc
  drain_loop-Finishes deadline (q ∷ rounds) zero r s e late =
      if_elim Finishes (leb deadline q.now) (λ h. _) (λ h. absurd (ground arith))
  drain_loop-Finishes deadline (q ∷ rounds) (suc i) r s e late =
      if_elim Finishes (leb deadline q.now) (λ h. _)
        λ h.
          drain_message-Finishes q.message _ _
            (λ t. drain_loop-Finishes deadline rounds i r t e late)

  drained-Finishes : (e : Ended IngestState) → Finishes e → Finishes (drained e)
  unfolding drained
  drained-Finishes (returned s) h = _
  drained-Finishes thrown h = _
  drained-Finishes unfinished h = absurd h

  finish-Finishes :
      (a : Attempt) (j : ℕ) (q : Round) (e : Ended (AttemptResult × IngestState))
      → get_elem? a.drain_rounds j ≡ some q
      → a.drained_from + 10000 ≤ q.now
      → Finishes e
      → Finishes (finish config a e)
  unfolding finish
  finish-Finishes a j q (returned (stopped, s)) at late h =
      if_elim Finishes a.eos_sent
        (λ sent.
          drained-Finishes _
            (drain_loop-Finishes (a.drained_from + 10000) a.drain_rounds j q s at late))
        (λ lost. _)
  finish-Finishes a j q (returned (pipeline_error, s)) at late h = _
  finish-Finishes a j q (returned (end_of_stream, s)) at late h = _
  finish-Finishes a j q thrown at late h = _
  finish-Finishes a j q unfinished at late h = absurd h

  told-Finishes :
      (running : Bool) (e : Ended (AttemptResult × IngestState))
      → Finishes e
      → Finishes (told running e)
  unfolding told
  told-Finishes running (returned (k, s)) h = _
  told-Finishes running thrown h = _
  told-Finishes running unfinished h = absurd h

  unseen_from : {A B C : Type 0} → A ⊎ (B × C) → A ⊎ (B × C × (false ≡ false))
  unseen_from (inl a) = inl a
  unseen_from (inr (b, c)) = inr (b, c, refl)

  -- An attempt ends once a round finds the running flag down, and also once a round finds the
  -- startup deadline reached where no buffer has come up to that round, whatever else happens,
  -- provided that the clock comes to ten seconds behind the end of the loop, which is as long as
  -- it waits there.
  pub run_attempt-Finishes :
      (a : Attempt) (s : IngestState) (i j : ℕ) (r q : Round)
      → get_elem? a.rounds i ≡ some r
      → (r.running ≡ false)
        ⊎ ((a.started_at + pos_part config.startup_timeout_ms ≤ r.now)
            × All (λ (p : Round). Quiet p.callbacks) (take (suc i) a.rounds))
      → get_elem? a.drain_rounds j ≡ some q
      → a.drained_from + 10000 ≤ q.now
      → Finishes (run_attempt config a s)
  unfolding run_attempt started
  run_attempt-Finishes a s i j r q at ends drain late =
      if_elim Finishes (not a.pipeline_made || not a.elements_found) (λ e. _)
        λ e. told-Finishes a.running_after _ (
          finish-Finishes a j q _ drain late (
            if_elim Finishes a.enters_playing
              (λ plays. attempt_loop-Finishes _ a.rounds i r _ at (unseen_from ends)) (λ fails. _)))
