-- ===== src/Ingest/Run.antt =====
-- src/media/channel_ingest.cpp: `ChannelIngest::run`, the loop of attempts.
use rpi_server.Prelude.{
  ℕ, Bool, true, false, not, ◌||◌, Option, none, some, List, [], ◌∷◌, if◌then◌else◌,
}
use rpi_server.Ingest.{ChannelIngestConfig}
use rpi_server.Ingest.Attempt.{
  IngestState, fetch_add, AttemptResult, stopped, pipeline_error, end_of_stream, Ended, returned,
  thrown, unfinished, Attempt, run_attempt,
}
use rpi_server.Ingest.Waiting.{Waited, wait_before_reconnect}

-- A turn of the loop: the running flag at its test, the attempt, the flag behind the attempt, and
-- the loads of the flag in the wait before the next one.
pub record Turn : Type 0 where
  pub running : Bool
  pub attempt : Attempt
  pub running_after : Bool
  pub waiting : ℕ → Bool

unfoldable pub is_stopped : AttemptResult → Bool
is_stopped stopped = true
is_stopped pipeline_error = false
is_stopped end_of_stream = false

unfoldable pub after_wait :
    Option Waited → IngestState → (IngestState → Ended IngestState) → Ended IngestState
after_wait none s next = unfinished
after_wait (some w) s next = if w.result then next s else returned s

unfoldable pub after_attempt :
    ChannelIngestConfig
    → Turn
    → Ended (AttemptResult × IngestState)
    → (IngestState → Ended IngestState)
    → Ended IngestState
unfolding is_stopped after_wait wait_before_reconnect fetch_add
after_attempt config t (returned (result, s)) next =
    if not t.running_after || is_stopped result
    then returned s
    else after_wait (wait_before_reconnect t.waiting config.reconnect_delay_ms)
        (record s { reconnects = fetch_add s.reconnects }) next
after_attempt config t thrown next = thrown
after_attempt config t unfinished next = unfinished

-- The state in which an attempt begins.
unfoldable pub connecting : IngestState → IngestState
unfolding fetch_add
connecting s = record s {
  connection_attempts = fetch_add s.connection_attempts;
  first_buffer_seen = false;
}

unfoldable pub run : ChannelIngestConfig → List Turn → IngestState → Ended IngestState
unfolding after_attempt connecting run_attempt
run config [] s = unfinished
run config (t ∷ turns) s =
    if not t.running
    then returned s
    else after_attempt config t (run_attempt config t.attempt (connecting s))
        (λ u. run config turns u)
