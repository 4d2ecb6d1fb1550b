-- ===== src/Ingest/Attempt.antt =====
-- src/media/channel_ingest.cpp: one attempt to stream from a camera, and the loop of attempts.
-- The running flag, the clock (in milliseconds), the messages of GStreamer's bus, the calls that
-- its threads make and what the calls of GStreamer return are the inputs. The counters wrap at 64
-- bits.
use rpi_server.Prelude.{
  ℕ, ◌+◌, ◌%◌, ◌^◌, Bool, true, false, not, ◌&&◌, ◌||◌, Option, none, some, List, [], ◌∷◌, leb,
  if◌then◌else◌,
}
use rpi_server.Prelude.Int.{ℤ, pos_part}
use rpi_server.Bytes.{Bytes, codes, equal}
use rpi_server.Ingest.{ChannelIngestConfig, to_codec_name}

-- The calls that an element message makes of the recording index.
pub data IndexCall : Type 0 where
  mark_segment_opened : ℤ → Bytes → Bytes → Bytes → IndexCall
  mark_segment_closed : Bytes → IndexCall

-- The atomics of the ingest, those of the current attempt, and the calls of the index so far, the
-- last one first.
pub record IngestState : Type 0 where
  pub connection_attempts : ℕ
  pub reconnects : ℕ
  pub first_buffers : ℕ
  pub pipeline_errors : ℕ
  pub eos_events : ℕ
  pub live_frames : ℕ
  pub live_drops : ℕ
  pub first_buffer_seen : Bool
  pub first_rtp_buffer_seen : Bool
  pub attempt_first_buffer_seen : Bool
  pub index_calls : List IndexCall

abbrev pub new_ingest : IngestState
new_ingest = record {
  connection_attempts = 0;
  reconnects = 0;
  first_buffers = 0;
  pipeline_errors = 0;
  eos_events = 0;
  live_frames = 0;
  live_drops = 0;
  first_buffer_seen = false;
  first_rtp_buffer_seen = false;
  attempt_first_buffer_seen = false;
  index_calls = [];
}

-- `fetch_add(1)` on 64 bits.
unfoldable pub fetch_add : ℕ → ℕ
fetch_add n = (n + 1) % 2 ^ 64

-- What GStreamer's threads call: the probes of a buffer at the tee and of an RTP buffer, a frame
-- handed to the live branch, and a frame that its queue drops.
pub data Callback : Type 0 where
  ingest_buffer rtp_buffer live_handoff live_queue_overrun : Callback

unfoldable pub on_ingest_buffer : IngestState → IngestState
unfolding fetch_add
on_ingest_buffer s =
    if s.attempt_first_buffer_seen
    then s
    else if s.first_buffer_seen
    then record s { attempt_first_buffer_seen = true }
    else record s {
      attempt_first_buffer_seen = true;
      first_buffer_seen = true;
      first_buffers = fetch_add s.first_buffers;
    }

unfoldable pub on_callback : Callback → IngestState → IngestState
unfolding on_ingest_buffer fetch_add
on_callback ingest_buffer s = on_ingest_buffer s
on_callback rtp_buffer s = record s { first_rtp_buffer_seen = true }
on_callback live_handoff s = record s { live_frames = fetch_add s.live_frames }
on_callback live_queue_overrun s = record s { live_drops = fetch_add s.live_drops }

unfoldable pub on_callbacks : List Callback → IngestState → IngestState
unfolding on_callback
on_callbacks [] s = s
on_callbacks (c ∷ callbacks) s = on_callbacks callbacks (on_callback c s)

-- A message of the bus; an element message has its name and location, if it has them, and says
-- whether the recording index throws at the call that it leads to.
pub data BusMessage : Type 0 where
  silent error_message eos_message : BusMessage
  element_message : Option (Bytes × Bytes) → Bool → BusMessage

unfoldable pub index_call : ChannelIngestConfig → Bytes → Bytes → Option IndexCall
unfolding to_codec_name equal
index_call config message_name path =
    if equal message_name (codes "splitmuxsink-fragment-opened")
    then some
        (mark_segment_opened config.channel_id path (codes "mp4") (to_codec_name config.codec))
    else if equal message_name (codes "splitmuxsink-fragment-closed")
    then some (mark_segment_closed path)
    else none

unfoldable pub call_index : Option IndexCall → Bool → IngestState → Option IngestState
call_index none throws s = some s
call_index (some call) throws s =
    if throws then none else some (record s { index_calls = call ∷ s.index_calls })

-- `none` where the recording index throws.
unfoldable pub handle_element_message :
    ChannelIngestConfig → Option (Bytes × Bytes) → Bool → IngestState → Option IngestState
unfolding index_call call_index
handle_element_message config none throws s = some s
handle_element_message config (some (name, location)) throws s =
    call_index (index_call config name location) throws s

pub data AttemptResult : Type 0 where
  stopped pipeline_error end_of_stream : AttemptResult

-- How a part of the code ends: it returns, it throws, or the inputs end first.
pub data Ended (A : Type 0) : Type 0 where
  returned : A → Ended A
  thrown unfinished : Ended A

-- A round of the loop: the callbacks since the last one, the running flag, the clock, and what
-- the bus gives within half a second.
pub record Round : Type 0 where
  pub callbacks : List Callback
  pub running : Bool
  pub now : ℕ
  pub message : BusMessage

unfoldable pub after_element :
    Option IngestState
    → (IngestState → Ended (AttemptResult × IngestState))
    → Ended (AttemptResult × IngestState)
after_element none next = thrown
after_element (some s) next = next s

unfoldable pub on_message :
    ChannelIngestConfig
    → BusMessage
    → IngestState
    → (IngestState → Ended (AttemptResult × IngestState))
    → Ended (AttemptResult × IngestState)
unfolding fetch_add handle_element_message after_element
on_message config silent s next = next s
on_message config error_message s next =
    returned (pipeline_error, record s { pipeline_errors = fetch_add s.pipeline_errors })
on_message config eos_message s next =
    returned (end_of_stream, record s { eos_events = fetch_add s.eos_events })
on_message config (element_message said throws) s next =
    after_element (handle_element_message config said throws s) next

-- The body of a round, `s` being the state behind its callbacks.
unfoldable pub ingest_round :
    ChannelIngestConfig
    → ℕ
    → Round
    → IngestState
    → (IngestState → Ended (AttemptResult × IngestState))
    → Ended (AttemptResult × IngestState)
unfolding on_message fetch_add
ingest_round config deadline r s next =
    if not r.running
    then returned (stopped, s)
    else if not s.attempt_first_buffer_seen && leb deadline r.now
    then returned (pipeline_error, record s { pipeline_errors = fetch_add s.pipeline_errors })
    else on_message config r.message s next

unfoldable pub attempt_loop :
    ChannelIngestConfig → ℕ → List Round → IngestState → Ended (AttemptResult × IngestState)
unfolding ingest_round on_callbacks
attempt_loop config deadline [] s = unfinished
attempt_loop config deadline (r ∷ rounds) s =
    ingest_round config deadline r (on_callbacks r.callbacks s)
      (λ t. attempt_loop config deadline rounds t)

unfoldable pub drained_element :
    Option IngestState → (IngestState → Ended IngestState) → Ended IngestState
drained_element none next = thrown
drained_element (some s) next = next s

-- The messages that are waited for after an end of stream has been sent; `running` is not read.
unfoldable pub drain_message :
    ChannelIngestConfig
    → BusMessage
    → IngestState
    → (IngestState → Ended IngestState)
    → Ended IngestState
unfolding handle_element_message drained_element
drain_message config silent s next = next s
drain_message config error_message s next = returned s
drain_message config eos_message s next = returned s
drain_message config (element_message said throws) s next =
    drained_element (handle_element_message config said throws s) next

unfoldable pub drain_loop : ChannelIngestConfig → ℕ → List Round → IngestState → Ended IngestState
unfolding drain_message on_callbacks
drain_loop config deadline [] s = unfinished
drain_loop config deadline (r ∷ rounds) s =
    let t = on_callbacks r.callbacks s in
    if leb deadline r.now
    then returned t
    else drain_message config r.message t (λ u. drain_loop config deadline rounds u)

-- What an attempt meets: whether the pipeline is made in full and its elements are found, the
-- clock when the startup deadline is set, whether the pipeline can be started, the rounds, whether
-- the end of stream can be sent, the clock then, the rounds behind it, and the running flag at the
-- end.
pub record Attempt : Type 0 where
  pub pipeline_made : Bool
  pub elements_found : Bool
  pub started_at : ℕ
  pub enters_playing : Bool
  pub rounds : List Round
  pub eos_sent : Bool
  pub drained_from : ℕ
  pub drain_rounds : List Round
  pub running_after : Bool

unfoldable pub drained : Ended IngestState → Ended (AttemptResult × IngestState)
drained (returned s) = returned (stopped, s)
drained thrown = thrown
drained unfinished = unfinished

-- Behind the loop: a stopped attempt waits up to ten seconds for the recording to be finished.
unfoldable pub finish :
    ChannelIngestConfig
    → Attempt
    → Ended (AttemptResult × IngestState)
    → Ended (AttemptResult × IngestState)
unfolding drain_loop drained
finish config a (returned (stopped, s)) =
    if a.eos_sent
    then drained (drain_loop config (a.drained_from + 10000) a.drain_rounds s)
    else returned (stopped, s)
finish config a (returned (pipeline_error, s)) = returned (pipeline_error, s)
finish config a (returned (end_of_stream, s)) = returned (end_of_stream, s)
finish config a thrown = thrown
finish config a unfinished = unfinished

unfoldable pub told :
    Bool → Ended (AttemptResult × IngestState) → Ended (AttemptResult × IngestState)
told running (returned (result, s)) = returned ((if running then result else stopped), s)
told running thrown = thrown
told running unfinished = unfinished

unfoldable pub started :
    ChannelIngestConfig → Attempt → IngestState → Ended (AttemptResult × IngestState)
unfolding attempt_loop fetch_add
started config a s =
    if a.enters_playing
    then attempt_loop config (a.started_at + pos_part config.startup_timeout_ms) a.rounds s
    else returned (pipeline_error, record s { pipeline_errors = fetch_add s.pipeline_errors })

unfoldable pub run_attempt :
    ChannelIngestConfig → Attempt → IngestState → Ended (AttemptResult × IngestState)
unfolding started finish told
run_attempt config a s =
    let fresh = record s { first_rtp_buffer_seen = false; attempt_first_buffer_seen = false } in
    if not a.pipeline_made || not a.elements_found
    then thrown
    else told a.running_after (finish config a (started config a fresh))
