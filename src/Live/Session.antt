-- ===== src/Live/Session.antt =====
-- src/live/live_rtsp_server.cpp: the loop of `run_session` on an established connection: the bytes
-- of the socket, the requests in them, the answers, and a frame of the queue in each round.
-- What changes from outside is an argument: which writes succeed, by the writes before; the random
-- numbers and the parameter sets, by the writes before, so that they are new for each request;
-- and of each round the running flags, the socket's answer, the clocks, and the frames that
-- `on_frame` pushes behind those that an earlier round has seen.
mod Kept
pub mod Moves
pub mod Requests
pub mod Streaming
mod Tests
use rpi_server.Prelude.{
  ℕ, zero, suc, ◌+◌, ◌%◌, ◌^◌, ◌≡◌, Bool, true, false, not, ◌&&◌, ◌||◌, Option, none, some, List,
  [], ◌∷◌, ◌++◌, ltb, ◌==◌, if◌then◌else◌, length,
}
use rpi_server.Prelude.Int.{ℤ, pos, negsuc, pos_part}
use rpi_server.Bytes.{Bytes, codes, find, blank_line}
use rpi_server.FrameQueue.{OwnedLiveFrame, VideoCodec, h264, BoundedFrameQueue, try_pop, close}
use rpi_server.Parser.Text.{starts_with_ci}
use rpi_server.Parser.Headers.{extract_request_target}
use rpi_server.Parser.Extract.{
  ParserLimits, Extracted, got, pending, stuck, extract_one_rtsp_message,
}
use rpi_server.Control.Target.{parse_public_channel_id}
use rpi_server.Control.Reply.{make_response}
use rpi_server.Control.{RtspControlState, RtspControlResult, process_rtsp_request}
use rpi_server.Live.{
  ParameterSets, LiveClient, SendContext, Delivery, delivered, refused, thrown, codec_fmtp,
  send_frame,
}
use rpi_server.Live.Channels.{Channel, registered_channel, push_client}

pub record LiveSession : Type 0 where
  pub input : Bytes
  pub control : RtspControlState
  pub client : LiveClient
  pub connected : Bool

-- How a part of a round ends: it goes on, it leaves the loop, a frame could not be written, an
-- exception was thrown, or the extraction of messages does not return.
pub data Turn : Type 0 where
  goes leaves write_failure : LiveSession → Turn
  session_error hangs : Turn

pub data Reading : Type 0 where
  unreadable over : Reading
  arrived : Bytes → Reading

pub record Wake : Type 0 where
  pub running : Bool
  pub reading : Reading
  pub pushed : List OwnedLiveFrame
  pub context : SendContext

unfoldable pub is_interleaved : Bytes → Bool
is_interleaved [] = false
is_interleaved (c ∷ message) = c == b'$'

unfoldable pub id_of : Option Channel → ℤ
id_of none = negsuc 0
id_of (some c) = c.channel_id

unfoldable pub codec_of_channel : Option Channel → VideoCodec
codec_of_channel none = h264
codec_of_channel (some c) = c.codec

unfoldable pub fmtp_of : (ℤ → ParameterSets) → Option Channel → Bytes
unfolding codec_fmtp
fmtp_of sets none = []
fmtp_of sets (some c) = codec_fmtp (sets c.channel_id) c.codec

unfoldable pub play_started : RtspControlState → Bool → LiveClient → LiveClient
play_started control start c =
    if start then record c { channel_id = control.channel_id; playing = true } else c

unfoldable pub then_turn : Turn → (LiveSession → Turn) → Turn
then_turn (goes s) next = next s
then_turn (leaves s) next = leaves s
then_turn (write_failure s) next = write_failure s
then_turn session_error next = session_error
then_turn hangs next = hangs

unfoldable pub has_method : Bytes → Bool
unfolding starts_with_ci
has_method input =
    starts_with_ci input (codes "OPTIONS ")
    || (starts_with_ci input (codes "DESCRIBE ")
        || (starts_with_ci input (codes "SETUP ")
            || (starts_with_ci input (codes "PLAY ")
                || (starts_with_ci input (codes "TEARDOWN ")
                    || starts_with_ci input (codes "GET_PARAMETER ")))))

unfoldable pub is_found : Option ℕ → Bool
is_found none = false
is_found (some i) = true

unfoldable pub bad_request : Bytes
unfolding make_response
bad_request = make_response 400 [] [] []

module _ (takes : List Bytes → Bytes → Bool) (limits : ParserLimits) (channels : List Channel)
    (sets : List Bytes → ℤ → ParameterSets) (random1 random2 : List Bytes → ℕ) where
  unfoldable pub ask : Bytes → LiveSession → RtspControlResult × RtspControlState
  unfolding parse_public_channel_id registered_channel id_of codec_of_channel fmtp_of
      process_rtsp_request
  ask request s =
      let wires = s.client.wires in
      let channel =
        registered_channel channels (parse_public_channel_id (extract_request_target request)) in
      process_rtsp_request (random1 wires) (random2 wires) request (id_of channel)
        (codec_of_channel channel) (fmtp_of (sets wires) channel) s.control

  -- The answer has been given; `refused` where it cannot be written.
  unfoldable pub answered :
      RtspControlResult × RtspControlState → LiveSession → (LiveSession → Turn) → Turn
  unfolding play_started
  answered (result, control) s next =
      let response = result.response in
      let after = record s {
        control = control;
        client =
            play_started control result.start_play
              (record s.client { wires = response ∷ s.client.wires });
      } in
      if not (takes s.client.wires response)
      then goes (record s { control = control; connected = false })
      else if result.close_session
      then goes (record after { connected = false })
      else next after

  -- The fuel is more than the bytes of the input.
  unfoldable pub request_loop : ℕ → LiveSession → Turn
  unfolding extract_one_rtsp_message is_interleaved ask answered
  request_loop zero s = hangs
  request_loop (suc fuel) s =
      elim (extract_one_rtsp_message (suc (length s.input)) limits s.input) [
        | stuck ↦ hangs
        | pending input ↦ goes (record s { input = input })
        | got request input ↦
            let t : LiveSession = record s { input = input } in
            if is_interleaved request
            then request_loop fuel t
            else answered (ask request t) t (λ u. request_loop fuel u)
      ]

  unfoldable pub write_last : Bytes → LiveSession → LiveSession
  write_last wire s =
      if takes s.client.wires wire
      then record s { client = record s.client { wires = wire ∷ s.client.wires } }
      else s

  -- What is left in the input starts no request.
  unfoldable pub check_rest_of_input : LiveSession → Turn
  unfolding has_method is_found find bad_request write_last
  check_rest_of_input s =
      if ltb 0 (length s.input) && (is_found (find blank_line s.input) && not (has_method s.input))
      then leaves (write_last bad_request s)
      else goes s

  unfoldable pub read_input : Reading → LiveSession → Turn
  unfolding request_loop then_turn check_rest_of_input bad_request write_last
  read_input unreadable s = goes s
  read_input over s = leaves s
  read_input (arrived bytes) s =
      let t : LiveSession = record s { input = s.input ++ bytes } in
      if ltb ((limits.max_header_bytes + limits.max_body_bytes) % 2 ^ 64) (length t.input)
      then leaves (write_last bad_request t)
      else then_turn (request_loop (suc (length t.input)) t) check_rest_of_input

  unfoldable pub after_frame : LiveSession → Delivery → Turn
  after_frame s (delivered c) = goes (record s { client = c })
  after_frame s (refused c) = write_failure (record s { client = c })
  after_frame s thrown = session_error

  unfoldable pub send_popped :
      SendContext → LiveSession → BoundedFrameQueue × Option OwnedLiveFrame → Turn
  unfolding after_frame send_frame
  send_popped x s (queue, none) = goes (record s { client = record s.client { queue = queue } })
  send_popped x s (queue, some frame) =
      let channel_sets = sets s.client.wires (pos frame.channel_id) in
      after_frame s (
        send_frame takes
          (record x {
            rtp_channel = pos_part s.control.rtp_channel;
            rtcp_channel = pos_part s.control.rtcp_channel;
            sets = channel_sets;
          })
          frame (record s.client { queue = queue }))

  unfoldable pub send_next : SendContext → LiveSession → Turn
  unfolding send_popped try_pop
  send_next x s = if s.client.playing then send_popped x s (try_pop s.client.queue) else goes s

  unfoldable pub push_all : List OwnedLiveFrame → LiveClient → LiveClient
  unfolding push_client
  push_all [] c = c
  push_all (f ∷ frames) c = push_all frames (push_client f c)

  unfoldable pub session_round : Wake → LiveSession → Turn
  unfolding then_turn read_input push_all send_next
  session_round w s =
      then_turn (read_input w.reading s)
        (λ t. send_next w.context (record t { client = push_all w.pushed t.client }))

  unfoldable pub session_loop : List Wake → LiveSession → Turn
  unfolding then_turn session_round
  session_loop [] s = goes s
  session_loop (w ∷ wakes) s =
      if s.connected && w.running
      then then_turn (session_round w s) (λ t. session_loop wakes t)
      else leaves s

-- Behind the loop and its `catch`.
unfoldable pub end_session : LiveClient → LiveClient
end_session c = record c { connected = false; playing = false; queue = close c.queue }
