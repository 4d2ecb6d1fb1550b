-- ===== src/Control.antt =====
-- src/live/live_rtsp_server.cpp, include/rtsps/live_rtsp_server.h: the control connection of a
-- live client. `process_rtsp_request` changes the state that it is given; here it returns it.
-- The two numbers that `std::random_device` yields are arguments.
pub mod Target
pub mod Reply
pub mod Phases
pub mod Errors
pub mod Channels
pub mod Session
mod Tests
use rpi_server.Prelude.{
  ℕ, ◌+◌, ◌==◌, Bool, true, false, not, ◌&&◌, ◌||◌, Option, none, some, List, [], ◌∷◌, ◌++◌,
  if◌then◌else◌, length, drop,
}
use rpi_server.Prelude.Int.{ℤ, pos, negsuc, ltb_ℤ, eqb_ℤ}
use rpi_server.Bytes.{Bytes, codes, equal, find, skip_while, is_space}
use rpi_server.Bytes.Number.{stoi, to_string_ℤ}
use rpi_server.Parser.Text.{lower_copy, starts_with_ci}
use rpi_server.Parser.Headers.{
  header_value, message_header_part, cseq_from_message, rtsp_method_from_request,
  extract_request_target,
}
use rpi_server.FrameQueue.{VideoCodec}
use rpi_server.Control.Target.{parse_public_channel_id}
use rpi_server.Control.Reply.{make_response, build_sdp, random_session_id}

pub data RtspControlPhase : Type 0 where
  initial ready playing closed : RtspControlPhase

pub record RtspControlState : Type 0 where
  pub phase : RtspControlPhase
  pub session_id : Bytes
  pub channel_id : ℤ
  pub rtp_channel : ℤ
  pub rtcp_channel : ℤ

pub record RtspControlResult : Type 0 where
  pub response : Bytes
  pub start_play : Bool
  pub close_session : Bool

unfoldable pub valid_session_header : Bytes → Bytes → Bool
unfolding starts_with_ci equal
valid_session_header header [] = false
valid_session_header header (c ∷ expected) =
    equal header (c ∷ expected) || starts_with_ci header ((c ∷ expected) ++ (b';' ∷ []))

-- `values >> separator`: the next byte that is not white space.
unfoldable pub read_char : Bytes → Option (ℕ × Bytes)
unfolding skip_while
read_char s = elim (skip_while is_space s) [ [] ↦ none | c ∷ rest ↦ some (c, rest) ]

-- `values >> number`; a number out of range fails too.
unfoldable pub extract_int : Bytes → Option (ℤ × Bytes)
unfolding stoi
extract_int s = elim (stoi s) [ none ↦ none | some (v, consumed) ↦ some (v, drop consumed s) ]

-- The test of the two numbers and the byte between them.
unfoldable pub checked_channels : ℤ → ℕ → ℤ → Option (ℤ × ℤ)
checked_channels rtp separator rtcp =
    if not (separator == b'-')
      || (ltb_ℤ rtp (pos 0)
          || (ltb_ℤ rtcp (pos 0)
              || (ltb_ℤ (pos 255) rtp || (ltb_ℤ (pos 255) rtcp || eqb_ℤ rtp rtcp))))
    then none
    else some (rtp, rtcp)

-- `values >> rtp_channel >> separator >> rtcp_channel`, from the third number back to the first.
unfoldable pub with_rtcp : ℤ → ℕ → Option (ℤ × Bytes) → Option (ℤ × ℤ)
unfolding checked_channels
with_rtcp rtp separator none = none
with_rtcp rtp separator (some (rtcp, s)) = checked_channels rtp separator rtcp

unfoldable pub with_separator : ℤ → Option (ℕ × Bytes) → Option (ℤ × ℤ)
unfolding with_rtcp extract_int
with_separator rtp none = none
with_separator rtp (some (separator, s)) = with_rtcp rtp separator (extract_int s)

unfoldable pub with_rtp : Option (ℤ × Bytes) → Option (ℤ × ℤ)
unfolding with_separator read_char
with_rtp none = none
with_rtp (some (rtp, s)) = with_separator rtp (read_char s)

-- What follows "interleaved=", if that is there.
unfoldable pub interleaved_value : Bytes → Option ℕ → Option (ℤ × ℤ)
unfolding with_rtp extract_int
interleaved_value lower none = some (pos 0, pos 1)
interleaved_value lower (some i) = with_rtp (extract_int (drop (i + 12) lower))

unfoldable pub over_tcp : Bytes → Option ℕ → Option (ℤ × ℤ)
unfolding interleaved_value find
over_tcp lower none = none
over_tcp lower (some _) = interleaved_value lower (find (codes "interleaved=") lower)

-- `none` is the return value false.
unfoldable pub parse_interleaved_channels : Bytes → Option (ℤ × ℤ)
unfolding over_tcp lower_copy find
parse_interleaved_channels transport =
    over_tcp (lower_copy transport) (find (codes "rtp/avp/tcp") (lower_copy transport))

-- `return {make_response(…), start_play, close_session}` with the state as it is then.
unfoldable pub reply : Bytes → Bool → Bool → RtspControlState → RtspControlResult × RtspControlState
reply response start_play close_session state =
    (record { response = response; start_play = start_play; close_session = close_session }, state)

abbrev pub public_methods : Bytes
public_methods = codes "OPTIONS, DESCRIBE, SETUP, PLAY, TEARDOWN, GET_PARAMETER"

unfoldable pub session_of : Bytes → Bytes
unfolding header_value message_header_part
session_of request = header_value (message_header_part request) (codes "Session")

abbrev session_line : RtspControlState → Bytes
session_line state = codes "Session: " ++ state.session_id

unfoldable pub handle_describe :
    Bytes → ℤ → VideoCodec → Bytes → RtspControlState → RtspControlResult × RtspControlState
unfolding make_response build_sdp to_string_ℤ reply
handle_describe cseq channel codec codec_fmtp state =
    reply
      (make_response 200 cseq
        (codes "Content-Type: application/sdp"
          ∷ (codes "Content-Base: /ch" ++ (to_string_ℤ channel ++ codes "/"))
          ∷ [])
        (build_sdp channel codec codec_fmtp))
      false false state

-- The branch of SETUP behind `parse_interleaved_channels`.
unfoldable pub setup_channels :
    Bytes → Bytes → ℤ → RtspControlState → Option (ℤ × ℤ) → RtspControlResult × RtspControlState
unfolding make_response to_string_ℤ reply
setup_channels fresh cseq channel state none =
    reply (make_response 461 cseq [] []) false false state
setup_channels fresh cseq channel state (some (rtp, rtcp)) =
    reply
      (make_response 200 cseq
        ((codes "Transport: RTP/AVP/TCP;unicast;interleaved="
            ++ (to_string_ℤ rtp ++ (codes "-" ++ to_string_ℤ rtcp)))
          ∷ (codes "Session: " ++ (fresh ++ codes ";timeout=60"))
          ∷ [])
        [])
      false false
      (record {
        phase = ready;
        session_id = fresh;
        channel_id = channel;
        rtp_channel = rtp;
        rtcp_channel = rtcp;
      })

unfoldable pub is_initial : RtspControlPhase → Bool
is_initial initial = true
is_initial _ = false

unfoldable pub is_ready : RtspControlPhase → Bool
is_ready ready = true
is_ready _ = false

unfoldable pub handle_setup :
    Bytes → Bytes → Bytes → ℤ → RtspControlState → RtspControlResult × RtspControlState
unfolding setup_channels is_initial header_value message_header_part parse_interleaved_channels
    make_response reply
handle_setup fresh request cseq channel state =
    if not (is_initial state.phase)
    then reply (make_response 455 cseq [] []) false false state
    else setup_channels fresh cseq channel state (
        parse_interleaved_channels (header_value (message_header_part request) (codes "Transport")))

unfoldable pub handle_play :
    Bytes → Bytes → ℤ → RtspControlState → RtspControlResult × RtspControlState
unfolding make_response valid_session_header session_of to_string_ℤ is_ready reply
handle_play request cseq channel state =
    if not (is_ready state.phase) || not (eqb_ℤ state.channel_id channel)
    then reply (make_response 455 cseq [] []) false false state
    else if not (valid_session_header (session_of request) state.session_id)
    then reply (make_response 454 cseq [] []) false false state
    else reply
        (make_response 200 cseq
          (session_line state
            ∷ (codes "RTP-Info: url=/ch" ++ (to_string_ℤ channel ++ codes "/trackID=0"))
            ∷ [])
          [])
        true false (record state { phase = playing })

unfoldable pub handle_get_parameter :
    Bytes → Bytes → RtspControlState → RtspControlResult × RtspControlState
unfolding make_response valid_session_header session_of reply
handle_get_parameter request cseq state =
    if not (valid_session_header (session_of request) state.session_id)
    then reply (make_response 454 cseq [] []) false false state
    else reply (make_response 200 cseq (session_line state ∷ []) []) false false state

unfoldable pub handle_teardown :
    Bytes → Bytes → RtspControlState → RtspControlResult × RtspControlState
unfolding make_response valid_session_header session_of reply
handle_teardown request cseq state =
    if not (valid_session_header (session_of request) state.session_id)
    then reply (make_response 454 cseq [] []) false false state
    else reply (make_response 200 cseq (session_line state ∷ []) []) false true
        (record state { phase = closed })

-- The tests of the method, behind that of the channel.
unfoldable pub handle_channel :
    Bytes
    → Bytes
    → Bytes
    → ℤ
    → VideoCodec
    → Bytes
    → Bytes
    → RtspControlState
    → RtspControlResult × RtspControlState
unfolding handle_describe handle_setup handle_play handle_get_parameter handle_teardown
    make_response equal reply
handle_channel fresh request cseq channel codec codec_fmtp method state =
    if equal method (codes "DESCRIBE")
    then handle_describe cseq channel codec codec_fmtp state
    else if equal method (codes "SETUP")
    then handle_setup fresh request cseq channel state
    else if equal method (codes "PLAY")
    then handle_play request cseq channel state
    else if equal method (codes "GET_PARAMETER")
    then handle_get_parameter request cseq state
    else if equal method (codes "TEARDOWN")
    then handle_teardown request cseq state
    else reply (make_response 405 cseq ((codes "Allow: " ++ public_methods) ∷ []) []) false false
        state

unfoldable pub handle_method :
    Bytes
    → Bytes
    → Bytes
    → ℤ
    → VideoCodec
    → Bytes
    → RtspControlState
    → RtspControlResult × RtspControlState
unfolding handle_channel make_response equal rtsp_method_from_request extract_request_target
    parse_public_channel_id reply
handle_method fresh request cseq registered codec codec_fmtp state =
    let method = rtsp_method_from_request request in
    let channel = parse_public_channel_id (extract_request_target request) in
    if equal method (codes "OPTIONS")
    then reply (make_response 200 cseq ((codes "Public: " ++ public_methods) ∷ []) []) false false
        state
    else if ltb_ℤ channel (pos 0) || not (eqb_ℤ channel registered)
    then reply (make_response 404 cseq [] []) false false state
    else handle_channel fresh request cseq channel codec codec_fmtp method state

unfoldable pub cseq_then :
    Bytes
    → Bytes
    → Bytes
    → ℤ
    → VideoCodec
    → Bytes
    → RtspControlState
    → RtspControlResult × RtspControlState
unfolding handle_method make_response reply
cseq_then [] fresh request registered codec codec_fmtp state =
    reply (make_response 400 [] [] []) false true state
cseq_then (c ∷ cseq) fresh request registered codec codec_fmtp state =
    handle_method fresh request (c ∷ cseq) registered codec codec_fmtp state

unfoldable pub process_rtsp_request :
    ℕ → ℕ → Bytes → ℤ → VideoCodec → Bytes → RtspControlState → RtspControlResult × RtspControlState
unfolding cseq_then cseq_from_message random_session_id
process_rtsp_request random1 random2 request registered_channel_id codec codec_fmtp state =
    cseq_then (cseq_from_message request) (random_session_id random1 random2) request
      registered_channel_id codec codec_fmtp state
