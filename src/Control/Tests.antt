-- ===== src/Control/Tests.antt =====
-- The theorems on the control connection at concrete requests.
use rpi_server.Prelude.{◌≡◌, ◌≤◌, inl, refl, some, [], ◌∷◌}
use rpi_server.Prelude.Int.{pos}
use rpi_server.Bytes.{Bytes, codes}
use rpi_server.FrameQueue.{h264}
use rpi_server.Control.Target.{parse_public_channel_id}
use rpi_server.Control.Reply.{random_session_id}
use rpi_server.Control.{RtspControlState, ready, parse_interleaved_channels, process_rtsp_request}
use rpi_server.Control.Phases.{IsMove, target_channel, process-Move}
use rpi_server.Control.Channels.{IsValid, start}
use rpi_server.Control.Errors.{OkOrKept, process-OkOrKept}
use rpi_server.Control.Session.{
  Asked, serve, starts, IsSame, serve-starts, serve-IsSame, serve-IsValid,
}

abbrev setup : Bytes
setup =
    codes
      "SETUP rtsp://host/ch2/trackID=0 RTSP/1.0\r\nCSeq: 3\r\nTransport: RTP/AVP/TCP;unicast;interleaved=4-5\r\n\r\n"

abbrev play_request : Bytes
play_request = codes "PLAY rtsp://host/ch2 RTSP/1.0\r\nCSeq: 4\r\nSession: 0000000700000009\r\n\r\n"

abbrev asked : Bytes → Asked
asked request = record {
  random1 = 7;
  random2 = 9;
  request = request;
  registered = pos 2;
  codec = h264;
  codec_fmtp = [];
}

abbrev set_up_state : RtspControlState
set_up_state = record {
  phase = ready;
  session_id = codes "0000000700000009";
  channel_id = pos 2;
  rtp_channel = pos 4;
  rtcp_channel = pos 5;
}

setup_then_play :
    ((serve (asked setup ∷ []) start).1 ≡ set_up_state)
    × (starts (serve (asked setup ∷ asked play_request ∷ asked play_request ∷ []) start).0 ≡ 1)
unfolding serve process_rtsp_request parse_public_channel_id parse_interleaved_channels
setup_then_play = (refl, refl)

process-Move_example :
    IsMove
      (random_session_id 7 9)
      setup
      (target_channel setup)
      (pos 2)
      start
      (process_rtsp_request 7 9 setup (pos 2) h264 [] start)
process-Move_example = process-Move 7 9 setup (pos 2) h264 [] start

process-OkOrKept_example :
    OkOrKept start (process_rtsp_request 7 9 play_request (pos 2) h264 [] start)
process-OkOrKept_example = process-OkOrKept 7 9 play_request (pos 2) h264 [] start

serve-starts_example :
    starts (serve (asked setup ∷ asked play_request ∷ asked play_request ∷ []) start).0 ≤ 1
serve-starts_example =
    serve-starts (asked setup ∷ asked play_request ∷ asked play_request ∷ []) start

serve-IsSame_example :
    IsSame set_up_state (serve (asked setup ∷ asked play_request ∷ []) set_up_state).1
serve-IsSame_example = serve-IsSame (asked setup ∷ asked play_request ∷ []) set_up_state (λ e. cc)

serve-IsValid_example : IsValid (serve (asked setup ∷ asked play_request ∷ []) start).1
serve-IsValid_example =
    serve-IsValid (asked setup ∷ asked play_request ∷ []) start (inl (refl, refl))

transport_read :
    parse_interleaved_channels (codes "RTP/AVP/TCP;unicast;interleaved=4-5") ≡ some (pos 4, pos 5)
unfolding parse_interleaved_channels
transport_read = refl
