-- ===== src/Parser/Extract/Tests.antt =====
-- Runs of the message framing, and the theorems at concrete buffers.
use rpi_server.Prelude.{◌≡◌, ◌≤◌, ◌↔◌, refl, none, ◌++◌, length, arith}
use rpi_server.Prelude.Int.{pos}
use rpi_server.Bytes.{Bytes, codes, find}
use rpi_server.Parser.Headers.{content_length_from_header}
use rpi_server.Parser.Extract.Sound.{IsStart, extract_sound}
use rpi_server.Parser.Extract.Progress.{Loops, stuck_iff}
use rpi_server.Parser.Extract.Frames.{IsHeader, extract-message, extract_partial}
use rpi_server.Parser.Extract.Rejects.{IsRefused}
use rpi_server.Parser.Extract.Spin.{refused_header_stuck}
use rpi_server.Parser.Extract.{
  ParserLimits, is_rtsp_message_start_at, find_next_message_start, resync_at, resync_message_buffer,
  got, pending, stuck, take_message, body_round, header_round, resynced, round,
  extract_one_rtsp_message,
}

abbrev small : ParserLimits
small = record { max_header_bytes = 200; max_body_bytes = 50 }

abbrev options : Bytes
options = codes "OPTIONS rtsp://h/ch1 RTSP/1.0\r\nCSeq: 1\r\n\r\n"

abbrev with_body : Bytes
with_body = codes "SET_PARAMETER /ch1 RTSP/1.0\r\ncontent-length: 4\r\n\r\n"

abbrev refused : Bytes
refused = codes "RTSP/1.0 200 OK\r\nContent-Length: -1\r\n\r\n"

junk_then_message :
    extract_one_rtsp_message 9 small (codes "zzz\r\n" ++ (options ++ codes "PLAY"))
    ≡ got options (codes "PLAY")
unfolding extract_one_rtsp_message round header_round body_round take_message resynced
    resync_message_buffer resync_at find_next_message_start is_rtsp_message_start_at find
    content_length_from_header
junk_then_message = refl

-- A request with a Content-Length that is no number is never let go of.
request_hangs :
    extract_one_rtsp_message 50 small (codes "OPTIONS /ch1 RTSP/1.0\r\nContent-Length: x\r\n\r\n")
    ≡ stuck
unfolding extract_one_rtsp_message round header_round body_round take_message resynced
    resync_message_buffer resync_at find_next_message_start is_rtsp_message_start_at find
    content_length_from_header
request_hangs = refl

junk_then_message_stretch :
    (junk : Bytes) × (codes "zzz\r\n" ++ (options ++ codes "PLAY")
      ≡ junk ++ (options ++ codes "PLAY"))
    × (4 ≤ length options)
    × IsStart (options ++ codes "PLAY")
junk_then_message_stretch =
    extract_sound 9 small (codes "zzz\r\n" ++ (options ++ codes "PLAY")) options (codes "PLAY")
      junk_then_message

stuck_iff_example : (extract_one_rtsp_message 50 small refused ≡ stuck) ↔ Loops small refused
stuck_iff_example = stuck_iff 50 small refused (omega arith)

with_body-IsHeader : IsHeader small with_body
unfolding is_rtsp_message_start_at find
with_body-IsHeader = record {
  end = 46;
  starts = refl;
  ends = refl;
  whole = refl;
  short = omega arith;
}

with_body-length : content_length_from_header with_body ≡ pos 4
unfolding content_length_from_header
with_body-length = refl

extract-message_example :
    extract_one_rtsp_message 1 small (with_body ++ (codes "abcd" ++ options))
    ≡ got (with_body ++ codes "abcd") options
extract-message_example =
    extract-message 0 small with_body (codes "abcd") options with_body-IsHeader with_body-length
      (omega arith)

extract_partial_example :
    extract_one_rtsp_message 1 small (with_body ++ codes "abc") ≡ pending (with_body ++ codes "abc")
extract_partial_example =
    extract_partial 0 small with_body (codes "abc") 4 with_body-IsHeader with_body-length
      (omega arith) (omega arith)

refused-IsHeader : IsHeader small refused
unfolding is_rtsp_message_start_at find
refused-IsHeader = record {
  end = 35;
  starts = refl;
  ends = refl;
  whole = refl;
  short = omega arith;
}

refused-IsRefused : IsRefused small (content_length_from_header refused)
unfolding content_length_from_header
refused-IsRefused = _

refused-next : find_next_message_start refused 1 ≡ none
unfolding find_next_message_start is_rtsp_message_start_at find
refused-next = refl

refused_header_stuck_example : extract_one_rtsp_message 1000 small refused ≡ stuck
refused_header_stuck_example =
    refused_header_stuck 1000 small refused refused-IsHeader refused-IsRefused refused-next
