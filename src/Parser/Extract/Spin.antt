-- ===== src/Parser/Extract/Spin.antt =====
-- A message that keeps `extract_one_rtsp_message` going for ever. The result of
-- `resync_message_buffer` is not looked at where the body length is refused, so a buffer in which
-- no other message starts, and that is not longer than the header limit, comes round unchanged.
use rpi_server.Prelude.{ℕ, ◌≡◌, ap, ◌∙◌, none, length, [], append-nil}
use rpi_server.Bytes.{Bytes}
use rpi_server.Parser.Headers.{content_length_from_header}
use rpi_server.Parser.Extract.{
  ParserLimits, find_next_message_start, stuck, again, extract_one_rtsp_message,
}
use rpi_server.Parser.Extract.Frames.{IsHeader, round-IsHeader}
use rpi_server.Parser.Extract.Progress.{Spins-stuck}
use rpi_server.Parser.Extract.Rejects.{IsRefused, resync_unchanged, body_round_refused}

-- The buffer holds a complete header `h` that is within its limit, with nothing behind it, and
-- its Content-Length is not a number, does not fit an `int`, or is over the body limit; no
-- message start and no dollar sign stands behind the first byte. Then the loop never ends: no
-- number of rounds is enough.
pub refused_header_stuck :
    (fuel : ℕ) (limits : ParserLimits) (h : Bytes)
    → IsHeader limits h
    → IsRefused limits (content_length_from_header h)
    → find_next_message_start h 1 ≡ none
    → extract_one_rtsp_message fuel limits h ≡ stuck
refused_header_stuck fuel limits h v r e = Spins-stuck fuel limits h (
    rw (append-nil h) at (round-IsHeader limits h [] v)
    ∙ body_round_refused limits (length h) (content_length_from_header h) h r
    ∙ ap again (resync_unchanged limits h e v.short))
