-- ===== src/Parser/Extract.antt =====
-- src/rtsp/rtsp_message_parser.cpp: `extract_one_rtsp_message` and the functions under it. The
-- caller's `buffer` and `message` are in the result. One round of the loop is `round`; the loop
-- itself is on fuel, since some buffers keep it going for ever.
pub mod Sound
pub mod Starts
pub mod Rejects
pub mod Goes
pub mod Progress
pub mod Frames
pub mod Spin
mod Tests
use rpi_server.Prelude.{
  ℕ, zero, suc, ◌+◌, ◌-◌, ◌*◌, ◌≡◌, Bool, true, false, not, ◌&&◌, ◌||◌, Option, none, some, List,
  [], ◌∷◌, ltb, leb, ◌==◌, if◌then◌else◌, length, take, drop, get_or,
}
use rpi_server.Prelude.Int.{ℤ, pos, negsuc}
use rpi_server.Bytes.{Bytes, codes, blank_line, find, is_prefix, equal}
use rpi_server.Parser.Headers.{content_length_from_header}

pub record ParserLimits : Type 0 where
  pub max_header_bytes : ℕ
  pub max_body_bytes : ℕ

unfoldable pub starts_with_at : Bytes → ℕ → Bytes → Bool
unfolding equal
starts_with_at s at prefix =
    leb at (length s)
    && (leb (length prefix) (length s - at) && equal (take (length prefix) (drop at s)) prefix)

abbrev pub prefixes : List Bytes
prefixes =
    codes "RTSP/"
    ∷ codes "OPTIONS "
    ∷ codes "DESCRIBE "
    ∷ codes "SETUP "
    ∷ codes "PLAY "
    ∷ codes "PAUSE "
    ∷ codes "TEARDOWN "
    ∷ codes "GET_PARAMETER "
    ∷ codes "SET_PARAMETER "
    ∷ codes "ANNOUNCE "
    ∷ codes "RECORD "
    ∷ []

unfoldable pub any_starts : Bytes → ℕ → List Bytes → Bool
unfolding starts_with_at
any_starts s at [] = false
any_starts s at (p ∷ ps) = starts_with_at s at p || any_starts s at ps

unfoldable pub is_rtsp_message_start_at : Bytes → ℕ → Bool
unfolding any_starts
is_rtsp_message_start_at s at = any_starts s at prefixes

-- The loop, with the number of rounds left.
unfoldable pub next_start : ℕ → Bytes → ℕ → Option ℕ
next_start zero buffer i = none
next_start (suc rounds) buffer i =
    let later = next_start rounds buffer (i + 1) in
    if get_or buffer i 0 == b'$' || is_rtsp_message_start_at buffer i then some i else later

unfoldable pub find_next_message_start : Bytes → ℕ → Option ℕ
unfolding next_start is_rtsp_message_start_at
find_next_message_start buffer start = next_start (length buffer - start) buffer start

-- The buffer after it, and whether a next start was found.
resync_at : ParserLimits → Bytes → Option ℕ → Bytes × Bool
resync_at limits buffer (some next) = (drop next buffer, true)
resync_at limits buffer none =
    (if ltb limits.max_header_bytes (length buffer) then [] else buffer, false)

pub resync_message_buffer : ParserLimits → Bytes → Bytes × Bool
unfolding resync_at
resync_message_buffer limits buffer = resync_at limits buffer (find_next_message_start buffer 1)

-- `got m b` returns true, `pending b` returns false; `b` is the buffer left. `stuck` is no result
-- of the code: the loop has not ended within the fuel.
pub data Extracted : Type 0 where
  got : Bytes → Bytes → Extracted
  pending : Bytes → Extracted
  stuck : Extracted

-- How a round of the loop ends: by a return, or by a `continue` with the buffer left.
pub data Round : Type 0 where
  done : Extracted → Round
  again : Bytes → Round

unfoldable pub take_message : ℕ → Bytes → Round
take_message total buffer =
    if ltb (length buffer) total
    then done (pending buffer)
    else done (got (take total buffer) (drop total buffer))

unfoldable pub interleaved_round : Bytes → Round
interleaved_round buffer =
    if ltb (length buffer) 4
    then done (pending buffer)
    else take_message (4 + (get_or buffer 2 0 * 256 + get_or buffer 3 0)) buffer

unfoldable pub body_round : ParserLimits → ℕ → ℤ → Bytes → Round
body_round limits header_bytes (negsuc n) buffer = again (resync_message_buffer limits buffer).0
body_round limits header_bytes (pos body_len) buffer =
    if ltb limits.max_body_bytes body_len
    then again (resync_message_buffer limits buffer).0
    else take_message (header_bytes + body_len) buffer

unfoldable pub header_round : ParserLimits → Option ℕ → Bytes → Round
header_round limits none buffer =
    if ltb limits.max_header_bytes (length buffer)
    then done (pending (resync_message_buffer limits buffer).0)
    else done (pending buffer)
header_round limits (some header_end) buffer =
    let header_bytes = header_end + 4 in
    if ltb limits.max_header_bytes header_bytes
    then again (resync_message_buffer limits buffer).0
    else body_round limits header_bytes (content_length_from_header (take header_bytes buffer))
        buffer

pub resynced : Bytes × Bool → Round
resynced (buffer, true) = again buffer
resynced (buffer, false) = done (pending buffer)

unfoldable pub round : ParserLimits → Bytes → Round
round limits [] = done (pending [])
round limits (c ∷ rest) =
    if c == b'$'
    then interleaved_round (c ∷ rest)
    else if not (is_rtsp_message_start_at (c ∷ rest) 0)
    then resynced (resync_message_buffer limits (c ∷ rest))
    else header_round limits (find blank_line (c ∷ rest)) (c ∷ rest)

unfoldable pub extract_one_rtsp_message : ℕ → ParserLimits → Bytes → Extracted
extract_one_rtsp_message zero limits buffer = stuck
extract_one_rtsp_message (suc fuel) limits buffer = elim (round limits buffer) [
  | done result ↦ result
  | again buffer' ↦ extract_one_rtsp_message fuel limits buffer'
]
