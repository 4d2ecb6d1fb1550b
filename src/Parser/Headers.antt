-- ===== src/Parser/Headers.antt =====
-- src/rtsp/rtsp_message_parser.cpp: the parts of a message.
use rpi_server.Prelude.{
  ℕ, zero, suc, ◌+◌, ◌-◌, ◌^◌, Bool, true, false, not, none, some, List, [], ◌∷◌, ◌++◌, ltb,
  if◌then◌else◌, length, take, drop,
}
use rpi_server.Prelude.Int.{ℤ, pos, negsuc}
use rpi_server.Bytes.{Bytes, codes, crlf, blank_line, find, is_prefix, is_digit, all_bytes}
use rpi_server.Bytes.Number.{scan, decimal, stoi}
use rpi_server.Parser.Text.{
  lower_copy, starts_with_ci, trim_copy, split_lines_keep_empty, next_word,
}

unfoldable pub get_first_line : Bytes → Bytes
unfolding find
get_first_line message = elim (find crlf message) [
  | none ↦ message
  | some first_eol ↦ take first_eol message
]

unfoldable pub message_header_part : Bytes → Bytes
unfolding find
message_header_part message = elim (find blank_line message) [
  | none ↦ message
  | some header_end ↦ take (header_end + 4) message
]

-- The loop of `header_value`. An empty string is returned where no line has the name, and a last
-- line with no end is not looked at.
unfoldable pub value_loop : ℕ → Bytes → Bytes → Bytes
value_loop zero prefix s = []
value_loop (suc fuel) prefix [] = []
value_loop (suc fuel) prefix (c ∷ s) = elim (find crlf (c ∷ s)) [
  | none ↦ []
  | some end ↦
      let line = take end (c ∷ s) in
      let later = value_loop fuel prefix (drop (end + 2) (c ∷ s)) in
      if starts_with_ci line prefix then trim_copy (drop (length prefix) line) else later
]

unfoldable pub header_value : Bytes → Bytes → Bytes
unfolding value_loop starts_with_ci trim_copy find
header_value header name = value_loop (length header) (lower_copy name ++ (b':' ∷ [])) header

-- The `int` of a value that is not empty and has digits only: -1 where `std::stoi` throws.
length_of_digits : Bytes → ℤ
unfolding stoi
length_of_digits value = elim (stoi value) [ none ↦ negsuc 0 | some (v, consumed) ↦ v ]

length_value : Bytes → ℤ
unfolding length_of_digits all_bytes
length_value [] = negsuc 0
length_value (c ∷ s) =
    if not (all_bytes is_digit (c ∷ s)) then negsuc 0 else length_of_digits (c ∷ s)

-- The loop over the lines; the first one with the name decides.
unfoldable pub content_length_lines : List Bytes → ℤ
unfolding length_value starts_with_ci trim_copy
content_length_lines [] = pos 0
content_length_lines (line ∷ lines) =
    if not (starts_with_ci line (codes "Content-Length:"))
    then content_length_lines lines
    else length_value (trim_copy (drop 15 line))

unfoldable pub content_length_from_header : Bytes → ℤ
unfolding content_length_lines split_lines_keep_empty
content_length_from_header header = content_length_lines (split_lines_keep_empty header)

-- `stream >> number`: 0 where no number is read, the end of the range where it does not fit.
clamped : Bool → ℕ → ℤ
clamped true zero = pos 0
clamped true (suc n) = if ltb n (2 ^ 31) then negsuc n else negsuc (2 ^ 31 - 1)
clamped false n = if ltb n (2 ^ 31) then pos n else pos (2 ^ 31 - 1)

unfoldable pub read_int : Bytes → ℤ
unfolding scan decimal clamped
read_int s = let r = scan s in clamped r.negative (decimal 0 r.digits)

unfoldable pub rtsp_status_code : Bytes → ℤ
unfolding get_first_line next_word read_int
rtsp_status_code message = read_int (next_word (get_first_line message)).1

unfoldable pub rtsp_method_from_request : Bytes → Bytes
unfolding get_first_line next_word
rtsp_method_from_request request = (next_word (get_first_line request)).0

unfoldable pub extract_request_target : Bytes → Bytes
unfolding get_first_line next_word
extract_request_target message = (next_word (next_word (get_first_line message)).1).0

unfoldable pub cseq_from_message : Bytes → Bytes
unfolding header_value message_header_part
cseq_from_message message = header_value (message_header_part message) (codes "CSeq")

unfoldable pub method_or_status : Bytes → Bytes
unfolding get_first_line is_prefix next_word rtsp_method_from_request
method_or_status message =
    let first = get_first_line message in
    if is_prefix (codes "RTSP/") first
    then codes "status=" ++ (next_word (next_word first).1).0
    else codes "method=" ++ rtsp_method_from_request message
