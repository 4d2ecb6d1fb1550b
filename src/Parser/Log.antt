-- ===== src/Parser/Log.antt =====
-- src/rtsp/rtsp_message_parser.cpp: what is logged of a message, with passwords left out. The
-- fuel of each loop is the number of bytes, of which a round takes one at least.
mod Tests
use rpi_server.Prelude.{
  ℕ, zero, suc, ◌+◌, ◌*◌, Bool, true, false, ◌||◌, Option, none, some, List, [], ◌∷◌, ◌++◌, leb,
  ltb, ◌==◌, if◌then◌else◌, length, take, drop, get_or,
}
use rpi_server.Bytes.{Bytes, codes, crlf, find, find_first}
use rpi_server.Bytes.Number.{to_string, to_string_ℤ}
use rpi_server.Parser.Text.{lower_copy, starts_with_ci}
use rpi_server.Parser.Headers.{
  message_header_part, content_length_from_header, method_or_status, cseq_from_message,
}

ends_authority : ℕ → Bool
ends_authority c = c == b'/' || (c == 32 || (c == 9 || (c == 13 || c == 10)))

-- Whether the `@` at the first position stands in the authority.
stands_before : ℕ → Option ℕ → Bool
stands_before at none = true
stands_before at (some authority_end) = ltb at authority_end

-- The loop for one scheme over what stands behind the last match; `rest` follows the scheme.
after_scheme : Option ℕ → Bytes → (Bytes → Bytes) → Bytes
unfolding stands_before ends_authority find_first
after_scheme none rest next = next rest
after_scheme (some at) rest next =
    if stands_before at (find_first ends_authority rest)
    then codes "<redacted>@" ++ next (drop (at + 1) rest)
    else next rest

unfoldable pub redact_scheme : ℕ → Bytes → Bytes → Bytes
unfolding after_scheme find lower_copy
redact_scheme zero scheme text = text
redact_scheme (suc fuel) scheme text = elim (find scheme (lower_copy text)) [
  | none ↦ text
  | some i ↦
      take (i + length scheme) text
      ++ after_scheme (find (codes "@") (drop (i + length scheme) text))
          (drop (i + length scheme) text) (λ rest. redact_scheme fuel scheme rest)
]

unfoldable pub redact_uri_userinfo : Bytes → Bytes
unfolding redact_scheme
redact_uri_userinfo text =
    let once = redact_scheme (length text) (codes "rtsp://") text in
    redact_scheme (length once) (codes "rtsps://") once

sanitized_line : Bytes → Bytes
unfolding redact_uri_userinfo starts_with_ci
sanitized_line line =
    if starts_with_ci line (codes "Authorization:")
    then codes "Authorization: <redacted>\n"
    else if starts_with_ci line (codes "Proxy-Authorization:")
    then codes "Proxy-Authorization: <redacted>\n"
    else redact_uri_userinfo line ++ codes "\n"

unfoldable pub sanitized_loop : ℕ → Bytes → Bytes
unfolding sanitized_line find
sanitized_loop zero header = []
sanitized_loop (suc fuel) [] = []
sanitized_loop (suc fuel) (c ∷ header) = elim (find crlf (c ∷ header)) [
  | none ↦ []
  | some end ↦
      sanitized_line (take end (c ∷ header)) ++ sanitized_loop fuel (drop (end + 2) (c ∷ header))
]

unfoldable pub sanitized_rtsp_for_log : Bytes → Bytes
unfolding sanitized_loop message_header_part
sanitized_rtsp_for_log message =
    sanitized_loop (length (message_header_part message)) (message_header_part message)

unfoldable pub rtsp_message_summary : Bytes → Bytes → Bytes
unfolding sanitized_rtsp_for_log message_header_part content_length_from_header method_or_status
    cseq_from_message to_string to_string_ℤ
rtsp_message_summary direction message =
    let header = message_header_part message in
    if get_or message 0 0 == b'$'
    then if leb 4 (length message)
      then direction
        ++ (codes " RTP interleaved channel="
            ++ (to_string (get_or message 1 0)
                ++ (codes " payload_len="
                    ++ to_string (get_or message 2 0 * 256 + get_or message 3 0))))
      else direction ++ (codes " RTP interleaved short message size=" ++ to_string (length message))
    else direction
      ++ (codes " RTSP "
          ++ (method_or_status message
              ++ (codes " cseq="
                  ++ (cseq_from_message message
                      ++ (codes " header_bytes="
                          ++ (to_string (length header)
                              ++ (codes " body_bytes="
                                  ++ (to_string_ℤ (content_length_from_header header)
                                      ++ (codes "\n" ++ sanitized_rtsp_for_log message)))))))))
