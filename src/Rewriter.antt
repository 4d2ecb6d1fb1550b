-- ===== src/Rewriter.antt =====
-- src/rtsp/rtsp_rewriter.cpp: the proxy's rewriting of requests to the camera and of its responses.
pub mod Names
mod Tests
use rpi_server.Prelude.{
  ℕ, ◌+◌, ◌-◌, Bool, true, false, not, ◌&&◌, ◌||◌, Option, none, some, List, [], ◌∷◌, ◌++◌, leb,
  ltb, ◌==◌, if◌then◌else◌, length, take, drop,
}
use rpi_server.Prelude.Int.{ℤ, pos, negsuc, ltb_ℤ, leb_ℤ}
use rpi_server.Bytes.{Bytes, codes, crlf, blank_line, find, find_from, equal, is_digit}
use rpi_server.Bytes.Number.{to_string, to_string_ℤ}
use rpi_server.Parser.Text.{
  lower_copy, starts_with_ci, replace_all, split_lines_keep_empty, next_word,
}

-- The digit behind "/ch", if it names a channel.
unfoldable pub channel_digit : ℤ → Bytes → ℤ
channel_digit max_channels [] = negsuc 0
channel_digit max_channels (c ∷ rest) =
    if not (is_digit c)
    then negsuc 0
    else if leb_ℤ max_channels (pos (c - b'0'))
    then negsuc 0
    else pos (c - b'0')

unfoldable pub channel_at : ℤ → Bytes → Option ℕ → ℤ
unfolding channel_digit
channel_at max_channels target none = negsuc 0
channel_at max_channels target (some i) = channel_digit max_channels (drop (i + 3) target)

unfoldable pub parse_channel_from_request_target : Bytes → ℤ → ℤ
unfolding channel_at lower_copy find
parse_channel_from_request_target target max_channels =
    channel_at max_channels target (find (codes "/ch") (lower_copy target))

base_at : Bytes → Bytes → Option ℕ → Bytes
base_at target key none = key
base_at target key (some i) = take (i + length key) target

unfoldable pub extract_public_base_from_target : Bytes → ℤ → Bytes
unfolding base_at lower_copy find to_string_ℤ
extract_public_base_from_target target channel =
    let key = codes "/ch" ++ to_string_ℤ channel in
    base_at target key (find (lower_copy key) (lower_copy target))

pub record RtspRewriter : Type 0 where
  pub upstream_base : Bytes
  pub public_base : Bytes

-- The constructor, with the fields of the configuration that it reads.
unfoldable pub new_rewriter : Bytes → ℤ → Bytes → ℤ → Bytes → RtspRewriter
unfolding replace_all to_string_ℤ
new_rewriter camera_host camera_port camera_path_template channel public_base = record {
  upstream_base =
      codes "rtsp://"
      ++ (camera_host
          ++ (codes ":"
              ++ (to_string_ℤ camera_port
                  ++ replace_all camera_path_template (codes "{channel}") (to_string_ℤ channel))));
  public_base = public_base;
}

suffix_at : Bytes → Option ℕ → Bytes
suffix_at target none = []
suffix_at target (some i) = drop (i + 4) target

is_empty : Bytes → Bool
is_empty [] = true
is_empty (c ∷ s) = false

-- The request line; it stays where it has no three words.
unfoldable pub rewrite_first : RtspRewriter → Bytes → Bytes
unfolding next_word suffix_at is_empty lower_copy find
rewrite_first r first =
    let method = next_word first in
    let target = next_word method.1 in
    let version = next_word target.1 in
    if is_empty method.0 || (is_empty target.0 || is_empty version.0)
    then first
    else method.0
      ++ (codes " "
          ++ (r.upstream_base
              ++ (suffix_at target.0 (find (codes "/ch") (lower_copy target.0))
                  ++ (codes " " ++ version.0))))

abbrev transport_line : Bytes
transport_line = codes "Transport: RTP/AVP/TCP;unicast;interleaved=0-1\r\n"

rewrite_line : RtspRewriter → Bytes → Bytes
unfolding starts_with_ci replace_all
rewrite_line r [] = crlf
rewrite_line r (c ∷ line) =
    if starts_with_ci (c ∷ line) (codes "Transport:")
    then transport_line
    else replace_all (c ∷ line) r.public_base r.upstream_base ++ crlf

unfoldable pub rewrite_lines : RtspRewriter → List Bytes → Bytes
unfolding rewrite_line
rewrite_lines r [] = []
rewrite_lines r (line ∷ lines) = rewrite_line r line ++ rewrite_lines r lines

unfoldable pub had_transport : List Bytes → Bool
unfolding starts_with_ci
had_transport [] = false
had_transport (line ∷ lines) = starts_with_ci line (codes "Transport:") || had_transport lines

insert_transport : Bytes → Option ℕ → Bytes
insert_transport out none = out
insert_transport out (some header_end) =
    take (header_end + 2) out ++ (transport_line ++ drop (header_end + 2) out)

with_transport : Bytes → Bool → Bytes → Bytes
unfolding insert_transport lower_copy equal find
with_transport method had out =
    if not had && equal (lower_copy method) (codes "setup")
    then insert_transport out (find blank_line out)
    else out

request_at : RtspRewriter → Bytes → Option ℕ → Bytes
unfolding rewrite_first rewrite_lines had_transport with_transport split_lines_keep_empty next_word
request_at r message none = message
request_at r message (some first_eol) =
    let first = take first_eol message in
    let lines = split_lines_keep_empty (drop (first_eol + 2) message) in
    with_transport (next_word first).0 (had_transport lines)
      (rewrite_first r first ++ (crlf ++ rewrite_lines r lines))

unfoldable pub rewrite_client_request : RtspRewriter → Bytes → Bytes
unfolding request_at find
rewrite_client_request r message = request_at r message (find crlf message)

-- The line from `start` to `line_end` of a header, replaced.
set_length : Bytes → ℕ → ℕ → Option ℕ → Bytes
unfolding to_string
set_length header size start none = header
set_length header size start (some line_end) =
    take start header ++ (codes "Content-Length: " ++ (to_string size ++ drop line_end header))

length_at : Bytes → ℕ → Option ℕ → Bytes
unfolding set_length find_from
length_at header size none = header
length_at header size (some start) = set_length header size start (find_from crlf header start)

unfoldable pub response_at : RtspRewriter → Bytes → Option ℕ → Bytes
unfolding length_at replace_all lower_copy find
response_at r message none = replace_all message r.upstream_base r.public_base
response_at r message (some header_end) =
    let header = replace_all (take (header_end + 4) message) r.upstream_base r.public_base in
    let body = replace_all (drop (header_end + 4) message) r.upstream_base r.public_base in
    length_at header (length body) (find (codes "content-length:") (lower_copy header)) ++ body

unfoldable pub rewrite_camera_response : RtspRewriter → Bytes → Bytes
unfolding response_at find
rewrite_camera_response r [] = response_at r [] (find blank_line [])
rewrite_camera_response r (c ∷ message) =
    if c == b'$' then c ∷ message else response_at r (c ∷ message) (find blank_line (c ∷ message))
