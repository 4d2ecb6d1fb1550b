-- ===== src/Control/Target.antt =====
-- src/live/live_rtsp_server.cpp: `parse_public_channel_id`, the channel that a request names.
use rpi_server.Prelude.{
  ℕ, ◌+◌, Bool, true, not, ◌&&◌, ◌||◌, Option, none, some, [], ◌∷◌, ltb, ◌==◌, if◌then◌else◌,
  length, take, drop,
}
use rpi_server.Prelude.Int.{ℤ, pos, negsuc, leb_ℤ}
use rpi_server.Bytes.{Bytes, codes, find, find_first, is_prefix, is_digit, skip_while, take_while}
use rpi_server.Bytes.Number.{stoi}

-- The path of a URL with a scheme; `rest` is what follows "://".
unfoldable pub behind_host : Bytes → Bytes
unfolding find
behind_host rest = elim (find (codes "/") rest) [ none ↦ codes "/" | some slash ↦ drop slash rest ]

unfoldable pub path_of : Bytes → Bytes
unfolding find behind_host
path_of request_target = elim (find (codes "://") request_target) [
  | none ↦ request_target
  | some scheme ↦ behind_host (drop (scheme + 3) request_target)
]

unfoldable pub without_query : Bytes → Bytes
unfolding find_first
without_query path = elim (find_first (λ c. c == b'?' || c == b'#') path) [
  | none ↦ path
  | some query ↦ take query path
]

-- `channel >= 1 && channel <= 4 ? channel : -1`, and -1 where `std::stoi` throws.
unfoldable pub public_channel : Option (ℤ × ℕ) → ℤ
public_channel none = negsuc 0
public_channel (some (channel, consumed)) =
    if leb_ℤ (pos 1) channel && leb_ℤ channel (pos 4) then channel else negsuc 0

-- The byte behind the digits is the end of the path or a slash.
unfoldable pub ends_segment : Bytes → Bool
ends_segment [] = true
ends_segment (c ∷ s) = c == b'/'

unfoldable pub channel_of_path : Bytes → ℤ
unfolding is_prefix take_while skip_while stoi public_channel ends_segment
channel_of_path path =
    let digits = take_while is_digit (drop 3 path) in
    if ltb (length path) 4 || not (is_prefix (codes "/ch") path)
    then negsuc 0
    else if length digits == 0 || not (ends_segment (skip_while is_digit (drop 3 path)))
    then negsuc 0
    else public_channel (stoi digits)

unfoldable pub parse_public_channel_id : Bytes → ℤ
unfolding path_of without_query channel_of_path
parse_public_channel_id request_target = channel_of_path (without_query (path_of request_target))
