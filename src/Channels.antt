-- ===== src/Channels.antt =====
-- src/media/channel_manager.cpp: the channel map of the command line, and the test that the
-- constructor of `ChannelManager` makes of its channels. An exception is `none` or `false`.
pub mod Mapping
mod Tests
use rpi_server.Prelude.{
  ℕ, zero, suc, ◌+◌, Bool, true, false, not, ◌||◌, Option, none, some, List, [], ◌∷◌, ◌++◌, ltb,
  ◌==◌, if◌then◌else◌, length, take, drop,
}
use rpi_server.Prelude.Int.{ℤ, pos, ltb_ℤ, eqb_ℤ}
use rpi_server.Bytes.{Bytes, codes, find}
use rpi_server.Bytes.Number.{stoi, to_string_ℤ}

pub record ChannelMapping : Type 0 where
  pub camera_channel : ℤ
  pub channel_id : ℤ

unfoldable pub consumed_in_range : Bytes → ℤ → ℤ → Option (ℤ × ℕ) → Option ℤ
consumed_in_range value min_value max_value none = none
consumed_in_range value min_value max_value (some (n, consumed)) =
    if not (consumed == length value) || (ltb_ℤ n min_value || ltb_ℤ max_value n)
    then none
    else some n

unfoldable pub parse_mapping_number : Bytes → ℤ → ℤ → Option ℤ
unfolding consumed_in_range stoi
parse_mapping_number value min_value max_value =
    consumed_in_range value min_value max_value (stoi value)

unfoldable pub both_numbers : Option ℤ → Option ℤ → Option ChannelMapping
both_numbers (some camera) (some channel) =
    some (record { camera_channel = camera; channel_id = channel })
both_numbers _ _ = none

unfoldable pub is_found : Option ℕ → Bool
is_found none = false
is_found (some i) = true

-- One entry, cut at its only colon.
unfoldable pub parse_at : Bytes → Option ℕ → Option ChannelMapping
unfolding both_numbers parse_mapping_number is_found find
parse_at item none = none
parse_at item (some separator) =
    if is_found (find (codes ":") (drop (separator + 1) item))
    then none
    else both_numbers (parse_mapping_number (take separator item) (pos 0) (pos 3))
        (parse_mapping_number (drop (separator + 1) item) (pos 1) (pos 4))

unfoldable pub parse_item : Bytes → Option ChannelMapping
unfolding parse_at find
parse_item item = parse_at item (find (codes ":") item)

-- `camera_seen`, `channel_seen` and `mappings`.
pub record Seen : Type 0 where
  pub camera_seen : ℤ → Bool
  pub channel_seen : ℤ → Bool
  pub mappings : List ChannelMapping

unfoldable pub mark : (ℤ → Bool) → ℤ → ℤ → Bool
mark seen n m = eqb_ℤ m n || seen m

unfoldable pub added : Seen → ChannelMapping → Seen
unfolding mark
added s m = record {
  camera_seen = mark s.camera_seen m.camera_channel;
  channel_seen = mark s.channel_seen m.channel_id;
  mappings = s.mappings ++ (m ∷ []);
}

-- The tests for duplicates, and the entry added.
unfoldable pub add_mapping : Seen → Option ChannelMapping → Option Seen
unfolding added
add_mapping s none = none
add_mapping s (some m) =
    if s.camera_seen m.camera_channel || s.channel_seen m.channel_id then none else some (added s m)

unfoldable pub nothing_seen : Seen
nothing_seen = record { camera_seen = λ n. false; channel_seen = λ n. false; mappings = [] }

-- How the loop goes on behind an entry: `rest` is what stands behind its comma.
unfoldable pub behind_comma : Option Seen → Bytes → (Seen → Option Seen) → Option Seen
behind_comma none rest next = none
behind_comma (some s) [] next = none
behind_comma (some s) (c ∷ rest) next = next s

-- A round, with what `find` says of the comma.
unfoldable pub map_round : Option ℕ → Bytes → Seen → (Bytes → Seen → Option Seen) → Option Seen
unfolding add_mapping parse_item behind_comma
map_round none value s next = add_mapping s (parse_item value)
map_round (some comma) value s next =
    behind_comma (add_mapping s (parse_item (take comma value))) (drop (comma + 1) value)
      (next (drop (comma + 1) value))

-- The loop, over what is left of `value`; a round takes one byte at least, so the number of bytes
-- is enough fuel.
unfoldable pub map_loop : ℕ → Bytes → Seen → Option Seen
unfolding map_round find
map_loop zero value s = some s
map_loop (suc fuel) [] s = some s
map_loop (suc fuel) (c ∷ value) s =
    map_round (find (codes ",") (c ∷ value)) (c ∷ value) s (λ rest t. map_loop fuel rest t)

unfoldable pub mappings_of : Option Seen → Option (List ChannelMapping)
mappings_of none = none
mappings_of (some s) = some s.mappings

unfoldable pub parse_channel_map : Bytes → Option (List ChannelMapping)
unfolding map_loop mappings_of nothing_seen
parse_channel_map [] = none
parse_channel_map (c ∷ value) = mappings_of (map_loop (length (c ∷ value)) (c ∷ value) nothing_seen)

-- The loop of the constructor of `ChannelManager` over the mappings of its configurations.
unfoldable pub is_entry : ChannelMapping → Bool
is_entry m = not (
    ltb_ℤ m.camera_channel (pos 0)
    || (ltb_ℤ (pos 3) m.camera_channel
        || (ltb_ℤ m.channel_id (pos 1) || ltb_ℤ (pos 4) m.channel_id)))

unfoldable pub accepts_from : List ChannelMapping → Seen → Bool
unfolding added is_entry
accepts_from [] s = true
accepts_from (m ∷ mappings) s =
    let next = accepts_from mappings (added s m) in
    if not (is_entry m)
    then false
    else if s.camera_seen m.camera_channel || s.channel_seen m.channel_id
    then false
    else next

unfoldable pub accepts : List ChannelMapping → ℤ → Bool
unfolding accepts_from nothing_seen
accepts mappings channel_start_delay_ms =
    if length mappings == 0 || ltb 4 (length mappings)
    then false
    else if ltb_ℤ channel_start_delay_ms (pos 0)
    then false
    else accepts_from mappings nothing_seen
