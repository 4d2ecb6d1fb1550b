-- ===== src/Channels/Tests.antt =====
-- Runs of the channel map.
use rpi_server.Prelude.{◌≡◌, refl, none, some, List, [], ◌∷◌}
use rpi_server.Prelude.Int.{pos}
use rpi_server.Bytes.{codes}
use rpi_server.Channels.{ChannelMapping, parse_channel_map, map_loop}

abbrev two_channels : List ChannelMapping
two_channels =
    record { camera_channel = pos 0; channel_id = pos 2 }
    ∷ record { camera_channel = pos 3; channel_id = pos 1 }
    ∷ []

two_channels_parsed : parse_channel_map (codes "0:2,3:1") ≡ some two_channels
unfolding parse_channel_map map_loop
two_channels_parsed = refl

duplicate_refused : parse_channel_map (codes "0:2,3:2") ≡ none
unfolding parse_channel_map map_loop
duplicate_refused = refl

comma_refused : parse_channel_map (codes "0:2,") ≡ none
unfolding parse_channel_map map_loop
comma_refused = refl
