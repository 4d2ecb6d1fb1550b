-- ===== src/Startup/Tests.antt =====
-- A run of the startup.
use rpi_server.Prelude.{◌≡◌, ◌++◌, refl, true, none, some, List, [], ◌∷◌, length}
use rpi_server.Prelude.Int.{pos}
use rpi_server.Bytes.{Bytes, codes}
use rpi_server.Config.{
  VmsConfig, defaults, options, choose, handled, parsed, parse_vms_args, check_host, take_password,
  check_rest,
}
use rpi_server.Channels.{ChannelMapping, parse_channel_map, map_loop}
use rpi_server.Ingest.{ChannelIngestConfig}
use rpi_server.Startup.{
  build_camera_rtsp_location, channel_output_dir, live_config, workers_accepted, wire_up,
}
use rpi_server.Startup.Accepted.{wire_up_made}

abbrev slash : Bytes → Bytes → Bytes
slash a b = a ++ (codes "/" ++ b)

abbrev command_line : List Bytes
command_line =
    codes "--camera-host"
    ∷ codes "10.0.0.5"
    ∷ codes "--camera-password"
    ∷ codes "secret"
    ∷ codes "--channel-map"
    ∷ codes "0:2,3:1"
    ∷ []

abbrev accepted : VmsConfig
accepted = record defaults {
  camera_host = codes "10.0.0.5";
  camera_password = codes "secret";
  channel_map = codes "0:2,3:1";
  media_db = codes "/mnt/vms-storage/index/media.db";
}

first_run : parse_vms_args slash none command_line ≡ parsed accepted
unfolding parse_vms_args choose options handled check_host take_password check_rest
first_run = refl

abbrev mappings : List ChannelMapping
mappings =
    record { camera_channel = pos 0; channel_id = pos 2 }
    ∷ record { camera_channel = pos 3; channel_id = pos 1 }
    ∷ []

mappings_parsed : parse_channel_map (codes "0:2,3:1") ≡ some mappings
unfolding parse_channel_map map_loop
mappings_parsed = refl

places :
    (build_camera_rtsp_location accepted (pos 3) ≡ codes "rtsp://10.0.0.5:554/3/profile2/media.smp")
    × (channel_output_dir slash (codes "/mnt") (pos 2) ≡ some (codes "/mnt/recordings/ch2"))
unfolding build_camera_rtsp_location channel_output_dir
places = (refl, refl)

wire_up_made_example :
    (is : List ChannelIngestConfig) × (wire_up slash accepted mappings
      ≡ some (is, live_config accepted mappings))
    × (workers_accepted is ≡ true)
    × (length is ≡ 2)
wire_up_made_example =
    wire_up_made slash none command_line accepted mappings first_run mappings_parsed
