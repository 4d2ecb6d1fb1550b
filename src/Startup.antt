-- ===== src/Startup.antt =====
-- src/main.cpp: the parts that `main` makes of a configuration: the ingest of each channel, the live
-- server and the channel manager. The `/` of two paths is an argument. The calls of the file
-- system, of the database and of the log are left out, and of the live server's configuration the
-- fields that its constructor does not test.
pub mod Accepted
mod Tests
use rpi_server.Prelude.{
  ℕ, ◌≡◌, Bool, true, false, not, ◌&&◌, ◌||◌, Option, none, some, List, [], ◌∷◌, ◌++◌, map, ◌==◌,
  if◌then◌else◌,
}
use rpi_server.Prelude.Int.{ℤ, pos, pos_part, ltb_ℤ}
use rpi_server.Bytes.{Bytes, codes}
use rpi_server.Bytes.Number.{to_string_ℤ}
use rpi_server.FrameQueue.{VideoCodec}
use rpi_server.Parser.Text.{replace_all}
use rpi_server.Config.{VmsConfig}
use rpi_server.Channels.{ChannelMapping, parse_channel_map, accepts}
use rpi_server.Ingest.{ChannelIngestConfig, accepts_config}
use rpi_server.Live.Channels.{Channel, LiveRtspServerConfig, new_server}

with_slash : Bytes → Bytes
with_slash [] = b'/' ∷ []
with_slash (c ∷ path) = if c == b'/' then c ∷ path else b'/' ∷ c ∷ path

-- `replace_all` of the same file replaces as that of the parser does, for a text that is not empty.
unfoldable pub build_camera_rtsp_location : VmsConfig → ℤ → Bytes
unfolding with_slash replace_all to_string_ℤ
build_camera_rtsp_location config camera_channel_id =
    let camera_channel = to_string_ℤ camera_channel_id in
    let path = replace_all config.camera_path_template (codes "{camera_channel}") camera_channel in
    codes "rtsp://"
    ++ (config.camera_host
        ++ (codes ":"
            ++ (to_string_ℤ config.camera_port
                ++ with_slash (replace_all path (codes "{channel}") camera_channel))))

-- The test of `RecordingIndex::upsert_channel_mapping`.
unfoldable pub index_takes : ChannelMapping → Bool
index_takes m = not (
    ltb_ℤ m.channel_id (pos 1)
    || (ltb_ℤ (pos 4) m.channel_id
        || (ltb_ℤ m.camera_channel (pos 0) || ltb_ℤ (pos 3) m.camera_channel)))

unfoldable pub more :
    Option ChannelIngestConfig
    → Option (List ChannelIngestConfig)
    → Option (List ChannelIngestConfig)
more (some c) (some configs) = some (c ∷ configs)
more _ _ = none

module _ (join : Bytes → Bytes → Bytes) where
  -- `none` is an exception, here and below.
  unfoldable pub channel_output_dir : Bytes → ℤ → Option Bytes
  unfolding to_string_ℤ
  channel_output_dir storage_root channel_id =
      if ltb_ℤ channel_id (pos 1) || ltb_ℤ (pos 4) channel_id
      then none
      else some
          (join (join storage_root (codes "recordings")) (codes "ch" ++ to_string_ℤ channel_id))

  unfoldable pub with_output_dir :
      VmsConfig → ChannelMapping → Option Bytes → Option ChannelIngestConfig
  unfolding build_camera_rtsp_location
  with_output_dir config mapping none = none
  with_output_dir config mapping (some output_dir) = some (record {
    rtsp_location = build_camera_rtsp_location config mapping.camera_channel;
    camera_user = config.camera_user;
    camera_password = config.camera_password;
    output_dir = output_dir;
    camera_channel = mapping.camera_channel;
    channel_id = mapping.channel_id;
    codec = config.codec;
    latency_ms = config.latency_ms;
    segment_seconds = pos_part config.segment_seconds;
    reconnect_delay_ms = config.reconnect_delay_ms;
    startup_timeout_ms = config.ingest_startup_timeout_ms;
    live_queue_max_buffers = 1;
  })

  unfoldable pub ingest_config : VmsConfig → ChannelMapping → Option ChannelIngestConfig
  unfolding with_output_dir channel_output_dir index_takes
  ingest_config config m =
      if index_takes m
      then with_output_dir config m (channel_output_dir config.storage_root m.channel_id)
      else none

  unfoldable pub ingest_configs :
      VmsConfig → List ChannelMapping → Option (List ChannelIngestConfig)
  unfolding more ingest_config
  ingest_configs config [] = some []
  ingest_configs config (m ∷ mappings) =
      more (ingest_config config m) (ingest_configs config mappings)

unfoldable pub live_channel : VmsConfig → ChannelMapping → Channel
live_channel config m = record { channel_id = m.channel_id; codec = config.codec }

unfoldable pub live_config : VmsConfig → List ChannelMapping → LiveRtspServerConfig
unfolding live_channel
live_config config mappings = record {
  rtsp_port = config.rtsp_port;
  rtsps_port = config.rtsps_port;
  tls_cert_file = config.tls_cert_file;
  tls_key_file = config.tls_key_file;
  channel_id = pos 1;
  codec = VideoCodec.h264;
  channels = map (live_channel config) mappings;
}

-- The constructors of the workers, each with an ingest.
unfoldable pub workers_accepted : List ChannelIngestConfig → Bool
unfolding accepts_config
workers_accepted [] = true
workers_accepted (c ∷ configs) = accepts_config c && workers_accepted configs

unfoldable pub made :
    VmsConfig
    → List ChannelMapping
    → Option (List ChannelIngestConfig)
    → Option LiveRtspServerConfig
    → Option (List ChannelIngestConfig × LiveRtspServerConfig)
unfolding workers_accepted accepts
made config mappings (some configs) (some live) =
    if accepts mappings config.channel_start_delay_ms && workers_accepted configs
    then some (configs, live)
    else none
made config mappings _ _ = none

-- From the mappings to the live server and the channel manager, as they are made.
unfoldable pub wire_up :
    (Bytes → Bytes → Bytes)
    → VmsConfig
    → List ChannelMapping
    → Option (List ChannelIngestConfig × LiveRtspServerConfig)
unfolding made ingest_configs live_config new_server
wire_up join config mappings =
    made config mappings (ingest_configs join config mappings)
      (new_server (live_config config mappings))
