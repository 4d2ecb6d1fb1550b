-- ===== src/Ingest.antt =====
-- src/media/channel_ingest.cpp: what the ingest of one camera channel is configured with, and the
-- texts it builds: the GStreamer pipeline, the names of the recordings and what is logged of an
-- error.
pub mod Quote
pub mod Segments
pub mod Attempt
pub mod Account
pub mod Ends
pub mod Waiting
pub mod Run
pub mod Totals
mod Tests
use rpi_server.Prelude.{
  ℕ, zero, suc, ◌+◌, ◌-◌, ◌*◌, ◌/◌, ◌%◌, Bool, true, false, ◌||◌, Option, none, some, [], ◌∷◌, ◌++◌,
  ltb, ◌==◌, if◌then◌else◌, length, take, drop,
}
use rpi_server.Prelude.Int.{ℤ, pos, negsuc, ltb_ℤ, leb_ℤ}
use rpi_server.Bytes.{Bytes, codes, find, find_first}
use rpi_server.Bytes.Number.{to_string, to_string_ℤ}
use rpi_server.FrameQueue.{VideoCodec, h264, h265}

-- The length of a recording is a positive number of seconds, which the command line checks.
pub record ChannelIngestConfig : Type 0 where
  pub rtsp_location : Bytes
  pub camera_user : Bytes
  pub camera_password : Bytes
  pub output_dir : Bytes
  pub camera_channel : ℤ
  pub channel_id : ℤ
  pub codec : VideoCodec
  pub latency_ms : ℤ
  pub segment_seconds : ℕ
  pub reconnect_delay_ms : ℤ
  pub startup_timeout_ms : ℤ
  pub live_queue_max_buffers : ℕ

-- The constructor's tests; where one fails it throws.
unfoldable pub accepts_config : ChannelIngestConfig → Bool
accepts_config c =
    if ltb_ℤ c.camera_channel (pos 0) || ltb_ℤ (pos 3) c.camera_channel
    then false
    else if ltb_ℤ c.channel_id (pos 1) || ltb_ℤ (pos 4) c.channel_id
    then false
    else if c.live_queue_max_buffers == 0
    then false
    else ltb_ℤ (pos 0) c.startup_timeout_ms

-- `"` or `\`.
abbrev pub is_escaped : ℕ → Bool
is_escaped c = c == 34 || c == 92

unfoldable pub quote_bytes : Bytes → Bytes
quote_bytes [] = 34 ∷ []
quote_bytes (c ∷ value) = if is_escaped c then 92 ∷ c ∷ quote_bytes value else c ∷ quote_bytes value

unfoldable pub quote_for_gst_parse : Bytes → Bytes
unfolding quote_bytes
quote_for_gst_parse value = 34 ∷ quote_bytes value

ends_authority : ℕ → Bool
ends_authority c = c == b'/' || (c == 32 || (c == 9 || (c == 13 || (c == 10 || c == 34))))

stands_before : ℕ → Option ℕ → Bool
stands_before separator none = true
stands_before separator (some authority_end) = ltb separator authority_end

-- A round of the loop behind the scheme; the search goes on behind the `@`.
behind_scheme : Option ℕ → Bytes → (Bytes → Bytes) → Bytes
unfolding stands_before ends_authority find_first
behind_scheme none rest next = next rest
behind_scheme (some separator) rest next =
    if stands_before separator (find_first ends_authority rest)
    then codes "<redacted>@" ++ next (drop (separator + 1) rest)
    else next rest

-- The loop for one scheme, over what is left of the text, whose length is enough fuel.
unfoldable pub redact_userinfo_loop : ℕ → Bytes → Bytes → Bytes
unfolding behind_scheme find
redact_userinfo_loop zero scheme text = text
redact_userinfo_loop (suc fuel) scheme text = elim (find scheme text) [
  | none ↦ text
  | some i ↦
      let rest = drop (i + length scheme) text in
      take (i + length scheme) text
      ++ behind_scheme (find (codes "@") rest) rest (λ t. redact_userinfo_loop fuel scheme t)
]

unfoldable pub redact_rtsp_userinfo : Bytes → Bytes
unfolding redact_userinfo_loop
redact_rtsp_userinfo text =
    let once = redact_userinfo_loop (length text) (codes "rtsp://") text in
    redact_userinfo_loop (length once) (codes "rtsps://") once

unfoldable pub to_gst_encoding_name : VideoCodec → Bytes
to_gst_encoding_name h264 = codes "H264"
to_gst_encoding_name h265 = codes "H265"

unfoldable pub to_codec_name : VideoCodec → Bytes
to_codec_name h264 = codes "h264"
to_codec_name h265 = codes "h265"

depay_name : VideoCodec → Bytes
depay_name h264 = codes "rtph264depay"
depay_name h265 = codes "rtph265depay"

parse_name : VideoCodec → Bytes
parse_name h264 = codes "h264parse config-interval=-1"
parse_name h265 = codes "h265parse config-interval=-1"

alignment_caps : VideoCodec → Bytes
alignment_caps h264 = codes "video/x-h264,alignment=au"
alignment_caps h265 = codes "video/x-h265,alignment=au"

-- The pipeline up to the name of the recordings.
source_and_tee : ChannelIngestConfig → Bytes
unfolding to_gst_encoding_name depay_name parse_name alignment_caps to_string_ℤ
source_and_tee config =
    codes "rtspsrc name=camera_source protocols=tcp latency="
    ++ (to_string_ℤ config.latency_ms
        ++ (codes " teardown-timeout=2000000000 "
            ++ (codes "camera_source. ! application/x-rtp,media=video,encoding-name="
                ++ (to_gst_encoding_name config.codec
                    ++ (codes " ! "
                        ++ (depay_name config.codec
                            ++ (codes " ! "
                                ++ (parse_name config.codec
                                    ++ (codes " ! "
                                        ++ (alignment_caps config.codec
                                            ++ codes " ! tee name=ingest_tee "))))))))))

live_branch : ChannelIngestConfig → Bytes
unfolding to_string
live_branch config =
    codes "ingest_tee. ! queue name=live_queue leaky=downstream max-size-buffers="
    ++ (to_string config.live_queue_max_buffers
        ++ (codes " max-size-bytes=0 max-size-time=0 ! "
            ++ codes "fakesink name=live_test_sink signal-handoffs=true sync=false async=false"))

unfoldable pub build_channel_ingest_pipeline_description : ChannelIngestConfig → Bytes → Bytes
unfolding source_and_tee live_branch quote_for_gst_parse to_string
build_channel_ingest_pipeline_description config location_pattern =
    source_and_tee config
    ++ (codes "ingest_tee. ! queue name=recording_queue leaky=no ! "
        ++ (codes
              "splitmuxsink name=recording_sink async-finalize=true muxer-factory=mp4mux max-size-time="
            ++ (to_string (config.segment_seconds * 1000000000)
                ++ (codes " location="
                    ++ (quote_for_gst_parse location_pattern
                        ++ (codes " " ++ live_branch config))))))

-- `std::setfill('0') << std::setw(3)`
unfoldable pub set_width_3 : Bytes → Bytes
set_width_3 [] = codes "000"
set_width_3 (a ∷ []) = b'0' ∷ b'0' ∷ a ∷ []
set_width_3 (a ∷ b ∷ []) = b'0' ∷ a ∷ b ∷ []
set_width_3 (a ∷ b ∷ c ∷ text) = a ∷ b ∷ c ∷ text

-- `put_time` is the standard library's over `gmtime_r`, at seconds since 1970, and `join` the `/`
-- of its paths.
module _ (put_time : Bytes → ℕ → Bytes) (join : Bytes → Bytes → Bytes) where
  unfoldable pub collision_suffix : ℕ → Bytes
  unfolding set_width_3 to_string
  collision_suffix zero = []
  collision_suffix (suc n) = b'_' ∷ set_width_3 (to_string (suc n))

  unfoldable pub build_segment_path : ChannelIngestConfig → ℕ → ℕ → Bytes
  unfolding collision_suffix set_width_3 to_string to_string_ℤ
  build_segment_path config segment_start_utc_ms collision_index = join config.output_dir (
      codes "ch"
      ++ (to_string_ℤ config.channel_id
          ++ (codes "_"
              ++ (put_time (codes "%Y%m%dT%H%M%S") (segment_start_utc_ms / 1000)
                  ++ (codes "."
                      ++ (set_width_3 (to_string (segment_start_utc_ms % 1000))
                          ++ (codes "Z" ++ (collision_suffix collision_index ++ codes ".mp4"))))))))

  -- The name of attempt 1 and on, `now` being the seconds of the clock.
  unfoldable pub make_location_pattern : ChannelIngestConfig → ℕ → ℕ → Bytes
  unfolding set_width_3 to_string to_string_ℤ
  make_location_pattern config now attempt = join config.output_dir (
      codes "ch"
      ++ (to_string_ℤ config.channel_id
          ++ (codes "_"
              ++ (put_time (codes "%Y%m%dT%H%M%SZ") now
                  ++ ((if ltb 1 attempt
                        then codes "_r" ++ set_width_3 (to_string (attempt - 1))
                        else [])
                      ++ codes "_%05d.mp4")))))
