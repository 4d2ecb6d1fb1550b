-- ===== src/Config.antt =====
-- src/main.cpp, src/config/app_config.cpp, src/media/channel_ingest.cpp: the configuration of the
-- media server from its command line. An exception is `failed` or `none`; its text is left out.
pub mod Kept
pub mod Ranges
mod Tests
use mathlib.Core.Option
use rpi_server.Prelude.{
  ℕ, ◌^◌, ◌*◌, Bool, true, false, not, ◌&&◌, ◌||◌, Option, none, some, List, [], ◌∷◌, ◌++◌, ltb,
  ◌==◌, if◌then◌else◌, length,
}
use rpi_server.Prelude.Int.{ℤ, pos, ltb_ℤ, eqb_ℤ}
use rpi_server.Bytes.{Bytes, codes, equal, find, find_first}
use rpi_server.Bytes.Number.{stoi, stoull, to_string_ℤ}
use rpi_server.FrameQueue.{VideoCodec, h264, h265}

pub data LogLevel : Type 0 where
  error warn info debug trace : LogLevel

unfoldable pub parse_log_level : Bytes → Option LogLevel
unfolding equal
parse_log_level value =
    if equal value (codes "error")
    then some error
    else if equal value (codes "warn") || equal value (codes "warning")
    then some warn
    else if equal value (codes "info")
    then some info
    else if equal value (codes "debug")
    then some debug
    else if equal value (codes "trace")
    then some trace
    else none

unfoldable pub parse_video_codec : Bytes → Option VideoCodec
unfolding equal
parse_video_codec value =
    if equal value (codes "h264") || equal value (codes "H264")
    then some h264
    else if equal value (codes "h265")
        || (equal value (codes "hevc")
            || (equal value (codes "H265") || equal value (codes "HEVC")))
    then some h265
    else none

-- `std::stoi` or `std::stoull` with the test that all of the value is consumed.
unfoldable pub all_consumed : {A : Type 0} → Bytes → Option (A × ℕ) → Option A
all_consumed value none = none
all_consumed value (some (parsed, consumed)) =
    if consumed == length value then some parsed else none

unfoldable pub in_range : ℤ → ℤ → Option ℤ → Option ℤ
in_range min_value max_value none = none
in_range min_value max_value (some parsed) =
    if ltb_ℤ parsed min_value || ltb_ℤ max_value parsed then none else some parsed

unfoldable pub parse_int : Bytes → ℤ → ℤ → Option ℤ
unfolding all_consumed in_range stoi
parse_int value min_value max_value = in_range min_value max_value (all_consumed value (stoi value))

unfoldable pub parse_size : Bytes → Option ℕ
unfolding all_consumed stoull
parse_size value = all_consumed value (stoull value)

pub record VmsConfig : Type 0 where
  pub camera_host : Bytes
  pub camera_port : ℤ
  pub camera_user : Bytes
  pub camera_password : Bytes
  pub camera_password_stdin : Bool
  pub camera_path_template : Bytes
  pub camera_channel : ℤ
  pub legacy_mapping_set : Bool
  pub channel_map : Bytes
  pub storage_root : Bytes
  pub media_db : Bytes
  pub channel_id : ℤ
  pub db_busy_timeout_ms : ℤ
  pub codec : VideoCodec
  pub latency_ms : ℤ
  pub segment_seconds : ℤ
  pub reconnect_delay_ms : ℤ
  pub ingest_startup_timeout_ms : ℤ
  pub channel_start_delay_ms : ℤ
  pub live_listen_host : Bytes
  pub rtsp_port : ℤ
  pub rtsps_port : ℤ
  pub tls_cert_file : Bytes
  pub tls_key_file : Bytes
  pub live_client_queue_frames : ℕ
  pub live_client_queue_bytes : ℕ
  pub rtp_mtu : ℕ
  pub min_free_bytes : ℕ
  pub require_storage_mount : Bool
  pub log_level : LogLevel

abbrev pub defaults : VmsConfig
defaults = record {
  camera_host = [];
  camera_port = pos 554;
  camera_user = codes "admin";
  camera_password = [];
  camera_password_stdin = false;
  camera_path_template = codes "/{camera_channel}/profile2/media.smp";
  camera_channel = pos 0;
  legacy_mapping_set = false;
  channel_map = [];
  storage_root = codes "/mnt/vms-storage";
  media_db = [];
  channel_id = pos 1;
  db_busy_timeout_ms = pos 5000;
  codec = h264;
  latency_ms = pos 200;
  segment_seconds = pos 60;
  reconnect_delay_ms = pos 2000;
  ingest_startup_timeout_ms = pos 5000;
  channel_start_delay_ms = pos 0;
  live_listen_host = codes "0.0.0.0";
  rtsp_port = pos 0;
  rtsps_port = pos 8554;
  tls_cert_file = codes "certs/server.crt";
  tls_key_file = codes "certs/server.key";
  live_client_queue_frames = 30;
  live_client_queue_bytes = 8 * 1024 * 1024;
  rtp_mtu = 1200;
  min_free_bytes = 1024 * 1024 * 1024;
  require_storage_mount = false;
  log_level = info;
}

-- What one option does: it sets the configuration, it needs a value for that, it prints the usage
-- and exits, or it is refused.
pub data Handling (C : Type 0) : Type 0 where
  flag : C → Handling C
  valued : (Bytes → Option C) → Handling C
  help refused : Handling C

abbrev pub text : {C : Type 0} → (Bytes → C) → Handling C
text set = valued (λ value. some (set value))

abbrev pub int_option : {C : Type 0} → ℤ → ℤ → (ℤ → C) → Handling C
int_option min_value max_value set =
    valued (λ value. Option.map set (parse_int value min_value max_value))

abbrev pub size_option : {C : Type 0} → (ℕ → C) → Handling C
size_option set = valued (λ value. Option.map set (parse_size value))

-- The chain of tests of `arg`.
unfoldable pub options : VmsConfig → List (Bytes × Handling VmsConfig)
unfolding parse_int parse_size parse_video_codec parse_log_level
options config =
    (codes "--camera-host", text (λ v. record config { camera_host = v }))
    ∷ (
      codes "--camera-port",
      int_option (pos 1) (pos 65535) (λ n. record config { camera_port = n }),
    )
    ∷ (codes "--camera-user", text (λ v. record config { camera_user = v }))
    ∷ (codes "--camera-password", text (λ v. record config { camera_password = v }))
    ∷ (codes "--camera-password-stdin", flag (record config { camera_password_stdin = true }))
    ∷ (codes "--camera-path-template", text (λ v. record config { camera_path_template = v }))
    ∷ (
      codes "--camera-channel",
      int_option (pos 0) (pos 3)
          (λ n. record config { camera_channel = n; legacy_mapping_set = true }),
    )
    ∷ (codes "--channel-map", text (λ v. record config { channel_map = v }))
    ∷ (codes "--rtsp-url", refused)
    ∷ (codes "--storage-root", text (λ v. record config { storage_root = v }))
    ∷ (codes "--media-db", text (λ v. record config { media_db = v }))
    ∷ (
      codes "--channel-id",
      int_option (pos 1) (pos 4) (λ n. record config { channel_id = n; legacy_mapping_set = true }),
    )
    ∷ (
      codes "--db-busy-timeout-ms",
      int_option (pos 0) (pos 60000) (λ n. record config { db_busy_timeout_ms = n }),
    )
    ∷ (
      codes "--codec",
      valued (λ v. Option.map (λ k. record config { codec = k }) (parse_video_codec v)),
    )
    ∷ (codes "--latency-ms", int_option (pos 0) (pos 10000) (λ n. record config { latency_ms = n }))
    ∷ (
      codes "--segment-seconds",
      int_option (pos 1) (pos 3600) (λ n. record config { segment_seconds = n }),
    )
    ∷ (
      codes "--reconnect-delay-ms",
      int_option (pos 0) (pos 60000) (λ n. record config { reconnect_delay_ms = n }),
    )
    ∷ (
      codes "--ingest-startup-timeout-ms",
      int_option (pos 1000) (pos 300000) (λ n. record config { ingest_startup_timeout_ms = n }),
    )
    ∷ (
      codes "--channel-start-delay-ms",
      int_option (pos 0) (pos 60000) (λ n. record config { channel_start_delay_ms = n }),
    )
    ∷ (codes "--live-listen-host", text (λ v. record config { live_listen_host = v }))
    ∷ (codes "--rtsp-port", int_option (pos 0) (pos 65535) (λ n. record config { rtsp_port = n }))
    ∷ (codes "--rtsps-port", int_option (pos 0) (pos 65535) (λ n. record config { rtsps_port = n }))
    ∷ (codes "--tls-cert", text (λ v. record config { tls_cert_file = v }))
    ∷ (codes "--tls-key", text (λ v. record config { tls_key_file = v }))
    ∷ (
      codes "--live-client-queue-frames",
      size_option (λ n. record config { live_client_queue_frames = n }),
    )
    ∷ (
      codes "--live-client-queue-bytes",
      size_option (λ n. record config { live_client_queue_bytes = n }),
    )
    ∷ (codes "--rtp-mtu", size_option (λ n. record config { rtp_mtu = n }))
    ∷ (codes "--min-free-bytes", size_option (λ n. record config { min_free_bytes = n }))
    ∷ (codes "--require-storage-mount", flag (record config { require_storage_mount = true }))
    ∷ (
      codes "--log-level",
      valued (λ v. Option.map (λ l. record config { log_level = l }) (parse_log_level v)),
    )
    ∷ (codes "--help", help)
    ∷ []

unfoldable pub choose : {C : Type 0} → Bytes → List (Bytes × Handling C) → Handling C
unfolding equal
choose arg [] = refused
choose arg ((name, handling) ∷ later) = if equal arg name then handling else choose arg later

-- `exited` is the end of the process after `--help`.
pub data Parsed (C : Type 0) : Type 0 where
  parsed : C → Parsed C
  failed exited : Parsed C

-- The last argument, which no value follows.
unfoldable pub last_option : {C : Type 0} → Handling C → Parsed C
last_option (flag set) = parsed set
last_option (valued take) = failed
last_option help = exited
last_option refused = failed

unfoldable pub with_value : {C : Type 0} → Option C → (C → Parsed C) → Parsed C
with_value none later = failed
with_value (some set) later = later set

-- An argument with a further one behind it: the loop goes on with that, or behind it.
unfoldable pub handled :
    {C : Type 0} → Handling C → Bytes → (C → Parsed C) → (C → Parsed C) → Parsed C
unfolding with_value
handled (flag set) value next behind = next set
handled (valued take) value next behind = with_value (take value) behind
handled help value next behind = exited
handled refused value next behind = failed

-- The loop over `argv`, from the argument after the program's name.
unfoldable pub parse_options :
    {C : Type 0} → (C → List (Bytes × Handling C)) → List Bytes → C → Parsed C
parse_options table [] config = parsed config
parse_options table (arg ∷ []) config = last_option (choose arg (table config))
parse_options table (arg ∷ value ∷ args) config =
    handled (choose arg (table config)) value (λ set. parse_options table (value ∷ args) set)
      (λ set. parse_options table args set)

unfoldable pub is_empty : Bytes → Bool
is_empty [] = true
is_empty (c ∷ s) = false

-- A line without the carriage return at its end.
unfoldable pub without_cr : Bytes → Bytes
without_cr [] = []
without_cr (c ∷ []) = if c == 13 then [] else c ∷ []
without_cr (c ∷ d ∷ s) = c ∷ without_cr (d ∷ s)

unfoldable pub is_host_break : ℕ → Bool
is_host_break c = c == b'/' || (c == b'@' || (c == 32 || (c == 9 || (c == 13 || c == 10))))

unfoldable pub is_found : Option ℕ → Bool
is_found none = false
is_found (some i) = true

-- The first three tests behind the loop.
unfoldable pub has_bad_host : VmsConfig → Bool
unfolding is_empty is_found find find_first is_host_break
has_bad_host c =
    is_empty c.camera_host
    || (is_found (find_first is_host_break c.camera_host)
        || (is_found (find (codes "://") c.camera_host) || is_empty c.camera_user))

unfoldable pub check_host : VmsConfig → Option VmsConfig
unfolding has_bad_host
check_host c = if has_bad_host c then none else some c

unfoldable pub from_stdin : VmsConfig → Option Bytes → Option VmsConfig
unfolding without_cr
from_stdin c none = none
from_stdin c (some line) = some (record c { camera_password = without_cr line })

-- The password, from the command line or from the line that standard input holds.
unfoldable pub take_password : Option Bytes → VmsConfig → Option VmsConfig
unfolding from_stdin is_empty
take_password stdin_line c =
    if c.camera_password_stdin && not (is_empty c.camera_password)
    then none
    else if c.camera_password_stdin
    then from_stdin c stdin_line
    else some c

unfoldable pub default_map : VmsConfig → Bytes
unfolding to_string_ℤ
default_map c =
    if c.legacy_mapping_set
    then to_string_ℤ c.camera_channel ++ (codes ":" ++ to_string_ℤ c.channel_id)
    else codes "0:1,1:2,2:3,3:4"

-- The tests behind the password, and the two values that are filled in; `join` is the `/` of two
-- paths.
unfoldable pub check_rest : (Bytes → Bytes → Bytes) → VmsConfig → Option VmsConfig
unfolding is_empty default_map
check_rest join c =
    if is_empty c.camera_password
    then none
    else if c.legacy_mapping_set && not (is_empty c.channel_map)
    then none
    else if eqb_ℤ c.rtsp_port (pos 0) && eqb_ℤ c.rtsps_port (pos 0)
    then none
    else if ltb_ℤ (pos 0) c.rtsps_port && (is_empty c.tls_cert_file || is_empty c.tls_key_file)
    then none
    else if c.live_client_queue_frames == 0 || ltb 10000 c.live_client_queue_frames
    then none
    else if c.live_client_queue_bytes == 0 || (ltb c.rtp_mtu 256 || ltb 65535 c.rtp_mtu)
    then none
    else some (record c {
      channel_map = if is_empty c.channel_map then default_map c else c.channel_map;
      media_db =
          if is_empty c.media_db
          then join (join c.storage_root (codes "index")) (codes "media.db")
          else c.media_db;
    })

unfoldable pub and_then : Option VmsConfig → (VmsConfig → Option VmsConfig) → Option VmsConfig
and_then none f = none
and_then (some c) f = f c

unfoldable pub check_config : (Bytes → Bytes → Bytes) → Option Bytes → VmsConfig → Option VmsConfig
unfolding check_host take_password check_rest and_then
check_config join stdin_line c =
    and_then (and_then (check_host c) (take_password stdin_line)) (check_rest join)

unfoldable pub checked : {C : Type 0} → Option C → Parsed C
checked none = failed
checked (some c) = parsed c

unfoldable pub finish : (Bytes → Bytes → Bytes) → Option Bytes → Parsed VmsConfig → Parsed VmsConfig
unfolding check_config checked
finish join stdin_line (parsed c) = checked (check_config join stdin_line c)
finish join stdin_line failed = failed
finish join stdin_line exited = exited

unfoldable pub parse_vms_args :
    (Bytes → Bytes → Bytes) → Option Bytes → List Bytes → Parsed VmsConfig
unfolding parse_options finish
parse_vms_args join stdin_line args = finish join stdin_line (parse_options options args defaults)
