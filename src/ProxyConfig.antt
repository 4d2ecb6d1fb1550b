-- ===== src/ProxyConfig.antt =====
-- src/config/app_config.cpp, include/rtsps/app_config.h: the configuration of the proxy from its
-- command line.
pub mod Ranges
mod Tests
use mathlib.Core.Option
use rpi_server.Prelude.{
  ℕ, ◌*◌, Bool, true, false, ◌||◌, Option, none, some, List, [], ◌∷◌, ltb, if◌then◌else◌,
}
use rpi_server.Prelude.Int.{ℤ, pos}
use rpi_server.Bytes.{Bytes, codes}
use rpi_server.Config.{
  LogLevel, info, parse_log_level, parse_int, parse_size, is_empty, Handling, valued, help, text,
  int_option, Parsed, parsed, failed, exited, parse_options,
}

-- `parse_int_option` has the body of `parse_int`.
unfoldable pub parse_size_option : Bytes → ℕ → ℕ → Option ℕ
unfolding parse_size
parse_size_option value min_value max_value = elim (parse_size value) [
  | none ↦ none
  | some n ↦ if ltb n min_value || ltb max_value n then none else some n
]

pub record AppConfig : Type 0 where
  pub listen_host : Bytes
  pub listen_port : ℤ
  pub listen_backlog : ℤ
  pub cert_file : Bytes
  pub key_file : Bytes
  pub camera_host : Bytes
  pub camera_port : ℤ
  pub camera_user : Bytes
  pub camera_password : Bytes
  pub camera_path_template : Bytes
  pub channels : ℤ
  pub io_buffer_bytes : ℕ
  pub max_rtsp_header_bytes : ℕ
  pub max_rtsp_body_bytes : ℕ
  pub select_timeout_ms : ℤ
  pub log_level : LogLevel

abbrev pub app_defaults : AppConfig
app_defaults = record {
  listen_host = codes "0.0.0.0";
  listen_port = pos 8554;
  listen_backlog = pos 64;
  cert_file = codes "certs/server.crt";
  key_file = codes "certs/server.key";
  camera_host = [];
  camera_port = pos 554;
  camera_user = codes "admin";
  camera_password = [];
  camera_path_template = codes "/{channel}/profile2/media.smp";
  channels = pos 4;
  io_buffer_bytes = 8192;
  max_rtsp_header_bytes = 16 * 1024;
  max_rtsp_body_bytes = 1024 * 1024;
  select_timeout_ms = pos 1000;
  log_level = info;
}

abbrev pub bounded_size : ℕ → ℕ → (ℕ → AppConfig) → Handling AppConfig
bounded_size min_value max_value set =
    valued (λ value. Option.map set (parse_size_option value min_value max_value))

-- The chain of tests of `arg`.
unfoldable pub app_options : AppConfig → List (Bytes × Handling AppConfig)
unfolding parse_int parse_size_option parse_log_level
app_options cfg =
    (codes "--listen-host", text (λ v. record cfg { listen_host = v }))
    ∷ (codes "--listen-port", int_option (pos 1) (pos 65535) (λ n. record cfg { listen_port = n }))
    ∷ (
      codes "--listen-backlog",
      int_option (pos 1) (pos 4096) (λ n. record cfg { listen_backlog = n }),
    )
    ∷ (codes "--cert", text (λ v. record cfg { cert_file = v }))
    ∷ (codes "--key", text (λ v. record cfg { key_file = v }))
    ∷ (codes "--camera-host", text (λ v. record cfg { camera_host = v }))
    ∷ (codes "--camera-port", int_option (pos 1) (pos 65535) (λ n. record cfg { camera_port = n }))
    ∷ (codes "--camera-user", text (λ v. record cfg { camera_user = v }))
    ∷ (codes "--camera-password", text (λ v. record cfg { camera_password = v }))
    ∷ (codes "--camera-path-template", text (λ v. record cfg { camera_path_template = v }))
    ∷ (codes "--channels", int_option (pos 1) (pos 64) (λ n. record cfg { channels = n }))
    ∷ (
      codes "--io-buffer-bytes",
      bounded_size 1024 (1024 * 1024) (λ n. record cfg { io_buffer_bytes = n }),
    )
    ∷ (
      codes "--max-rtsp-header-bytes",
      bounded_size 1024 (1024 * 1024) (λ n. record cfg { max_rtsp_header_bytes = n }),
    )
    ∷ (
      codes "--max-rtsp-body-bytes",
      bounded_size 0 (64 * 1024 * 1024) (λ n. record cfg { max_rtsp_body_bytes = n }),
    )
    ∷ (
      codes "--select-timeout-ms",
      int_option (pos 100) (pos 60000) (λ n. record cfg { select_timeout_ms = n }),
    )
    ∷ (
      codes "--log-level",
      valued (λ v. Option.map (λ l. record cfg { log_level = l }) (parse_log_level v)),
    )
    ∷ (codes "--help", help)
    ∷ []

-- The three tests behind the loop.
unfoldable pub require_camera : Parsed AppConfig → Parsed AppConfig
unfolding is_empty
require_camera (parsed c) =
    if is_empty c.camera_host || (is_empty c.camera_user || is_empty c.camera_password)
    then failed
    else parsed c
require_camera failed = failed
require_camera exited = exited

unfoldable pub parse_args : List Bytes → Parsed AppConfig
unfolding parse_options app_options require_camera
parse_args args = require_camera (parse_options app_options args app_defaults)
