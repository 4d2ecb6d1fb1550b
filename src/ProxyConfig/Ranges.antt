-- ===== src/ProxyConfig/Ranges.antt =====
-- What a configuration of the proxy is known to satisfy.
use mathlib.Core.Option
use rpi_server.Prelude.{
  ℕ, ◌*◌, ◌≡◌, ◌≤◌, subst, false, ◌||◌, Option, none, some, List, ltb, if_elim, if◌then◌else◌,
  arith, All,
}
use rpi_server.Prelude.Int.{pos}
use rpi_server.Bytes.{Bytes}
use rpi_server.Config.{
  parse_log_level, parse_size, is_empty, Handling, Parsed, parsed, failed, exited, parse_options,
}
use rpi_server.Config.Kept.{
  IsIn, Holds, Holds-map, OnParsed, Keeps, set_any, set_int, parse_options-OnParsed,
}
use rpi_server.ProxyConfig.{
  AppConfig, app_defaults, parse_size_option, app_options, require_camera, parse_args,
}

abbrev pub IsBetween : ℕ → ℕ → ℕ → Type 0
IsBetween low high n = (low ≤ n) × (n ≤ high)

abbrev pub IsInRange : AppConfig → Type 0
IsInRange c =
    IsIn (pos 1) (pos 65535) c.listen_port
    × IsIn (pos 1) (pos 4096) c.listen_backlog
    × IsIn (pos 1) (pos 65535) c.camera_port
    × IsIn (pos 1) (pos 64) c.channels
    × IsIn (pos 100) (pos 60000) c.select_timeout_ms
    × IsBetween 1024 (1024 * 1024) c.io_buffer_bytes
    × IsBetween 1024 (1024 * 1024) c.max_rtsp_header_bytes
    × IsBetween 0 (64 * 1024 * 1024) c.max_rtsp_body_bytes

-- In range, with a camera and its account.
abbrev pub IsUsable : AppConfig → Type 0
IsUsable c =
    IsInRange c
    × ((is_empty c.camera_host || (is_empty c.camera_user || is_empty c.camera_password)) ≡ false)

size_Holds :
    (value : Bytes) (low high : ℕ) → Holds (IsBetween low high) (parse_size_option value low high)
unfolding parse_size_option Holds
size_Holds value low high =
    elim (parse_size value)
      as (λ (o : Option ℕ).
        Holds (IsBetween low high)
          (elim o [ none ↦ none | some n ↦ if ltb n low || ltb high n then none else some n ])) [
            | none ↦ _
            | some n ↦
                if_elim (Holds (IsBetween low high)) (ltb n low || ltb high n) (λ h. _)
                  (λ h. (ground arith, ground arith))
          ]

set_size :
    (low high : ℕ) (v : Bytes) (set : ℕ → AppConfig)
    → ((n : ℕ) → IsBetween low high n → IsInRange (set n))
    → Holds IsInRange (Option.map set (parse_size_option v low high))
set_size low high v set f =
    Holds-map (IsBetween low high) IsInRange set (parse_size_option v low high) f
      (size_Holds v low high)

app_options-Keeps :
    (cfg : AppConfig)
    → IsInRange cfg
    → All (λ (o : Bytes × Handling AppConfig). Keeps IsInRange o.1) (app_options cfg)
unfolding app_options Holds
app_options-Keeps cfg r = (
  (λ v. r),
  (
    (λ v.
        set_int IsInRange (pos 1) (pos 65535) v (λ n. record cfg { listen_port = n })
          (λ n i. (i, r.1, r.2, r.3, r.4, r.5, r.6, r.7))),
    (
      (λ v.
          set_int IsInRange (pos 1) (pos 4096) v (λ n. record cfg { listen_backlog = n })
            (λ n i. (r.0, i, r.2, r.3, r.4, r.5, r.6, r.7))),
      (
        (λ v. r),
        (
          (λ v. r),
          (
            (λ v. r),
            (
              (λ v.
                  set_int IsInRange (pos 1) (pos 65535) v (λ n. record cfg { camera_port = n })
                    (λ n i. (r.0, r.1, i, r.3, r.4, r.5, r.6, r.7))),
              (
                (λ v. r),
                (
                  (λ v. r),
                  (
                    (λ v. r),
                    (
                      (λ v.
                          set_int IsInRange (pos 1) (pos 64) v (λ n. record cfg { channels = n })
                            (λ n i. (r.0, r.1, r.2, i, r.4, r.5, r.6, r.7))),
                      (
                        (λ v.
                            set_size 1024 (1024 * 1024) v (λ n. record cfg { io_buffer_bytes = n })
                              (λ n i. (r.0, r.1, r.2, r.3, r.4, i, r.6, r.7))),
                        (
                          (λ v.
                              set_size 1024 (1024 * 1024) v
                                (λ n. record cfg { max_rtsp_header_bytes = n })
                                (λ n i. (r.0, r.1, r.2, r.3, r.4, r.5, i, r.7))),
                          (
                            (λ v.
                                set_size 0 (64 * 1024 * 1024) v
                                  (λ n. record cfg { max_rtsp_body_bytes = n })
                                  (λ n i. (r.0, r.1, r.2, r.3, r.4, r.5, r.6, i))),
                            (
                              (λ v.
                                  set_int IsInRange (pos 100) (pos 60000) v
                                    (λ n. record cfg { select_timeout_ms = n })
                                    (λ n i. (r.0, r.1, r.2, r.3, i, r.5, r.6, r.7))),
                              (
                                (λ v.
                                    set_any IsInRange (λ l. record cfg { log_level = l })
                                      (parse_log_level v) (λ l. r)),
                                (_, _),
                              ),
                            ),
                          ),
                        ),
                      ),
                    ),
                  ),
                ),
              ),
            ),
          ),
        ),
      ),
    ),
  ),
)

app_defaults-IsInRange : IsInRange app_defaults
app_defaults-IsInRange = (
  (omega arith, omega arith),
  (omega arith, omega arith),
  (omega arith, omega arith),
  (omega arith, omega arith),
  (omega arith, omega arith),
  (omega arith, omega arith),
  (omega arith, omega arith),
  (omega arith, omega arith),
)

require_camera-OnParsed :
    (p : Parsed AppConfig) → OnParsed IsInRange p → OnParsed IsUsable (require_camera p)
unfolding require_camera OnParsed
require_camera-OnParsed (parsed c) r =
    if_elim (OnParsed IsUsable)
      (is_empty c.camera_host || (is_empty c.camera_user || is_empty c.camera_password)) (λ h. _)
      (λ h. (r, h))
require_camera-OnParsed failed r = _
require_camera-OnParsed exited r = _

-- A configuration that the proxy accepts its command line with has its ports, backlog, channel
-- count, timeout and buffer sizes in their ranges, and a camera host, user and password.
pub parse_args-IsUsable :
    (args : List Bytes) (c : AppConfig) → parse_args args ≡ parsed c → IsUsable c
unfolding parse_args OnParsed
parse_args-IsUsable args c e = subst (OnParsed IsUsable) e (
    require_camera-OnParsed (parse_options app_options args app_defaults) (
      parse_options-OnParsed IsInRange app_options args app_defaults app_options-Keeps
        app_defaults-IsInRange))
