-- ===== src/Config/Ranges.antt =====
-- What a configuration that `parse_vms_args` returns is known to satisfy.
use rpi_server.Prelude.{
  ◌≡◌, ◌≤◌, ◌<◌, subst, true, false, not, ◌&&◌, ◌||◌, Option, none, some, List, if_elim, arith, ltb,
  ◌==◌, All,
}
use rpi_server.Prelude.Int.{pos, ltb_ℤ, eqb_ℤ}
use rpi_server.Bytes.{Bytes}
use rpi_server.Config.Kept.{IsIn, Holds, OnParsed, Keeps, set_any, set_int, parse_options-OnParsed}
use rpi_server.Config.{
  VmsConfig, defaults, Handling, parse_size, parse_video_codec, parse_log_level, options, is_empty,
  has_bad_host, check_host, from_stdin, take_password, and_then, check_rest, check_config, checked,
  finish, Parsed, parsed, failed, exited, parse_options, parse_vms_args,
}

-- The ranges of the numbers that are tested where they are read.
abbrev pub IsInRange : VmsConfig → Type 0
IsInRange c =
    IsIn (pos 1) (pos 65535) c.camera_port
    × IsIn (pos 0) (pos 3) c.camera_channel
    × IsIn (pos 1) (pos 4) c.channel_id
    × IsIn (pos 0) (pos 60000) c.db_busy_timeout_ms
    × IsIn (pos 0) (pos 10000) c.latency_ms
    × IsIn (pos 1) (pos 3600) c.segment_seconds
    × IsIn (pos 0) (pos 60000) c.reconnect_delay_ms
    × IsIn (pos 1000) (pos 300000) c.ingest_startup_timeout_ms
    × IsIn (pos 0) (pos 60000) c.channel_start_delay_ms
    × IsIn (pos 0) (pos 65535) c.rtsp_port
    × IsIn (pos 0) (pos 65535) c.rtsps_port

options-Keeps :
    (c : VmsConfig)
    → IsInRange c
    → All (λ (o : Bytes × Handling VmsConfig). Keeps IsInRange o.1) (options c)
unfolding options Holds
options-Keeps c r = (
  (λ v. r),
  (
    (λ v.
        set_int IsInRange (pos 1) (pos 65535) v (λ n. record c { camera_port = n })
          (λ n i. (i, r.1, r.2, r.3, r.4, r.5, r.6, r.7, r.8, r.9, r.10))),
    (
      (λ v. r),
      (
        (λ v. r),
        (
          r,
          (
            (λ v. r),
            (
              (λ v.
                  set_int IsInRange (pos 0) (pos 3) v
                    (λ n. record c { camera_channel = n; legacy_mapping_set = true })
                    (λ n i. (r.0, i, r.2, r.3, r.4, r.5, r.6, r.7, r.8, r.9, r.10))),
              (
                (λ v. r),
                (
                  _,
                  (
                    (λ v. r),
                    (
                      (λ v. r),
                      (
                        (λ v.
                            set_int IsInRange (pos 1) (pos 4) v
                              (λ n. record c { channel_id = n; legacy_mapping_set = true })
                              (λ n i. (r.0, r.1, i, r.3, r.4, r.5, r.6, r.7, r.8, r.9, r.10))),
                        (
                          (λ v.
                              set_int IsInRange (pos 0) (pos 60000) v
                                (λ n. record c { db_busy_timeout_ms = n })
                                (λ n i. (r.0, r.1, r.2, i, r.4, r.5, r.6, r.7, r.8, r.9, r.10))),
                          (
                            (λ v.
                                set_any IsInRange (λ a. record c { codec = a })
                                  (parse_video_codec v) (λ a. r)),
                            (
                              (λ v.
                                  set_int IsInRange (pos 0) (pos 10000) v
                                    (λ n. record c { latency_ms = n })
                                    (λ n i.
                                      (r.0, r.1, r.2, r.3, i, r.5, r.6, r.7, r.8, r.9, r.10))),
                              (
                                (λ v.
                                    set_int IsInRange (pos 1) (pos 3600) v
                                      (λ n. record c { segment_seconds = n })
                                      (λ n i.
                                        (r.0, r.1, r.2, r.3, r.4, i, r.6, r.7, r.8, r.9, r.10))),
                                (
                                  (λ v.
                                      set_int IsInRange (pos 0) (pos 60000) v
                                        (λ n. record c { reconnect_delay_ms = n })
                                        (λ n i.
                                          (r.0, r.1, r.2, r.3, r.4, r.5, i, r.7, r.8, r.9, r.10))),
                                  (
                                    (λ v.
                                        set_int IsInRange (pos 1000) (pos 300000) v
                                          (λ n. record c { ingest_startup_timeout_ms = n })
                                          (λ n i. (
                                            r.0, r.1, r.2, r.3, r.4, r.5, r.6, i, r.8, r.9, r.10,
                                          ))),
                                    (
                                      (λ v.
                                          set_int IsInRange (pos 0) (pos 60000) v
                                            (λ n. record c { channel_start_delay_ms = n })
                                            (λ n i. (
                                              r.0, r.1, r.2, r.3, r.4, r.5, r.6, r.7, i, r.9, r.10,
                                            ))),
                                      (
                                        (λ v. r),
                                        (
                                          (λ v.
                                              set_int IsInRange (pos 0) (pos 65535) v
                                                (λ n. record c { rtsp_port = n })
                                                (λ n i. (
                                                  r.0, r.1, r.2, r.3, r.4, r.5, r.6, r.7, r.8, i,
                                                  r.10,
                                                ))),
                                          (
                                            (λ v.
                                                set_int IsInRange (pos 0) (pos 65535) v
                                                  (λ n. record c { rtsps_port = n })
                                                  (λ n i. (
                                                    r.0, r.1, r.2, r.3, r.4, r.5, r.6, r.7, r.8,
                                                    r.9, i,
                                                  ))),
                                            (
                                              (λ v. r),
                                              (
                                                (λ v. r),
                                                (
                                                  (λ v.
                                                      set_any IsInRange
                                                        (λ n. record c {
                                                          live_client_queue_frames = n;
                                                        })
                                                        (parse_size v) (λ n. r)),
                                                  (
                                                    (λ v.
                                                        set_any IsInRange
                                                          (λ n. record c {
                                                            live_client_queue_bytes = n;
                                                          })
                                                          (parse_size v) (λ n. r)),
                                                    (
                                                      (λ v.
                                                          set_any IsInRange
                                                            (λ n. record c { rtp_mtu = n })
                                                            (parse_size v) (λ n. r)),
                                                      (
                                                        (λ v.
                                                            set_any IsInRange
                                                            (λ n. record c { min_free_bytes = n })
                                                            (parse_size v) (λ n. r)),
                                                        (
                                                          r,
                                                          (
                                                            (λ v.
                                                            set_any IsInRange
                                                            (λ a. record c { log_level = a })
                                                            (parse_log_level v) (λ a. r)),
                                                            (_, _),
                                                          ),
                                                        ),
                                                      ),
                                                    ),
                                                  ),
                                                ),
                                              ),
                                            ),
                                          ),
                                        ),
                                      ),
                                    ),
                                  ),
                                ),
                              ),
                            ),
                          ),
                        ),
                      ),
                    ),
                  ),
                ),
              ),
            ),
          ),
        ),
      ),
    ),
  ),
)

-- What the tests behind the loop add.
abbrev pub IsUsable : VmsConfig → Type 0
IsUsable c =
    IsInRange c
    × (is_empty c.camera_password ≡ false)
    × ((eqb_ℤ c.rtsp_port (pos 0) && eqb_ℤ c.rtsps_port (pos 0)) ≡ false)
    × ((ltb_ℤ (pos 0) c.rtsps_port && (is_empty c.tls_cert_file || is_empty c.tls_key_file))
        ≡ false)
    × (0 < c.live_client_queue_frames)
    × (c.live_client_queue_frames ≤ 10000)
    × (0 < c.live_client_queue_bytes)
    × (256 ≤ c.rtp_mtu)
    × (c.rtp_mtu ≤ 65535)

check_host-Holds : (c : VmsConfig) → IsInRange c → Holds IsInRange (check_host c)
unfolding check_host Holds
check_host-Holds c r = if_elim (Holds IsInRange) (has_bad_host c) (λ h. _) (λ h. r)

from_stdin-Holds :
    (c : VmsConfig) (line : Option Bytes) → IsInRange c → Holds IsInRange (from_stdin c line)
unfolding from_stdin Holds
from_stdin-Holds c none r = _
from_stdin-Holds c (some line) r = r

take_password-Holds :
    (line : Option Bytes) (c : VmsConfig) → IsInRange c → Holds IsInRange (take_password line c)
unfolding take_password Holds
take_password-Holds line c r =
    if_elim (Holds IsInRange) (c.camera_password_stdin && not (is_empty c.camera_password)) (λ h. _)
      (λ _.
        if_elim (Holds IsInRange) c.camera_password_stdin (λ h. from_stdin-Holds c line r) (λ h. r))

and_then-Holds :
    (P Q : VmsConfig → Type 0) (o : Option VmsConfig) (f : VmsConfig → Option VmsConfig)
    → Holds P o
    → ((c : VmsConfig) → P c → Holds Q (f c))
    → Holds Q (and_then o f)
unfolding and_then Holds
and_then-Holds P Q none f h g = _
and_then-Holds P Q (some c) f h g = g c h

check_rest-Holds :
    (join : Bytes → Bytes → Bytes) (c : VmsConfig)
    → IsInRange c
    → Holds IsUsable (check_rest join c)
unfolding check_rest Holds
check_rest-Holds join c r =
    let P = Holds IsUsable in
    if_elim P (is_empty c.camera_password) (λ h. _)
      (λ secret.
        if_elim P (c.legacy_mapping_set && not (is_empty c.channel_map)) (λ h. _)
          (λ _.
            if_elim P (eqb_ℤ c.rtsp_port (pos 0) && eqb_ℤ c.rtsps_port (pos 0)) (λ h. _)
              (λ port.
                if_elim P
                  (ltb_ℤ (pos 0) c.rtsps_port
                    && (is_empty c.tls_cert_file || is_empty c.tls_key_file))
                  (λ h. _)
                  (λ tls.
                    if_elim P
                      (c.live_client_queue_frames == 0 || ltb 10000 c.live_client_queue_frames)
                      (λ h. _)
                      (λ frames.
                        if_elim P
                          (c.live_client_queue_bytes == 0
                            || (ltb c.rtp_mtu 256 || ltb 65535 c.rtp_mtu))
                          (λ h. _)
                          (λ mtu. (
                            r,
                            secret,
                            port,
                            tls,
                            ground arith,
                            ground arith,
                            ground arith,
                            ground arith,
                            ground arith,
                          )))))))

check_config-Holds :
    (join : Bytes → Bytes → Bytes) (line : Option Bytes) (c : VmsConfig)
    → IsInRange c
    → Holds IsUsable (check_config join line c)
unfolding check_config
check_config-Holds join line c r =
    and_then-Holds IsInRange IsUsable (and_then (check_host c) (take_password line))
      (check_rest join)
      (and_then-Holds IsInRange IsInRange (check_host c) (take_password line) (check_host-Holds c r)
        (take_password-Holds line))
      (check_rest-Holds join)

checked-OnParsed : (o : Option VmsConfig) → Holds IsUsable o → OnParsed IsUsable (checked o)
unfolding checked OnParsed Holds
checked-OnParsed none h = _
checked-OnParsed (some c) h = h

finish-OnParsed :
    (join : Bytes → Bytes → Bytes) (line : Option Bytes) (p : Parsed VmsConfig)
    → OnParsed IsInRange p
    → OnParsed IsUsable (finish join line p)
unfolding finish OnParsed
finish-OnParsed join line (parsed c) r =
    checked-OnParsed (check_config join line c) (check_config-Holds join line c r)
finish-OnParsed join line failed r = _
finish-OnParsed join line exited r = _

defaults-IsInRange : IsInRange defaults
defaults-IsInRange = (
  (omega arith, omega arith),
  (omega arith, omega arith),
  (omega arith, omega arith),
  (omega arith, omega arith),
  (omega arith, omega arith),
  (omega arith, omega arith),
  (omega arith, omega arith),
  (omega arith, omega arith),
  (omega arith, omega arith),
  (omega arith, omega arith),
  (omega arith, omega arith),
)

-- A configuration that the command line is accepted with, whatever its arguments, has every port,
-- channel number and delay in its range, a password, a listener, the names of a certificate
-- and of its key where RTSPS is on, 1 to 10000 frames and at least one byte of queue for each
-- client, and an MTU from 256 to 65535.
pub parse_vms_args-IsUsable :
    (join : Bytes → Bytes → Bytes) (stdin_line : Option Bytes) (args : List Bytes) (c : VmsConfig)
    → parse_vms_args join stdin_line args ≡ parsed c
    → IsUsable c
unfolding parse_vms_args OnParsed
parse_vms_args-IsUsable join line args c e = subst (OnParsed IsUsable) e (
    finish-OnParsed join line (parse_options options args defaults)
      (parse_options-OnParsed IsInRange options args defaults options-Keeps defaults-IsInRange))
