-- ===== src/Config/Tests.antt =====
-- Runs of the command line.
use rpi_server.Prelude.{◌≡◌, ◌++◌, refl, true, none, some, List, [], ◌∷◌}
use rpi_server.Bytes.{Bytes, codes}
use rpi_server.Config.{
  VmsConfig, defaults, options, choose, handled, parsed, failed, parse_vms_args, check_host,
  take_password, check_rest,
}
use rpi_server.Config.Ranges.{IsUsable, parse_vms_args-IsUsable}

-- The `/` of two paths that are relative and not empty.
abbrev slash : Bytes → Bytes → Bytes
slash a b = a ++ (codes "/" ++ b)

abbrev command_line : List Bytes
command_line =
    codes "--camera-host"
    ∷ codes "10.0.0.5"
    ∷ codes "--camera-password-stdin"
    ∷ codes "--rtp-mtu"
    ∷ codes "1400"
    ∷ []

abbrev accepted : VmsConfig
accepted = record defaults {
  camera_host = codes "10.0.0.5";
  camera_password = codes "secret";
  camera_password_stdin = true;
  rtp_mtu = 1400;
  channel_map = codes "0:1,1:2,2:3,3:4";
  media_db = codes "/mnt/vms-storage/index/media.db";
}

first_run : parse_vms_args slash (some (codes "secret\r")) command_line ≡ parsed accepted
unfolding parse_vms_args choose options handled check_host take_password check_rest
first_run = refl

port_refused : parse_vms_args slash none (codes "--rtsp-port" ∷ codes "65536" ∷ []) ≡ failed
unfolding parse_vms_args choose options handled
port_refused = refl

parse_vms_args-IsUsable_example : IsUsable accepted
parse_vms_args-IsUsable_example =
    parse_vms_args-IsUsable slash (some (codes "secret\r")) command_line accepted first_run
