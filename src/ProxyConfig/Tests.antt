-- ===== src/ProxyConfig/Tests.antt =====
-- Runs of the proxy's command line.
use rpi_server.Prelude.{◌≡◌, refl, List, [], ◌∷◌}
use rpi_server.Prelude.Int.{pos}
use rpi_server.Bytes.{Bytes, codes}
use rpi_server.Config.{choose, handled, parsed, failed}
use rpi_server.ProxyConfig.{AppConfig, app_defaults, app_options, parse_args}
use rpi_server.ProxyConfig.Ranges.{IsUsable, parse_args-IsUsable}

abbrev arguments : List Bytes
arguments =
    codes "--camera-host"
    ∷ codes "cam"
    ∷ codes "--camera-password"
    ∷ codes "secret"
    ∷ codes "--channels"
    ∷ codes "2"
    ∷ []

abbrev accepted : AppConfig
accepted = record app_defaults {
  camera_host = codes "cam";
  camera_password = codes "secret";
  channels = pos 2;
}

proxy_run : parse_args arguments ≡ parsed accepted
unfolding parse_args choose handled app_options
proxy_run = refl

password_required : parse_args (codes "--camera-host" ∷ codes "cam" ∷ []) ≡ failed
unfolding parse_args choose handled app_options
password_required = refl

parse_args-IsUsable_example : IsUsable accepted
parse_args-IsUsable_example = parse_args-IsUsable arguments accepted proxy_run
