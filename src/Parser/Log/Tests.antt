-- ===== src/Parser/Log/Tests.antt =====
-- A logged message shows no password.
use rpi_server.Prelude.{◌≡◌, refl}
use rpi_server.Bytes.{codes}
use rpi_server.Parser.Log.{sanitized_rtsp_for_log}

password_redacted :
    sanitized_rtsp_for_log
      (codes "PLAY rtsp://admin:pw@cam/ch1 RTSP/1.0\r\nAuthorization: Digest x\r\n\r\n")
    ≡ codes "PLAY rtsp://<redacted>@cam/ch1 RTSP/1.0\nAuthorization: <redacted>\n\n"
unfolding sanitized_rtsp_for_log
password_redacted = refl
