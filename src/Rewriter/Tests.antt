-- ===== src/Rewriter/Tests.antt =====
-- Runs of the rewriting.
use rpi_server.Prelude.{◌≡◌, refl}
use rpi_server.Prelude.Int.{pos}
use rpi_server.Bytes.{codes}
use rpi_server.Rewriter.{
  RtspRewriter, new_rewriter, rewrite_client_request, rewrite_camera_response,
}

abbrev rewriter : RtspRewriter
rewriter = record {
  upstream_base = codes "rtsp://cam:554/2/live";
  public_base = codes "rtsp://pi/ch2";
}

base_built :
    new_rewriter (codes "cam") (pos 554) (codes "/{channel}/live") (pos 2) (codes "rtsp://pi/ch2")
    ≡ rewriter
unfolding new_rewriter
base_built = refl

request_rewritten :
    rewrite_client_request rewriter (codes "SETUP rtsp://pi/ch2/track1 RTSP/1.0\r\nCSeq: 3\r\n\r\n")
    ≡ codes
        "SETUP rtsp://cam:554/2/live/track1 RTSP/1.0\r\nCSeq: 3\r\nTransport: RTP/AVP/TCP;unicast;interleaved=0-1\r\n\r\n"
unfolding rewrite_client_request
request_rewritten = refl

response_rewritten :
    rewrite_camera_response rewriter
      (codes "RTSP/1.0 200 OK\r\nContent-Length: 25\r\n\r\na=rtsp://cam:554/2/live/t\r\n")
    ≡ codes "RTSP/1.0 200 OK\r\nContent-Length: 19\r\n\r\na=rtsp://pi/ch2/t\r\n"
unfolding rewrite_camera_response
response_rewritten = refl
