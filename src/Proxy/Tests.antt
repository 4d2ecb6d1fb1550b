-- ===== src/Proxy/Tests.antt =====
-- Runs of the proxy session.
use rpi_server.Prelude.{suc, ◌≡◌, inl, refl, Bool, true, false, some, List, [], ◌∷◌, length}
use rpi_server.Prelude.Int.{pos}
use rpi_server.Bytes.{Bytes, codes, find}
use rpi_server.Parser.Headers.{content_length_from_header, rtsp_status_code}
use rpi_server.Rewriter.{RtspRewriter}
use rpi_server.ProxyConfig.{AppConfig, app_defaults}
use rpi_server.Parser.Extract.{
  interleaved_round, take_message, header_round, body_round, is_rtsp_message_start_at, round, got,
  extract_one_rtsp_message,
}
use rpi_server.Digest.{parse_digest_challenge, is_nonempty}
use rpi_server.Proxy.{is_interleaved, Session, new_session, going, camera_loop, limits_of}
use rpi_server.Proxy.Loop.{Wake, bytes, unreadable, readable, idle, run}
use rpi_server.Proxy.Invariant.{IsFine}
use rpi_server.Proxy.Safety.{run-IsFine}
use rpi_server.Proxy.Tunnel.{split_messages, camera_loop_shows}
use rpi_server.Proxy.Retries.{AsksAgain, refusals, run-AsksAgain}

abbrev proxy : AppConfig
proxy = record app_defaults { camera_host = codes "10.0.0.2"; camera_password = codes "pw" }

abbrev some_md5 : Bytes → Bytes
some_md5 text = codes "900150983cd24fb0d6963f7d28e17f72"

abbrev takes_all : List Bytes → Bytes → Bool
takes_all sent message = true

abbrev request : Bytes
request = codes "DESCRIBE rtsp://pi/ch1 RTSP/1.0\r\nCSeq: 2\r\n\r\n"

abbrev refused_response : Bytes
refused_response =
    codes "TSP/1.0 401 Unauthorized\r\nWWW-Authenticate: Digest realm=\"cam\", nonce=\"n1\"\r\n\r\n"

abbrev rewriter_1 : RtspRewriter
rewriter_1 = record {
  upstream_base = codes "rtsp://10.0.0.2:554/1/profile2/media.smp";
  public_base = codes "rtsp://pi/ch1";
}

abbrev frames : Bytes
frames = b'$' ∷ 0 ∷ 0 ∷ 2 ∷ 7 ∷ 8 ∷ b'$' ∷ 1 ∷ 0 ∷ 1 ∷ 9 ∷ b'$' ∷ []

-- A session behind its first request.
abbrev asked : Session
asked = record {
  camera_open = true;
  channel = pos 1;
  client_buf = [];
  camera_buf = [];
  last_upstream_request = request;
  rewriter = some rewriter_1;
  authenticator = record {
    camera_user = codes "admin";
    camera_password = codes "pw";
    challenge = record { valid = false; realm = []; nonce = []; qop = [] };
    nc = 1;
  };
  to_camera = request ∷ [];
  to_client = [];
}

abbrev streaming : Session
streaming = record asked { camera_buf = frames }

abbrev first_wakes : List Wake
first_wakes =
    record { running = true; select = idle }
    ∷ record { running = true; select = readable (bytes request) unreadable }
    ∷ record { running = true; select = readable unreadable (bytes frames) }
    ∷ []

run-IsFine_example :
    IsFine proxy
      (new_session proxy)
      (run some_md5 proxy true takes_all takes_all first_wakes (new_session proxy))
unfolding new_session
run-IsFine_example =
    run-IsFine some_md5 proxy true takes_all takes_all first_wakes (new_session proxy)
      (inl (refl, refl, refl, refl))

frames_split :
    split_messages 4 (limits_of proxy) frames
    ≡ some ((b'$' ∷ 0 ∷ 0 ∷ 2 ∷ 7 ∷ 8 ∷ []) ∷ (b'$' ∷ 1 ∷ 0 ∷ 1 ∷ 9 ∷ []) ∷ [], b'$' ∷ [])
unfolding split_messages extract_one_rtsp_message round interleaved_round take_message
frames_split = refl

camera_loop_shows_example :
    camera_loop some_md5 proxy true takes_all takes_all 4 streaming
    ≡ going (record streaming {
      camera_buf = b'$' ∷ [];
      to_client = (b'$' ∷ 1 ∷ 0 ∷ 1 ∷ 9 ∷ []) ∷ (b'$' ∷ 0 ∷ 0 ∷ 2 ∷ 7 ∷ 8 ∷ []) ∷ [];
    })
unfolding is_interleaved
camera_loop_shows_example =
    camera_loop_shows some_md5 proxy true takes_all takes_all (λ sent m. refl) rewriter_1 4
      streaming ((b'$' ∷ 0 ∷ 0 ∷ 2 ∷ 7 ∷ 8 ∷ []) ∷ (b'$' ∷ 1 ∷ 0 ∷ 1 ∷ 9 ∷ []) ∷ []) (b'$' ∷ [])
      refl frames_split (inl refl, (inl refl, tt))

refused_whole :
    extract_one_rtsp_message
      (suc (length (b'R' ∷ refused_response)))
      (limits_of proxy)
      (b'R' ∷ refused_response)
    ≡ got (b'R' ∷ refused_response) []
unfolding extract_one_rtsp_message round is_rtsp_message_start_at header_round find body_round
    content_length_from_header take_message
refused_whole = refl

run-AsksAgain_example :
    AsksAgain some_md5 proxy true takes_all takes_all
      (λ sent m. refl)
      b'R'
      refused_response
      3
      asked
      (run some_md5 proxy true takes_all takes_all
        (refusals some_md5 proxy true takes_all takes_all (λ sent m. refl) b'R' refused_response 3)
        asked)
unfolding is_nonempty parse_digest_challenge is_interleaved rtsp_status_code
run-AsksAgain_example =
    run-AsksAgain some_md5 proxy true takes_all takes_all (λ sent m. refl) b'R' refused_response 3
      asked (refl, refl, refl) refused_whole refl refl refl
