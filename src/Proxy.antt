-- ===== src/Proxy.antt =====
-- src/proxy/rtsp_proxy_session.cpp: one client of the proxy and its camera. The bytes that come,
-- whether the camera can be reached, and which messages each side takes in full are the inputs.
-- The logging and the closing of the sockets are left out, and the TLS handshake has succeeded.
pub mod Loop
pub mod Invariant
pub mod Responses
pub mod Safety
pub mod Tunnel
pub mod Retries
mod Tests
use rpi_server.Prelude.{
  ℕ, zero, suc, ◌+◌, Bool, true, false, not, ◌&&◌, Option, none, some, List, [], ◌∷◌, ◌++◌, ◌==◌,
  if◌then◌else◌, length,
}
use rpi_server.Prelude.Int.{ℤ, pos, negsuc, ltb_ℤ, eqb_ℤ}
use rpi_server.Bytes.{Bytes}
use rpi_server.Parser.Headers.{extract_request_target, rtsp_status_code}
use rpi_server.Parser.Extract.{
  ParserLimits, Extracted, got, pending, stuck, extract_one_rtsp_message,
}
use rpi_server.Rewriter.{
  RtspRewriter, new_rewriter, parse_channel_from_request_target, extract_public_base_from_target,
  rewrite_client_request, rewrite_camera_response,
}
use rpi_server.ProxyConfig.{AppConfig}
use rpi_server.Digest.{
  DigestAuthenticator, new_authenticator, authorize, update_from_unauthorized, is_nonempty,
}

-- The locals of `run`, and the messages sent so far, the last one first.
pub record Session : Type 0 where
  pub camera_open : Bool
  pub channel : ℤ
  pub client_buf : Bytes
  pub camera_buf : Bytes
  pub last_upstream_request : Bytes
  pub rewriter : Option RtspRewriter
  pub authenticator : DigestAuthenticator
  pub to_camera : List Bytes
  pub to_client : List Bytes

unfoldable pub new_session : AppConfig → Session
unfolding new_authenticator
new_session config = record {
  camera_open = false;
  channel = negsuc 0;
  client_buf = [];
  camera_buf = [];
  last_upstream_request = [];
  rewriter = none;
  authenticator = new_authenticator config.camera_user config.camera_password;
  to_camera = [];
  to_client = [];
}

-- How a part of `run` ends: it goes on, it leaves the loop, the parser goes on for ever, or the
-- rewriter is used where there is none.
pub data After : Type 0 where
  going over : Session → After
  spinning null_rewriter : After

unfoldable pub and_then : After → (Session → After) → After
and_then (going s) next = next s
and_then (over s) next = over s
and_then spinning next = spinning
and_then null_rewriter next = null_rewriter

unfoldable pub is_interleaved : Bytes → Bool
is_interleaved [] = false
is_interleaved (c ∷ message) = c == b'$'

abbrev pub limits_of : AppConfig → ParserLimits
limits_of config = record {
  max_header_bytes = config.max_rtsp_header_bytes;
  max_body_bytes = config.max_rtsp_body_bytes;
}

-- `camera_connects` says whether `connect_camera` succeeds; `camera_takes sent m` whether
-- `send_all` succeeds for `m` behind the messages `sent`, and `client_takes` likewise.
module _ (md5_hex : Bytes → Bytes) (config : AppConfig) (camera_connects : Bool)
    (camera_takes client_takes : List Bytes → Bytes → Bool) where
  unfoldable pub send_camera : Bytes → Session → After
  send_camera out s =
      if camera_takes s.to_camera out
      then going (record s { to_camera = out ∷ s.to_camera })
      else over s

  unfoldable pub send_client : Bytes → Session → After
  send_client out s =
      if client_takes s.to_client out
      then going (record s { to_client = out ∷ s.to_client })
      else over s

  unfoldable pub bound_to : ℤ → Bytes → Session → Session
  unfolding new_rewriter extract_public_base_from_target
  bound_to channel request_target s = record s {
    channel = channel;
    rewriter = some (
        new_rewriter config.camera_host config.camera_port config.camera_path_template channel
          (extract_public_base_from_target request_target channel));
  }

  -- The first request names the channel, and the camera is connected.
  unfoldable pub open_channel : Bytes → Session → After
  unfolding bound_to extract_request_target parse_channel_from_request_target
  open_channel message s =
      let request_target = extract_request_target message in
      let channel = parse_channel_from_request_target request_target config.channels in
      let bound = bound_to channel request_target s in
      if ltb_ℤ channel (pos 0)
      then over (record s { channel = channel })
      else if camera_connects
      then going (record bound { camera_open = true })
      else over bound

  unfoldable pub authorized : Bytes → DigestAuthenticator → Bytes × DigestAuthenticator
  unfolding authorize
  authorized out a = if a.challenge.valid then authorize md5_hex out a else (out, a)

  unfoldable pub forward : Option RtspRewriter → Bytes → Session → After
  unfolding send_camera authorized rewrite_client_request
  forward none message s = null_rewriter
  forward (some r) message s =
      let out = authorized (rewrite_client_request r message) s.authenticator in
      send_camera out.0 (record s { authenticator = out.1; last_upstream_request = out.0 })

  unfoldable pub on_client_message : Bytes → Session → After
  unfolding is_interleaved send_camera open_channel and_then forward
  on_client_message message s =
      if is_interleaved message
      then if s.camera_open then send_camera message s else going s
      else if ltb_ℤ s.channel (pos 0)
      then and_then (open_channel message s) (λ t. forward t.rewriter message t)
      else forward s.rewriter message s

  unfoldable pub retry : Bytes → DigestAuthenticator → Session → After
  unfolding authorize and_then send_camera
  retry request a s =
      let out = authorize md5_hex request a in
      and_then (send_camera out.0 (record s { authenticator = out.1 }))
        (λ t. going (record t { last_upstream_request = out.0 }))

  unfoldable pub respond : Option RtspRewriter → Bytes → Session → After
  unfolding send_client rewrite_camera_response
  respond none message s = null_rewriter
  respond (some r) message s = send_client (rewrite_camera_response r message) s

  -- A 401 whose challenge is taken up leads to a retry; any other response goes to the client.
  unfoldable pub on_response : Bool × DigestAuthenticator → Bytes → Session → After
  unfolding retry respond
  on_response (true, a) message s = retry s.last_upstream_request a s
  on_response (false, a) message s = respond s.rewriter message s

  unfoldable pub on_camera_message : Bytes → Session → After
  unfolding is_interleaved send_client respond on_response update_from_unauthorized rtsp_status_code
      is_nonempty
  on_camera_message message s =
      if is_interleaved message
      then send_client message s
      else if eqb_ℤ (rtsp_status_code message) (pos 401) && is_nonempty s.last_upstream_request
      then on_response (update_from_unauthorized message s.authenticator) message s
      else respond s.rewriter message s

  -- The loops over the extracted messages. Each takes four bytes at least, so that the number of
  -- bytes is enough fuel, and the parser has as many rounds.
  unfoldable pub on_extracted :
      Extracted
      → (Bytes → Session → Session)
      → (Bytes → Session → After)
      → (Session → After)
      → Session
      → After
  unfolding and_then
  on_extracted (got message buffer) set handle next s =
      and_then (handle message (set buffer s)) next
  on_extracted (pending buffer) set handle next s = going (set buffer s)
  on_extracted stuck set handle next s = spinning

  abbrev pub set_client_buf : Bytes → Session → Session
  set_client_buf buffer s = record s { client_buf = buffer }

  abbrev pub set_camera_buf : Bytes → Session → Session
  set_camera_buf buffer s = record s { camera_buf = buffer }

  unfoldable pub client_loop : ℕ → Session → After
  unfolding on_extracted on_client_message extract_one_rtsp_message
  client_loop zero s = spinning
  client_loop (suc fuel) s =
      on_extracted
        (extract_one_rtsp_message (suc (length s.client_buf)) (limits_of config) s.client_buf)
        set_client_buf on_client_message (λ t. client_loop fuel t) s

  unfoldable pub camera_loop : ℕ → Session → After
  unfolding on_extracted on_camera_message extract_one_rtsp_message
  camera_loop zero s = spinning
  camera_loop (suc fuel) s =
      on_extracted
        (extract_one_rtsp_message (suc (length s.camera_buf)) (limits_of config) s.camera_buf)
        set_camera_buf on_camera_message (λ t. camera_loop fuel t) s
