-- ===== src/Proxy/Responses.antt =====
-- src/proxy/rtsp_proxy_session.cpp: what the camera sends keeps a session consistent.
use mathlib.Core.Bool.{false≢true}
use rpi_server.Prelude.{
  ℕ, ◌∙◌, zero, suc, ◌≡◌, ◌≢◌, inl, inr, refl, sym, Bool, true, false, ◌&&◌, Option, none, some,
  List, if_elim, length,
}
use rpi_server.Prelude.Int.{pos, eqb_ℤ}
use rpi_server.Bytes.{Bytes}
use rpi_server.Parser.Headers.{rtsp_status_code}
use rpi_server.Parser.Extract.{extract_one_rtsp_message}
use rpi_server.Rewriter.{RtspRewriter, rewrite_camera_response}
use rpi_server.ProxyConfig.{AppConfig}
use rpi_server.Digest.{DigestAuthenticator, authorize, update_from_unauthorized, is_nonempty}
use rpi_server.Proxy.{
  Session, going, and_then, is_interleaved, send_camera, retry, respond, on_response,
  on_camera_message, camera_loop, limits_of, set_camera_buf,
}
use rpi_server.Proxy.Invariant.{
  some-none, IsBound, Continues, IsFine, send_client-IsFine, Continues-IsBound, on_extracted-IsFine,
}

module _ (md5_hex : Bytes → Bytes) (config : AppConfig) (camera_connects : Bool)
    (camera_takes client_takes : List Bytes → Bytes → Bool) (s : Session) where
  -- With a camera, none of what the camera sends finds the rewriter missing.
  respond-IsFine :
      (o : Option RtspRewriter) (message : Bytes) (t : Session)
      → o ≢ none
      → Continues config s t
      → IsFine config s
          (respond md5_hex config camera_connects camera_takes client_takes o message t)
  unfolding respond
  respond-IsFine none message t n h = absurd (n refl)
  respond-IsFine (some r) message t n h =
      send_client-IsFine md5_hex config camera_connects camera_takes client_takes s
        (rewrite_camera_response r message) t h

  retried-IsFine :
      (out : Bytes) (t : Session)
      → t.rewriter ≢ none
      → Continues config s t
      → IsFine config s (
          and_then
            (send_camera md5_hex config camera_connects camera_takes client_takes out t)
            (λ u. going (record u { last_upstream_request = out })))
  unfolding send_camera and_then
  retried-IsFine out t n h =
      if_elim
        (λ a. IsFine config s (and_then a (λ u. going (record u { last_upstream_request = out }))))
        (camera_takes t.to_camera out)
        (λ e. (
          inr (Continues-IsBound md5_hex config camera_connects camera_takes client_takes s t h n),
          h.1,
        ))
        (λ e. _)

  retry-IsFine :
      (a : DigestAuthenticator) (t : Session)
      → t.rewriter ≢ none
      → Continues config s t
      → IsFine config s (
          retry md5_hex config camera_connects camera_takes client_takes t.last_upstream_request a
            t)
  unfolding retry
  retry-IsFine a t n h =
      let out = authorize md5_hex t.last_upstream_request a in
      retried-IsFine out.0 (record t { authenticator = out.1 }) n h

  on_response-IsFine :
      (taken : Bool × DigestAuthenticator) (message : Bytes) (t : Session)
      → t.rewriter ≢ none
      → Continues config s t
      → IsFine config s
          (on_response md5_hex config camera_connects camera_takes client_takes taken message t)
  unfolding on_response
  on_response-IsFine (true, a) message t n h = retry-IsFine a t n h
  on_response-IsFine (false, a) message t n h = respond-IsFine t.rewriter message t n h

  on_camera_message-IsFine :
      (message : Bytes) (t : Session)
      → t.rewriter ≢ none
      → Continues config s t
      → IsFine config s
          (on_camera_message md5_hex config camera_connects camera_takes client_takes message t)
  unfolding on_camera_message
  on_camera_message-IsFine message t n h =
      if_elim (IsFine config s) (is_interleaved message)
        (λ frame.
          send_client-IsFine md5_hex config camera_connects camera_takes client_takes s message t h)
        λ response.
          if_elim (IsFine config s)
            (eqb_ℤ (rtsp_status_code message) (pos 401) && is_nonempty t.last_upstream_request)
            (λ unauthorized.
              on_response-IsFine (update_from_unauthorized message t.authenticator) message t n h)
            (λ other. respond-IsFine t.rewriter message t n h)

  bound_rewriter : (t : Session) → IsBound config t → t.rewriter ≢ none
  bound_rewriter t bound n = some-none (sym bound.3 ∙ n)

  -- `s` has a camera here, so that each session that continues it has one.
  Continues-rewriter :
      (t : Session) → s.camera_open ≡ true → Continues config s t → t.rewriter ≢ none
  Continues-rewriter t up (inl fresh, k) n = false≢true (sym fresh.2 ∙ (k up).0)
  Continues-rewriter t up (inr bound, k) n = bound_rewriter t bound n

  pub camera_loop-IsFine :
      (fuel : ℕ) (t : Session)
      → s.camera_open ≡ true
      → Continues config s t
      → IsFine config s
          (camera_loop md5_hex config camera_connects camera_takes client_takes fuel t)
  unfolding camera_loop
  camera_loop-IsFine zero t up h = _
  camera_loop-IsFine (suc fuel) t up h =
      on_extracted-IsFine md5_hex config camera_connects camera_takes client_takes s
        (extract_one_rtsp_message (suc (length t.camera_buf)) (limits_of config) t.camera_buf)
        (set_camera_buf md5_hex config camera_connects camera_takes client_takes)
        (on_camera_message md5_hex config camera_connects camera_takes client_takes)
        (λ u. camera_loop md5_hex config camera_connects camera_takes client_takes fuel u) t
        (λ b. h) (λ m b. on_camera_message-IsFine m _ (Continues-rewriter t up h) h)
        (λ u k. camera_loop-IsFine fuel u up k)
