-- ===== src/Proxy/Retries.antt =====
-- src/proxy/rtsp_proxy_session.cpp: a camera that refuses every request.
use rpi_server.Prelude.{
  ℕ, zero, suc, ◌+◌, ◌++◌, ◌<◌, ◌≡◌, refl, sym, ◌∙◌, subst, Bool, true, false, not, ◌||◌, Option,
  none, some, List, [], ◌∷◌, if◌then◌else◌, if_elim, ltb, length, take, arith,
}
use rpi_server.Prelude.Int.{pos, eqb_ℤ}
use rpi_server.Bytes.{Bytes, codes, crlf, blank_line, find}
use rpi_server.Parser.Text.{next_word, lower_copy}
use rpi_server.Parser.Headers.{rtsp_status_code, get_first_line}
use rpi_server.Parser.Extract.{got, extract_one_rtsp_message}
use rpi_server.Parser.Extract.Progress.{extract_nil}
use rpi_server.ProxyConfig.{AppConfig}
use rpi_server.Digest.{
  DigestAuthenticator, is_nonempty, parse_digest_challenge, update_from_unauthorized, authorize,
  build_authorization, add_at, replace_line, add_authorization_header,
}
use rpi_server.Proxy.{
  Session, After, going, and_then, is_interleaved, send_camera, retry, on_response,
  on_camera_message, on_extracted, set_camera_buf, camera_loop, limits_of,
}
use rpi_server.Proxy.Loop.{
  Wake, readable, unreadable, bytes, read_open_camera, read_camera, read_client, on_select, run,
}

nonempty_append : (s t : Bytes) → is_nonempty s ≡ true → is_nonempty (s ++ t) ≡ true
unfolding is_nonempty
nonempty_append [] t h = cc
nonempty_append (c ∷ s) t h = refl

nonempty_take : (n : ℕ) (s : Bytes) → 0 < n → is_nonempty s ≡ true → is_nonempty (take n s) ≡ true
unfolding is_nonempty
nonempty_take zero s h n = absurd (omega arith)
nonempty_take (suc n) [] h e = cc
nonempty_take (suc n) (c ∷ s) h e = refl

replace_line_nonempty :
    (s header : Bytes) (start : ℕ) (o : Option ℕ)
    → 0 < start
    → is_nonempty s ≡ true
    → is_nonempty (replace_line s header start o) ≡ true
unfolding replace_line
replace_line_nonempty s header start none h e = nonempty_append _ _ (nonempty_take start s h e)
replace_line_nonempty s header start (some line_end) h e =
    nonempty_append _ _ (nonempty_take start s h e)

add_at_nonempty :
    (s header : Bytes) (header_end line_start : Option ℕ)
    → is_nonempty s ≡ true
    → is_nonempty (add_at s header header_end line_start) ≡ true
unfolding add_at
add_at_nonempty s header none line_start e = e
add_at_nonempty s header (some header_end) none e =
    nonempty_append _ _ (nonempty_take (header_end + 2) s (omega arith) e)
add_at_nonempty s header (some header_end) (some line_start) e =
    if_elim (λ (t : Bytes). is_nonempty t ≡ true) (ltb line_start header_end)
      (λ h. replace_line_nonempty s header (line_start + 2) _ (omega arith) e)
      (λ h. nonempty_append _ _ (nonempty_take (header_end + 2) s (omega arith) e))

added_nonempty :
    (request header : Bytes)
    → is_nonempty request ≡ true
    → is_nonempty (add_authorization_header request header) ≡ true
unfolding add_authorization_header
added_nonempty request header e =
    add_at_nonempty request header (find blank_line request)
      (find (crlf ++ codes "authorization:") (lower_copy request)) e

authorize_nonempty :
    (md5_hex : Bytes → Bytes) (request : Bytes) (a : DigestAuthenticator)
    → is_nonempty request ≡ true
    → is_nonempty (authorize md5_hex request a).0 ≡ true
unfolding authorize
authorize_nonempty md5_hex request a e =
    let method = next_word (get_first_line request) in
    let uri = next_word method.1 in
    if_elim (λ (r : Bytes × DigestAuthenticator). is_nonempty r.0 ≡ true) (not a.challenge.valid)
      (λ h. e)
      (λ h.
        if_elim (λ (r : Bytes × DigestAuthenticator). is_nonempty r.0 ≡ true)
          (not (is_nonempty method.0) || not (is_nonempty uri.0)) (λ k. e)
          (λ k. added_nonempty request (build_authorization md5_hex a method.0 uri.0 a.nc) e))

and_then_going : (s : Session) (next : Session → After) → and_then (going s) next ≡ next s
unfolding and_then
and_then_going s next = refl

-- A response of status 401 with a challenge.
abbrev pub IsUnauthorized : Bytes → Type 0
IsUnauthorized message =
    (is_interleaved message ≡ false)
    × (eqb_ℤ (rtsp_status_code message) (pos 401) ≡ true)
    × ((parse_digest_challenge message).valid ≡ true)

update_valid :
    (message : Bytes) (a : DigestAuthenticator)
    → (parse_digest_challenge message).valid ≡ true
    → update_from_unauthorized message a
      ≡ (true, record a { challenge = parse_digest_challenge message })
unfolding update_from_unauthorized
update_valid message a h = rw h refl

module _ (md5_hex : Bytes → Bytes) (config : AppConfig) (camera_connects : Bool)
    (camera_takes client_takes : List Bytes → Bytes → Bool)
    (takes : (sent : List Bytes) (m : Bytes) → camera_takes sent m ≡ true) where
  -- The session behind the retry.
  abbrev retried : Bytes → Session → Session
  retried message s =
      let a = record s.authenticator { challenge = parse_digest_challenge message } in
      let out = authorize md5_hex s.last_upstream_request a in
      record s {
        authenticator = out.1;
        last_upstream_request = out.0;
        to_camera = out.0 ∷ s.to_camera;
        camera_buf = [];
      }

  retry_takes :
      (request : Bytes) (a : DigestAuthenticator) (s : Session)
      → let out = authorize md5_hex request a in
        retry md5_hex config camera_connects camera_takes client_takes request a s
        ≡ going (record s {
          authenticator = out.1;
          last_upstream_request = out.0;
          to_camera = out.0 ∷ s.to_camera;
        })
  unfolding retry send_camera and_then
  retry_takes request a s = rw (takes s.to_camera (authorize md5_hex request a).0) refl

  unauthorized_retried :
      (message : Bytes) (s : Session)
      → IsUnauthorized message
      → is_nonempty s.last_upstream_request ≡ true
      → on_camera_message md5_hex config camera_connects camera_takes client_takes message
          (record s { camera_buf = [] })
        ≡ going (retried message s)
  unfolding on_camera_message on_response
  unauthorized_retried message s (response, status, valid) asked =
      rw (response, status, asked, update_valid message s.authenticator valid)
        (retry_takes s.last_upstream_request _ (record s { camera_buf = [] }))

  module _ (c : ℕ) (rest : Bytes) where
    abbrev pub message : Bytes
    message = c ∷ rest

    handled_rest :
        (s : Session)
        → and_then (going (retried message s)) (λ t.
          camera_loop md5_hex config camera_connects camera_takes client_takes
            (suc (length rest))
            t)
          ≡ going (retried message s)
    unfolding and_then camera_loop on_extracted
    handled_rest s = rw (extract_nil 0 (limits_of config)) refl

    loop_retried :
        (s : Session)
        → IsUnauthorized message
        → is_nonempty s.last_upstream_request ≡ true
        → extract_one_rtsp_message (suc (length message)) (limits_of config) message
          ≡ got message []
        → camera_loop md5_hex config camera_connects camera_takes client_takes
            (suc (length message))
            (record s { camera_buf = message })
          ≡ going (retried message s)
    unfolding camera_loop on_extracted
    loop_retried s u asked whole =
        subst
          (λ x.
            on_extracted md5_hex config camera_connects camera_takes client_takes x
              (set_camera_buf md5_hex config camera_connects camera_takes client_takes)
              (on_camera_message md5_hex config camera_connects camera_takes client_takes)
              (λ t.
                camera_loop md5_hex config camera_connects camera_takes client_takes
                  (length message) t)
              (record s { camera_buf = message })
            ≡ going (retried message s))
          (sym whole)
          (subst
            (λ a.
              and_then a (λ t.
                camera_loop md5_hex config camera_connects camera_takes client_takes
                  (length message) t)
              ≡ going (retried message s))
            (sym (unauthorized_retried message s u asked)) (handled_rest s))

    -- The camera's message comes, and the client sends nothing.
    abbrev pub refusal : Wake
    refusal = record { running = true; select = readable unreadable (bytes message) }

    abbrev pub refusals : ℕ → List Wake
    refusals zero = []
    refusals (suc n) = refusal ∷ refusals n

    refused :
        (s : Session)
        → IsUnauthorized message
        → is_nonempty s.last_upstream_request ≡ true
        → extract_one_rtsp_message (suc (length message)) (limits_of config) message
          ≡ got message []
        → s.camera_open ≡ true
        → s.camera_buf ≡ []
        → on_select md5_hex config camera_connects camera_takes client_takes refusal.select s
          ≡ going (retried message s)
    unfolding on_select read_client read_camera read_open_camera and_then
    refused s u asked whole up e =
        subst
          (λ u.
            (if u
              then read_open_camera md5_hex config camera_connects camera_takes client_takes
                  (bytes message) s
              else going s)
            ≡ going (retried message s))
          (sym up)
          (subst
            (λ b.
              camera_loop md5_hex config camera_connects camera_takes client_takes
                (suc (length (b ++ message))) (record s { camera_buf = b ++ message })
              ≡ going (retried message s))
            (sym e) (loop_retried s u asked whole))

    -- What `n` refusals come to.
    abbrev pub AsksAgain : ℕ → Session → After → Type 0
    AsksAgain n s a =
        (t : Session) × (a ≡ going t)
        × (length t.to_camera ≡ length s.to_camera + n)
        × (t.to_client ≡ s.to_client)

    -- A camera that answers every request with a whole 401 response with a challenge is asked
    -- again every time, for as long as the session runs: `n` such responses lead to `n` more
    -- requests to it, and the client gets nothing.
    pub run-AsksAgain :
        (n : ℕ) (s : Session)
        → IsUnauthorized message
        → extract_one_rtsp_message (suc (length message)) (limits_of config) message
          ≡ got message []
        → is_nonempty s.last_upstream_request ≡ true
        → s.camera_open ≡ true
        → s.camera_buf ≡ []
        → AsksAgain n s
            (run md5_hex config camera_connects camera_takes client_takes (refusals n) s)
    unfolding run
    run-AsksAgain zero s u whole asked up e = (s, refl, omega arith, refl)
    run-AsksAgain (suc n) s u whole asked up e =
        let a = record s.authenticator { challenge = parse_digest_challenge message } in
        let (t, g, l, k) =
          run-AsksAgain n (retried message s) u whole
            (authorize_nonempty md5_hex s.last_upstream_request a asked) up refl in
        (
          t,
          subst
              (λ x.
                and_then x
                  (λ t. run md5_hex config camera_connects camera_takes client_takes (refusals n) t)
                ≡ going t)
              (sym (refused s u asked whole up e))
              (and_then_going (retried message s)
                  (λ t. run md5_hex config camera_connects camera_takes client_takes (refusals n) t)
                ∙ g),
          omega arith,
          k,
        )
