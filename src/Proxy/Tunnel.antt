-- ===== src/Proxy/Tunnel.antt =====
-- src/proxy/rtsp_proxy_session.cpp: what of the camera's messages reaches the client.
use rpi_server.Prelude.{
  ℕ, zero, suc, ◌≡◌, ◌⊎◌, inl, inr, refl, sym, subst, Bool, true, false, Option, none, some, List,
  [], ◌∷◌, if◌then◌else◌, Bool-cases, length, All,
}
use rpi_server.Prelude.Int.{pos, eqb_ℤ}
use rpi_server.Bytes.{Bytes}
use rpi_server.Parser.Headers.{rtsp_status_code}
use rpi_server.Parser.Extract.{
  ParserLimits, Extracted, got, pending, stuck, extract_one_rtsp_message,
}
use rpi_server.Rewriter.{RtspRewriter, rewrite_camera_response}
use rpi_server.ProxyConfig.{AppConfig}
use rpi_server.Proxy.{
  Session, After, going, and_then, is_interleaved, send_client, respond, on_camera_message,
  on_extracted, set_camera_buf, camera_loop, limits_of,
}

-- What the client gets for a message: a frame as it is, a response with its URLs rewritten.
abbrev pub shown : RtspRewriter → Bytes → Bytes
shown r message = if is_interleaved message then message else rewrite_camera_response r message

-- The messages sent, in the order of `messages`, the last one first.
abbrev pub all_shown : RtspRewriter → List Bytes → List Bytes → List Bytes
all_shown r [] sent = sent
all_shown r (m ∷ messages) sent = all_shown r messages (shown r m ∷ sent)

-- A frame or a response that does not ask for a password.
abbrev pub IsPassed : Bytes → Type 0
IsPassed message =
    (is_interleaved message ≡ true) ⊎ (eqb_ℤ (rtsp_status_code message) (pos 401) ≡ false)

-- The messages of a buffer and what is left of it, as the parser finds them.
unfoldable pub and_more : Bytes → Option (List Bytes × Bytes) → Option (List Bytes × Bytes)
and_more m none = none
and_more m (some (messages, rest)) = some (m ∷ messages, rest)

unfoldable pub split_extracted :
    Extracted → (Bytes → Option (List Bytes × Bytes)) → Option (List Bytes × Bytes)
unfolding and_more
split_extracted (got m buffer) next = and_more m (next buffer)
split_extracted (pending buffer) next = some ([], buffer)
split_extracted stuck next = none

unfoldable pub split_messages : ℕ → ParserLimits → Bytes → Option (List Bytes × Bytes)
unfolding split_extracted extract_one_rtsp_message
split_messages zero limits buffer = none
split_messages (suc fuel) limits buffer =
    split_extracted (extract_one_rtsp_message (suc (length buffer)) limits buffer)
      (λ rest. split_messages fuel limits rest)

module _ (md5_hex : Bytes → Bytes) (config : AppConfig) (camera_connects : Bool)
    (camera_takes client_takes : List Bytes → Bytes → Bool)
    (takes : (sent : List Bytes) (m : Bytes) → client_takes sent m ≡ true) where
  send_client_takes :
      (out : Bytes) (s : Session)
      → send_client md5_hex config camera_connects camera_takes client_takes out s
        ≡ going (record s { to_client = out ∷ s.to_client })
  unfolding send_client
  send_client_takes out s = rw (takes s.to_client out) refl

  respond-some :
      (r : RtspRewriter) (message : Bytes) (s : Session)
      → s.rewriter ≡ some r
      → respond md5_hex config camera_connects camera_takes client_takes s.rewriter message s
        ≡ going (record s { to_client = rewrite_camera_response r message ∷ s.to_client })
  unfolding respond
  respond-some r message s e =
      subst
        (λ o.
          respond md5_hex config camera_connects camera_takes client_takes o message s
          ≡ going (record s { to_client = rewrite_camera_response r message ∷ s.to_client }))
        (sym e) (send_client_takes (rewrite_camera_response r message) s)

  passed :
      (message : Bytes) (r : RtspRewriter) (s : Session)
      → s.rewriter ≡ some r
      → IsPassed message
      → on_camera_message md5_hex config camera_connects camera_takes client_takes message s
        ≡ going (record s { to_client = shown r message ∷ s.to_client })
  unfolding on_camera_message
  passed message r s e (inl frame) = rw (frame) (send_client_takes message s)
  passed message r s e (inr other) = elim (Bool-cases (is_interleaved message)) [
    | inl frame ↦ rw (frame) (send_client_takes message s)
    | inr response ↦ rw (response, other) (respond-some r message s e)
  ]

  Through : RtspRewriter → Session → Option (List Bytes × Bytes) → After → Type 0
  Through r s none a = Unit
  Through r s (some (messages, rest)) a =
      All IsPassed messages
      → a ≡ going (record s { camera_buf = rest; to_client = all_shown r messages s.to_client })

  more-Through :
      (r : RtspRewriter) (s : Session) (message buffer : Bytes) (o : Option (List Bytes × Bytes))
      (next : Session → After)
      → s.rewriter ≡ some r
      → let t = record s { camera_buf = buffer; to_client = shown r message ∷ s.to_client } in
        Through r t o (next t)
        → Through r s (and_more message o) (
            and_then
              (on_camera_message md5_hex config camera_connects camera_takes client_takes message
                (record s { camera_buf = buffer }))
              next)
  unfolding Through and_more and_then
  more-Through r s message buffer none next e h = _
  more-Through r s message buffer (some (messages, rest)) next e h = λ every.
      subst
        (λ a.
          and_then a next
          ≡ going (record s {
            camera_buf = rest;
            to_client = all_shown r messages (shown r message ∷ s.to_client);
          }))
        (sym (passed message r (record s { camera_buf = buffer }) e every.0)) (h every.1)

  extracted-Through :
      (r : RtspRewriter) (s : Session) (x : Extracted) (next : Session → After)
      (later : Bytes → Option (List Bytes × Bytes))
      → s.rewriter ≡ some r
      → ((t : Session) → t.rewriter ≡ some r → Through r t (later t.camera_buf) (next t))
      → Through r s (split_extracted x later) (
          on_extracted md5_hex config camera_connects camera_takes client_takes x
            (set_camera_buf md5_hex config camera_connects camera_takes client_takes)
            (on_camera_message md5_hex config camera_connects camera_takes client_takes)
            next
            s)
  unfolding Through split_extracted on_extracted
  extracted-Through r s (got m buffer) next later e f =
      more-Through r s m buffer (later buffer) next e
        (f (record s { camera_buf = buffer; to_client = shown r m ∷ s.to_client }) e)
  extracted-Through r s (pending buffer) next later e f = λ every. refl
  extracted-Through r s stuck next later e f = _

  loop-Through :
      (r : RtspRewriter) (fuel : ℕ) (s : Session)
      → s.rewriter ≡ some r
      → Through r s
          (split_messages fuel (limits_of config) s.camera_buf)
          (camera_loop md5_hex config camera_connects camera_takes client_takes fuel s)
  unfolding Through camera_loop split_messages
  loop-Through r zero s e = _
  loop-Through r (suc fuel) s e =
      extracted-Through r s
        (extract_one_rtsp_message (suc (length s.camera_buf)) (limits_of config) s.camera_buf)
        (λ t. camera_loop md5_hex config camera_connects camera_takes client_takes fuel t)
        (λ b. split_messages fuel (limits_of config) b) e (λ t k. loop-Through r fuel t k)

  -- Where the parser divides the camera's bytes into messages and a rest, none of which asks for a
  -- password, and the client takes what it is sent, the client gets exactly these messages in their
  -- order, the interleaved frames unchanged and the responses rewritten, and the rest is kept.
  pub camera_loop_shows :
      (r : RtspRewriter) (fuel : ℕ) (s : Session) (messages : List Bytes) (rest : Bytes)
      → s.rewriter ≡ some r
      → split_messages fuel (limits_of config) s.camera_buf ≡ some (messages, rest)
      → All IsPassed messages
      → camera_loop md5_hex config camera_connects camera_takes client_takes fuel s
        ≡ going (record s { camera_buf = rest; to_client = all_shown r messages s.to_client })
  unfolding Through
  camera_loop_shows r fuel s messages rest e split every =
      subst
        (λ o.
          Through r s o
            (camera_loop md5_hex config camera_connects camera_takes client_takes fuel s))
        split (loop-Through r fuel s e) every
