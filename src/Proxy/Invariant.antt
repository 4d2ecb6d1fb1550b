-- ===== src/Proxy/Invariant.antt =====
-- src/proxy/rtsp_proxy_session.cpp: the channel, the rewriter and the camera of a session belong
-- together.
use mathlib.Core.Bool.{false≢true}
use rpi_server.Prelude.{
  ℕ, subst, ◌∙◌, zero, suc, ◌≡◌, ◌≢◌, ◌⊎◌, inl, inr, refl, sym, Bool, true, false, Option, none,
  some, List, [], if_elim, length,
}
use rpi_server.Prelude.Int.{ℤ, pos, negsuc, ltb_ℤ}
use rpi_server.Bytes.{Bytes}
use rpi_server.Parser.Headers.{extract_request_target}
use rpi_server.Parser.Extract.{Extracted, got, pending, stuck, extract_one_rtsp_message}
use rpi_server.Rewriter.{
  RtspRewriter, new_rewriter, extract_public_base_from_target, parse_channel_from_request_target,
  rewrite_client_request,
}
use rpi_server.Rewriter.Names.{target-IsChannel}
use rpi_server.ProxyConfig.{AppConfig}
use rpi_server.Proxy.{
  Session, After, going, over, spinning, null_rewriter, and_then, is_interleaved, send_camera,
  send_client, open_channel, bound_to, authorized, forward, on_client_message, on_extracted,
  client_loop, limits_of, set_client_buf,
}

-- Before the first request: no channel, no rewriter and no camera.
abbrev pub IsFresh : Session → Type 0
IsFresh s =
    (s.channel ≡ negsuc 0)
    × (s.rewriter ≡ none)
    × (s.camera_open ≡ false)
    × (s.last_upstream_request ≡ [])

-- Behind it: a channel of the configuration, the rewriter for it, and the camera connected.
abbrev pub IsBound : AppConfig → Session → Type 0
IsBound config s =
    (base : Bytes) × (ltb_ℤ s.channel (pos 0) ≡ false)
    × (ltb_ℤ s.channel config.channels ≡ true)
    × (s.rewriter
        ≡ some (
            new_rewriter config.camera_host config.camera_port config.camera_path_template s.channel
              base))
    × (s.camera_open ≡ true)

abbrev pub IsConsistent : AppConfig → Session → Type 0
IsConsistent config s = IsFresh s ⊎ IsBound config s

-- `t` is consistent, and has the channel and the rewriter of `s` if `s` has a camera.
abbrev pub Continues : AppConfig → Session → Session → Type 0
Continues config s t =
    IsConsistent config t
    × (s.camera_open ≡ true
        → (t.camera_open ≡ true) × (t.channel ≡ s.channel) × (t.rewriter ≡ s.rewriter))

-- No rewriter is missing, and a session that goes on is one that continues `s`.
abbrev pub IsFine : AppConfig → Session → After → Type 0
IsFine config s (going t) = Continues config s t
IsFine config s (over t) = Unit
IsFine config s spinning = Unit
IsFine config s null_rewriter = ⊥

pub some-none : {A : Type 0} {a : A} → some a ≢ none
some-none e = cc

negative_one : (n : ℤ) → n ≡ negsuc 0 → ltb_ℤ n (pos 0) ≢ false
negative_one n e h = false≢true (sym (subst (λ m. ltb_ℤ m (pos 0) ≡ false) e h))

module _ (md5_hex : Bytes → Bytes) (config : AppConfig) (camera_connects : Bool)
    (camera_takes client_takes : List Bytes → Bytes → Bool) (s : Session) where
  pub and_then-IsFine :
      (a : After) (next : Session → After)
      → IsFine config s a
      → ((t : Session) → Continues config s t → IsFine config s (next t))
      → IsFine config s (and_then a next)
  unfolding and_then
  and_then-IsFine (going t) next h f = f t h
  and_then-IsFine (over t) next h f = _
  and_then-IsFine spinning next h f = _
  and_then-IsFine null_rewriter next h f = h

  send_camera-IsFine :
      (out : Bytes) (t : Session)
      → Continues config s t
      → IsFine config s (send_camera md5_hex config camera_connects camera_takes client_takes out t)
  unfolding send_camera
  send_camera-IsFine out t h =
      if_elim (IsFine config s) (camera_takes t.to_camera out) (λ e. h) (λ e. _)

  pub send_client-IsFine :
      (out : Bytes) (t : Session)
      → Continues config s t
      → IsFine config s (send_client md5_hex config camera_connects camera_takes client_takes out t)
  unfolding send_client
  send_client-IsFine out t h =
      if_elim (IsFine config s) (client_takes t.to_client out) (λ e. h) (λ e. _)

  pub Continues-IsBound :
      (t : Session) → Continues config s t → t.rewriter ≢ none → IsBound config t
  Continues-IsBound t (inl fresh, k) n = absurd (n fresh.1)
  Continues-IsBound t (inr bound, k) n = bound

  forward-IsFine :
      (o : Option RtspRewriter) (message : Bytes) (t : Session)
      → o ≡ t.rewriter
      → Continues config s t
      → t.rewriter ≢ none
      → IsFine config s
          (forward md5_hex config camera_connects camera_takes client_takes o message t)
  unfolding forward
  forward-IsFine none message t e h n = absurd (n (sym e))
  forward-IsFine (some r) message t e h n =
      let out =
        authorized md5_hex config camera_connects camera_takes client_takes
          (rewrite_client_request r message) t.authenticator in
      send_camera-IsFine out.0 (record t { authenticator = out.1; last_upstream_request = out.0 })
        (inr (Continues-IsBound t h n), h.1)

  lost_camera : (t : Session) → Continues config s t → t.camera_open ≡ false → s.camera_open ≢ true
  lost_camera t h e open_before = let still = (h.1 open_before).0 in cc

  named_channel :
      (target : Bytes) (max_channels : ℤ)
      → ltb_ℤ (parse_channel_from_request_target target max_channels) (pos 0) ≡ false
      → let channel = parse_channel_from_request_target target max_channels in
        (ltb_ℤ channel (pos 0) ≡ false) × (ltb_ℤ channel max_channels ≡ true)
  named_channel target max_channels named = elim (target-IsChannel target max_channels) [
    | inl e ↦ absurd (negative_one _ e named)
    | inr (low, high) ↦ (named, high)
  ]

  -- A request on a session with no channel: the camera is connected, or the session ends.
  first_request-IsFine :
      (message : Bytes) (t : Session)
      → Continues config s t
      → t.camera_open ≡ false
      → IsFine config s (
          and_then
            (open_channel md5_hex config camera_connects camera_takes client_takes message t)
            (λ u.
              forward md5_hex config camera_connects camera_takes client_takes u.rewriter message
                u))
  unfolding open_channel bound_to and_then
  first_request-IsFine message t h e =
      let target = extract_request_target message in
      let channel = parse_channel_from_request_target target config.channels in
      let next : Session → After = λ u.
        forward md5_hex config camera_connects camera_takes client_takes u.rewriter message u in
      if_elim (λ a. IsFine config s (and_then a next)) (ltb_ℤ channel (pos 0)) (λ none_named. _)
        λ named.
          if_elim (λ a. IsFine config s (and_then a next)) camera_connects
            (λ up.
              let (low, high) = named_channel target config.channels named in
              forward-IsFine _ message
                (record (bound_to md5_hex config camera_connects camera_takes client_takes channel
                  target t) { camera_open = true })
                refl
                (
                  inr (extract_public_base_from_target target channel, low, high, refl, refl),
                  λ open_before. absurd (lost_camera t h e open_before),
                )
                some-none)
            (λ down. _)

  unset_closed :
      (t : Session) → IsConsistent config t → ltb_ℤ t.channel (pos 0) ≡ true → t.camera_open ≡ false
  unset_closed t (inl fresh) unset = fresh.2
  unset_closed t (inr bound) unset = let set = bound.1 in cc

  set_rewriter :
      (t : Session) → IsConsistent config t → ltb_ℤ t.channel (pos 0) ≡ false → t.rewriter ≢ none
  set_rewriter t (inl fresh) set n = absurd (negative_one t.channel fresh.0 set)
  set_rewriter t (inr bound) set n = some-none (sym bound.3 ∙ n)

  pub on_extracted-IsFine :
      (x : Extracted) (set : Bytes → Session → Session) (handle : Bytes → Session → After)
      (next : Session → After) (t : Session)
      → ((b : Bytes) → Continues config s (set b t))
      → ((m b : Bytes) → IsFine config s (handle m (set b t)))
      → ((u : Session) → Continues config s u → IsFine config s (next u))
      → IsFine config s (
          on_extracted md5_hex config camera_connects camera_takes client_takes x set handle next t)
  unfolding on_extracted
  on_extracted-IsFine (got m b) set handle next t h f g =
      and_then-IsFine (handle m (set b t)) next (f m b) g
  on_extracted-IsFine (pending b) set handle next t h f g = h b
  on_extracted-IsFine stuck set handle next t h f g = _

  on_client_message-IsFine :
      (message : Bytes) (t : Session)
      → Continues config s t
      → IsFine config s
          (on_client_message md5_hex config camera_connects camera_takes client_takes message t)
  unfolding on_client_message
  on_client_message-IsFine message t h =
      if_elim (IsFine config s) (is_interleaved message)
        (λ frame.
          if_elim (IsFine config s) t.camera_open (λ up. send_camera-IsFine message t h)
            (λ down. h))
        (λ request.
          if_elim (IsFine config s) (ltb_ℤ t.channel (pos 0))
            (λ unset. first_request-IsFine message t h (unset_closed t h.0 unset))
            (λ set. forward-IsFine t.rewriter message t refl h (set_rewriter t h.0 set)))

  pub client_loop-IsFine :
      (fuel : ℕ) (t : Session)
      → Continues config s t
      → IsFine config s
          (client_loop md5_hex config camera_connects camera_takes client_takes fuel t)
  unfolding client_loop
  client_loop-IsFine zero t h = _
  client_loop-IsFine (suc fuel) t h =
      on_extracted-IsFine
        (extract_one_rtsp_message (suc (length t.client_buf)) (limits_of config) t.client_buf)
        (set_client_buf md5_hex config camera_connects camera_takes client_takes)
        (on_client_message md5_hex config camera_connects camera_takes client_takes)
        (λ u. client_loop md5_hex config camera_connects camera_takes client_takes fuel u) t
        (λ b. h) (λ m b. on_client_message-IsFine m _ h) (λ u k. client_loop-IsFine fuel u k)
