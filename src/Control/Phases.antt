-- ===== src/Control/Phases.antt =====
-- How `process_rtsp_request` moves the state of a control connection.
use rpi_server.Prelude.{
  ℕ, ◌≡◌, refl, Bool, true, false, not, ◌||◌, Option, none, some, [], ◌∷◌, if_elim, not-false,
}
use rpi_server.Prelude.Int.{ℤ, pos, ltb_ℤ, eqb_ℤ}
use rpi_server.Bytes.{Bytes, codes, equal, equal_iff}
use rpi_server.Parser.Headers.{
  header_value, message_header_part, cseq_from_message, rtsp_method_from_request,
  extract_request_target,
}
use rpi_server.FrameQueue.{VideoCodec}
use rpi_server.Control.Target.{parse_public_channel_id}
use rpi_server.Control.Reply.{random_session_id}
use rpi_server.Control.{
  RtspControlPhase, initial, ready, playing, closed, RtspControlState, RtspControlResult,
  valid_session_header, parse_interleaved_channels, session_of, reply, setup_channels, is_initial,
  is_ready, handle_describe, handle_setup, handle_play, handle_get_parameter, handle_teardown,
  handle_channel, handle_method, cseq_then, process_rtsp_request,
}

-- The channel is one, and it is the channel that is registered.
abbrev pub IsRegistered : ℤ → ℤ → Type 0
IsRegistered channel registered =
    (ltb_ℤ channel (pos 0) ≡ false) × (eqb_ℤ channel registered ≡ true)

-- What one request can do to the state: nothing, or one of the three moves. The two Booleans are
-- `start_play` and `close_session`.
pub data Move (fresh request : Bytes) (channel registered : ℤ)
    : RtspControlState → Bool → Bool → RtspControlState → Type 0 where
  stay : (s : RtspControlState) → Move fresh request channel registered s false false s
  refuse :
      (s : RtspControlState)
      → cseq_from_message request ≡ []
      → Move fresh request channel registered s false true s
  set_up :
      (s : RtspControlState) (rtp rtcp : ℤ)
      → IsRegistered channel registered
      → s.phase ≡ initial
      → rtsp_method_from_request request ≡ codes "SETUP"
      → parse_interleaved_channels (header_value (message_header_part request) (codes "Transport"))
        ≡ some (rtp, rtcp)
      → Move fresh request channel registered s false false (record {
        phase = ready;
        session_id = fresh;
        channel_id = channel;
        rtp_channel = rtp;
        rtcp_channel = rtcp;
      })
  play :
      (s : RtspControlState)
      → IsRegistered channel registered
      → s.phase ≡ ready
      → rtsp_method_from_request request ≡ codes "PLAY"
      → eqb_ℤ s.channel_id channel ≡ true
      → valid_session_header (session_of request) s.session_id ≡ true
      → Move fresh request channel registered s true false (record s { phase = playing })
  tear_down :
      (s : RtspControlState)
      → IsRegistered channel registered
      → rtsp_method_from_request request ≡ codes "TEARDOWN"
      → valid_session_header (session_of request) s.session_id ≡ true
      → Move fresh request channel registered s false true (record s { phase = closed })

abbrev pub IsMove :
    Bytes → Bytes → ℤ → ℤ → RtspControlState → RtspControlResult × RtspControlState → Type 0
IsMove fresh request channel registered s (result, t) =
    Move fresh request channel registered s result.start_play result.close_session t

is_initial-initial : (p : RtspControlPhase) → not (is_initial p) ≡ false → p ≡ initial
unfolding is_initial
is_initial-initial initial h = refl
is_initial-initial ready h = cc
is_initial-initial playing h = cc
is_initial-initial closed h = cc

is_ready-ready : (p : RtspControlPhase) → not (is_ready p) ≡ false → p ≡ ready
unfolding is_ready
is_ready-ready ready h = refl
is_ready-ready initial h = cc
is_ready-ready playing h = cc
is_ready-ready closed h = cc

neither : (a b : Bool) → a || b ≡ false → (a ≡ false) × (b ≡ false)
neither false b h = (refl, h)
neither true b h = cc

module _ (fresh request : Bytes) (channel registered : ℤ)
    (live : IsRegistered channel registered) where
  setup_channels-Move :
      (cseq : Bytes) (s : RtspControlState) (o : Option (ℤ × ℤ))
      → s.phase ≡ initial
      → rtsp_method_from_request request ≡ codes "SETUP"
      → parse_interleaved_channels (header_value (message_header_part request) (codes "Transport"))
        ≡ o
      → IsMove fresh request channel registered s (setup_channels fresh cseq channel s o)
  unfolding setup_channels reply
  setup_channels-Move cseq s none p m e = stay s
  setup_channels-Move cseq s (some (rtp, rtcp)) p m e = set_up s rtp rtcp live p m e

  handle_setup-Move :
      (cseq : Bytes) (s : RtspControlState)
      → rtsp_method_from_request request ≡ codes "SETUP"
      → IsMove fresh request channel registered s (handle_setup fresh request cseq channel s)
  unfolding handle_setup reply
  handle_setup-Move cseq s m =
      if_elim
        (λ (r : RtspControlResult × RtspControlState). IsMove fresh request channel registered s r)
        (not (is_initial s.phase)) (λ h. stay s)
        (λ h. setup_channels-Move cseq s _ (is_initial-initial s.phase h) m refl)

  handle_play-Move :
      (cseq : Bytes) (s : RtspControlState)
      → rtsp_method_from_request request ≡ codes "PLAY"
      → IsMove fresh request channel registered s (handle_play request cseq channel s)
  unfolding handle_play reply
  handle_play-Move cseq s m =
      if_elim
        (λ (r : RtspControlResult × RtspControlState). IsMove fresh request channel registered s r)
        (not (is_ready s.phase) || not (eqb_ℤ s.channel_id channel)) (λ h. stay s)
        (λ h.
          if_elim
            (λ (r : RtspControlResult × RtspControlState).
              IsMove fresh request channel registered s r)
            (not (valid_session_header (session_of request) s.session_id)) (λ k. stay s)
            (λ k.
              play s live (is_ready-ready s.phase (neither _ _ h).0) m (not-false (neither _ _ h).1)
                (not-false k)))

  handle_get_parameter-Move :
      (cseq : Bytes) (s : RtspControlState)
      → IsMove fresh request channel registered s (handle_get_parameter request cseq s)
  unfolding handle_get_parameter reply
  handle_get_parameter-Move cseq s =
      if_elim
        (λ (r : RtspControlResult × RtspControlState). IsMove fresh request channel registered s r)
        (not (valid_session_header (session_of request) s.session_id)) (λ k. stay s) (λ k. stay s)

  handle_teardown-Move :
      (cseq : Bytes) (s : RtspControlState)
      → rtsp_method_from_request request ≡ codes "TEARDOWN"
      → IsMove fresh request channel registered s (handle_teardown request cseq s)
  unfolding handle_teardown reply
  handle_teardown-Move cseq s m =
      if_elim
        (λ (r : RtspControlResult × RtspControlState). IsMove fresh request channel registered s r)
        (not (valid_session_header (session_of request) s.session_id)) (λ k. stay s)
        (λ k. tear_down s live m (not-false k))

  handle_channel-Move :
      (cseq : Bytes) (codec : VideoCodec) (fmtp : Bytes) (s : RtspControlState)
      → IsMove fresh request channel registered s (
          handle_channel fresh request cseq channel codec fmtp (rtsp_method_from_request request) s)
  unfolding handle_channel handle_describe reply
  handle_channel-Move cseq codec fmtp s =
      let P =
        λ (r : RtspControlResult × RtspControlState). IsMove fresh request channel registered s r in
      let method = rtsp_method_from_request request in
      if_elim P (equal method (codes "DESCRIBE")) (λ h. stay s)
        (λ _.
          if_elim P (equal method (codes "SETUP"))
            (λ h. handle_setup-Move cseq s ((equal_iff method (codes "SETUP")).0 h))
            (λ _.
              if_elim P (equal method (codes "PLAY"))
                (λ h. handle_play-Move cseq s ((equal_iff method (codes "PLAY")).0 h))
                (λ _.
                  if_elim P (equal method (codes "GET_PARAMETER"))
                    (λ h. handle_get_parameter-Move cseq s)
                    (λ _.
                      if_elim P (equal method (codes "TEARDOWN"))
                        (λ h.
                          handle_teardown-Move cseq s ((equal_iff method (codes "TEARDOWN")).0 h))
                        (λ _. stay s)))))

abbrev pub target_channel : Bytes → ℤ
target_channel request = parse_public_channel_id (extract_request_target request)

cseq_then-Move :
    (fresh request : Bytes) (registered : ℤ) (codec : VideoCodec) (fmtp : Bytes)
    (s : RtspControlState) (cseq : Bytes)
    → cseq_from_message request ≡ cseq
    → IsMove fresh request
        (target_channel request)
        registered
        s
        (cseq_then cseq fresh request registered codec fmtp s)
unfolding cseq_then handle_method reply
cseq_then-Move fresh request registered codec fmtp s [] e = refuse s e
cseq_then-Move fresh request registered codec fmtp s (c ∷ cseq) e =
    let P = λ (r : RtspControlResult × RtspControlState).
      IsMove fresh request (target_channel request) registered s r in
    if_elim P (equal (rtsp_method_from_request request) (codes "OPTIONS")) (λ h. stay s)
      (λ _.
        if_elim P
          (ltb_ℤ (target_channel request) (pos 0)
            || not (eqb_ℤ (target_channel request) registered))
          (λ h. stay s)
          (λ n.
            handle_channel-Move fresh request (target_channel request) registered
              ((neither _ _ n).0, not-false (neither _ _ n).1) (c ∷ cseq) codec fmtp s))

-- Whatever the request, the state and the two results are related by one of five moves: the state
-- stays and nothing is asked of the caller; it stays and the connection is to be closed, where
-- the request has no CSeq; SETUP takes `initial` to `ready` with a new session id, the channel of
-- the request and the two interleaved channels of its Transport header; PLAY with the session's
-- header and channel takes `ready` to `playing` and starts the stream; TEARDOWN with the session's
-- header takes any phase to `closed` and closes the connection. In these three the request names
-- the registered channel.
pub process-Move :
    (random1 random2 : ℕ) (request : Bytes) (registered : ℤ) (codec : VideoCodec) (fmtp : Bytes)
    (s : RtspControlState)
    → IsMove
        (random_session_id random1 random2)
        request
        (target_channel request)
        registered
        s
        (process_rtsp_request random1 random2 request registered codec fmtp s)
unfolding process_rtsp_request
process-Move random1 random2 request registered codec fmtp s =
    cseq_then-Move (random_session_id random1 random2) request registered codec fmtp s
      (cseq_from_message request) refl
