-- ===== src/Control/Errors.antt =====
-- The answers of `process_rtsp_request`: their status lines, and what an error leaves alone.
use rpi_server.Prelude.{
  ℕ, ◌≡◌, ◌⊎◌, inl, inr, refl, false, not, ◌||◌, Option, none, some, List, [], ◌∷◌, ◌++◌, if_elim,
}
use rpi_server.Prelude.Int.{ℤ, pos, ltb_ℤ, eqb_ℤ}
use rpi_server.Bytes.{Bytes, codes, equal}
use rpi_server.Parser.Headers.{rtsp_status_code, cseq_from_message, rtsp_method_from_request}
use rpi_server.FrameQueue.{VideoCodec}
use rpi_server.Control.Reply.{make_response, random_session_id}
use rpi_server.Control.{
  RtspControlState, RtspControlResult, reply, setup_channels, is_initial, is_ready, handle_describe,
  valid_session_header, session_of, handle_setup, handle_play, handle_get_parameter,
  handle_teardown, handle_channel, handle_method, cseq_then, public_methods, process_rtsp_request,
}
use rpi_server.Control.Phases.{target_channel}

-- The answer is 200 OK, or it is one of the six errors, the state is as it was and no stream starts.
abbrev pub IsError : Bytes → Type 0
IsError response =
    (rtsp_status_code response ≡ pos 400)
    ⊎ (rtsp_status_code response ≡ pos 404)
    ⊎ (rtsp_status_code response ≡ pos 405)
    ⊎ (rtsp_status_code response ≡ pos 454)
    ⊎ (rtsp_status_code response ≡ pos 455)
    ⊎ (rtsp_status_code response ≡ pos 461)

abbrev pub OkOrKept : RtspControlState → RtspControlResult × RtspControlState → Type 0
OkOrKept s (result, t) =
    (rtsp_status_code result.response ≡ pos 200)
    ⊎ (IsError result.response × (t ≡ s) × (result.start_play ≡ false))

status_400 : (cseq : Bytes) (hs : List Bytes) → IsError (make_response 400 cseq hs [])
unfolding rtsp_status_code make_response
status_400 cseq hs = inl refl

status_404 : (cseq : Bytes) (hs : List Bytes) → IsError (make_response 404 cseq hs [])
unfolding rtsp_status_code make_response
status_404 cseq hs = inr (inl refl)

status_405 : (cseq : Bytes) (hs : List Bytes) → IsError (make_response 405 cseq hs [])
unfolding rtsp_status_code make_response
status_405 cseq hs = inr (inr (inl refl))

status_454 : (cseq : Bytes) (hs : List Bytes) → IsError (make_response 454 cseq hs [])
unfolding rtsp_status_code make_response
status_454 cseq hs = inr (inr (inr (inl refl)))

status_455 : (cseq : Bytes) (hs : List Bytes) → IsError (make_response 455 cseq hs [])
unfolding rtsp_status_code make_response
status_455 cseq hs = inr (inr (inr (inr (inl refl))))

status_461 : (cseq : Bytes) (hs : List Bytes) → IsError (make_response 461 cseq hs [])
unfolding rtsp_status_code make_response
status_461 cseq hs = inr (inr (inr (inr (inr refl))))

setup_channels-Kept :
    (fresh cseq : Bytes) (channel : ℤ) (s : RtspControlState) (o : Option (ℤ × ℤ))
    → OkOrKept s (setup_channels fresh cseq channel s o)
unfolding setup_channels reply make_response rtsp_status_code
setup_channels-Kept fresh cseq channel s none = inr (status_461 cseq [], refl, refl)
setup_channels-Kept fresh cseq channel s (some (rtp, rtcp)) = inl refl

handle_setup-Kept :
    (fresh request cseq : Bytes) (channel : ℤ) (s : RtspControlState)
    → OkOrKept s (handle_setup fresh request cseq channel s)
unfolding handle_setup reply
handle_setup-Kept fresh request cseq channel s =
    if_elim (λ (r : RtspControlResult × RtspControlState). OkOrKept s r) (not (is_initial s.phase))
      (λ h. inr (status_455 cseq [], refl, refl)) (λ h. setup_channels-Kept fresh cseq channel s _)

handle_play-Kept :
    (request cseq : Bytes) (channel : ℤ) (s : RtspControlState)
    → OkOrKept s (handle_play request cseq channel s)
unfolding handle_play reply make_response rtsp_status_code
handle_play-Kept request cseq channel s =
    let P = λ (r : RtspControlResult × RtspControlState). OkOrKept s r in
    if_elim P (not (is_ready s.phase) || not (eqb_ℤ s.channel_id channel))
      (λ h. inr (status_455 cseq [], refl, refl))
      (λ _.
        if_elim P (not (valid_session_header (session_of request) s.session_id))
          (λ h. inr (status_454 cseq [], refl, refl)) (λ _. inl refl))

handle_get_parameter-Kept :
    (request cseq : Bytes) (s : RtspControlState) → OkOrKept s (handle_get_parameter request cseq s)
unfolding handle_get_parameter reply make_response rtsp_status_code
handle_get_parameter-Kept request cseq s =
    if_elim (λ (r : RtspControlResult × RtspControlState). OkOrKept s r)
      (not (valid_session_header (session_of request) s.session_id))
      (λ h. inr (status_454 cseq [], refl, refl)) (λ _. inl refl)

handle_teardown-Kept :
    (request cseq : Bytes) (s : RtspControlState) → OkOrKept s (handle_teardown request cseq s)
unfolding handle_teardown reply make_response rtsp_status_code
handle_teardown-Kept request cseq s =
    if_elim (λ (r : RtspControlResult × RtspControlState). OkOrKept s r)
      (not (valid_session_header (session_of request) s.session_id))
      (λ h. inr (status_454 cseq [], refl, refl)) (λ _. inl refl)

handle_channel-Kept :
    (fresh request cseq : Bytes) (channel : ℤ) (codec : VideoCodec) (fmtp method : Bytes)
    (s : RtspControlState)
    → OkOrKept s (handle_channel fresh request cseq channel codec fmtp method s)
unfolding handle_channel handle_describe reply make_response rtsp_status_code
handle_channel-Kept fresh request cseq channel codec fmtp method s =
    let P = λ (r : RtspControlResult × RtspControlState). OkOrKept s r in
    if_elim P (equal method (codes "DESCRIBE")) (λ h. inl refl)
      (λ _.
        if_elim P (equal method (codes "SETUP"))
          (λ h. handle_setup-Kept fresh request cseq channel s)
          (λ _.
            if_elim P (equal method (codes "PLAY")) (λ h. handle_play-Kept request cseq channel s)
              (λ _.
                if_elim P (equal method (codes "GET_PARAMETER"))
                  (λ h. handle_get_parameter-Kept request cseq s)
                  (λ _.
                    if_elim P (equal method (codes "TEARDOWN"))
                      (λ h. handle_teardown-Kept request cseq s)
                      (λ _. inr (
                        status_405 cseq ((codes "Allow: " ++ public_methods) ∷ []),
                        refl,
                        refl,
                      ))))))

cseq_then-Kept :
    (cseq fresh request : Bytes) (registered : ℤ) (codec : VideoCodec) (fmtp : Bytes)
    (s : RtspControlState)
    → OkOrKept s (cseq_then cseq fresh request registered codec fmtp s)
unfolding cseq_then handle_method reply make_response rtsp_status_code
cseq_then-Kept [] fresh request registered codec fmtp s = inr (status_400 [] [], refl, refl)
cseq_then-Kept (c ∷ cseq) fresh request registered codec fmtp s =
    let P = λ (r : RtspControlResult × RtspControlState). OkOrKept s r in
    if_elim P (equal (rtsp_method_from_request request) (codes "OPTIONS")) (λ h. inl refl)
      (λ _.
        if_elim P
          (ltb_ℤ (target_channel request) (pos 0)
            || not (eqb_ℤ (target_channel request) registered))
          (λ h. inr (status_404 (c ∷ cseq) [], refl, refl))
          (λ _.
            handle_channel-Kept fresh request (c ∷ cseq) (target_channel request) codec fmtp
              (rtsp_method_from_request request) s))

-- Every answer reads, with `rtsp_status_code`, as 200, or as one of 400, 404, 405, 454, 455 and
-- 461; in the second case the state is as it was and no stream starts.
pub process-OkOrKept :
    (random1 random2 : ℕ) (request : Bytes) (registered : ℤ) (codec : VideoCodec) (fmtp : Bytes)
    (s : RtspControlState)
    → OkOrKept s (process_rtsp_request random1 random2 request registered codec fmtp s)
unfolding process_rtsp_request
process-OkOrKept random1 random2 request registered codec fmtp s =
    cseq_then-Kept (cseq_from_message request) (random_session_id random1 random2) request
      registered codec fmtp s
