-- ===== src/Control/Session.antt =====
-- src/live/live_rtsp_server.cpp: the requests of one connection in a row, the loop of
-- `run_session` over the extracted messages as far as it goes through `process_rtsp_request`;
-- the writes succeed.
use rpi_server.Prelude.{
  ℕ, ◌+◌, ◌≡◌, ◌≢◌, ◌≤◌, refl, ◌∙◌, Bool, List, [], ◌∷◌, if_elim, if◌then◌else◌, arith,
}
use rpi_server.Prelude.Int.{ℤ}
use rpi_server.Bytes.{Bytes}
use rpi_server.FrameQueue.{VideoCodec}
use rpi_server.Control.Reply.{random_session_id}
use rpi_server.Control.{
  RtspControlPhase, initial, ready, playing, closed, RtspControlState, RtspControlResult,
  process_rtsp_request,
}
use rpi_server.Control.Phases.{
  Move, stay, refuse, set_up, play, tear_down, target_channel, process-Move,
}
use rpi_server.Control.Channels.{IsValid, process-IsValid}

-- One request with what the caller gives to `process_rtsp_request` besides it.
pub record Asked : Type 0 where
  pub random1 : ℕ
  pub random2 : ℕ
  pub request : Bytes
  pub registered : ℤ
  pub codec : VideoCodec
  pub codec_fmtp : Bytes

unfoldable pub answer : Asked → RtspControlState → RtspControlResult × RtspControlState
unfolding process_rtsp_request
answer a s = process_rtsp_request a.random1 a.random2 a.request a.registered a.codec a.codec_fmtp s

unfoldable pub serve : List Asked → RtspControlState → List RtspControlResult × RtspControlState
unfolding answer
serve [] s = ([], s)
serve (a ∷ asked) s =
    let t = (answer a s).1 in
    let rest = serve asked t in
    if (answer a s).0.close_session
    then ((answer a s).0 ∷ [], t)
    else ((answer a s).0 ∷ rest.0, rest.1)

-- The number of results on which the caller starts the stream.
abbrev pub starts : List RtspControlResult → ℕ
starts [] = 0
starts (r ∷ results) = (if r.start_play then 1 else 0) + starts results

-- The streams that can still be started.
abbrev budget : RtspControlPhase → ℕ
budget initial = 1
budget ready = 1
budget playing = 0
budget closed = 0

budget-Move :
    (fresh request : Bytes) (channel registered : ℤ) (s t : RtspControlState) (b c : Bool)
    → Move fresh request channel registered s b c t
    → (if b then 1 else 0) + budget t.phase ≤ budget s.phase
budget-Move fresh request channel registered s _ _ _ (stay _) = omega arith
budget-Move fresh request channel registered s _ _ _ (refuse _ e) = omega arith
budget-Move fresh request channel registered s _ _ _ (set_up _ rtp rtcp l p m e) =
    rw p (omega arith)
budget-Move fresh request channel registered s _ _ _ (play _ l p m e h) = rw p (omega arith)
budget-Move fresh request channel registered s _ _ _ (tear_down _ l m h) = omega arith

answer-budget :
    (a : Asked) (s : RtspControlState)
    → (if (answer a s).0.start_play then 1 else 0) + budget (answer a s).1.phase ≤ budget s.phase
unfolding answer
answer-budget a s =
    budget-Move (random_session_id a.random1 a.random2) a.request (target_channel a.request)
      a.registered s _ _ _
      (process-Move a.random1 a.random2 a.request a.registered a.codec a.codec_fmtp s)

serve-budget :
    (asked : List Asked) (s : RtspControlState) → starts (serve asked s).0 ≤ budget s.phase
unfolding serve
serve-budget [] s = omega arith
serve-budget (a ∷ asked) s =
    if_elim (λ (r : List RtspControlResult × RtspControlState). starts r.0 ≤ budget s.phase)
      (answer a s).0.close_session (λ h. omega (arith, answer-budget a s))
      (λ h. omega (arith, answer-budget a s, serve-budget asked (answer a s).1))

budget_one : (p : RtspControlPhase) → budget p ≤ 1
budget_one initial = omega arith
budget_one ready = omega arith
budget_one playing = omega arith
budget_one closed = omega arith

-- Over any requests of one connection the stream is started at most once.
pub serve-starts : (asked : List Asked) (s : RtspControlState) → starts (serve asked s).0 ≤ 1
serve-starts asked s = omega (arith, serve-budget asked s, budget_one s.phase)

-- The same session: its id and its channel.
abbrev pub IsSame : RtspControlState → RtspControlState → Type 0
IsSame s t = (t.session_id ≡ s.session_id) × (t.channel_id ≡ s.channel_id) × (t.phase ≢ initial)

IsSame-Move :
    (fresh request : Bytes) (channel registered : ℤ) (s t : RtspControlState) (b c : Bool)
    → Move fresh request channel registered s b c t
    → s.phase ≢ initial
    → IsSame s t
IsSame-Move fresh request channel registered s _ _ _ (stay _) n = (refl, refl, n)
IsSame-Move fresh request channel registered s _ _ _ (refuse _ e) n = (refl, refl, n)
IsSame-Move fresh request channel registered s _ _ _ (set_up _ rtp rtcp l p m e) n = absurd (n p)
IsSame-Move fresh request channel registered s _ _ _ (play _ l p m e h) n = (refl, refl, λ q. cc)
IsSame-Move fresh request channel registered s _ _ _ (tear_down _ l m h) n = (refl, refl, λ q. cc)

answer-IsSame : (a : Asked) (s : RtspControlState) → s.phase ≢ initial → IsSame s (answer a s).1
unfolding answer
answer-IsSame a s n =
    IsSame-Move (random_session_id a.random1 a.random2) a.request (target_channel a.request)
      a.registered s _ _ _
      (process-Move a.random1 a.random2 a.request a.registered a.codec a.codec_fmtp s) n

-- Once a connection is set up, its session id and its channel stay what they are, over any
-- further requests.
pub serve-IsSame :
    (asked : List Asked) (s : RtspControlState) → s.phase ≢ initial → IsSame s (serve asked s).1
unfolding serve
serve-IsSame [] s n = (refl, refl, n)
serve-IsSame (a ∷ asked) s n =
    let here = answer-IsSame a s n in
    let later = serve-IsSame asked (answer a s).1 here.2 in
    if_elim (λ (r : List RtspControlResult × RtspControlState). IsSame s r.1)
      (answer a s).0.close_session (λ h. here) (λ h. (later.0 ∙ here.0, later.1 ∙ here.1, later.2))

-- Every state that a connection comes to is well formed.
pub serve-IsValid :
    (asked : List Asked) (s : RtspControlState) → IsValid s → IsValid (serve asked s).1
unfolding serve answer
serve-IsValid [] s v = v
serve-IsValid (a ∷ asked) s v =
    let here =
      process-IsValid a.random1 a.random2 a.request a.registered a.codec a.codec_fmtp s v in
    if_elim (λ (r : List RtspControlResult × RtspControlState). IsValid r.1)
      (answer a s).0.close_session (λ h. here) (λ h. serve-IsValid asked (answer a s).1 here)
