-- ===== src/Live/Session/Moves.antt =====
-- src/live/live_rtsp_server.cpp: what a request of a session changes of its streaming.
use rpi_server.Prelude.{
  ℕ, ◌+◌, ◌<◌, ◌≡◌, ◌⊎◌, inl, inr, refl, sym, ◌∙◌, Bool, true, false, ◌∷◌, if◌then◌else◌, All,
  arith,
}
use rpi_server.Prelude.Int.{ℤ, pos}
use rpi_server.Bytes.{Bytes}
use rpi_server.Parser.Headers.{rtsp_status_code}
use rpi_server.Control.{RtspControlPhase, playing, closed, RtspControlState}
use rpi_server.Control.Phases.{Move, stay, refuse, set_up, play, tear_down}
use rpi_server.Control.Errors.{IsError}
use rpi_server.Live.{LiveClient}
use rpi_server.Live.Session.{play_started}

-- From a state to another by requests, `n` of which started the stream.
pub data Serves (s : RtspControlState) : ℕ → RtspControlState → Type 0 where
  unasked : Serves s 0 s
  asked :
      (n : ℕ) (t u : RtspControlState) (fresh request : Bytes) (channel registered : ℤ) (b e : Bool)
      → Serves s n t
      → Move fresh request channel registered t b e u
      → Serves s ((if b then 1 else 0) + n) u

-- What is read as an answer to a request; a frame on an interleaved channel is not.
abbrev pub IsAnswer : Bytes → Type 0
IsAnswer w = (rtsp_status_code w ≡ pos 200) ⊎ IsError w

-- The phases from PLAY on, and a TEARDOWN.
abbrev pub HasPlayed : RtspControlPhase → Type 0
HasPlayed p = (p ≡ playing) ⊎ (p ≡ closed)

Move-HasPlayed :
    (fresh request : Bytes) (channel registered : ℤ) (s t : RtspControlState) (b e : Bool)
    → Move fresh request channel registered s b e t
    → HasPlayed s.phase
    → HasPlayed t.phase × (t.channel_id ≡ s.channel_id)
Move-HasPlayed fresh request channel registered s _ _ _ (stay _) h = (h, refl)
Move-HasPlayed fresh request channel registered s _ _ _ (refuse _ e) h = (h, refl)
Move-HasPlayed fresh request channel registered s _ _ _ (set_up _ rtp rtcp live p m e) (inl q) =
    absurd cc
Move-HasPlayed fresh request channel registered s _ _ _ (set_up _ rtp rtcp live p m e) (inr q) =
    absurd cc
Move-HasPlayed fresh request channel registered s _ _ _ (play _ live p m e v) (inl q) = absurd cc
Move-HasPlayed fresh request channel registered s _ _ _ (play _ live p m e v) (inr q) = absurd cc
Move-HasPlayed fresh request channel registered s _ _ _ (tear_down _ live m v) h = (inr refl, refl)

-- The client's channel is the one that was set up, behind a PLAY.
abbrev pub IsOn : RtspControlState → LiveClient → Type 0
IsOn control c = HasPlayed control.phase × (c.channel_id ≡ control.channel_id)

-- From `first` on `n` requests have started the stream. A client that does not play has been
-- written answers only; one that plays is on, and `n` is not 0.
abbrev pub Streams : RtspControlState → RtspControlState → LiveClient → Type 0
Streams first control c =
    (n : ℕ) × Serves first n control
    × (((c.playing ≡ false) × All IsAnswer c.wires)
        ⊎ ((c.playing ≡ true) × (0 < n) × IsOn control c))

pub answer-Streams :
    (first t : RtspControlState) (c : LiveClient) (w : Bytes)
    → IsAnswer w
    → Streams first t c
    → Streams first t (record c { wires = w ∷ c.wires })
answer-Streams first t c w a (n, served, inl (off, answers)) = (n, served, inl (off, (a, answers)))
answer-Streams first t c w a (n, served, inr h) = (n, served, inr h)

module _ (first : RtspControlState) (fresh request : Bytes) (channel registered : ℤ) where
  -- The answer is not written.
  pub Move-Streams :
      (s t : RtspControlState) (c : LiveClient) (b e : Bool)
      → Move fresh request channel registered s b e t
      → Streams first s c
      → Streams first t c
  Move-Streams s t c b e move (n, served, inl quiet) =
      (_, asked n s t fresh request channel registered b e served move, inl quiet)
  Move-Streams s t c b e move (n, served, inr (on, more, (played, same))) =
      let (h, kept) = Move-HasPlayed fresh request channel registered s t b e move played in
      (
        _,
        asked n s t fresh request channel registered b e served move,
        inr (on, omega (arith, more), (h, same ∙ sym kept)),
      )

  -- The answer is written, and the stream is started where it says so.
  pub started-Streams :
      (s t : RtspControlState) (c : LiveClient) (w : Bytes) (b e : Bool)
      → Move fresh request channel registered s b e t
      → IsAnswer w
      → Streams first s c
      → Streams first t (play_started t b (record c { wires = w ∷ c.wires }))
  unfolding play_started
  started-Streams s t c w false e move a h =
      answer-Streams first t c w a (Move-Streams s t c false e move h)
  started-Streams s _ c w _ _ (play _ live p m q v) a (n, served, h) = (
    _,
    asked n s _ fresh request channel registered true false served (play _ live p m q v),
    inr (refl, omega arith, (inl refl, refl)),
  )
