-- ===== src/Live/Session/Streaming.antt =====
-- src/live/live_rtsp_server.cpp: when a session streams, and of which channel.
use rpi_server.Prelude.{
  ℕ, ◌≡◌, inl, inr, refl, sym, subst, ◌∙◌, All, Bool, true, false, ◌&&◌, Option, none, some, List,
  [], ◌∷◌, if_elim,
}
use rpi_server.Prelude.Int.{ℤ, pos, pos_part}
use rpi_server.Bytes.{Bytes}
use rpi_server.FrameQueue.{OwnedLiveFrame, BoundedFrameQueue, try_pop}
use rpi_server.Parser.Extract.{ParserLimits}
use rpi_server.Control.{RtspControlState}
use rpi_server.Live.{
  ParameterSets, LiveClient, SendContext, Delivery, delivered, refused, thrown, send_frame,
}
use rpi_server.Live.Channels.{Channel, takes_frame, push_client}
use rpi_server.Live.Session.Requests.{IsStreaming, Ends, then_turn-Ends, read_input-Ends}
use rpi_server.Live.Session.Moves.{unasked, IsAnswer}
use rpi_server.Live.Session.Kept.{Same, Kept, send_frame-Kept}
use rpi_server.Live.Session.{
  LiveSession, Wake, read_input, after_frame, send_popped, send_next, push_all, session_round,
  session_loop,
}

module _ (takes : List Bytes → Bytes → Bool) (limits : ParserLimits) (channels : List Channel)
    (sets : List Bytes → ℤ → ParameterSets) (random1 random2 : List Bytes → ℕ)
    (first : RtspControlState) where
  -- What is queued for a client does not count.
  unwritten-IsStreaming :
      (s : LiveSession) (c : LiveClient)
      → Same s.client c
      → c.wires ≡ s.client.wires
      → IsStreaming first s
      → IsStreaming first (record s { client = c })
  unwritten-IsStreaming s c (p, e) w (n, served, inl (off, answers)) =
      (n, served, inl (p ∙ off, subst (All IsAnswer) (sym w) answers))
  unwritten-IsStreaming s c (p, e) w (n, served, inr (on, more, (played, same))) =
      (n, served, inr (p ∙ on, more, (played, e ∙ same)))

  -- A client that plays may be written frames.
  written-IsStreaming :
      (s : LiveSession) (c : LiveClient)
      → s.client.playing ≡ true
      → Same s.client c
      → IsStreaming first s
      → IsStreaming first (record s { client = c })
  written-IsStreaming s c on (p, e) (n, served, inl (off, answers)) = absurd cc
  written-IsStreaming s c on (p, e) (n, served, inr (_, more, (played, same))) =
      (n, served, inr (p ∙ on, more, (played, e ∙ same)))

  after_frame-Ends :
      (s : LiveSession) (c : LiveClient) (d : Delivery)
      → s.client.playing ≡ true
      → Same s.client c
      → Kept c d
      → IsStreaming first s
      → Ends (IsStreaming first) (after_frame takes limits channels sets random1 random2 s d)
  unfolding after_frame
  after_frame-Ends s c (delivered d) on (p, e) (q, f) h =
      written-IsStreaming s d on (q ∙ p, f ∙ e) h
  after_frame-Ends s c (refused d) on (p, e) (q, f) h = written-IsStreaming s d on (q ∙ p, f ∙ e) h
  after_frame-Ends s c thrown on same kept h = tt

  send_popped-Ends :
      (x : SendContext) (s : LiveSession) (p : BoundedFrameQueue × Option OwnedLiveFrame)
      → s.client.playing ≡ true
      → IsStreaming first s
      → Ends (IsStreaming first) (send_popped takes limits channels sets random1 random2 x s p)
  unfolding send_popped
  send_popped-Ends x s (queue, none) on h = h
  send_popped-Ends x s (queue, some frame) on h =
      let channel_sets = sets s.client.wires (pos frame.channel_id) in
      let c : LiveClient = record s.client { queue = queue } in
      let y : SendContext = record x {
        rtp_channel = pos_part s.control.rtp_channel;
        rtcp_channel = pos_part s.control.rtcp_channel;
        sets = channel_sets;
      } in
      after_frame-Ends s c (send_frame takes y frame c) on (refl, refl)
        (send_frame-Kept takes y frame c) h

  send_next-Ends :
      (x : SendContext) (s : LiveSession)
      → IsStreaming first s
      → Ends (IsStreaming first) (send_next takes limits channels sets random1 random2 x s)
  unfolding send_next
  send_next-Ends x s h =
      if_elim (Ends (IsStreaming first)) s.client.playing
        (λ on. send_popped-Ends x s (try_pop s.client.queue) on h) (λ waits. h)

  abbrev Queued : LiveClient → LiveClient → Type 0
  Queued b c = Same b c × (c.wires ≡ b.wires)

  push_all-Queued :
      (b : LiveClient) (frames : List OwnedLiveFrame) (c : LiveClient)
      → Queued b c
      → Queued b (push_all takes limits channels sets random1 random2 frames c)
  unfolding push_all push_client
  push_all-Queued b [] c s = s
  push_all-Queued b (f ∷ frames) c s =
      push_all-Queued b frames (push_client f c)
        (if_elim (Queued b) (takes_frame f c) (λ taken. s) (λ untaken. s))

  session_round-Ends :
      (w : Wake) (s : LiveSession)
      → IsStreaming first s
      → Ends (IsStreaming first) (session_round takes limits channels sets random1 random2 w s)
  unfolding session_round
  session_round-Ends w s h =
      then_turn-Ends (IsStreaming first)
        (read_input takes limits channels sets random1 random2 w.reading s) _
        (read_input-Ends takes limits channels sets random1 random2 first w.reading s h)
        (λ t v.
          let (same, wires) = push_all-Queued t.client w.pushed t.client ((refl, refl), refl) in
          send_next-Ends w.context _ (
            unwritten-IsStreaming t
              (push_all takes limits channels sets random1 random2 w.pushed t.client) same wires v))

  session_loop-Ends :
      (wakes : List Wake) (s : LiveSession)
      → IsStreaming first s
      → Ends (IsStreaming first) (session_loop takes limits channels sets random1 random2 wakes s)
  unfolding session_loop
  session_loop-Ends [] s h = h
  session_loop-Ends (w ∷ wakes) s h =
      if_elim (Ends (IsStreaming first)) (s.connected && w.running)
        (λ runs.
          then_turn-Ends (IsStreaming first)
            (session_round takes limits channels sets random1 random2 w s)
            (λ t. session_loop takes limits channels sets random1 random2 wakes t)
            (session_round-Ends w s h) (λ t v. session_loop-Ends wakes t v))
        (λ ends. h)

-- Over any rounds of a session that starts with a client that does not play and has been written
-- nothing, whatever the socket gives, whichever writes succeed and whichever frames come: where the
-- session goes on, leaves its loop or fails to write, a client that does not play has been written
-- answers only. For one that plays, a run of requests leads from the first control state to the
-- last and starts the stream, the control's phase is that behind a PLAY or a TEARDOWN, and the
-- client's channel is the one that was set up.
pub session_loop-IsStreaming :
    (takes : List Bytes → Bytes → Bool) (limits : ParserLimits) (channels : List Channel)
    (sets : List Bytes → ℤ → ParameterSets) (random1 random2 : List Bytes → ℕ) (wakes : List Wake)
    (s : LiveSession)
    → s.client.playing ≡ false
    → s.client.wires ≡ []
    → Ends (IsStreaming s.control) (session_loop takes limits channels sets random1 random2 wakes s)
session_loop-IsStreaming takes limits channels sets random1 random2 wakes s off fresh =
    session_loop-Ends takes limits channels sets random1 random2 s.control wakes s
      (0, unasked, inl (off, subst (All IsAnswer) (sym fresh) tt))
