-- ===== src/Live/Tuned.antt =====
-- src/live/live_rtsp_server.cpp: a client's queue holds frames of its own channel only.
use rpi_server.Prelude.{ℕ, ◌≡◌, ap, true, not, ◌||◌, List, [], ◌∷◌, if_elim, All, arith}
use rpi_server.Prelude.Int.{ℤ, pos, negsuc, eqb_ℤ}
use rpi_server.FrameQueue.{OwnedLiveFrame}
use rpi_server.FrameQueue.Members.{push-All}
use rpi_server.Live.{LiveClient}
use rpi_server.Live.Channels.{
  Channel, LiveRtspServerConfig, registered_channel, LiveServer, taken_by, empty_frame, takes_frame,
  push_client, push_clients, on_frame,
}

-- Each queued frame is one of the client's channel, in the codec that the channel is registered
-- with.
abbrev pub IsTuned : List Channel → LiveClient → Type 0
IsTuned channels c =
    All
      (λ (f : OwnedLiveFrame).
        (pos f.channel_id ≡ c.channel_id)
        × (taken_by (registered_channel channels (pos f.channel_id)) f ≡ true))
      c.queue.frames

same_id : (n : ℤ) (m : ℕ) → eqb_ℤ n (pos m) ≡ true → pos m ≡ n
same_id (pos n) m h = ap pos (ground arith)
same_id (negsuc n) m h = absurd (ground arith)

takes_frame-id :
    (frame : OwnedLiveFrame) (c : LiveClient)
    → takes_frame frame c ≡ true
    → eqb_ℤ c.channel_id (pos frame.channel_id) ≡ true
unfolding takes_frame
takes_frame-id frame c h = ground arith

push_client-IsTuned :
    (channels : List Channel) (frame : OwnedLiveFrame) (c : LiveClient)
    → taken_by (registered_channel channels (pos frame.channel_id)) frame ≡ true
    → IsTuned channels c
    → IsTuned channels (push_client frame c)
unfolding push_client
push_client-IsTuned channels frame c taken tuned =
    if_elim (IsTuned channels) (takes_frame frame c)
      (λ h.
        push-All
          (λ f.
            (pos f.channel_id ≡ c.channel_id)
            × (taken_by (registered_channel channels (pos f.channel_id)) f ≡ true))
          c.queue frame tuned
          (same_id c.channel_id frame.channel_id (takes_frame-id frame c h), taken))
      (λ h. tuned)

push_clients-IsTuned :
    (channels : List Channel) (frame : OwnedLiveFrame) (clients : List LiveClient) (drops : ℕ)
    → taken_by (registered_channel channels (pos frame.channel_id)) frame ≡ true
    → All (IsTuned channels) clients
    → All (IsTuned channels) (push_clients frame clients drops).0
unfolding push_clients
push_clients-IsTuned channels frame [] drops taken every = _
push_clients-IsTuned channels frame (c ∷ clients) drops taken (tuned, every) = (
  push_client-IsTuned channels frame c taken tuned,
  push_clients-IsTuned channels frame clients _ taken every,
)

on_frame-IsTuned :
    (config : LiveRtspServerConfig) (frame : OwnedLiveFrame) (s : LiveServer)
    → All (IsTuned config.channels) s.clients
    → All (IsTuned config.channels) (on_frame config frame s).clients
unfolding on_frame
on_frame-IsTuned config frame s every =
    if_elim (λ (t : LiveServer). All (IsTuned config.channels) t.clients)
      (empty_frame frame.bytes
        || not (taken_by (registered_channel config.channels (pos frame.channel_id)) frame))
      (λ ignored. every)
      (λ h. push_clients-IsTuned config.channels frame s.clients s.queue_drops (ground arith) every)

unfoldable pub on_frames : LiveRtspServerConfig → List OwnedLiveFrame → LiveServer → LiveServer
unfolding on_frame
on_frames config [] s = s
on_frames config (frame ∷ frames) s = on_frames config frames (on_frame config frame s)

-- Whatever frames come, the queue of each client holds frames of the client's own channel only, in
-- the codec that the channel is registered with, if it does so before.
pub on_frames-IsTuned :
    (config : LiveRtspServerConfig) (frames : List OwnedLiveFrame) (s : LiveServer)
    → All (IsTuned config.channels) s.clients
    → All (IsTuned config.channels) (on_frames config frames s).clients
unfolding on_frames
on_frames-IsTuned config [] s every = every
on_frames-IsTuned config (frame ∷ frames) s every =
    on_frames-IsTuned config frames (on_frame config frame s)
      (on_frame-IsTuned config frame s every)
