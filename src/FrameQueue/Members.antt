-- ===== src/FrameQueue/Members.antt =====
-- src/live/live_rtsp_server.cpp: `BoundedFrameQueue::push` brings in no frame but its own.
use rpi_server.Prelude.{
  Bool, true, false, some, List, [], ◌∷◌, ◌≡◌, refl, subst, sym, if_elim, ltb, All, All-append, ℕ,
}
use rpi_server.FrameQueue.{
  OwnedLiveFrame, BoundedFrameQueue, frame_size, is_over, drop_front, evict, append, enqueue,
  push_open, push,
}

module _ (P : OwnedLiveFrame → Type 0) where
  evict-All :
      (size : ℕ) (frames : List OwnedLiveFrame) (q : BoundedFrameQueue) (dropped : Bool)
      → q.frames ≡ frames
      → All P frames
      → All P (evict size frames q dropped).0.frames
  unfolding evict drop_front
  evict-All size [] q dropped e every = subst (All P) (sym e) every
  evict-All size (f ∷ rest) q dropped e every =
      if_elim (λ (r : BoundedFrameQueue × Bool). All P r.0.frames) (is_over q size)
        (λ over. evict-All size rest (drop_front q f rest) true refl every.1)
        (λ fits. subst (All P) (sym e) every)

  enqueue-All :
      (f : OwnedLiveFrame) (r : BoundedFrameQueue × Bool)
      → All P r.0.frames
      → P f
      → All P (enqueue f r).0.frames
  unfolding enqueue append
  enqueue-All f (q, dropped) every p = All-append P q.frames (f ∷ []) every (p, tt)

  push_open-All :
      (q : BoundedFrameQueue) (f : OwnedLiveFrame)
      → All P q.frames
      → P f
      → All P (push_open q f).0.frames
  unfolding push_open
  push_open-All q f every p =
      if_elim (λ (r : BoundedFrameQueue × Bool). All P r.0.frames) (ltb q.max_bytes (frame_size f))
        (λ large. every)
        (λ fits.
          enqueue-All f (evict (frame_size f) q.frames q false)
            (evict-All (frame_size f) q.frames q false refl every) p)

  pub push-All :
      (q : BoundedFrameQueue) (f : OwnedLiveFrame)
      → All P q.frames
      → P f
      → All P (push q (some f)).0.frames
  unfolding push
  push-All q f every p =
      if_elim (λ (r : BoundedFrameQueue × Bool). All P r.0.frames) q.closed (λ closed. every)
        (λ up. push_open-All q f every p)
