-- ===== src/FrameQueue/Newest.antt =====
-- What `BoundedFrameQueue::push` keeps: the frames that go are the oldest, and as few as possible.
use rpi_server.Prelude.{
  ℕ, zero, suc, ◌+◌, ◌%◌, ◌^◌, ◌≤◌, ◌<◌, ◌≡◌, refl, ap, Bool, true, false, not, ◌||◌, some, List,
  [], ◌∷◌, ◌++◌, arith, length, drop, ◌==◌, ltb, if_elim,
}
use rpi_server.FrameQueue.{
  OwnedLiveFrame, BoundedFrameQueue, frame_size, is_over, drop_front, evict, append, enqueue,
  push_open, push,
}
use rpi_server.FrameQueue.Bounds.{total, IsValid, drop_front-IsValid}

-- The frames `fs` leave room for one more of `size` bytes under the limits of `q`.
abbrev pub Fits : BoundedFrameQueue → ℕ → List OwnedLiveFrame → Type 0
Fits q size fs = (length fs < q.max_frames) × (total fs + size ≤ q.max_bytes)

-- From the frames `fs` the loop drops the first `gone`, each needed, and counts them.
record Evicts (size : ℕ) (fs : List OwnedLiveFrame) (q : BoundedFrameQueue) (d : Bool)
    (r : BoundedFrameQueue × Bool) : Type 0 where
  gone : ℕ
  gone_le : gone ≤ length fs
  kept : r.0.frames ≡ drop gone fs
  fits : Fits q size (drop gone fs)
  needed : (j : ℕ) → j < gone → ¬ Fits q size (drop j fs)
  counted : r.0.drops ≡ (q.drops + gone) % 2 ^ 64
  flagged : r.1 ≡ (d || not (gone == 0))

is_over-Fits :
    (q : BoundedFrameQueue) (size : ℕ)
    → IsValid q
    → size ≤ q.max_bytes
    → is_over q size ≡ false
    → Fits q size q.frames
unfolding is_over
is_over-Fits q size v h e = ground arith

is_over-not-Fits :
    (q : BoundedFrameQueue) (size : ℕ)
    → IsValid q
    → size ≤ q.max_bytes
    → is_over q size ≡ true
    → ¬ Fits q size q.frames
unfolding is_over
is_over-not-Fits q size v h e (a, b) = ground arith

Evicts-here :
    (size : ℕ) (fs : List OwnedLiveFrame) (q : BoundedFrameQueue) (d : Bool)
    → q.frames ≡ fs
    → q.drops < 2 ^ 64
    → Fits q size fs
    → Evicts size fs q d (q, d)
Evicts-here size fs q d e w room = record {
  gone = 0;
  gone_le = omega arith;
  kept = e;
  fits = room;
  needed = λ j h. absurd (omega arith);
  counted = omega arith;
  flagged = ground arith;
}

Evicts-next :
    (size : ℕ) (f : OwnedLiveFrame) (rest : List OwnedLiveFrame) (q : BoundedFrameQueue) (d : Bool)
    (r : BoundedFrameQueue × Bool)
    → ¬ Fits q size (f ∷ rest)
    → Evicts size rest (drop_front q f rest) true r
    → Evicts size (f ∷ rest) q d r
unfolding drop_front
Evicts-next size f rest q d r full ev = record {
  gone = suc ev.gone;
  gone_le = omega (arith, ev.gone_le);
  kept = ev.kept;
  fits = ev.fits;
  needed = earlier;
  counted = omega (arith, ev.counted);
  flagged = ground (arith, ev.flagged);
}
  where
    earlier : (j : ℕ) → j < suc ev.gone → ¬ Fits q size (drop j (f ∷ rest))
    earlier zero h = full
    earlier (suc j) h = ev.needed j (omega arith)

evict-Evicts :
    (size : ℕ) (fs : List OwnedLiveFrame) (q : BoundedFrameQueue) (d : Bool)
    → q.frames ≡ fs
    → q.drops < 2 ^ 64
    → IsValid q
    → size ≤ q.max_bytes
    → Evicts size fs q d (evict size fs q d)
unfolding evict drop_front
evict-Evicts size [] q d e w v h = Evicts-here size [] q d e w (v.some_frames, omega arith)
evict-Evicts size (f ∷ rest) q d e w v h =
    if_elim (Evicts size (f ∷ rest) q d) (is_over q size)
      (λ over. Evicts-next size f rest q d _ (rw e at (is_over-not-Fits q size v h over)) (
        evict-Evicts size rest (drop_front q f rest) true refl (omega arith)
          (drop_front-IsValid q f rest e v) h))
      (λ fits. Evicts-here size (f ∷ rest) q d e w (rw e at (is_over-Fits q size v h fits)))

-- What `push` does to the frames `fs` of an open queue with a frame `f` that is no larger than
-- the whole queue may be.
pub record Keeps (q : BoundedFrameQueue) (f : OwnedLiveFrame) (r : BoundedFrameQueue × Bool)
    : Type 0 where
  pub gone : ℕ
  pub gone_le : gone ≤ length q.frames
  pub frames : r.0.frames ≡ drop gone q.frames ++ (f ∷ [])
  pub fits : Fits q (frame_size f) (drop gone q.frames)
  pub needed : (j : ℕ) → j < gone → ¬ Fits q (frame_size f) (drop j q.frames)
  pub counted : r.0.drops ≡ (q.drops + gone) % 2 ^ 64
  pub result : r.1 ≡ (gone == 0)

enqueue-Keeps :
    (q : BoundedFrameQueue) (f : OwnedLiveFrame) (r : BoundedFrameQueue × Bool)
    → Evicts (frame_size f) q.frames q false r
    → Keeps q f (enqueue f r)
unfolding enqueue append
enqueue-Keeps q f (r, d) ev = record {
  gone = ev.gone;
  gone_le = ev.gone_le;
  frames = ap (λ (xs : List OwnedLiveFrame). xs ++ (f ∷ [])) ev.kept;
  fits = ev.fits;
  needed = ev.needed;
  counted = ev.counted;
  result = ground (arith, ev.flagged);
}

-- A push on an open valid queue, of a frame that is no larger than the queue may be, puts the
-- frame last and drops a number of the oldest frames: with those gone the frame fits, with fewer
-- gone it does not. The drop counter grows by that number, and the result says whether it is 0.
pub push-Keeps :
    (q : BoundedFrameQueue) (f : OwnedLiveFrame)
    → IsValid q
    → q.drops < 2 ^ 64
    → q.closed ≡ false
    → frame_size f ≤ q.max_bytes
    → Keeps q f (push q (some f))
unfolding push push_open
push-Keeps q f v w open_now h =
    if_elim (Keeps q f) q.closed (λ shut. absurd (ground arith))
      (λ _.
        if_elim (Keeps q f) (ltb q.max_bytes (frame_size f)) (λ big. absurd (ground arith))
          (λ _.
            enqueue-Keeps q f (evict (frame_size f) q.frames q false)
              (evict-Evicts (frame_size f) q.frames q false refl w v h)))
