-- ===== src/FrameQueue/Order.antt =====
-- Histories of calls on a `BoundedFrameQueue`: order of the frames, and their number.
use mathlib.Core.List.{Sublist, nil-sublist}
use mathlib.Core.List.Sublist
use rpi_server.Prelude.{
  ℕ, ◌≡◌, refl, sym, Bool, true, false, Option, none, some, List, [], ◌∷◌, ◌++◌, append_assoc,
  append-nil, ltb, if_elim,
}
use rpi_server.FrameQueue.{
  OwnedLiveFrame, BoundedFrameQueue, frame_size, is_over, drop_front, evict, append, enqueue,
  push_open, push, pop_front, try_pop, close,
}

pub data Call : Type 0 where
  pushes : Option OwnedLiveFrame → Call
  pops : Call
  closes : Call

abbrev pub to_frames : Option OwnedLiveFrame → List OwnedLiveFrame
to_frames none = []
to_frames (some f) = f ∷ []

-- One call: the queue after it, and the frame that it hands out.
unfoldable pub step : BoundedFrameQueue → Call → BoundedFrameQueue × List OwnedLiveFrame
step q (pushes f) = ((push q f).0, [])
step q pops = ((try_pop q).0, to_frames (try_pop q).1)
step q closes = (close q, [])

-- A history: the queue at its end, and the frames handed out, in order.
unfoldable pub run : BoundedFrameQueue → List Call → BoundedFrameQueue × List OwnedLiveFrame
run q [] = (q, [])
run q (c ∷ cs) = let (q', out) = step q c in let (r, later) = run q' cs in (r, out ++ later)

-- The frames of the pushes of a history, in order.
abbrev pub offered : List Call → List OwnedLiveFrame
offered [] = []
offered (pushes f ∷ cs) = to_frames f ++ offered cs
offered (pops ∷ cs) = offered cs
offered (closes ∷ cs) = offered cs

evict-sublist :
    (size : ℕ) (fs : List OwnedLiveFrame) (q : BoundedFrameQueue) (d : Bool)
    → q.frames ≡ fs
    → Sublist (evict size fs q d).0.frames fs
unfolding evict drop_front
evict-sublist size [] q d e = rw e (Sublist.refl [])
evict-sublist size (f ∷ rest) q d e =
    if_elim (λ (r : BoundedFrameQueue × Bool). Sublist r.0.frames (f ∷ rest)) (is_over q size)
      (λ _. Sublist.cons f (evict-sublist size rest (drop_front q f rest) true refl))
      (λ _. rw e (Sublist.refl (f ∷ rest)))

enqueue-sublist :
    (q : BoundedFrameQueue) (f : OwnedLiveFrame) (r : BoundedFrameQueue × Bool)
    → Sublist r.0.frames q.frames
    → Sublist (enqueue f r).0.frames (q.frames ++ (f ∷ []))
unfolding enqueue append
enqueue-sublist q f (r, d) h = Sublist.append h (Sublist.refl (f ∷ []))

push-sublist :
    (q : BoundedFrameQueue) (f : Option OwnedLiveFrame)
    → Sublist (push q f).0.frames (q.frames ++ to_frames f)
unfolding push push_open
push-sublist q none = rw append-nil (Sublist.refl q.frames)
push-sublist q (some f) =
    if_elim P q.closed (λ _. stays)
      (λ _.
        if_elim P (ltb q.max_bytes (frame_size f)) (λ _. stays)
          (λ _.
            enqueue-sublist q f (evict (frame_size f) q.frames q false)
              (evict-sublist (frame_size f) q.frames q false refl)))
  where
    P : BoundedFrameQueue × Bool → Type 0
    P r = Sublist r.0.frames (q.frames ++ (f ∷ []))

    stays : Sublist q.frames (q.frames ++ (f ∷ []))
    stays =
        rw (append-nil q.frames) at (Sublist.append (Sublist.refl q.frames) (nil-sublist (f ∷ [])))

pop_front-sublist :
    (q : BoundedFrameQueue) (fs : List OwnedLiveFrame)
    → q.frames ≡ fs
    → to_frames (pop_front q fs).1 ++ (pop_front q fs).0.frames ≡ q.frames
unfolding pop_front
pop_front-sublist q [] e = refl
pop_front-sublist q (f ∷ rest) e = sym e

step-sublist :
    (q : BoundedFrameQueue) (c : Call)
    → Sublist ((step q c).1 ++ (step q c).0.frames) (q.frames ++ offered (c ∷ []))
unfolding step try_pop close
step-sublist q (pushes f) = rw append-nil (push-sublist q f)
step-sublist q pops = rw (append-nil, pop_front-sublist q q.frames refl) (Sublist.refl q.frames)
step-sublist q closes = nil-sublist (q.frames ++ [])

pub offered-cons : (c : Call) (cs : List Call) → offered (c ∷ cs) ≡ offered (c ∷ []) ++ offered cs
offered-cons (pushes f) cs = rw append-nil
offered-cons pops cs = refl
offered-cons closes cs = refl

chain :
    (out later kept mid start now rest : List OwnedLiveFrame)
    → Sublist (out ++ mid) (start ++ now)
    → Sublist (later ++ kept) (mid ++ rest)
    → Sublist ((out ++ later) ++ kept) (start ++ (now ++ rest))
chain out later kept mid start now rest h k =
    rw (append_assoc out later kept, ← append_assoc start now rest)
      (Sublist.trans (Sublist.append (Sublist.refl out) k)
        (rw (append_assoc out mid rest) at (Sublist.append h (Sublist.refl rest))))

-- Order is kept: the frames that a history hands out, followed by those still queued at its end,
-- are some of the frames queued at its start followed by those pushed, in the same order, and
-- none is there twice.
pub run-sublist :
    (q : BoundedFrameQueue) (cs : List Call)
    → Sublist ((run q cs).1 ++ (run q cs).0.frames) (q.frames ++ offered cs)
unfolding run
run-sublist q [] = rw append-nil (Sublist.refl q.frames)
run-sublist q (c ∷ cs) = rw (offered-cons c cs) (
    chain (step q c).1 (run (step q c).0 cs).1 (run (step q c).0 cs).0.frames (step q c).0.frames
      q.frames (offered (c ∷ [])) (offered cs) (step-sublist q c) (run-sublist (step q c).0 cs))
