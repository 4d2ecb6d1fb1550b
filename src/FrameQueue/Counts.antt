-- ===== src/FrameQueue/Counts.antt =====
-- Histories of calls on a `BoundedFrameQueue`: how many frames there are, and where they went.
use rpi_server.Prelude.{
  ℕ, suc, ◌+◌, ◌%◌, ◌^◌, ◌<◌, ◌≡◌, refl, ap, Bool, true, false, none, some, List, [], ◌∷◌, arith,
  length, length-append, ltb, if_elim, if◌then◌else◌,
}
use rpi_server.FrameQueue.{
  OwnedLiveFrame, BoundedFrameQueue, frame_size, is_over, drop_front, evict, append, enqueue,
  push_open, push, pop_front, try_pop, close,
}
use rpi_server.FrameQueue.Order.{
  Call, pushes, pops, closes, to_frames, step, run, offered, offered-cons,
}

-- What a call takes out of sight without counting it: a close the frames in the queue, a push on
-- a closed queue the frame it is given.
abbrev pub discards : BoundedFrameQueue → Call → ℕ
discards q (pushes none) = 0
discards q (pushes (some f)) = if q.closed then 1 else 0
discards q pops = 0
discards q closes = length q.frames

abbrev pub discarded : BoundedFrameQueue → List Call → ℕ
discarded q [] = 0
discarded q (c ∷ cs) = discards q c + discarded (step q c).0 cs

-- From `q` to `r` a stretch that is offered `m` frames hands out `n`, discards `g`, and counts the
-- rest that is gone as drops.
pub record Accounts (q r : BoundedFrameQueue) (m n g : ℕ) : Type 0 where
  pub lost : ℕ
  pub balance : length q.frames + m ≡ n + length r.frames + lost + g
  pub counted : r.drops ≡ (q.drops + lost) % 2 ^ 64

evict-Accounts :
    (size : ℕ) (fs : List OwnedLiveFrame) (q : BoundedFrameQueue) (d : Bool)
    → q.frames ≡ fs
    → q.drops < 2 ^ 64
    → Accounts q (evict size fs q d).0 0 0 0
unfolding evict drop_front
evict-Accounts size [] q d e w = record { lost = 0; balance = omega arith; counted = omega arith }
evict-Accounts size (f ∷ rest) q d e w =
    if_elim (λ (r : BoundedFrameQueue × Bool). Accounts q r.0 0 0 0) (is_over q size)
      (λ _.
        let later = evict-Accounts size rest (drop_front q f rest) true refl (omega arith) in
        record {
          lost = suc later.lost;
          balance = omega (arith, later.balance, ap length e);
          counted = omega (arith, later.counted);
        })
      (λ _. record { lost = 0; balance = omega arith; counted = omega arith })

enqueue-Accounts :
    (q : BoundedFrameQueue) (f : OwnedLiveFrame) (r : BoundedFrameQueue × Bool)
    → Accounts q r.0 0 0 0
    → Accounts q (enqueue f r).0 1 0 0
unfolding enqueue append
enqueue-Accounts q f (r, d) a = record {
  lost = a.lost;
  balance = omega (arith, a.balance, length-append r.frames (f ∷ []));
  counted = a.counted;
}

push_open-Accounts :
    (q : BoundedFrameQueue) (f : OwnedLiveFrame)
    → q.drops < 2 ^ 64
    → Accounts q (push_open q f).0 1 0 0
unfolding push_open
push_open-Accounts q f w =
    if_elim (λ (r : BoundedFrameQueue × Bool). Accounts q r.0 1 0 0)
      (ltb q.max_bytes (frame_size f))
      (λ _. record { lost = 1; balance = omega arith; counted = refl })
      (λ _.
        enqueue-Accounts q f (evict (frame_size f) q.frames q false)
          (evict-Accounts (frame_size f) q.frames q false refl w))

push-Accounts :
    (q : BoundedFrameQueue) (f : OwnedLiveFrame)
    → q.drops < 2 ^ 64
    → Accounts q (push q (some f)).0 1 0 (discards q (pushes (some f)))
unfolding push
push-Accounts q f w = at_closed q.closed
  where
    at_closed :
        (shut : Bool)
        → Accounts q (if shut then (q, false) else push_open q f).0 1 0 (if shut then 1 else 0)
    at_closed true = record { lost = 0; balance = omega arith; counted = omega arith }
    at_closed false = push_open-Accounts q f w

pop_front-Accounts :
    (q : BoundedFrameQueue) (fs : List OwnedLiveFrame)
    → q.frames ≡ fs
    → q.drops < 2 ^ 64
    → Accounts q (pop_front q fs).0 0 (length (to_frames (pop_front q fs).1)) 0
unfolding pop_front
pop_front-Accounts q [] e w = record { lost = 0; balance = omega arith; counted = omega arith }
pop_front-Accounts q (f ∷ rest) e w = record {
  lost = 0;
  balance = omega (arith, ap length e);
  counted = omega arith;
}

step-Accounts :
    (q : BoundedFrameQueue) (c : Call)
    → q.drops < 2 ^ 64
    → Accounts q (step q c).0 (length (offered (c ∷ []))) (length (step q c).1) (discards q c)
unfolding step
step-Accounts q (pushes none) w =
    unfold push in record { lost = 0; balance = omega arith; counted = omega arith }
step-Accounts q (pushes (some f)) w = push-Accounts q f w
step-Accounts q pops w = unfold try_pop in pop_front-Accounts q q.frames refl w
step-Accounts q closes w =
    unfold close in record { lost = 0; balance = omega arith; counted = omega arith }

-- No frame goes without account: over any history, the frames queued at the start and those pushed
-- are as many as those handed out, those still queued, a number that the drop counter grew by
-- (modulo 2 ^ 64), and those that are discarded without being counted, which are the frames in the
-- queue at a close and those of a push on a closed queue.
pub run-Accounts :
    (q : BoundedFrameQueue) (cs : List Call)
    → q.drops < 2 ^ 64
    → Accounts q (run q cs).0 (length (offered cs)) (length (run q cs).1) (discarded q cs)
unfolding run
run-Accounts q [] w = record { lost = 0; balance = omega arith; counted = omega arith }
run-Accounts q (c ∷ cs) w =
    let a = step-Accounts q c w in
    let b = run-Accounts (step q c).0 cs (omega (arith, a.counted)) in
    record {
      lost = a.lost + b.lost;
      balance = omega (
        arith,
        a.balance,
        b.balance,
        ap length (offered-cons c cs),
        length-append (offered (c ∷ [])) (offered cs),
        length-append (step q c).1 (run (step q c).0 cs).1,
      );
      counted = omega (arith, a.counted, b.counted);
    }
