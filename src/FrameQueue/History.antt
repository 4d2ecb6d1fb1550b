-- ===== src/FrameQueue/History.antt =====
-- Histories of calls on a `BoundedFrameQueue`: the invariant along them.
use rpi_server.Prelude.{ℕ, ◌^◌, ◌<◌, ◌≡◌, some, List, [], ◌∷◌}
use rpi_server.FrameQueue.{BoundedFrameQueue, new}
use rpi_server.FrameQueue.Order.{Call, pushes, pops, closes, step, run}
use rpi_server.FrameQueue.Bounds.{
  IsValid, new-IsValid, push-IsValid, try_pop-IsValid, close-IsValid,
}

step-IsValid : (q : BoundedFrameQueue) (c : Call) → IsValid q → IsValid (step q c).0
unfolding step
step-IsValid q (pushes f) v = push-IsValid q f v
step-IsValid q pops v = try_pop-IsValid q v
step-IsValid q closes v = close-IsValid q v

run_from-IsValid : (q : BoundedFrameQueue) (cs : List Call) → IsValid q → IsValid (run q cs).0
unfolding run
run_from-IsValid q [] v = v
run_from-IsValid q (c ∷ cs) v = run_from-IsValid (step q c).0 cs (step-IsValid q c v)

-- After any history of calls on a queue that the constructor made, with `max_bytes` below 2 ^ 63,
-- the queue holds at most `max_frames` frames and `max_bytes` bytes, and its byte counter is the
-- sum of the sizes of the frames in it.
pub run-IsValid :
    (max_frames max_bytes : ℕ) (q : BoundedFrameQueue) (cs : List Call)
    → max_bytes < 2 ^ 63
    → new max_frames max_bytes ≡ some q
    → IsValid (run q cs).0
run-IsValid m b q cs h e = run_from-IsValid q cs (new-IsValid m b h e)
