-- ===== src/FrameQueue/Tests.antt =====
-- The theorems on the frame queue at a queue of two frames.
use rpi_server.Prelude.{ℕ, ◌≡◌, refl, true, false, some, List, [], ◌∷◌, ◌++◌, length, arith}
use rpi_server.Prelude.Int.{pos}
use mathlib.Core.List.{Sublist}
use rpi_server.FrameQueue.{
  OwnedLiveFrame, BoundedFrameQueue, h264, new, is_over, drop_front, evict, append, enqueue,
  push_open, push,
}
use rpi_server.FrameQueue.Bounds.{IsValid}
use rpi_server.FrameQueue.Newest.{Keeps, push-Keeps}
use rpi_server.FrameQueue.Order.{Call, closes, pushes, pops, run, offered, run-sublist}
use rpi_server.FrameQueue.Counts.{Accounts, discarded, run-Accounts}
use rpi_server.FrameQueue.History.{run-IsValid}

abbrev frame_of : List ℕ → OwnedLiveFrame
frame_of bytes = record {
  bytes = bytes;
  pts_ns = pos 0;
  duration_ns = pos 33;
  key_frame = true;
  channel_id = 1;
  codec = h264;
}

abbrev first_frame : OwnedLiveFrame
first_frame = frame_of (1 ∷ 2 ∷ 3 ∷ [])

abbrev second_frame : OwnedLiveFrame
second_frame = frame_of (4 ∷ 5 ∷ 6 ∷ 7 ∷ [])

abbrev third_frame : OwnedLiveFrame
third_frame = frame_of (8 ∷ 9 ∷ 10 ∷ 11 ∷ 12 ∷ 13 ∷ [])

abbrev empty_queue : BoundedFrameQueue
empty_queue = record {
  max_frames = 3;
  max_bytes = 10;
  frames = [];
  bytes = 0;
  drops = 0;
  closed = false;
}

abbrev two_held : BoundedFrameQueue
two_held = record empty_queue { frames = first_frame ∷ second_frame ∷ []; bytes = 7 }

abbrev history : List Call
history =
    pushes (some first_frame) ∷ pushes (some second_frame) ∷ pushes (some third_frame) ∷ pops ∷ []

two_held-IsValid : IsValid two_held
two_held-IsValid = record {
  some_frames = omega arith;
  half_range = omega arith;
  frames_bounded = omega arith;
  bytes_bounded = omega arith;
  bytes_counted = refl;
}

-- The third frame pushes the first one out.
push_drops_first : (push two_held (some third_frame)).0.frames ≡ second_frame ∷ third_frame ∷ []
unfolding push push_open enqueue append evict drop_front is_over
push_drops_first = refl

push-Keeps_example : Keeps two_held third_frame (push two_held (some third_frame))
push-Keeps_example =
    push-Keeps two_held third_frame two_held-IsValid (omega arith) refl (omega arith)

run-sublist_example :
    Sublist
      ((run two_held history).1 ++ (run two_held history).0.frames)
      (two_held.frames ++ offered history)
run-sublist_example = run-sublist two_held history

abbrev closing : List Call
closing = history ++ (closes ∷ pushes (some first_frame) ∷ [])

run-Accounts_example :
    Accounts two_held
      (run two_held closing).0
      (length (offered closing))
      (length (run two_held closing).1)
      (discarded two_held closing)
run-Accounts_example = run-Accounts two_held closing (omega arith)

new_empty : new 3 10 ≡ some empty_queue
unfolding new
new_empty = refl

run-IsValid_example : IsValid (run empty_queue history).0
run-IsValid_example = run-IsValid 3 10 empty_queue history (omega arith) new_empty
