-- ===== src/FrameQueue.antt =====
-- src/live/live_rtsp_server.cpp, include/rtsps/live_rtsp_server.h: `OwnedLiveFrame` and
-- `BoundedFrameQueue`, the queue of encoded frames between the ingest of a channel and one client.
-- `std::size_t` and `std::uint64_t` have 64 bits and wrap. Each method runs under the queue's mutex,
-- so a history of calls is a list of calls. A `shared_ptr` is an `Option`.
pub mod Bounds
pub mod Newest
pub mod Order
pub mod Counts
pub mod History
pub mod Members
mod Tests
use rpi_server.Prelude.{
  ℕ, ◌+◌, ◌-◌, ◌%◌, ◌^◌, Bool, true, false, not, ◌||◌, Option, none, some, List, [], ◌∷◌, ◌++◌, ltb,
  leb, ◌==◌, if◌then◌else◌, length,
}
use rpi_server.Prelude.Int.{ℤ}

pub data VideoCodec : Type 0 where
  h264 h265 : VideoCodec

pub record OwnedLiveFrame : Type 0 where
  pub bytes : List ℕ
  pub pts_ns : ℤ
  pub duration_ns : ℤ
  pub key_frame : Bool
  pub channel_id : ℕ
  pub codec : VideoCodec

-- The oldest frame is the head of `frames`.
pub record BoundedFrameQueue : Type 0 where
  pub max_frames : ℕ
  pub max_bytes : ℕ
  pub frames : List OwnedLiveFrame
  pub bytes : ℕ
  pub drops : ℕ
  pub closed : Bool

-- The constructor; `none` is its exception.
pub new : ℕ → ℕ → Option BoundedFrameQueue
new max_frames max_bytes =
    if max_frames == 0 || max_bytes == 0
    then none
    else some (record {
      max_frames = max_frames;
      max_bytes = max_bytes;
      frames = [];
      bytes = 0;
      drops = 0;
      closed = false;
    })

abbrev pub frame_size : OwnedLiveFrame → ℕ
frame_size f = length f.bytes

-- The test of the loop of `push`, on a queue that is not empty.
pub is_over : BoundedFrameQueue → ℕ → Bool
is_over q size = leb q.max_frames (length q.frames) || ltb q.max_bytes ((q.bytes + size) % 2 ^ 64)

-- The loop's body: the oldest frame `f` goes, `rest` stays.
pub drop_front : BoundedFrameQueue → OwnedLiveFrame → List OwnedLiveFrame → BoundedFrameQueue
drop_front q f rest = record q {
  frames = rest;
  bytes = (q.bytes + 2 ^ 64 - frame_size f) % 2 ^ 64;
  drops = (q.drops + 1) % 2 ^ 64;
}

-- The loop of `push`, over the frames of `q`; the flag is `dropped`.
pub evict : ℕ → List OwnedLiveFrame → BoundedFrameQueue → Bool → BoundedFrameQueue × Bool
evict size [] q dropped = (q, dropped)
evict size (f ∷ rest) q dropped =
    let shorter = evict size rest (drop_front q f rest) true in
    if is_over q size then shorter else (q, dropped)

append : BoundedFrameQueue → OwnedLiveFrame → BoundedFrameQueue
append q f = record q { frames = q.frames ++ (f ∷ []); bytes = (q.bytes + frame_size f) % 2 ^ 64 }

enqueue : OwnedLiveFrame → BoundedFrameQueue × Bool → BoundedFrameQueue × Bool
unfolding append
enqueue f (q, dropped) = (append q f, not dropped)

-- The rest of `push`, on a queue that is not closed.
push_open : BoundedFrameQueue → OwnedLiveFrame → BoundedFrameQueue × Bool
unfolding enqueue
push_open q f =
    if ltb q.max_bytes (frame_size f)
    then (record q { drops = (q.drops + 1) % 2 ^ 64 }, false)
    else enqueue f (evict (frame_size f) q.frames q false)

pub push : BoundedFrameQueue → Option OwnedLiveFrame → BoundedFrameQueue × Bool
unfolding push_open
push q none = (q, false)
push q (some f) = if q.closed then (q, false) else push_open q f

pop_front : BoundedFrameQueue → List OwnedLiveFrame → BoundedFrameQueue × Option OwnedLiveFrame
pop_front q [] = (q, none)
pop_front q (f ∷ rest) =
    (record q { frames = rest; bytes = (q.bytes + 2 ^ 64 - frame_size f) % 2 ^ 64 }, some f)

unfoldable pub try_pop : BoundedFrameQueue → BoundedFrameQueue × Option OwnedLiveFrame
unfolding pop_front
try_pop q = pop_front q q.frames

pub close : BoundedFrameQueue → BoundedFrameQueue
close q = record q { closed = true; frames = []; bytes = 0 }
