-- ===== src/FrameQueue/Bounds.antt =====
-- The invariant of `BoundedFrameQueue`.
use rpi_server.Prelude.{
  ℕ, suc, ◌+◌, ◌^◌, ◌≤◌, ◌<◌, ◌≡◌, refl, Bool, true, false, Option, none, some, List, [], ◌∷◌, ◌++◌,
  arith, length, length-append, Bool-cases, inl, inr, ltb, if_elim,
}
use rpi_server.FrameQueue.{
  OwnedLiveFrame, BoundedFrameQueue, frame_size, new, is_over, drop_front, evict, append, enqueue,
  push_open, push, pop_front, try_pop, close,
}

abbrev pub total : List OwnedLiveFrame → ℕ
total [] = 0
total (f ∷ rest) = frame_size f + total rest

pub total-append : (xs ys : List OwnedLiveFrame) → total (xs ++ ys) ≡ total xs + total ys
total-append [] ys = omega arith
total-append (x ∷ xs) ys = omega (arith, total-append xs ys)

pub record IsValid (q : BoundedFrameQueue) : Type 0 where
  pub some_frames : 0 < q.max_frames
  pub half_range : q.max_bytes < 2 ^ 63
  pub frames_bounded : length q.frames ≤ q.max_frames
  pub bytes_bounded : q.bytes ≤ q.max_bytes
  pub bytes_counted : q.bytes ≡ total q.frames

pub new-IsValid : (m b : ℕ) {q : BoundedFrameQueue} → b < 2 ^ 63 → new m b ≡ some q → IsValid q
unfolding new
new-IsValid m b h e = ground arith

pub drop_front-IsValid :
    (q : BoundedFrameQueue) (f : OwnedLiveFrame) (rest : List OwnedLiveFrame)
    → q.frames ≡ f ∷ rest
    → IsValid q
    → IsValid (drop_front q f rest)
unfolding drop_front
drop_front-IsValid q f rest e v = ground (arith, ap_length, ap_total)
  where
    ap_length : length q.frames ≡ suc (length rest)
    ap_length = rw e

    ap_total : total q.frames ≡ frame_size f + total rest
    ap_total = rw e

-- After the loop the queue is valid, keeps its limits, and has room for `size` more bytes.
pub record HasRoom (size : ℕ) (q r : BoundedFrameQueue) : Type 0 where
  pub valid : IsValid r
  pub same_frames : r.max_frames ≡ q.max_frames
  pub same_bytes : r.max_bytes ≡ q.max_bytes
  pub frame_room : length r.frames < r.max_frames
  pub byte_room : r.bytes + size ≤ r.max_bytes

is_over-false :
    (q : BoundedFrameQueue) (size : ℕ)
    → IsValid q
    → size ≤ q.max_bytes
    → is_over q size ≡ false
    → HasRoom size q q
unfolding is_over
is_over-false q size v h e = ground arith

pub evict-HasRoom :
    (size : ℕ) (fs : List OwnedLiveFrame) (q : BoundedFrameQueue) (d : Bool)
    → q.frames ≡ fs
    → IsValid q
    → size ≤ q.max_bytes
    → HasRoom size q (evict size fs q d).0
unfolding evict drop_front
evict-HasRoom size [] q d e v h = record {
  valid = v;
  same_frames = refl;
  same_bytes = refl;
  frame_room = rw e v.some_frames;
  byte_room = omega (arith, empty);
}
  where
    empty : total q.frames ≡ 0
    empty = rw e
evict-HasRoom size (f ∷ rest) q d e v h = elim (Bool-cases (is_over q size)) [
  | inl over ↦ rw over (
      let later =
        evict-HasRoom size rest (drop_front q f rest) true refl (drop_front-IsValid q f rest e v)
          h in
      record {
        valid = later.valid;
        same_frames = later.same_frames;
        same_bytes = later.same_bytes;
        frame_room = later.frame_room;
        byte_room = later.byte_room;
      })
  | inr fits ↦ rw fits (is_over-false q size v h fits)
]

enqueue-IsValid :
    (f : OwnedLiveFrame) (q r : BoundedFrameQueue) (d : Bool)
    → HasRoom (frame_size f) q r
    → IsValid (enqueue f (r, d)).0
unfolding enqueue append
enqueue-IsValid f q r d room = record {
  some_frames = room.valid.some_frames;
  half_range = room.valid.half_range;
  frames_bounded = omega (arith, length-append r.frames (f ∷ []), room.frame_room);
  bytes_bounded = omega (arith, room.byte_room, room.valid.half_range);
  bytes_counted = omega (
    arith,
    total-append r.frames (f ∷ []),
    room.byte_room,
    room.valid.half_range,
    room.valid.bytes_counted,
  );
}

push_open-IsValid :
    (q : BoundedFrameQueue) (f : OwnedLiveFrame) → IsValid q → IsValid (push_open q f).0
unfolding push_open
push_open-IsValid q f v =
    if_elim (λ (r : BoundedFrameQueue × Bool). IsValid r.0) (ltb q.max_bytes (frame_size f))
      (λ big. ground arith)
      (λ small.
        enqueue-IsValid f q (evict (frame_size f) q.frames q false).0
          (evict (frame_size f) q.frames q false).1
          (evict-HasRoom (frame_size f) q.frames q false refl v (ground arith)))

-- A push of any frame, or of none, keeps the queue valid: at most `max_frames` frames, at most
-- `max_bytes` bytes, and the byte counter equal to the sizes of the frames held.
pub push-IsValid :
    (q : BoundedFrameQueue) (f : Option OwnedLiveFrame) → IsValid q → IsValid (push q f).0
unfolding push
push-IsValid q none v = v
push-IsValid q (some f) v =
    if_elim (λ (r : BoundedFrameQueue × Bool). IsValid r.0) q.closed (λ _. v)
      (λ _. push_open-IsValid q f v)

pop_front-IsValid :
    (q : BoundedFrameQueue) (fs : List OwnedLiveFrame)
    → q.frames ≡ fs
    → IsValid q
    → IsValid (pop_front q fs).0
unfolding pop_front
pop_front-IsValid q [] e v = v
pop_front-IsValid q (f ∷ rest) e v = ground (arith, ap_length, ap_total)
  where
    ap_length : length q.frames ≡ suc (length rest)
    ap_length = rw e

    ap_total : total q.frames ≡ frame_size f + total rest
    ap_total = rw e

pub try_pop-IsValid : (q : BoundedFrameQueue) → IsValid q → IsValid (try_pop q).0
unfolding try_pop
try_pop-IsValid q v = pop_front-IsValid q q.frames refl v

pub close-IsValid : (q : BoundedFrameQueue) → IsValid q → IsValid (close q)
unfolding close
close-IsValid q v = ground arith
