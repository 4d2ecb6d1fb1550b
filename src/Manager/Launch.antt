-- ===== src/Manager/Launch.antt =====
-- src/media/channel_manager.cpp: which workers `start` gives a thread.
use rpi_server.Prelude.{
  ℕ, suc, ◌≡◌, ◌⊎◌, inl, inr, refl, sym, ap, subst, ◌∙◌, Bool, true, false, ◌&&◌, Option, some,
  List, [], ◌∷◌, ◌++◌, map, if_elim, All, arith,
}
use rpi_server.Prelude.Int.{ℤ, pos, pos_part, ltb_ℤ}
use rpi_server.Ingest.Waiting.{Waited, wait_loop, wait_loop-Finds}
use rpi_server.Manager.{
  unjoinable, at_work, ChannelWorker, ChannelManager, launch_as, in_front, after_wait, start_loop,
  with_workers, start,
}

abbrev pub IsUnjoinable : ChannelWorker → Type 0
IsUnjoinable w = w.thread ≡ unjoinable

abbrev pub launched : ChannelWorker → ChannelWorker
launched w = record w { thread = at_work }

-- The load of the running flag behind the wait in a gap, which decides whether the start goes on.
abbrev pub Looks : (ℕ → Bool) → ℤ → Bool → Type 0
Looks flag delay b =
    (w : Waited) × (wait_loop flag (suc (pos_part delay)) (pos_part delay) 0 0 ≡ some w)
    × (flag (suc w.sleeps) ≡ b)

-- The gaps behind a worker that has its thread: the flag was up behind each wait in front of
-- another that gets one, and down where those in `back` get none.
abbrev pub Gaps : (ℕ → ℕ → Bool) → ℤ → ℕ → List ChannelWorker → List ChannelWorker → Type 0
Gaps flag delay gap [] [] = Unit
Gaps flag delay gap [] (v ∷ back) = (ltb_ℤ (pos 0) delay ≡ true) × Looks (flag gap) delay false
Gaps flag delay gap (v ∷ front) back =
    ((ltb_ℤ (pos 0) delay ≡ false) ⊎ Looks (flag gap) delay true)
    × Gaps flag delay (suc gap) front back

-- The first worker always gets a thread.
abbrev pub IsCut : (ℕ → ℕ → Bool) → ℤ → ℕ → List ChannelWorker → List ChannelWorker → Type 0
IsCut flag delay gap [] back = back ≡ []
IsCut flag delay gap (w ∷ front) back = Gaps flag delay gap front back

-- The workers in front get a thread, those behind keep what they have.
abbrev pub Launches :
    (ℕ → ℕ → Bool) → ℤ → ℕ → List ChannelWorker → Option (List ChannelWorker) → Type 0
Launches flag delay gap ws o =
    (front back : List ChannelWorker) × (ws ≡ front ++ back)
    × (o ≡ some (map launched front ++ back))
    × IsCut flag delay gap front back

one_launched :
    (w : ChannelWorker) (ws : List ChannelWorker)
    → IsUnjoinable w
    → in_front (launch_as w.thread w) (some ws) ≡ some (launched w ∷ ws)
unfolding in_front launch_as
one_launched w ws h = rw h refl

-- A start that goes on behind `w`.
Launches-in_front :
    (flag : ℕ → ℕ → Bool) (delay : ℤ) (gap : ℕ) (w v : ChannelWorker) (ws : List ChannelWorker)
    (o : Option (List ChannelWorker))
    → IsUnjoinable w
    → ((ltb_ℤ (pos 0) delay ≡ false) ⊎ Looks (flag gap) delay true)
    → Launches flag delay (suc gap) (v ∷ ws) o
    → Launches flag delay gap (w ∷ v ∷ ws) (in_front (launch_as w.thread w) o)
Launches-in_front flag delay gap w v ws o h up ([], back, e, f, r) = absurd cc
Launches-in_front flag delay gap w v ws o h up (x ∷ front, back, e, f, r) = (
  w ∷ x ∷ front,
  back,
  ap (λ l. w ∷ l) e,
  ap (in_front (launch_as w.thread w)) f ∙ one_launched w (map launched (x ∷ front) ++ back) h,
  (up, r),
)

start_loop-Launches :
    (flag : ℕ → ℕ → Bool) (delay : ℤ) (gap : ℕ) (ws : List ChannelWorker)
    → All IsUnjoinable ws
    → Launches flag delay gap ws (start_loop flag delay gap ws)
unfolding start_loop after_wait
start_loop-Launches flag delay gap [] h = ([], [], refl, refl, refl)
start_loop-Launches flag delay gap (w ∷ []) (h, _) = (w ∷ [], [], refl, one_launched w [] h, tt)
start_loop-Launches flag delay gap (w ∷ v ∷ ws) (h, hs) =
    let later = start_loop-Launches flag delay (suc gap) (v ∷ ws) hs in
    let rest = start_loop flag delay (suc gap) (v ∷ ws) in
    let (x, e, (r, _, _, _, _)) =
      wait_loop-Finds (flag gap) (suc (pos_part delay)) (pos_part delay) 0 0 (omega arith) in
    let all_but : Option (List ChannelWorker) → Type 0 =
      λ o. Launches flag delay gap (w ∷ v ∷ ws) (in_front (launch_as w.thread w) o) in
    if_elim all_but (ltb_ℤ (pos 0) delay)
      (λ waits.
        subst (λ o. all_but (after_wait o rest (v ∷ ws))) (sym e)
          (if_elim all_but x.result
            (λ up. Launches-in_front flag delay gap w v ws rest h (inr (x, e, sym r ∙ up)) later)
            (λ down.
              (w ∷ [], v ∷ ws, refl, one_launched w (v ∷ ws) h, (waits, (x, e, sym r ∙ down))))))
      (λ at_once. Launches-in_front flag delay gap w v ws rest h (inl at_once) later)

-- What `start` does to a manager that is not started and whose threads are joined: it returns, the
-- workers in front get a thread, in their order, and those behind are as they were. The first
-- worker gets one. Each further one gets one exactly as long as the start delay is not positive or
-- the load of the running flag behind the wait in front of it finds the flag up; the wait is
-- `wait_loop` for the start delay.
pub start-Launches :
    (signal : ℕ → ℕ → Bool) (m : ChannelManager)
    → m.started ≡ false
    → All IsUnjoinable m.workers
    → (front back : List ChannelWorker) × (m.workers ≡ front ++ back)
      × (start signal m ≡ some (record m { workers = map launched front ++ back; started = true }))
      × IsCut (λ gap load. m.running && signal gap load) m.channel_start_delay_ms 0 front back
unfolding start with_workers
start-Launches signal m off h =
    let flag : ℕ → ℕ → Bool = λ gap load. m.running && signal gap load in
    let (front, back, e, f, r) = start_loop-Launches flag m.channel_start_delay_ms 0 m.workers h in
    (front, back, e, rw (off, f) refl, r)
