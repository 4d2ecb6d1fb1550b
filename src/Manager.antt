-- ===== src/Manager.antt =====
-- src/media/channel_manager.cpp: `ChannelManager::start` and `stop`, and the threads of its workers.
-- An assignment to a joinable `std::thread`, which terminates the program, is `none`. How the ingest
-- of a worker ends is an argument, and so are the loads of the running flag by `start`: as `start`
-- and `stop` are called in turn, only a signal changes the flag while `start` runs.
pub mod Launch
pub mod Lifecycle
mod Tests
use rpi_server.Prelude.{
  ℕ, zero, suc, Bool, true, false, ◌&&◌, Option, none, some, List, [], ◌∷◌, map, if◌then◌else◌,
}
use rpi_server.Prelude.Int.{ℤ, pos, pos_part, ltb_ℤ}
use rpi_server.Bytes.{Bytes, codes}
use rpi_server.Channels.{ChannelMapping}
use rpi_server.Ingest.Waiting.{Waited, wait_loop}

-- A thread that can be joined is at work or over.
pub data Thread : Type 0 where
  unjoinable at_work over : Thread

pub record ChannelWorker : Type 0 where
  pub mapping : ChannelMapping
  pub thread : Thread
  pub failed : Bool
  pub error : Bytes

pub record ChannelManager : Type 0 where
  pub workers : List ChannelWorker
  pub channel_start_delay_ms : ℤ
  pub started : Bool
  pub running : Bool

-- How `ingest.run()` ends.
pub data Outcome : Type 0 where
  returned : Outcome
  raised : Bytes → Outcome
  raised_unknown : Outcome

unfoldable pub new_worker : ChannelMapping → ChannelWorker
new_worker m = record { mapping = m; thread = unjoinable; failed = false; error = [] }

-- The constructor, for channels that it accepts.
unfoldable pub new_manager : List ChannelMapping → ℤ → ChannelManager
unfolding new_worker
new_manager ms delay = record {
  workers = map new_worker ms;
  channel_start_delay_ms = delay;
  started = false;
  running = true;
}

-- The body of a worker's thread.
unfoldable pub end_work : Outcome → ChannelWorker → ChannelWorker
end_work returned w = record w { thread = over }
end_work (raised what) w = record w { thread = over; failed = true; error = what }
end_work raised_unknown w = record w { thread = over; failed = true; error = codes "unknown" }

unfoldable pub launch_as : Thread → ChannelWorker → Option ChannelWorker
launch_as unjoinable w = some (record w { thread = at_work })
launch_as at_work w = none
launch_as over w = none

unfoldable pub join_as : Thread → Outcome → ChannelWorker → ChannelWorker
unfolding end_work
join_as unjoinable o w = w
join_as at_work o w = record (end_work o w) { thread = unjoinable }
join_as over o w = record w { thread = unjoinable }

unfoldable pub ends_as : Thread → Outcome → ChannelWorker → ChannelWorker
unfolding end_work
ends_as unjoinable o w = w
ends_as at_work o w = end_work o w
ends_as over o w = w

unfoldable pub in_front :
    Option ChannelWorker → Option (List ChannelWorker) → Option (List ChannelWorker)
in_front (some w) (some ws) = some (w ∷ ws)
in_front _ _ = none

-- The load behind the wait says whether the loop goes on. The flag's loads are by the gap between
-- two workers and the loads before.
unfoldable pub after_wait :
    Option Waited → Option (List ChannelWorker) → List ChannelWorker → Option (List ChannelWorker)
after_wait none later rest = none
after_wait (some w) later rest = if w.result then later else some rest

unfoldable pub start_loop :
    (ℕ → ℕ → Bool) → ℤ → ℕ → List ChannelWorker → Option (List ChannelWorker)
unfolding launch_as in_front after_wait wait_loop
start_loop flag delay gap [] = some []
start_loop flag delay gap (w ∷ []) = in_front (launch_as w.thread w) (some [])
start_loop flag delay gap (w ∷ v ∷ ws) =
    let later = start_loop flag delay (suc gap) (v ∷ ws) in
    in_front (launch_as w.thread w) (
      if ltb_ℤ (pos 0) delay
      then after_wait (wait_loop (flag gap) (suc (pos_part delay)) (pos_part delay) 0 0) later
          (v ∷ ws)
      else later)

unfoldable pub with_workers : ChannelManager → Option (List ChannelWorker) → Option ChannelManager
with_workers m none = none
with_workers m (some ws) = some (record m { workers = ws; started = true })

unfoldable pub start : (ℕ → ℕ → Bool) → ChannelManager → Option ChannelManager
unfolding with_workers start_loop
start signal m =
    if m.started
    then some m
    else with_workers m
        (start_loop (λ gap load. m.running && signal gap load) m.channel_start_delay_ms 0 m.workers)

unfoldable pub join_all : (ℕ → Outcome) → ℕ → List ChannelWorker → List ChannelWorker
unfolding join_as
join_all outcome i [] = []
join_all outcome i (w ∷ ws) = join_as w.thread (outcome i) w ∷ join_all outcome (suc i) ws

-- A thread that is still at work is waited for: `outcome i` is how the `i`th one ends then.
unfoldable pub stop : (ℕ → Outcome) → ChannelManager → ChannelManager
unfolding join_all
stop outcome m =
    if m.started
    then record m { workers = join_all outcome 0 m.workers; started = false; running = false }
    else m

unfoldable pub end_at : ℕ → Outcome → List ChannelWorker → List ChannelWorker
unfolding ends_as
end_at i o [] = []
end_at zero o (w ∷ ws) = ends_as w.thread o w ∷ ws
end_at (suc i) o (w ∷ ws) = w ∷ end_at i o ws

-- The calls of `main`, a signal that takes the running flag down, and the end of a worker's thread.
pub data Event : Type 0 where
  started_with : (ℕ → ℕ → Bool) → Event
  stopped : (ℕ → Outcome) → Event
  shut_down : Event
  ended : ℕ → Outcome → Event

unfoldable pub step : Event → ChannelManager → Option ChannelManager
unfolding start stop end_at
step (started_with signal) m = start signal m
step (stopped outcome) m = some (stop outcome m)
step shut_down m = some (record m { running = false })
step (ended i o) m = some (record m { workers = end_at i o m.workers })

unfoldable pub then_steps :
    (ChannelManager → Option ChannelManager) → Option ChannelManager → Option ChannelManager
then_steps next none = none
then_steps next (some m) = next m

unfoldable pub run_events : List Event → ChannelManager → Option ChannelManager
unfolding step then_steps
run_events [] m = some m
run_events (e ∷ es) m = then_steps (run_events es) (step e m)
