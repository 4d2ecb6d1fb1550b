-- ===== src/Manager/Tests.antt =====
-- Runs of the channel manager.
use rpi_server.Prelude.{
  ℕ, ◌≡◌, ◌⊎◌, refl, Bool, true, false, Option, none, some, List, [], ◌∷◌, ◌++◌, map, ltb, All,
}
use rpi_server.Prelude.Int.{pos}
use rpi_server.Bytes.{codes}
use rpi_server.Channels.{ChannelMapping}
use rpi_server.Manager.{
  Event, Thread, unjoinable, at_work, ChannelWorker, ChannelManager, raised, returned, new_manager,
  start, started_with, stopped, shut_down, ended, run_events,
}
use rpi_server.Manager.Launch.{IsUnjoinable, launched, IsCut, start-Launches}
use rpi_server.Manager.Lifecycle.{mappings, run_events-IsSafe}

abbrev three : List ChannelMapping
three =
    record { camera_channel = pos 0; channel_id = pos 1 }
    ∷ record { camera_channel = pos 1; channel_id = pos 2 }
    ∷ record { camera_channel = pos 2; channel_id = pos 3 }
    ∷ []

-- The flag is down from the second wait on.
abbrev one_wait : ℕ → ℕ → Bool
one_wait gap load = ltb gap 1

abbrev new_three : ChannelManager
new_three = new_manager three (pos 250)

abbrev history : List Event
history =
    started_with one_wait
    ∷ ended 0 (raised (codes "no camera"))
    ∷ shut_down
    ∷ stopped (λ i. returned)
    ∷ started_with one_wait
    ∷ []

abbrev threads_of : Option ChannelManager → List (Thread × Bool)
threads_of none = []
threads_of (some m) = map (λ (w : ChannelWorker). (w.thread, w.failed)) m.workers

two_started :
    threads_of (start one_wait new_three)
    ≡ (at_work, false) ∷ (at_work, false) ∷ (unjoinable, false) ∷ []
unfolding start new_manager
two_started = refl

started_again :
    threads_of (run_events history new_three)
    ≡ (at_work, true) ∷ (unjoinable, false) ∷ (unjoinable, false) ∷ []
unfolding run_events new_manager
started_again = refl

start-Launches_example :
    (front back : List ChannelWorker) × (new_three.workers ≡ front ++ back)
    × (start one_wait new_three
        ≡ some (record new_three { workers = map launched front ++ back; started = true }))
    × IsCut one_wait (pos 250) 0 front back
unfolding new_manager
start-Launches_example = start-Launches one_wait new_three refl (refl, (refl, (refl, tt)))

run_events-IsSafe_example :
    (m : ChannelManager) × (run_events history new_three ≡ some m)
    × (mappings m.workers ≡ three)
    × ((m.started ≡ true) ⊎ All IsUnjoinable m.workers)
run_events-IsSafe_example = run_events-IsSafe three (pos 250) history
