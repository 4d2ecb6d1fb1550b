-- ===== src/Manager/Lifecycle.antt =====
-- src/media/channel_manager.cpp: the threads of the workers over any calls of `start` and `stop`.
use rpi_server.Prelude.{
  ℕ, zero, suc, ◌≡◌, ◌⊎◌, inl, inr, refl, sym, ap, ap₂, subst, ◌∙◌, Bool, true, false, Option, some,
  List, [], ◌∷◌, ◌++◌, map, if_elim, All,
}
use rpi_server.Prelude.Int.{ℤ}
use rpi_server.Channels.{ChannelMapping}
use rpi_server.Manager.{
  Thread, unjoinable, at_work, over, ChannelWorker, ChannelManager, Outcome, returned, raised,
  raised_unknown, new_worker, new_manager, end_work, join_as, ends_as, start, join_all, stop,
  end_at, Event, started_with, stopped, shut_down, ended, step, then_steps, run_events,
}
use rpi_server.Manager.Launch.{IsUnjoinable, launched, start-Launches}

abbrev pub mappings : List ChannelWorker → List ChannelMapping
mappings ws = map (λ (w : ChannelWorker). w.mapping) ws

-- The workers stand for the channels in their order, and a manager that is not started has no
-- thread to join.
abbrev pub IsSafe : List ChannelMapping → ChannelManager → Type 0
IsSafe ms m = (mappings m.workers ≡ ms) × ((m.started ≡ true) ⊎ All IsUnjoinable m.workers)

mappings-launched :
    (front back : List ChannelWorker)
    → mappings (map launched front ++ back) ≡ mappings (front ++ back)
mappings-launched [] back = refl
mappings-launched (w ∷ front) back = ap (λ l. w.mapping ∷ l) (mappings-launched front back)

new_workers :
    (ms : List ChannelMapping)
    → (mappings (map new_worker ms) ≡ ms) × All IsUnjoinable (map new_worker ms)
unfolding new_worker
new_workers [] = (refl, tt)
new_workers (m ∷ ms) = let (e, h) = new_workers ms in (ap (λ l. m ∷ l) e, (refl, h))

end_work_mapping : (o : Outcome) (w : ChannelWorker) → (end_work o w).mapping ≡ w.mapping
unfolding end_work
end_work_mapping returned w = refl
end_work_mapping (raised what) w = refl
end_work_mapping raised_unknown w = refl

join_as_joined :
    (t : Thread) (o : Outcome) (w : ChannelWorker)
    → w.thread ≡ t
    → ((join_as t o w).mapping ≡ w.mapping) × IsUnjoinable (join_as t o w)
unfolding join_as
join_as_joined unjoinable o w h = (refl, h)
join_as_joined at_work o w h = (end_work_mapping o w, refl)
join_as_joined over o w h = (refl, refl)

join_all_joined :
    (outcome : ℕ → Outcome) (i : ℕ) (ws : List ChannelWorker)
    → (mappings (join_all outcome i ws) ≡ mappings ws) × All IsUnjoinable (join_all outcome i ws)
unfolding join_all
join_all_joined outcome i [] = (refl, tt)
join_all_joined outcome i (w ∷ ws) =
    let (e, h) = join_as_joined w.thread (outcome i) w refl in
    let (es, hs) = join_all_joined outcome (suc i) ws in (ap₂ (λ m ms. m ∷ ms) e es, (h, hs))

ends_as_mapping :
    (t : Thread) (o : Outcome) (w : ChannelWorker) → (ends_as t o w).mapping ≡ w.mapping
unfolding ends_as
ends_as_mapping unjoinable o w = refl
ends_as_mapping at_work o w = end_work_mapping o w
ends_as_mapping over o w = refl

end_at_mappings :
    (i : ℕ) (o : Outcome) (ws : List ChannelWorker) → mappings (end_at i o ws) ≡ mappings ws
unfolding end_at
end_at_mappings i o [] = refl
end_at_mappings zero o (w ∷ ws) = ap (λ m. m ∷ mappings ws) (ends_as_mapping w.thread o w)
end_at_mappings (suc i) o (w ∷ ws) = ap (λ ms. w.mapping ∷ ms) (end_at_mappings i o ws)

ends_as-IsUnjoinable :
    (t : Thread) (o : Outcome) (w : ChannelWorker)
    → t ≡ unjoinable
    → IsUnjoinable w
    → IsUnjoinable (ends_as t o w)
unfolding ends_as
ends_as-IsUnjoinable unjoinable o w e h = h
ends_as-IsUnjoinable at_work o w e h = absurd cc
ends_as-IsUnjoinable over o w e h = h

end_at_joined :
    (i : ℕ) (o : Outcome) (ws : List ChannelWorker)
    → All IsUnjoinable ws
    → All IsUnjoinable (end_at i o ws)
unfolding end_at
end_at_joined i o [] h = h
end_at_joined zero o (w ∷ ws) (h, hs) = (ends_as-IsUnjoinable w.thread o w h h, hs)
end_at_joined (suc i) o (w ∷ ws) (h, hs) = (h, end_at_joined i o ws hs)

abbrev Leads : List ChannelMapping → Option ChannelManager → Type 0
Leads ms o = (m : ChannelManager) × (o ≡ some m) × IsSafe ms m

joined_where_off :
    (ms : List ChannelMapping) (m : ChannelManager)
    → m.started ≡ false
    → IsSafe ms m
    → All IsUnjoinable m.workers
joined_where_off ms m off (e, inl on) = absurd cc
joined_where_off ms m off (e, inr joined) = joined

start_as-IsSafe :
    (signal : ℕ → ℕ → Bool) (ms : List ChannelMapping) (m : ChannelManager) (b : Bool)
    → m.started ≡ b
    → IsSafe ms m
    → Leads ms (start signal m)
unfolding start
start_as-IsSafe signal ms m true on (e, s) = (m, rw on refl, (e, s))
start_as-IsSafe signal ms m false off safe =
    let (front, back, e, f, _) = start-Launches signal m off (joined_where_off ms m off safe) in
    (
      record m { workers = map launched front ++ back; started = true },
      f,
      (mappings-launched front back ∙ ap mappings (sym e) ∙ safe.0, inl refl),
    )

stop-IsSafe :
    (outcome : ℕ → Outcome) (ms : List ChannelMapping) (m : ChannelManager)
    → IsSafe ms m
    → IsSafe ms (stop outcome m)
unfolding stop
stop-IsSafe outcome ms m (e, s) =
    if_elim (IsSafe ms) m.started
      (λ on. let (f, h) = join_all_joined outcome 0 m.workers in (f ∙ e, inr h)) (λ off. (e, s))

step-IsSafe :
    (ms : List ChannelMapping) (e : Event) (m : ChannelManager) → IsSafe ms m → Leads ms (step e m)
unfolding step
step-IsSafe ms (started_with signal) m safe = start_as-IsSafe signal ms m m.started refl safe
step-IsSafe ms (stopped outcome) m safe = (stop outcome m, refl, stop-IsSafe outcome ms m safe)
step-IsSafe ms shut_down m safe = (record m { running = false }, refl, safe)
step-IsSafe ms (ended i o) m (e, inl on) =
    (record m { workers = end_at i o m.workers }, refl, (end_at_mappings i o m.workers ∙ e, inl on))
step-IsSafe ms (ended i o) m (e, inr joined) = (
  record m { workers = end_at i o m.workers },
  refl,
  (end_at_mappings i o m.workers ∙ e, inr (end_at_joined i o m.workers joined)),
)

run_events_from :
    (ms : List ChannelMapping) (es : List Event) (m : ChannelManager)
    → IsSafe ms m
    → Leads ms (run_events es m)
unfolding run_events then_steps
run_events_from ms [] m safe = (m, refl, safe)
run_events_from ms (e ∷ es) m safe =
    let (n, f, after) = step-IsSafe ms e m safe in
    subst (λ o. Leads ms (then_steps (run_events es) o)) (sym f) (run_events_from ms es n after)

-- Over any calls of `start` and `stop`, signals and ends of threads, in any order, on a new
-- manager: no joinable thread is ever assigned to, so that every call returns; the workers stand
-- for the channels in their order; and the manager is started or all its threads are joined.
pub run_events-IsSafe :
    (ms : List ChannelMapping) (delay : ℤ) (es : List Event)
    → (m : ChannelManager) × (run_events es (new_manager ms delay) ≡ some m)
      × (mappings m.workers ≡ ms)
      × ((m.started ≡ true) ⊎ All IsUnjoinable m.workers)
unfolding new_manager
run_events-IsSafe ms delay es =
    let (e, h) = new_workers ms in
    let (m, f, (same, s)) = run_events_from ms es (new_manager ms delay) (e, inr h) in
    (m, f, same, s)
