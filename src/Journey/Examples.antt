-- ===== src/Journey/Examples.antt =====
-- Tests of `Journey`, and its theorems at concrete words and runs.
use replob_prototype.Prelude.{none}
use replob_prototype.Prelude.{◌≤◌, ◌<◌, ◌≡◌, refl, Bool, true, false, [], ◌∷◌, arith}
use replob_prototype.Journey.{
  JourneyState, constructed, Event, cancelled_event, timedout_event, raises, verify_fails,
  may_proceed, handle_events, set_done, add_raise_event, acquire, release_and_done, reset_entered,
}
use replob_prototype.Journey.Threads.{
  parked, Journey, wake, others_done, own_yield, resume, load, exchange, Reach, start, later,
}
use replob_prototype.Journey.Guards.{guard, end_guard, end_dtor_guard, guard_lem}
use replob_prototype.Journey.Safety.{one_resumption, no_lost_wakeup}
use replob_prototype.Journey.Events.{raise_all, event_or_value}

-- The journey has run, yielded with nothing to do, and is parked.
abbrev idle : Journey
idle = record { state = reset_entered constructed; position = parked; scheduled = 0 }

Reach-idle : Reach idle
unfolding may_proceed
Reach-idle =
    later (later (later (later start (resume {n = 0} (omega arith))) (own_yield refl)) (load refl))
      (exchange constructed refl refl refl)

abbrev woken : Journey
woken = wake idle (set_done (reset_entered constructed))

woken_runs : woken.scheduled ≡ 1
unfolding set_done reset_entered
woken_runs = refl

one_resumption_example : (woken.scheduled ≤ 1) × (0 < woken.scheduled → woken.position ≡ parked)
one_resumption_example = one_resumption {j = woken} (later Reach-idle others_done)

no_lost_wakeup_example :
    (idle.state.done ≡ false)
    × (idle.state.events_enabled ≡ true
        → (idle.state.cancelled ≡ false) × (idle.state.timedout ≡ false))
    × ((set_done idle.state).1 ≡ true)
    × ((enabled : Bool) → (release_and_done enabled idle.state).1 ≡ true)
    × ((e : Event) → idle.state.events_enabled ≡ true → (add_raise_event e idle.state).1 ≡ true)
no_lost_wakeup_example = no_lost_wakeup {j = idle} Reach-idle refl refl

event_or_value_example :
    ((acquire 0 true (add_raise_event timedout_event constructed).0).1 ≡ false)
    × ((acquire 0 true constructed).1 ≡ true)
    × (let t = raise_all (cancelled_event ∷ []) (acquire 0 true constructed).0 in
        let u = release_and_done true t.0 in
        let h = handle_events u.0 in
        (t.1 ≡ false)
        × (u.1 ≡ false)
        × (h.1 ≡ raises cancelled_event)
        × (h.0.entered ≡ true)
        × (h.0.events_enabled ≡ true)
        × (h.0.done ≡ false)
        × (h.0.cancelled ≡ false)
        × (h.0.timedout ≡ false)
        × (h.0.counter ≡ 0))
event_or_value_example =
    event_or_value constructed timedout_event (cancelled_event ∷ []) refl (omega arith)

abbrev guarded : JourneyState
guarded = record constructed { events_enabled = false }

abbrev both_events : JourneyState
both_events = record constructed { cancelled = true; timedout = true; done = true }

nothing_came : (handle_events constructed).1 ≡ verify_fails
unfolding handle_events
nothing_came = refl

guard_lem_example :
    let (g, was_enabled) = guard constructed in
    let t = raise_all (timedout_event ∷ []) g in
    let d = end_dtor_guard was_enabled t.0 in
    (t.1 ≡ false)
    × (end_guard was_enabled t.0 ≡ none)
    × (d.events_enabled ≡ true)
    × (d.cancelled ≡ false)
    × (d.timedout ≡ true)
guard_lem_example = guard_lem (timedout_event ∷ []) constructed
