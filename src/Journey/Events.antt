-- ===== src/Journey/Events.antt =====
-- Events and values race for a waiting journey; cancellation comes before a timeout.
use replob_prototype.Prelude.{any}
use replob_prototype.Prelude.{
  ◌<◌, ◌≡◌, refl, Bool, true, false, ◌||◌, List, [], ◌∷◌, arith, if◌then◌else◌,
}
use replob_prototype.Journey.{
  JourneyState, counter_mod, Event, cancelled_event, timedout_event, returns, raises, enable_events,
  enable_events_and_check, handle_events, handle_raise_events, reset_done, add_raise_event, acquire,
  release_and_done,
}

-- Events sent one after the other, with whether one of them called `proceed`.
unfoldable pub raise_all : List Event → JourneyState → JourneyState × Bool
raise_all [] s = (s, false)
raise_all (e ∷ es) s =
    let (t, woken) = add_raise_event e s in let (u, later) = raise_all es t in (u, woken || later)

abbrev pub is_cancel : Event → Bool
is_cancel cancelled_event = true
is_cancel timedout_event = false

abbrev pub is_timeout : Event → Bool
is_timeout cancelled_event = false
is_timeout timedout_event = true

-- Events that come while events are disabled are kept.
add-kept :
    (e : Event) (s : JourneyState)
    → s.events_enabled ≡ false
    → ((add_raise_event e s).1 ≡ false)
      × ((add_raise_event e s).0.events_enabled ≡ false)
      × ((add_raise_event e s).0.cancelled ≡ (s.cancelled || is_cancel e))
      × ((add_raise_event e s).0.timedout ≡ (s.timedout || is_timeout e))
unfolding add_raise_event
add-kept cancelled_event s h =
    (ground (arith, h), ground (arith, h), ground (arith, h), ground (arith, h))
add-kept timedout_event s h =
    (ground (arith, h), ground (arith, h), ground (arith, h), ground (arith, h))

pub raise_all-kept :
    (es : List Event) (s : JourneyState)
    → s.events_enabled ≡ false
    → ((raise_all es s).1 ≡ false)
      × ((raise_all es s).0.events_enabled ≡ false)
      × ((raise_all es s).0.cancelled ≡ (s.cancelled || any is_cancel es))
      × ((raise_all es s).0.timedout ≡ (s.timedout || any is_timeout es))
unfolding raise_all
raise_all-kept [] s h = (refl, h, ground arith, ground arith)
raise_all-kept (e ∷ es) s h =
    let k = add-kept e s h in
    let l = raise_all-kept es (add_raise_event e s).0 k.1 in
    (ground (arith, k.0, l.0), l.1, ground (arith, k.2, l.2), ground (arith, k.3, l.3))

-- What events cannot change while events are disabled.
record IsHeld (s t : JourneyState) : Type 0 where
  same_entered : t.entered ≡ s.entered
  disabled : t.events_enabled ≡ false
  same_done : t.done ≡ s.done
  same_counter : t.counter ≡ s.counter
  cancelled_kept : s.cancelled ≡ true → t.cancelled ≡ true
  timedout_kept : s.timedout ≡ true → t.timedout ≡ true

add-IsHeld :
    (e : Event) (s : JourneyState) → s.events_enabled ≡ false → IsHeld s (add_raise_event e s).0
unfolding add_raise_event
add-IsHeld cancelled_event s h = ground arith
add-IsHeld timedout_event s h = ground arith

add-silent :
    (e : Event) (s : JourneyState) → s.events_enabled ≡ false → (add_raise_event e s).1 ≡ false
unfolding add_raise_event
add-silent cancelled_event s h = ground arith
add-silent timedout_event s h = ground arith

raise_all-IsHeld :
    (es : List Event) (s : JourneyState)
    → s.events_enabled ≡ false
    → IsHeld s (raise_all es s).0 × ((raise_all es s).1 ≡ false)
unfolding raise_all
raise_all-IsHeld [] s h = (ground arith, refl)
raise_all-IsHeld (e ∷ es) s h =
    let k = add-IsHeld e s h in
    let (l, quiet) = raise_all-IsHeld es (add_raise_event e s).0 k.disabled in
    (ground (arith, k, l), ground (arith, quiet, add-silent e s h))

acquire_late :
    (s : JourneyState) (e : Event)
    → s.events_enabled ≡ true
    → s.counter < counter_mod
    → (acquire s.counter true (add_raise_event e s).0).1 ≡ false
unfolding acquire add_raise_event
acquire_late s cancelled_event h c = ground arith
acquire_late s timedout_event h c = ground arith

-- An event and a value race for a journey that waits with events enabled. If the event comes first, a doer made
-- before it cannot acquire any more. If the doer acquires first, the events that come before it releases do not
-- proceed; the release does if the journey is parked, and `handleEvents` then throws a cancellation where one has
-- come, before or meanwhile, otherwise a timeout where one has, and it returns only where none has. Nothing of it
-- is left in the word, the value included.
pub event_or_value :
    (s : JourneyState) (e : Event) (es : List Event)
    → s.events_enabled ≡ true
    → s.counter < counter_mod
    → ((acquire s.counter true (add_raise_event e s).0).1 ≡ false)
      × ((acquire s.counter true s).1 ≡ true)
      × (let t = raise_all es (acquire s.counter true s).0 in
          let u = release_and_done true t.0 in
          let h = handle_events u.0 in
          (t.1 ≡ false)
          × (u.1 ≡ (if s.entered then false else true))
          × (h.1 ≡ (
              if s.cancelled || any is_cancel es
              then raises cancelled_event
              else if s.timedout || any is_timeout es
              then raises timedout_event
              else returns))
          × (h.0.entered ≡ true)
          × (h.0.events_enabled ≡ true)
          × (h.0.done ≡ false)
          × (h.0.cancelled ≡ false)
          × (h.0.timedout ≡ false)
          × (h.0.counter ≡ s.counter))
unfolding acquire release_and_done handle_events handle_raise_events reset_done
event_or_value s e es h c =
    let held = raise_all-IsHeld es (record s { events_enabled = false }) refl in
    let kept = raise_all-kept es (record s { events_enabled = false }) refl in
    (
      acquire_late s e h c,
      ground arith,
      (
        ground (arith, kept.0),
        ground (arith, held.0),
        ground (arith, kept.2, kept.3),
        ground arith,
        ground arith,
        ground (arith, kept.2, kept.3),
        ground (arith, kept.2, kept.3),
        ground (arith, kept.2, kept.3),
        ground (arith, held.0),
      ),
    )

-- An event that comes while events are disabled is kept. The journey goes on, and throws it when it
-- enables events with a check: the cancellation where one has come, before or then, and otherwise the
-- timeout. The events thrown or overruled are gone afterwards.
deferred_event :
    (s : JourneyState) (e : Event)
    → s.events_enabled ≡ false
    → let r = enable_events_and_check (add_raise_event e s).0 in
      ((add_raise_event e s).1 ≡ false)
      × (r.1 ≡ raises (if s.cancelled then cancelled_event else e))
      × (r.0.cancelled ≡ false)
      × (r.0.timedout ≡ false)
      × (r.0.events_enabled ≡ true)
unfolding add_raise_event enable_events_and_check handle_raise_events enable_events
deferred_event s cancelled_event h = rw h (refl, ground arith, refl, refl, refl)
deferred_event s timedout_event h =
    rw h (refl, ground arith, ground arith, ground arith, ground arith)
