-- ===== src/Journey/Guards.antt =====
-- `EventsGuard` and `DtorEventsGuard` of src/core.cpp, which keep events off a journey while they live.
use replob_prototype.Prelude.{
  ◌≡◌, refl, ap, ◌∙◌, Option, none, some, Bool, true, false, ◌&&◌, ◌||◌, List, any, arith,
  if◌then◌else◌,
}
use replob_prototype.Journey.{
  JourneyState, Event, cancelled_event, timedout_event, Outcome, returns, raises, verify_fails,
  disable_events, enable_events, enable_events_and_check, handle_raise_events,
}
use replob_prototype.Journey.Events.{raise_all, raise_all-kept, is_cancel, is_timeout}

-- `EventsGuard::EventsGuard` and `DtorEventsGuard::DtorEventsGuard`, with `wasEnabled`
unfoldable pub guard : JourneyState → JourneyState × Bool
guard s = disable_events s

-- An exception that leaves a destructor ends the program, since a destructor is noexcept: `none`.
unfoldable pub unless_thrown : JourneyState × Outcome → Option JourneyState
unless_thrown (s, returns) = some s
unless_thrown (s, raises e) = none
unless_thrown (s, verify_fails) = none

-- `EventsGuard::~EventsGuard`
unfoldable pub end_guard : Bool → JourneyState → Option JourneyState
end_guard was_enabled s = if was_enabled then unless_thrown (enable_events_and_check s) else some s

-- `DtorEventsGuard::~DtorEventsGuard`
unfoldable pub end_dtor_guard : Bool → JourneyState → JourneyState
end_dtor_guard was_enabled s = if was_enabled then enable_events s else s

-- The end of the guard, by the events that it finds
thrown_lem :
    (c t : Bool) (x y z : JourneyState)
    → unless_thrown (
        if c
        then (x, raises cancelled_event)
        else if t
        then (y, raises timedout_event)
        else (z, returns))
      ≡ (if c || t then none else some z)
unfolding unless_thrown
thrown_lem true t x y z = refl
thrown_lem false true x y z = refl
thrown_lem false false x y z = refl

end_guard_lem :
    (b : Bool) (t : JourneyState)
    → t.events_enabled ≡ false
    → end_guard b t
      ≡ (if b && (t.cancelled || t.timedout) then none else some (record t { events_enabled = b }))
unfolding end_guard enable_events_and_check handle_raise_events enable_events
end_guard_lem true t e = thrown_lem t.cancelled t.timedout _ _ _
end_guard_lem false t e = ap (λ b. some (record t { events_enabled = b })) e

-- Events that come while a guard lives call no `proceed`. The end of a `DtorEventsGuard` enables events again if
-- they were enabled, also where guards are nested, and keeps the events for later. The end of an `EventsGuard` does
-- the same where no event has come, before or meanwhile, or where guards are nested; otherwise the event that it
-- throws leaves its destructor, which ends the program.
pub guard_lem :
    (es : List Event) (s : JourneyState)
    → let (g, was_enabled) = guard s in
      let t = raise_all es g in
      let d = end_dtor_guard was_enabled t.0 in
      (t.1 ≡ false)
      × (end_guard was_enabled t.0 ≡ (
          if s.events_enabled
            && ((s.cancelled || any is_cancel es) || (s.timedout || any is_timeout es))
          then none
          else some (record t.0 { events_enabled = s.events_enabled })))
      × (d.events_enabled ≡ s.events_enabled)
      × (d.cancelled ≡ (s.cancelled || any is_cancel es))
      × (d.timedout ≡ (s.timedout || any is_timeout es))
unfolding guard end_dtor_guard disable_events enable_events
guard_lem es s =
    let k = raise_all-kept es (disable_events s).0 refl in
    let t = (raise_all es (disable_events s).0).0 in
    (
      k.0,
      end_guard_lem s.events_enabled t k.1
          ∙ ap
              (λ x.
                if s.events_enabled && (x || t.timedout)
                then none
                else some (record t { events_enabled = s.events_enabled }))
              k.2
          ∙ ap
              (λ x.
                if s.events_enabled && ((s.cancelled || any is_cancel es) || x)
                then none
                else some (record t { events_enabled = s.events_enabled }))
              k.3,
      ground (arith, k.1),
      ground (arith, k.2),
      ground (arith, k.3),
    )
