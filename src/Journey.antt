-- ===== src/Journey.antt =====
-- `JourneyState` of src/journey.h and src/journey.cpp: the word in which a coroutine (a journey) and
-- the threads that wake it meet. The word is kept as its five flags and its counter, the upper 27
-- bits of an `int`; an atomic operation on the word is one function, which returns the new word and
-- what the caller learns. A compare-and-exchange loop whose rounds touch nothing else is one
-- operation, its last round.
pub mod Threads
pub mod Safety
pub mod Events
pub mod Guards
pub mod Suspend
pub mod Waits
mod Examples
use replob_prototype.Prelude.{
  ℕ, ◌+◌, ◌%◌, ◌^◌, ◌≡◌, Bool, true, false, not, ◌&&◌, ◌||◌, ◌==◌, if◌then◌else◌, Option, none,
  some,
}

-- `FlagEntered`, `FlagEventsEnabled`, `FlagDone`, `FlagCancelled`, `FlagTimedout` and `MaskCounter`
pub record JourneyState : Type 0 where
  pub entered : Bool
  pub events_enabled : Bool
  pub done : Bool
  pub cancelled : Bool
  pub timedout : Bool
  pub counter : ℕ

abbrev pub counter_mod : ℕ
counter_mod = 2 ^ 27

-- `state_` as constructed
abbrev pub constructed : JourneyState
constructed = record {
  entered = true;
  events_enabled = true;
  done = false;
  cancelled = false;
  timedout = false;
  counter = 0;
}

-- The exceptions of include/synca/once/oers.h that a journey throws at itself.
pub data Event : Type 0 where
  cancelled_event timedout_event : Event

-- How a call of the journey on itself ends: with a value, an event thrown, or a failed `VERIFY`.
pub data Outcome : Type 0 where
  returns : Outcome
  raises : Event → Outcome
  verify_fails : Outcome

-- `mayProceed`
unfoldable pub may_proceed : JourneyState → Bool
may_proceed s = s.done || (s.events_enabled && (s.cancelled || s.timedout))

-- `disableEvents`, with whether events were enabled
unfoldable pub disable_events : JourneyState → JourneyState × Bool
disable_events s = (record s { events_enabled = false }, s.events_enabled)

unfoldable pub enable_events : JourneyState → JourneyState
enable_events s = record s { events_enabled = true }

-- `handleRaiseEvents(flags)` at the word `s`
unfoldable pub handle_raise_events : JourneyState → JourneyState → JourneyState × Outcome
handle_raise_events flags s =
    if flags.cancelled
    then (record s { cancelled = false; timedout = false; done = false }, raises cancelled_event)
    else if flags.timedout
    then (record s { timedout = false; done = false }, raises timedout_event)
    else (s, returns)

unfoldable pub enable_events_and_check : JourneyState → JourneyState × Outcome
enable_events_and_check s = handle_raise_events s (enable_events s)

-- the end of `handleEvents`, which an exception skips
unfoldable pub reset_done : JourneyState × Outcome → JourneyState × Outcome
reset_done (s, returns) = (record s { done = false }, returns)
reset_done (s, raises e) = (s, raises e)
reset_done (s, verify_fails) = (s, verify_fails)

unfoldable pub handle_events : JourneyState → JourneyState × Outcome
handle_events s =
    if s.events_enabled
    then (if s.cancelled || s.timedout || s.done
        then reset_done (handle_raise_events s s)
        else (s, verify_fails))
    else (if s.done then reset_done (s, returns) else (s, verify_fails))

-- `done`, with whether it calls `proceed`
unfoldable pub set_done : JourneyState → JourneyState × Bool
set_done s = (record s { done = true; entered = true }, not s.entered)

-- `addRaiseEvent`, with whether it calls `proceed`
unfoldable pub add_raise_event : Event → JourneyState → JourneyState × Bool
add_raise_event cancelled_event s =
    if s.events_enabled
    then (
      record s { cancelled = true; counter = (s.counter + 1) % counter_mod; entered = true },
      not s.entered,
    )
    else (record s { cancelled = true }, false)
add_raise_event timedout_event s =
    if s.events_enabled
    then (
      record s { timedout = true; counter = (s.counter + 1) % counter_mod; entered = true },
      not s.entered,
    )
    else (record s { timedout = true }, false)

-- `acquire`, with its result
unfoldable pub acquire : ℕ → Bool → JourneyState → JourneyState × Bool
acquire old_counter was_events_enabled s =
    if was_events_enabled
    then (if old_counter == s.counter
        then (record s { events_enabled = false }, true)
        else (s, false))
    else (s, true)

-- `releaseAndDone`, with whether it calls `proceed`
unfoldable pub release_and_done : Bool → JourneyState → JourneyState × Bool
release_and_done was_events_enabled s =
    if was_events_enabled
    then (record s { done = true; entered = true; events_enabled = true }, not s.entered)
    else set_done s

-- the two operations of `detachDoers`
unfoldable pub count_up : JourneyState → JourneyState
count_up s = record s { counter = (s.counter + 1) % counter_mod }

unfoldable pub clear_done : JourneyState → JourneyState
clear_done s = record s { done = false }

-- the exchange at the end of `resetEnteredAndCheckEvents`
unfoldable pub reset_entered : JourneyState → JourneyState
reset_entered s = record s { entered = false }
