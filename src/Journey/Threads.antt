-- ===== src/Journey/Threads.antt =====
-- A journey among the threads of src/journey.cpp: its own thread runs `Journey::proceed0`, any other
-- thread wakes it, and each proceed hands one more run of `proceed0` to the scheduler. Every atomic
-- operation of `resetEnteredAndCheckEvents` and of `detachDoers` is a step.
use replob_prototype.Prelude.{ℕ, ◌+◌, ◌≡◌, Bool, true, false, if◌then◌else◌}
use replob_prototype.Journey.{
  JourneyState, constructed, Event, may_proceed, disable_events, enable_events, set_done,
  add_raise_event, acquire, release_and_done, count_up, clear_done, reset_entered,
}

-- Where the coroutine and the thread in `proceed0` stand.
pub data Position : Type 0 where
  parked : Position  -- no thread is in `proceed0`
  running : Position  -- in `coro.resume()`
  leaving : Position  -- the coroutine has yielded
  checking : JourneyState → Position  -- `resetEnteredAndCheckEvents` with `prev` loaded
  finished : Position  -- the journey is deleted

-- `resetFlags0` of these of `FlagCancelled`, `FlagTimedout` and `FlagDone`: after a load, all that `handleEvents`
-- does to the word, and after `own_enable` all that `enableEventsAndCheck` does.
unfoldable pub reset_flags : Bool → Bool → Bool → JourneyState → JourneyState
reset_flags cancel timeout done s = record s {
  cancelled = if cancel then false else s.cancelled;
  timedout = if timeout then false else s.timedout;
  done = if done then false else s.done;
}

-- `scheduled` counts the calls of `proceed0` that the scheduler has still to make.
pub record Journey : Type 0 where
  pub state : JourneyState
  pub position : Position
  pub scheduled : ℕ

-- A thread's operation on the word; where it says so, `proceed` follows.
abbrev pub wake : Journey → JourneyState × Bool → Journey
wake j r = record j { state = r.0; scheduled = if r.1 then j.scheduled + 1 else j.scheduled }

-- `Journey::start`: the state after `start0`
abbrev pub started : Journey
started = record { state = constructed; position = parked; scheduled = 1 }

pub data Step (j : Journey) : Journey → Type 0 where
  -- by other threads, at any time
  others_done : Step j (wake j (set_done j.state))
  others_raise : (e : Event) → Step j (wake j (add_raise_event e j.state))
  others_acquire :
      (old_counter : ℕ) (enabled : Bool)
      → Step j (record j { state = (acquire old_counter enabled j.state).0 })
  others_release : (enabled : Bool) → Step j (wake j (release_and_done enabled j.state))
  -- by the coroutine
  own_done : j.position ≡ running → Step j (wake j (set_done j.state))
  own_disable : j.position ≡ running → Step j (record j { state = (disable_events j.state).0 })
  own_enable : j.position ≡ running → Step j (record j { state = enable_events j.state })
  own_reset :
      (cancel timeout done : Bool)
      → j.position ≡ running
      → Step j (record j { state = reset_flags cancel timeout done j.state })
  own_count_up : j.position ≡ running → Step j (record j { state = count_up j.state })
  own_clear : j.position ≡ running → Step j (record j { state = clear_done j.state })
  own_yield : j.position ≡ running → Step j (record j { position = leaving })
  own_end : j.position ≡ running → Step j (record j { position = finished })
  -- by the thread in `proceed0`
  resume : {n : ℕ} → j.scheduled ≡ n + 1 → Step j (record j { position = running; scheduled = n })
  load : j.position ≡ leaving → Step j (record j { position = checking j.state })
  proceed_on_exit :
      (prev : JourneyState)
      → j.position ≡ checking prev
      → may_proceed prev ≡ true
      → Step j (record j { position = parked; scheduled = j.scheduled + 1 })
  exchange :
      (prev : JourneyState)
      → j.position ≡ checking prev
      → may_proceed prev ≡ false
      → j.state ≡ prev
      → Step j (record j { state = reset_entered prev; position = parked })
  exchange_fails :
      (prev : JourneyState)
      → j.position ≡ checking prev
      → may_proceed prev ≡ false
      → Step j (record j { position = checking j.state })

pub data Reach : Journey → Type 0 where
  start : Reach started
  later : {j k : Journey} → Reach j → Step j k → Reach k
