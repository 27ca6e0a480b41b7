-- ===== src/Journey/Waits.antt =====
-- `Journey::waitForDoneAlways` and `Journey::waitForDoneAlwaysGuarded` (src/journey.cpp): a journey waits for an
-- operation that it has started, whatever events come, and the operation may use what the journey owns until
-- it has called `done`. Other threads call `done` once, when the operation is over, and raise events; a
-- suspended journey goes on where its word lets it, as in `Journey.Suspend`.
pub mod Always
pub mod Ends
mod Examples
use replob_prototype.Prelude.{ℕ, ◌+◌, ◌≡◌, Bool, true, false, if◌then◌else◌}
use replob_prototype.Journey.{
  JourneyState, Event, Outcome, may_proceed, set_done, add_raise_event, handle_events,
}
use replob_prototype.Journey.Guards.{guard, end_dtor_guard}

-- Where the call stands: before the first test, in the first `suspend`, in the one after `cancel.cancel()`, past
-- the waiting, or over. `guarded b` and `past_guard b` have a `DtorEventsGuard` whose `wasEnabled` is `b`.
pub data Stage : Type 0 where
  starts : Stage
  suspended : Stage
  guarded : Bool → Stage
  past : Stage
  past_guard : Bool → Stage
  ended : Outcome → Stage

-- `completed` tells whether the operation is over; `cancels` and `cleanups` count the calls of the `ICancel`.
pub record Wait : Type 0 where
  pub state : JourneyState
  pub stage : Stage
  pub completed : Bool
  pub cancels : ℕ
  pub cleanups : ℕ

-- The call, at a word where no operation is done
unfoldable pub wait_of : JourneyState → Wait
wait_of s = record {
  state = record s { done = false };
  stage = starts;
  completed = false;
  cancels = 0;
  cleanups = 0;
}

-- The operation calls `done`.
unfoldable pub complete : Wait → Wait
complete w = record w { state = (set_done w.state).0; completed = true }

unfoldable pub raise : Event → Wait → Wait
raise e w = record w { state = (add_raise_event e w.state).0 }

-- The guard, `cancel.cancel()`, and the `suspend` after it
unfoldable pub cancel_under_guard : Wait → Wait
cancel_under_guard w = record w {
  state = (guard w.state).0;
  stage = guarded (guard w.state).1;
  cancels = w.cancels + 1;
}

-- `waitForDoneAlways` up to its first `suspend`
unfoldable pub test_done : Wait → Wait
test_done w = if w.state.done then record w { stage = past } else record w { stage = suspended }

-- after its first `suspend`
unfoldable pub test_again : Wait → Wait
test_again w = if w.state.done then record w { stage = past } else cancel_under_guard w

-- after its second `suspend`, with the end of the guard
unfoldable pub leave_guard : Bool → Wait → Wait
leave_guard was_enabled w = record w { state = end_dtor_guard was_enabled w.state; stage = past }

-- `cancel.cleanup()` and `handleEvents()`
unfoldable pub finish : Wait → Wait
finish w = record w {
  state = (handle_events w.state).0;
  stage = ended (handle_events w.state).1;
  cleanups = w.cleanups + 1;
}

-- `waitForDoneAlwaysGuarded` up to its `suspend`
unfoldable pub guard_and_cancel : Wait → Wait
guard_and_cancel w =
    if w.state.done
    then record w { state = (guard w.state).0; stage = past_guard (guard w.state).1 }
    else cancel_under_guard w

-- its end, where the guard is left last
unfoldable pub finish_guarded : Bool → Wait → Wait
finish_guarded was_enabled w =
    let f = finish w in record f { state = end_dtor_guard was_enabled f.state }

-- What other threads do
pub data Others (w : Wait) : Wait → Type 0 where
  completes : w.completed ≡ false → Others w (complete w)
  raises_event : (e : Event) → Others w (raise e w)

-- What `waitForDoneAlways` does
pub data Own (w : Wait) : Wait → Type 0 where
  tests : w.stage ≡ starts → Own w (test_done w)
  tests_again : w.stage ≡ suspended → may_proceed w.state ≡ true → Own w (test_again w)
  leaves_guard :
      (b : Bool) → w.stage ≡ guarded b → may_proceed w.state ≡ true → Own w (leave_guard b w)
  finishes : w.stage ≡ past → Own w (finish w)

-- What `waitForDoneAlwaysGuarded` does
pub data OwnGuarded (w : Wait) : Wait → Type 0 where
  guards : w.stage ≡ starts → OwnGuarded w (guard_and_cancel w)
  goes_on :
      (b : Bool)
      → w.stage ≡ guarded b
      → may_proceed w.state ≡ true
      → OwnGuarded w (record w { stage = past_guard b })
  finishes_guarded : (b : Bool) → w.stage ≡ past_guard b → OwnGuarded w (finish_guarded b w)

-- `waitForDoneAlwaysGuarded` for true
abbrev pub OwnOf : Bool → Wait → Wait → Type 0
OwnOf true w v = OwnGuarded w v
OwnOf false w v = Own w v

pub data Reach (is_guarded : Bool) : Wait → Type 0 where
  here : (s : JourneyState) → Reach is_guarded (wait_of s)
  by_others : {w v : Wait} → Reach is_guarded w → Others w v → Reach is_guarded v
  by_own : {w v : Wait} → Reach is_guarded w → OwnOf is_guarded w v → Reach is_guarded v
