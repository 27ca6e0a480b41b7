-- ===== src/Journey/Waits/Examples.antt =====
-- Tests of a wait that is cancelled before the operation is over, and the theorems there.
use replob_prototype.Journey.Waits.Always.{IsCareful, wait_always_lem}
use replob_prototype.Journey.Waits.Ends.{wait_always-ends}
use replob_prototype.Prelude.{arith, ◌≡◌, refl, true, false}
use replob_prototype.Journey.{
  Outcome, set_done, add_raise_event, may_proceed, cancelled_event, raises, constructed,
  handle_events, handle_raise_events, reset_done, disable_events, enable_events,
}
use replob_prototype.Journey.Threads.{
  Journey, wake, parked, running, leaving, checking, start, later, resume,
}
use replob_prototype.Journey.Suspend.{
  Suspension, yields, others_raise, loads, proceeds, woken_for_cause,
}
use replob_prototype.Journey.Waits.{
  OwnOf, Wait, ended, wait_of, complete, raise, cancel_under_guard, test_done, test_again,
  leave_guard, finish, completes, raises_event, tests, tests_again, leaves_guard, finishes, Reach,
  here, by_others, by_own,
}
use replob_prototype.Journey.Guards.{guard, end_dtor_guard}

-- The journey is cancelled, cancels the operation, and goes on when it is over.
abbrev asked : Wait
asked = test_again (raise cancelled_event (test_done (wait_of constructed)))

abbrev over : Wait
over = finish (leave_guard true (complete asked))

asked-Reach : Reach false asked
unfolding wait_of test_done raise add_raise_event test_again may_proceed
asked-Reach =
    by_own (by_others (by_own (here constructed) (tests refl)) (raises_event cancelled_event))
      (tests_again refl refl)

over-Reach : Reach false over
unfolding wait_of test_done raise add_raise_event test_again may_proceed cancel_under_guard guard
    disable_events complete set_done leave_guard
over-Reach =
    by_own (by_own (by_others asked-Reach (completes refl)) (leaves_guard true refl refl))
      (finishes refl)

cancelled_at_last : over.stage ≡ ended (raises cancelled_event)
unfolding wait_of test_done raise add_raise_event test_again cancel_under_guard guard disable_events
    complete set_done leave_guard end_dtor_guard enable_events finish handle_events
    handle_raise_events reset_done
cancelled_at_last = refl

wait_always_lem_example : IsCareful over
wait_always_lem_example = wait_always_lem over-Reach

over-stuck : (v : Wait) → OwnOf false over v → ⊥
unfolding finish
over-stuck v (tests e) = cc
over-stuck v (tests_again e m) = cc
over-stuck v (leaves_guard b e m) = cc
over-stuck v (finishes e) = cc

over-completed : over.completed ≡ true
unfolding wait_of test_done raise add_raise_event test_again cancel_under_guard guard disable_events
    complete set_done leave_guard finish
over-completed = refl

wait_always-ends_example : (o : Outcome) × (over.stage ≡ ended o)
wait_always-ends_example = wait_always-ends over-Reach over-completed over-stuck

-- A journey that has yielded is cancelled before it is parked, and is run again.
abbrev first_run : Journey
first_run = record { state = constructed; position = running; scheduled = 0 }

abbrev raised : Journey
raised =
    wake (record first_run { position = leaving }) (add_raise_event cancelled_event constructed)

abbrev woken : Journey
woken = record (record raised { position = checking raised.state }) {
  position = parked;
  scheduled = 1;
}

woken-Suspension : Suspension woken
unfolding add_raise_event may_proceed
woken-Suspension =
    proceeds raised.state
      (loads
        (others_raise cancelled_event (yields {j = first_run} (later start (resume refl)) refl))
        refl)
      refl refl

cancel_wakes : may_proceed woken.state ≡ true
cancel_wakes = woken_for_cause woken-Suspension (omega arith)
