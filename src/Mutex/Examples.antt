-- ===== src/Mutex/Examples.antt =====
-- Tests of the mutex, and its theorems at two journeys.
use replob_prototype.Prelude.{◌≡◌, refl, true, false, some, [], ◌∷◌, ◌++◌, length}
use replob_prototype.Journey.{constructed, acquire, raises, cancelled_event, handle_events}
use replob_prototype.Oers.{Journeys, DetachableDoer, detachable_doer, doer_acquire}
use replob_prototype.Mutex.{lock, unlock, wake_first}
use replob_prototype.Mutex.Handover.{cancelled_after, cancelled_handover}
use replob_prototype.Mutex.Exclusion.{System, unused, locked, unlocked, returned, thrown}

abbrev all_parked : Journeys
all_parked = λ j. constructed

-- Journey 1 holds the mutex and journey 2 waits for it.
abbrev taken : System
taken = locked unused 1 (lock 1 all_parked unused.mutex)

abbrev contended : System
contended = locked taken 2 (lock 2 all_parked taken.mutex)

waits_one : length contended.mutex.doers ≡ 1
unfolding lock detachable_doer
waits_one = refl

acquired_one : contended.mutex.acquired ≡ true
unfolding lock
acquired_one = refl

abbrev handed_on : System
handed_on = unlocked contended ([] ++ []) (unlock contended.journeys contended.mutex)

-- The `lock` of journey 2 returns, or throws.
abbrev held_by_two : System
held_by_two = returned handed_on 2 ([] ++ [])

abbrev held_by_nobody : System
held_by_nobody = thrown handed_on ([] ++ [])

two_holds : held_by_two.holders ≡ 2 ∷ []
unfolding lock
two_holds = refl

abbrev second : DetachableDoer
second = detachable_doer 2 all_parked

woken-second : (unlock all_parked contended.mutex).woken ≡ some second
unfolding lock unlock wake_first doer_acquire acquire detachable_doer
woken-second = refl

second_enabled : second.events_enabled ≡ true
unfolding detachable_doer
second_enabled = refl

cancelled_handover_example :
    let after = cancelled_after second (unlock all_parked contended.mutex).journeys in
    ((handle_events (after second.journey)).1 ≡ raises cancelled_event)
    × ((lock 3 after (unlock all_parked contended.mutex).mutex).1 ≡ false)
cancelled_handover_example =
    cancelled_handover all_parked contended.mutex second 3 acquired_one woken-second second_enabled
