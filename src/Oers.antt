-- ===== src/Oers.antt =====
-- `Doer`, `Goer` and `DetachableDoer` of include/synca/once/oers.h and src/oers.cpp: the handles by which
-- others reach the word of a journey. The words of all journeys are one store, a family of them; a
-- shared pointer to a word is the number of its journey. Each operation that may call `proceed` returns
-- whether it does.
use replob_prototype.Prelude.{
  not, ◌||◌, ◌==◌, if◌then◌else◌, ℕ, Bool, false, Option, none, some, update,
}
use replob_prototype.Journey.{
  JourneyState, Event, acquire, release_and_done, set_done, add_raise_event,
}

abbrev pub Journeys : Type 0
Journeys = ℕ → JourneyState

-- The journey `j` has the word `r.0`.
abbrev pub stored : Journeys → ℕ → JourneyState × Bool → Journeys × Bool
stored js j r = (update js j r.0, r.1)

-- `Doer::done` of the journey `j`
unfoldable pub doer_done : ℕ → Journeys → Journeys × Bool
doer_done j js = stored js j (set_done (js j))

-- `Goer::cancel` and `Goer::timedout`; `none` is a `Goer` without a journey.
unfoldable pub goer_raise : Event → Option ℕ → Journeys → Journeys × Bool
goer_raise e none js = (js, false)
goer_raise e (some j) js = stored js j (add_raise_event e (js j))

pub record DetachableDoer : Type 0 where
  pub journey : ℕ
  pub counter : ℕ
  pub events_enabled : Bool

-- `DetachableDoer::DetachableDoer` in the journey `j`
unfoldable pub detachable_doer : ℕ → Journeys → DetachableDoer
detachable_doer j js = record {
  journey = j;
  counter = (js j).counter;
  events_enabled = (js j).events_enabled;
}

-- `DetachableDoer::acquire`
unfoldable pub doer_acquire : DetachableDoer → Journeys → Journeys × Bool
doer_acquire d js = stored js d.journey (acquire d.counter d.events_enabled (js d.journey))

-- `DetachableDoer::releaseAndDone`
unfoldable pub doer_release_and_done : DetachableDoer → Journeys → Journeys × Bool
doer_release_and_done d js = stored js d.journey (release_and_done d.events_enabled (js d.journey))

-- `DetachableDoer::done`
unfoldable pub detachable_done : DetachableDoer → Journeys → Journeys × Bool
detachable_done d js =
    let (held, ok) = doer_acquire d js in if ok then doer_release_and_done d held else (held, false)

-- A doer is ready where `acquire` succeeds: made with events disabled, or no event has come since.
unfoldable pub is_ready : Journeys → DetachableDoer → Bool
is_ready js d = not d.events_enabled || d.counter == (js d.journey).counter
