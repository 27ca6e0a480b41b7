-- ===== src/Mutex.antt =====
-- `Mutex::Impl` of src/mutex.cpp: the mutex that journeys wait for. A call of `lock` or `unlock` runs
-- under a thread mutex and is one step; the `releaseAndDone` at the end of `unlock` comes after it.
use replob_prototype.Prelude.{if◌then◌else◌}
pub mod Handover
pub mod Exclusion
mod Examples
use replob_prototype.Prelude.{ℕ, Bool, true, false, Option, none, some, List, [], ◌∷◌, ◌++◌}
use replob_prototype.Oers.{Journeys, DetachableDoer, detachable_doer, doer_acquire}

pub record Mutex : Type 0 where
  pub acquired : Bool
  pub doers : List DetachableDoer

-- `lock` in the journey `j`, with whether it returns at once; otherwise it goes on to `waitForDone`.
unfoldable pub lock : ℕ → Journeys → Mutex → Mutex × Bool
lock j js m =
    if m.acquired
    then (record m { doers = m.doers ++ detachable_doer j js ∷ [] }, false)
    else (record m { acquired = true }, true)

-- What `unlock` leaves when it gives up the thread mutex, and the doer that it then releases.
pub record Unlocked : Type 0 where
  pub mutex : Mutex
  pub journeys : Journeys
  pub woken : Option DetachableDoer

-- The loop of `unlock` and what follows it. `acquired` is the field that a successful round keeps.
unfoldable pub wake_first : Bool → Journeys → List DetachableDoer → Unlocked
wake_first acquired js [] = record {
  mutex = record { acquired = false; doers = [] };
  journeys = js;
  woken = none;
}
wake_first acquired js (d ∷ ds) =
    let (held, ok) = doer_acquire d js in
    let rest = wake_first acquired held ds in
    if ok
    then record {
      mutex = record { acquired = acquired; doers = ds };
      journeys = held;
      woken = some d;
    }
    else rest

unfoldable pub unlock : Journeys → Mutex → Unlocked
unlock js m = wake_first m.acquired js m.doers
