-- ===== src/Channel.antt =====
-- `Channel<T>` of include/synca/channel.h with `Queue<T>` of include/synca/common.h. A call runs under a
-- thread mutex and is one step, up to the point where it gives that up; `set_waiter` is what `put` then
-- does. The cells are the two variables `val` and `wasSet` in the frame of each journey that waits in
-- `get`: empty until `wasSet` is true.
pub mod Order
pub mod Closing
mod Examples
use replob_prototype.Prelude.{
  ℕ, Bool, true, false, Option, none, some, List, [], ◌∷◌, ◌++◌, if◌then◌else◌, update,
}
use replob_prototype.Oers.{
  Journeys, DetachableDoer, detachable_doer, doer_acquire, doer_release_and_done, detachable_done,
}

pub record Channel (T : Type 0) : Type 0 where
  pub queue : List T
  pub waiters : List DetachableDoer
  pub closed : Bool

-- What `put` leaves when it gives up the thread mutex, and the waiter that it then sets.
pub record Sent (T : Type 0) : Type 0 where
  pub channel : Channel T
  pub journeys : Journeys
  pub handed : Option DetachableDoer

-- How `get` ends: it returns true with a value, or false, or it goes on to `waitForDone`.
pub data Received (T : Type 0) : Type 0 where
  took : T → Received T
  finished waits : Received T

-- the loop of `close`: `Waiter::reset` of each
unfoldable pub reset_all : List DetachableDoer → Journeys → Journeys
reset_all [] js = js
reset_all (d ∷ ds) js = reset_all ds (detachable_done d js).0

module _ {T : Type 0} where
  -- the loop of `put` and what follows it
  unfoldable pub hand_first : T → Journeys → Channel T → List DetachableDoer → Sent T
  hand_first v js c [] = record {
    channel = record c { queue = c.queue ++ v ∷ []; waiters = [] };
    journeys = js;
    handed = none;
  }
  hand_first v js c (d ∷ ds) =
      let (held, ok) = doer_acquire d js in
      let rest = hand_first v held c ds in
      if ok
      then record { channel = record c { waiters = ds }; journeys = held; handed = some d }
      else rest

  -- `put`; `none` is the failed `VERIFY`.
  unfoldable pub put : T → Journeys → Channel T → Option (Sent T)
  put v js c = if c.closed then none else some (hand_first v js c c.waiters)

  -- `Waiter::set`
  unfoldable pub set_waiter :
      T → DetachableDoer → (ℕ → Option T) → Journeys → (ℕ → Option T) × (Journeys × Bool)
  set_waiter v d cells js = (update cells d.journey (some v), doer_release_and_done d js)

  -- `get` where no value is queued
  unfoldable pub get_none : ℕ → Journeys → Channel T → Channel T × Received T
  get_none j js c =
      if c.closed
      then (c, finished)
      else (record c { waiters = c.waiters ++ detachable_doer j js ∷ [] }, waits)

  -- `get` in the journey `j`
  unfoldable pub get : ℕ → Journeys → Channel T → Channel T × Received T
  get j js c = elim c.queue [ [] ↦ get_none j js c | v ∷ vs ↦ (record c { queue = vs }, took v) ]

  unfoldable pub open_channel : Channel T → Channel T
  open_channel c = record c { closed = false }

  unfoldable pub close : Journeys → Channel T → Channel T × Journeys
  close js c =
      if c.closed
      then (c, js)
      else (record c { closed = true; waiters = [] }, reset_all c.waiters js)
