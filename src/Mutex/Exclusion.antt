-- ===== src/Mutex/Exclusion.antt =====
-- Journeys that share a mutex: at most one of them holds it, or is handed it, at a time.
use replob_prototype.Prelude.{◌+◌}
use replob_prototype.Prelude.{
  ℕ, ◌≡◌, Bool, false, Option, none, some, List, [], ◌∷◌, ◌++◌, length, if◌then◌else◌,
}
use replob_prototype.Journey.{constructed}
use replob_prototype.Oers.{Journeys, DetachableDoer}
use replob_prototype.Mutex.{Mutex, Unlocked, lock, unlock}

-- `holders` are the journeys whose `lock` has returned and that have not called `unlock` since, `handed` those
-- to which an `unlock` has handed the mutex and whose `lock` has not ended yet, and `abandoned` counts those of
-- them whose `lock` has thrown an event instead.
pub record System : Type 0 where
  pub mutex : Mutex
  pub journeys : Journeys
  pub holders : List ℕ
  pub handed : List ℕ
  pub abandoned : ℕ

abbrev pub unused : System
unused = record {
  mutex = record { acquired = false; doers = [] };
  journeys = λ j. constructed;
  holders = [];
  handed = [];
  abandoned = 0;
}

-- After a `lock` of the journey `j`
abbrev pub locked : System → ℕ → Mutex × Bool → System
locked s j (m, taken) = record s { mutex = m; holders = if taken then j ∷ s.holders else s.holders }

abbrev pub woken_too : Option DetachableDoer → List ℕ → List ℕ
woken_too none js = js
woken_too (some d) js = d.journey ∷ js

-- After an `unlock` that leaves `others` of the holders
abbrev pub unlocked : System → List ℕ → Unlocked → System
unlocked s others u = record {
  mutex = u.mutex;
  journeys = u.journeys;
  holders = others;
  handed = woken_too u.woken s.handed;
  abandoned = s.abandoned;
}

-- The `waitForDone` of `lock` ends for the journey `j`, which leaves `others`.
abbrev pub returned : System → ℕ → List ℕ → System
returned s j others = record s { holders = j ∷ s.holders; handed = others }

abbrev pub thrown : System → List ℕ → System
thrown s others = record s { handed = others; abandoned = s.abandoned + 1 }

-- `elsewhere` is all that the journeys and other threads do to the words, the `releaseAndDone` of an
-- `unlock` included.
pub data Step (s : System) : System → Type 0 where
  locks : (j : ℕ) → Step s (locked s j (lock j s.journeys s.mutex))
  returns :
      (j : ℕ) (before after : List ℕ)
      → s.handed ≡ before ++ j ∷ after
      → Step s (returned s j (before ++ after))
  throws :
      (j : ℕ) (before after : List ℕ)
      → s.handed ≡ before ++ j ∷ after
      → Step s (thrown s (before ++ after))
  unlocks :
      (j : ℕ) (before after : List ℕ)
      → s.holders ≡ before ++ j ∷ after
      → Step s (unlocked s (before ++ after) (unlock s.journeys s.mutex))
  elsewhere : (js : Journeys) → Step s (record s { journeys = js })

pub data Reach : System → Type 0 where
  here : Reach unused
  next : {s t : System} → Reach s → Step s t → Reach t

-- All that keep the mutex from being free
abbrev pub taken_by : System → ℕ
taken_by s = length s.holders + length s.handed + s.abandoned

abbrev Fits : System → Type 0
Fits s =
    (taken_by s ≡ (if s.mutex.acquired then 1 else 0))
    × (s.mutex.acquired ≡ false → s.mutex.doers ≡ [])
