-- ===== src/AnyResult.antt =====
-- `goAnyResult` of include/synca/once/core.h: a journey for each handler, and a caller that goes on with the
-- first value that one of them gives, or with none when the last reference to the shared `Counter` is gone.
pub mod Answer
mod Examples
use replob_prototype.Prelude.{
  ℕ, ◌+◌, ◌-◌, ◌%◌, ◌^◌, ◌<◌, ◌≡◌, ◌==◌, Bool, true, false, if◌then◌else◌, Option, none, some,
}

-- `running` journeys are in their handlers; `winner` is the value of the one that has counted to one and is to
-- proceed, and `starting` tells whether the caller still starts journeys. Each of these holds a reference to
-- the `Counter`. `first` is the first value that came to the counter.
pub record AnyResult (R : Type 0) : Type 0 where
  pub counter : ℕ
  pub running : ℕ
  pub winner : Option R
  pub starting : Bool
  pub destroyed : Bool
  pub result : Option R
  pub proceeds : ℕ
  pub first : Option R

-- `goAnyResult` with this many handlers
unfoldable pub any_started : {R : Type 0} → ℕ → AnyResult R
any_started n = record {
  counter = 0;
  running = n;
  winner = none;
  starting = true;
  destroyed = false;
  result = none;
  proceeds = 0;
  first = none;
}

-- `++counter == 1`, where `counter` is an int
abbrev pub counts_to_one : ℕ → Bool
counts_to_one c = (c + 1) % 2 ^ 32 == 1

module _ {R : Type 0} where
  -- A handler has given a value, in `tryProceed` up to the call of `proceed`.
  unfoldable pub give : R → AnyResult R → AnyResult R
  give r s = record s {
    counter = (s.counter + 1) % 2 ^ 32;
    running = s.running - 1;
    winner = if counts_to_one s.counter then some r else s.winner;
    first = if counts_to_one s.counter then some r else s.first;
  }

  -- A handler has given none, or has thrown.
  unfoldable pub give_none : AnyResult R → AnyResult R
  give_none s = record s { running = s.running - 1 }

  -- The call of `proceed` with the value
  unfoldable pub proceed_with : R → AnyResult R → AnyResult R
  proceed_with r s = record s { winner = none; result = some r; proceeds = s.proceeds + 1 }

  unfoldable pub all_started : AnyResult R → AnyResult R
  all_started s = record s { starting = false }

  -- `~Counter`
  unfoldable pub destroy : AnyResult R → AnyResult R
  destroy s = record s {
    counter = (s.counter + 1) % 2 ^ 32;
    destroyed = true;
    result = if counts_to_one s.counter then none else s.result;
    proceeds = if counts_to_one s.counter then s.proceeds + 1 else s.proceeds;
  }

pub data Step {R : Type 0} (s : AnyResult R) : AnyResult R → Type 0 where
  gives : (r : R) → 0 < s.running → Step s (give r s)
  gives_none : 0 < s.running → Step s (give_none s)
  proceeds : (r : R) → s.winner ≡ some r → Step s (proceed_with r s)
  starts_all : s.starting ≡ true → Step s (all_started s)
  -- The last reference is gone.
  destroys :
      s.running ≡ 0
      → s.winner ≡ none
      → s.starting ≡ false
      → s.destroyed ≡ false
      → Step s (destroy s)

-- There are fewer than 2^31 handlers.
pub data Reach {R : Type 0} (n : ℕ) : AnyResult R → Type 0 where
  here : n < 2 ^ 31 → Reach n (any_started n)
  next : {s t : AnyResult R} → Reach n s → Step s t → Reach n t
