-- ===== src/AnyWait.antt =====
-- `goAnyWait` of src/core.cpp: a journey for each handler, and a caller that goes on when one has ended.
pub mod First
mod Examples
use replob_prototype.Prelude.{
  ℕ, ◌+◌, ◌-◌, ◌%◌, ◌^◌, ◌<◌, ◌≡◌, ◌==◌, Bool, true, false, ltb, if◌then◌else◌, Option, none, some,
  List, [], ◌∷◌, ◌++◌, length, update,
}

-- The variables that the journeys share, the journey that has counted to one and has not yet called
-- `proceed`, and the calls of it. `running` tells which journeys have not ended their handlers, and
-- `finished` are those that ended them without an exception, in order.
pub record AnyWait : Type 0 where
  pub counter : ℕ
  pub index : ℕ
  pub winner : Option ℕ
  pub proceeds : ℕ
  pub running : ℕ → Bool
  pub finished : List ℕ

-- The start for a number of handlers; `index` is -1, as a size_t.
unfoldable pub begun : ℕ → AnyWait
begun n = record {
  counter = 0;
  index = 2 ^ 64 - 1;
  winner = none;
  proceeds = 0;
  running = λ i. ltb i n;
  finished = [];
}

-- `++*counter == 1` of the journey `i`, after its handler; `counter` is an int.
unfoldable pub count_up : ℕ → AnyWait → AnyWait
count_up i s = record s {
  counter = (s.counter + 1) % 2 ^ 32;
  winner = if (s.counter + 1) % 2 ^ 32 == 1 then some i else s.winner;
  running = update s.running i false;
  finished = s.finished ++ i ∷ [];
}

-- what it then does
unfoldable pub proceed : ℕ → AnyWait → AnyWait
proceed i s = record s { index = i; winner = none; proceeds = s.proceeds + 1 }

-- A handler that throws leaves its journey.
unfoldable pub throw : ℕ → AnyWait → AnyWait
throw i s = record s { running = update s.running i false }

-- There are fewer than 2^31 handlers.
pub data Step (s : AnyWait) : AnyWait → Type 0 where
  counts : (i : ℕ) → s.running i ≡ true → length s.finished + 1 < 2 ^ 31 → Step s (count_up i s)
  proceeds : (i : ℕ) → s.winner ≡ some i → Step s (proceed i s)
  throws : (i : ℕ) → s.running i ≡ true → Step s (throw i s)

pub data Reach (n : ℕ) : AnyWait → Type 0 where
  here : Reach n (begun n)
  next : {s t : AnyWait} → Reach n s → Step s t → Reach n t
