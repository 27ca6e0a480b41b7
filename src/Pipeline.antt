-- ===== src/Pipeline.antt =====
-- `piping` and its three kinds (include/synca/once/data.h): journeys that take values from one channel, and put
-- what they make of them into another, which each of them closes when it ends. The source is the values that
-- stand in it and those that a `put` has handed to a waiting `get`; what others do to the target is a step of its own.
pub mod Fits
pub mod Single
pub mod Loss
mod Examples
use replob_prototype.Prelude.{
  ℕ, ◌≡◌, Bool, true, false, ltb, if◌then◌else◌, Option, none, some, List, [], ◌∷◌, ◌++◌, update,
}
use replob_prototype.Oers.{Journeys}
use replob_prototype.Channel.{Channel, put, close}

-- What the handlers of the three kinds put for a value; an exception is logged and the loop goes on. `none` of
-- `one_to_one` and of `one_to_zero_or_one` is an exception, and `some none` of the latter an empty result.
unfoldable pub one_to_one : {T U : Type 0} → (T → Option U) → T → List U
one_to_one f v = elim (f v) [ none ↦ [] | some u ↦ u ∷ [] ]

unfoldable pub one_to_zero_or_one : {T U : Type 0} → (T → Option (Option U)) → T → List U
one_to_zero_or_one f v = elim (f v) [ none ↦ [] | some none ↦ [] | some (some u) ↦ u ∷ [] ]

unfoldable pub one_to_many : {T U : Type 0} → (T → List U) → T → List U
one_to_many f v = f v

-- Where a journey stands: it gets the next value, it has these to put, or it has ended.
pub data Position (U : Type 0) : Type 0 where
  getting : Position U
  putting : List U → Position U
  ended : Position U

-- `fed` are the values that were put into the source, `taken` those got from it, `handed` what a `put` has handed to
-- the waiting `get` of a journey, `dropped` those handed to a `get` that an event then ended, `given` those that were
-- put into the target and `lost` those whose `put` would have had to come after one that threw or threw itself.
pub record Pipes (T U : Type 0) : Type 0 where
  pub fed : List T
  pub source : List T
  pub source_closed : Bool
  pub taken : List T
  pub handed : ℕ → Option T
  pub dropped : List T
  pub journeys : ℕ → Position U
  pub target : Channel U
  pub given : List U
  pub lost : List U

-- What stands in a place for one value
abbrev pub values_of : {T : Type 0} → Option T → List T
values_of none = []
values_of (some v) = v ∷ []

-- `piping` with `n` journeys
unfoldable pub piped : {T U : Type 0} → ℕ → Pipes T U
piped n = record {
  fed = [];
  source = [];
  source_closed = false;
  taken = [];
  handed = λ j. none;
  dropped = [];
  journeys = λ j. if ltb j n then getting else ended;
  target = record { queue = []; waiters = []; closed = false };
  given = [];
  lost = [];
}

module _ {T U : Type 0} (body : T → List U) where
  -- The journey `j` gets `v`, after which `vs` are left.
  unfoldable pub got : ℕ → T → List T → Pipes T U → Pipes T U
  got j v vs s = record s {
    source = vs;
    taken = s.taken ++ v ∷ [];
    journeys = update s.journeys j (putting (body v));
  }

  -- The `get` of the journey `j` returns the value `v` that was handed to it.
  unfoldable pub got_handed : ℕ → T → Pipes T U → Pipes T U
  got_handed j v s = record s {
    handed = update s.handed j none;
    taken = s.taken ++ v ∷ [];
    journeys = update s.journeys j (putting (body v));
  }

module _ {T U : Type 0} where
  -- It puts `u`, and `us` are left to put; `put` throws where the target is closed.
  unfoldable pub put_next : Journeys → ℕ → U → List U → Pipes T U → Pipes T U
  put_next js j u us s = elim (put u js s.target) [
    | none ↦ record s { journeys = update s.journeys j getting; lost = s.lost ++ u ∷ us }
    | some r ↦ record s {
      journeys = update s.journeys j (putting us);
      target = r.channel;
      given = s.given ++ u ∷ [];
    }
  ]

  -- It has put all.
  unfoldable pub put_all : ℕ → Pipes T U → Pipes T U
  put_all j s = record s { journeys = update s.journeys j getting }

  -- It ends, and the destructor of `Closer` closes the target.
  unfoldable pub end : Journeys → ℕ → Pipes T U → Pipes T U
  end js j s = record s { journeys = update s.journeys j ended; target = (close js s.target).0 }

  -- A put into the source that hands its value to the waiting `get` of the journey `j`
  unfoldable pub hand : ℕ → T → Pipes T U → Pipes T U
  hand j v s = record s { fed = s.fed ++ v ∷ []; handed = update s.handed j (some v) }

  -- An event ends a `get` to which nothing, or this value, was handed, and with it the journey.
  unfoldable pub interrupt : Journeys → ℕ → Pipes T U → Pipes T U
  interrupt js j s =
      let t = end js j s in
      record t { dropped = s.dropped ++ values_of (s.handed j); handed = update s.handed j none }

  -- A put into the source where no `get` waits
  unfoldable pub feed : T → Pipes T U → Pipes T U
  feed v s = record s { fed = s.fed ++ v ∷ []; source = s.source ++ v ∷ [] }

pub data Step {T U : Type 0} (body : T → List U) (s : Pipes T U) : Pipes T U → Type 0 where
  feeds : (v : T) → s.source_closed ≡ false → Step body s (feed v s)
  -- The journey waits in `get`, where the source is empty and nothing has been handed to it.
  hands :
      (j : ℕ) (v : T)
      → s.source_closed ≡ false
      → s.journeys j ≡ getting
      → s.source ≡ []
      → s.handed j ≡ none
      → Step body s (hand j v s)
  closes : Step body s (record s { source_closed = true })
  gets :
      (j : ℕ) (v : T) (vs : List T)
      → s.journeys j ≡ getting
      → s.handed j ≡ none
      → s.source ≡ v ∷ vs
      → Step body s (got body j v vs s)
  gets_handed :
      (j : ℕ) (v : T)
      → s.journeys j ≡ getting
      → s.handed j ≡ some v
      → Step body s (got_handed body j v s)
  puts :
      (js : Journeys) (j : ℕ) (u : U) (us : List U)
      → s.journeys j ≡ putting (u ∷ us)
      → Step body s (put_next js j u us s)
  goes_on : (j : ℕ) → s.journeys j ≡ putting [] → Step body s (put_all j s)
  ends :
      (js : Journeys) (j : ℕ)
      → s.journeys j ≡ getting
      → s.handed j ≡ none
      → s.source ≡ []
      → s.source_closed ≡ true
      → Step body s (end js j s)
  -- `get` throws an event.
  interrupts : (js : Journeys) (j : ℕ) → s.journeys j ≡ getting → Step body s (interrupt js j s)
  -- Others get values from the target, which they neither open nor close.
  elsewhere : (c : Channel U) → c.closed ≡ s.target.closed → Step body s (record s { target = c })

pub data Reach {T U : Type 0} (body : T → List U) (n : ℕ) : Pipes T U → Type 0 where
  here : Reach body n (piped n)
  next : {s t : Pipes T U} → Reach body n s → Step body s t → Reach body n t
