-- ===== src/Chronos/Runs.antt =====
-- A Chronos under any transactions of the log, with the handlers it was given and those completed.
use replob_prototype.Prelude.{Bool, false, ℕ, ◌≡◌, ◌+◌, ◌==◌, if◌then◌else◌, some, List, [], ◌∷◌}
use replob_prototype.Std.Map.{lookup, has_key}
use replob_prototype.Chronos.{
  Event, Chronos, created, add_event, on_node_remove, schedule_events_up_to, on_handler_completed,
}

pub record System (H : Type 0) : Type 0 where
  pub chronos : Chronos H
  pub given : List H
  pub completed : List H

abbrev pub initial : {H : Type 0} → List ℕ → System H
initial nodes = record { chronos = created nodes; given = []; completed = [] }

-- The code takes a completion of whatever node: one that comes after the removal of its node is a step where
-- `late` is true only. Where it is false, a handler completes at the node where it runs.
pub data Step {H : Type 0} (late : Bool) (this_node : ℕ) (s : System H) : System H → Type 0 where
  adds :
      (now later ts : ℕ) (h : H)
      → Step late this_node s
          (record s { chronos = (add_event now later ts h s.chronos).0; given = h ∷ s.given })
  removes :
      (id : ℕ)
      → Step late this_node s (record s { chronos = (on_node_remove this_node id s.chronos).0 })
  schedules :
      (up_to now later : ℕ)
      → Step late this_node s
          (record s { chronos = (schedule_events_up_to this_node up_to now later s.chronos).0 })
  completes :
      (id : ℕ) (h : H)
      → (late ≡ false → lookup id s.chronos.running ≡ some h)
      → Step late this_node s (record s {
        chronos = (on_handler_completed this_node id s.chronos).0;
        completed = h ∷ s.completed;
      })

pub data Reach {H : Type 0} (late : Bool) (this_node : ℕ) (nodes : List ℕ) : System H → Type 0 where
  here : Reach late this_node nodes (initial nodes)
  next :
      {s t : System H}
      → Reach late this_node nodes s
      → Step late this_node s t
      → Reach late this_node nodes t

-- How often a node stands in a list, and whether it runs a handler
abbrev pub occurrences : ℕ → List ℕ → ℕ
occurrences i [] = 0
occurrences i (x ∷ xs) = if x == i then 1 + occurrences i xs else occurrences i xs

abbrev pub busy : {H : Type 0} → ℕ → List (ℕ × H) → ℕ
busy i m = if has_key i m then 1 else 0

-- The sums of `w` over handlers, over those of events, and over all of a Chronos
module _ {H : Type 0} where
  abbrev pub sum_of : (H → ℕ) → List H → ℕ
  sum_of w [] = 0
  sum_of w (h ∷ hs) = w h + sum_of w hs

  abbrev pub sum_of_events : (H → ℕ) → List (Event H) → ℕ
  sum_of_events w [] = 0
  sum_of_events w (e ∷ es) = w e.h + sum_of_events w es
