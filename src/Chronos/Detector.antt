-- ===== src/Chronos/Detector.antt =====
-- `struct Detector` of examples/chronos.cpp, which removes nodes that have been silent, with the parts of a
-- process that a removal changes. Times are nanoseconds of the clock.
use replob_prototype.Prelude.{
  ℕ, ◌-◌, ◌*◌, ◌^◌, ◌==◌, ltb, not, if◌then◌else◌, Option, some, none, List, [], ◌∷◌, ◌++◌,
}
use replob_prototype.Std.Map.{lookup, insert_or_assign, erase, has_key}
use replob_prototype.Node.{Nodes, NodesConfig, other_nodes, remove, remove_node}
use replob_prototype.Chronos.{Chronos, Action, on_node_remove}
pub mod Silence
pub mod Removed

pub record Detector : Type 0 where
  -- the milliseconds that the armed timer waits
  pub timer : Option ℕ
  pub nodes_ts : List (ℕ × ℕ)

-- What a method asks of others, in its order
pub data Request : Type 0 where
  broadcast_update : ℕ → Request
  apply_removal : ℕ → Request

-- the loop of `Detector::Detector`
unfoldable pub stamped : ℕ → List ℕ → List (ℕ × ℕ) → List (ℕ × ℕ)
stamped now [] m = m
stamped now (n ∷ ns) m = stamped now ns (insert_or_assign n now m)

-- `Detector::Detector`
unfoldable pub detector : ℕ → NodesConfig → Detector
detector now c = record { timer = none; nodes_ts = stamped now (other_nodes c) [] }

-- `start`
unfoldable pub start : Detector → Detector
start d = record d { timer = some 500 }

-- `update`
unfoldable pub update : ℕ → ℕ → Detector → Detector
update now id d = record d { nodes_ts = insert_or_assign id now d.nodes_ts }

-- the first loop of `check`
unfoldable pub to_remove : ℕ → List (ℕ × ℕ) → List ℕ
to_remove now [] = []
to_remove now ((id, ts) ∷ m) =
    let rest = to_remove now m in if ltb (3 * 10 ^ 9) (now - ts) then id ∷ rest else rest

-- `removeNode`
unfoldable pub request_removal : ℕ → Detector → List Request
request_removal id d = if not (has_key id d.nodes_ts) then [] else apply_removal id ∷ []

-- the second loop of `check`
unfoldable pub request_removals : List ℕ → Detector → List Request
request_removals [] d = []
request_removals (n ∷ ns) d = request_removal n d ++ request_removals ns d

-- `check`
unfoldable pub check : ℕ → Detector → List Request
check now d = request_removals (to_remove now d.nodes_ts) d

-- `pulse`; the timer is armed again at its end.
unfoldable pub pulse : ℕ → ℕ → Detector → Detector × List Request
pulse now this_node d = (start d, broadcast_update this_node ∷ check now d)

-- `single<Detector>()`, `single<Nodes>()` with `single<NodesConfig>()`, and `single<Chronos>()`
pub record Process (H : Type 0) : Type 0 where
  pub detector : Detector
  pub nodes : Nodes
  pub chronos : Chronos H

-- `Nodes::remove` and `NodesConfig::removeNode`, as `removeNodeComplete` calls them
unfoldable pub forget : ℕ → Nodes → Nodes
forget id n = let m = (remove id n).0 in record m { config = (remove_node id m.config).0 }

-- `removeNodeComplete`
unfoldable pub remove_node_complete : {H : Type 0} → ℕ → ℕ → Process H → Process H × List (Action H)
remove_node_complete this_node id p =
    let (c, acts) = on_node_remove this_node id p.chronos in
    if not (has_key id p.detector.nodes_ts) then (p, []) else (
      record {
        detector = record p.detector { nodes_ts = erase id p.detector.nodes_ts };
        nodes = forget id p.nodes;
        chronos = c;
      },
      acts,
    )
