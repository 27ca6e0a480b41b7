-- ===== src/Chronos/Detector/Removed.antt =====
-- What the removal of a node by the detector leaves.
use replob_prototype.Prelude.{ℕ, ◌≡◌, ◌+◌, [], true, false, arith, refl}
use replob_prototype.Std.Order.{nat_order}
use replob_prototype.Std.Set.{contains}
use replob_prototype.Std.Map.{erase, has_key, has_key-erase}
use replob_prototype.Node.{Nodes, remove, broadcast_to, other_nodes, remove_node}
use replob_prototype.Node.Config.{contains-other_keys}
use replob_prototype.Chronos.Runs.{occurrences, busy}
use replob_prototype.Chronos.Assigned.{Assigned, Assigned-remove, available-removed}
use replob_prototype.Chronos.{Chronos, on_node_remove}
use replob_prototype.Chronos.Detector.{Process, forget, remove_node_complete}

module _ {H : Type 0} where
  abbrev removed : ℕ → ℕ → Process H → Process H
  removed this id p = record {
    detector = record p.detector { nodes_ts = erase id p.detector.nodes_ts };
    nodes = forget id p.nodes;
    chronos = (on_node_remove this id p.chronos).0;
  }

  remove_node_complete-known :
      (this id : ℕ) (p : Process H)
      → has_key id p.detector.nodes_ts ≡ true
      → remove_node_complete this id p ≡ (removed this id p, (on_node_remove this id p.chronos).1)
  unfolding remove_node_complete
  remove_node_complete-known this id p k = rw (remove_node_complete, k) refl

  remove_node_complete-unknown :
      (this id : ℕ) (p : Process H)
      → has_key id p.detector.nodes_ts ≡ false
      → remove_node_complete this id p ≡ (p, [])
  unfolding remove_node_complete
  remove_node_complete-unknown this id p k = rw (remove_node_complete, k) refl

  nothing-removed :
      (this id : ℕ) (c : Chronos H)
      → Assigned c
      → let d = (on_node_remove this id c).0 in occurrences id d.slots + busy id d.running ≡ 0
  nothing-removed this id c a =
      let b = Assigned-remove this id c a in
      omega (arith, (b.0.1 id).0, available-removed this id c a)

contains-forget : (id : ℕ) (n : Nodes) → contains id (broadcast_to (forget id n)) ≡ false
unfolding broadcast_to other_nodes forget remove_node
contains-forget id n =
    let c = (remove id n).0.config in
    ground
      (arith, contains-other_keys c.this_node id (erase id c.nodes), has_key-erase id id c.nodes)

-- Once a node that the detector knows is removed, it is sent no broadcast, it has no slot and runs no handler
-- in the Chronos, and a second removal changes nothing.
pub remove_node_complete_lem :
    {H : Type 0} (this id : ℕ) (p : Process H)
    → Assigned p.chronos
    → has_key id p.detector.nodes_ts ≡ true
    → let q = (remove_node_complete this id p).0 in
      (contains id (broadcast_to q.nodes) ≡ false)
      × (occurrences id q.chronos.available_nodes ≡ 0)
      × (occurrences id q.chronos.slots + busy id q.chronos.running ≡ 0)
      × (remove_node_complete this id q ≡ (q, []))
remove_node_complete_lem this id p a k = rw (remove_node_complete-known this id p k) (
  contains-forget id p.nodes,
  available-removed this id p.chronos a,
  nothing-removed this id p.chronos a,
  remove_node_complete-unknown this id (removed this id p)
      (ground (arith, has_key-erase id id p.detector.nodes_ts)),
)
