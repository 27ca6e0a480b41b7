-- ===== src/Chronos/Late.antt =====
-- A handler that completes after its node was removed.
use replob_prototype.Prelude.{false}
use replob_prototype.Prelude.{ℕ, ◌≡◌, ◌+◌, ◌≤◌, ◌==◌, if◌then◌else◌, List, [], ◌∷◌, ◌++◌, arith}
use replob_prototype.Std.Map.{erase, has_key-erase, erase-IsKeyed}
use replob_prototype.Chronos.{Chronos, on_node_remove, on_handler_completed, trigger_awaitings}
use replob_prototype.Chronos.Runs.{System, Reach, occurrences, busy}
use replob_prototype.Chronos.Slots.{IsShared, IsShared-trigger, occurrences-append}
use replob_prototype.Chronos.Assigned.{Assigned, Reach-Assigned, Assigned-remove, available-removed}

module _ {H : Type 0} where
  IsShared-late :
      (id : ℕ) (c : Chronos H)
      → Assigned c
      → occurrences id c.available_nodes ≡ 0
      → IsShared
          (λ i. if id == i then 1 else occurrences i c.available_nodes)
          (c.slots ++ id ∷ [])
          (erase id c.running)
  IsShared-late id c a z = (
    erase-IsKeyed id c.running a.0.0,
    λ i.
        let p = a.0.1 i in
        let q = a.0.1 id in
        ground
          (arith, p, q, z, occurrences-append i c.slots (id ∷ []), has_key-erase i id c.running),
  )

  -- A node without a slot and a handler gets a slot, or another handler.
  completed-absent :
      (this id : ℕ) (c : Chronos H)
      → Assigned c
      → occurrences id c.available_nodes ≡ 0
      → let d = (on_handler_completed this id c).0 in
        (occurrences id d.available_nodes ≡ 0) × (occurrences id d.slots + busy id d.running ≡ 1)
  unfolding on_handler_completed trigger_awaitings
  completed-absent this id c a z =
      let b = record c { running = erase id c.running; slots = c.slots ++ id ∷ [] } in
      let r =
        IsShared-trigger (λ i. if id == i then 1 else occurrences i c.available_nodes) this
          c.awaiting b.slots b (IsShared-late id c a z) in
      let p = r.0.1 id in (rw r.2 z, ground (arith, p))

-- After transactions in a cluster of different nodes, where each completion comes from the node that runs
-- the handler, a completion that comes after the removal of its node, as it can when the removal is
-- committed first, gives the removed node a slot again, or the next waiting handler.
pub late_completion :
    {H : Type 0} {this : ℕ} {nodes : List ℕ} {s : System H} (id : ℕ)
    → ((i : ℕ) → occurrences i nodes ≤ 1)
    → Reach false this nodes s
    → let removed = (on_node_remove this id s.chronos).0 in
      let d = (on_handler_completed this id removed).0 in
      (occurrences id removed.available_nodes ≡ 0)
      × (occurrences id d.available_nodes ≡ 0)
      × (occurrences id d.slots + busy id d.running ≡ 1)
late_completion {this} {s} id n r =
    let a = Reach-Assigned n r in
    let z = available-removed this id s.chronos a in
    let q =
      completed-absent this id (on_node_remove this id s.chronos).0
        (Assigned-remove this id s.chronos a) z in
    (z, q.0, q.1)
