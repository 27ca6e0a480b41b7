-- ===== src/Chronos/Assigned.antt =====
-- How the nodes of a Chronos share its slots and its handlers.
use replob_prototype.Prelude.{
  sym, ℕ, ◌≡◌, ◌+◌, ◌≤◌, List, [], ◌∷◌, ◌++◌, arith, ◌⊎◌, inl, inr, none, some, false, true, subst,
  refl, ap, Option-cases,
}
use replob_prototype.Std.Map.{
  lookup, erase, has_key, has_key-erase, has_key-lookup, absent-lookup, erase-IsKeyed,
}
use replob_prototype.Chronos.{
  Chronos, created, remove_element, trigger_awaitings, add_event, schedule_wait, on_node_remove,
  take_due, schedule_events_up_to, on_handler_completed,
}
use replob_prototype.Chronos.Runs.{
  System, Step, adds, removes, schedules, completes, Reach, here, next, occurrences, busy,
}
use replob_prototype.Chronos.Slots.{
  IsShared, IsShared-trigger, occurrences-append, occurrences-remove_element,
}

module _ {H : Type 0} where
  abbrev pub Assigned : Chronos H → Type 0
  Assigned c =
      IsShared (λ i. occurrences i c.available_nodes) c.slots c.running
      × (c.awaiting ≡ [] ⊎ c.slots ≡ [])

  pub IsShared-remove :
      (id : ℕ) (c : Chronos H)
      → IsShared (λ i. occurrences i c.available_nodes) c.slots c.running
      → IsShared
          (λ i. occurrences i (remove_element id c.available_nodes))
          (remove_element id c.slots)
          (erase id c.running)
  IsShared-remove id c s = (
    erase-IsKeyed id c.running s.0,
    λ i.
        let p = s.1 i in
        ground (
          arith,
          p,
          occurrences-remove_element i id c.available_nodes,
          occurrences-remove_element i id c.slots,
          has_key-erase i id c.running,
        ),
  )

  IsShared-remove_free :
      (id : ℕ) (c : Chronos H)
      → has_key id c.running ≡ false
      → IsShared (λ i. occurrences i c.available_nodes) c.slots c.running
      → IsShared
          (λ i. occurrences i (remove_element id c.available_nodes))
          (remove_element id c.slots)
          c.running
  IsShared-remove_free id c f s = (
    s.0,
    λ i.
        let p = s.1 i in
        ground (
          arith,
          p,
          f,
          occurrences-remove_element i id c.available_nodes,
          occurrences-remove_element i id c.slots,
        ),
  )

  pub IsShared-complete :
      (id : ℕ) (c : Chronos H)
      → has_key id c.running ≡ true
      → IsShared (λ i. occurrences i c.available_nodes) c.slots c.running
      → IsShared (λ i. occurrences i c.available_nodes) (c.slots ++ id ∷ []) (erase id c.running)
  IsShared-complete id c f s = (
    erase-IsKeyed id c.running s.0,
    λ i.
        let p = s.1 i in
        ground (arith, p, f, occurrences-append i c.slots (id ∷ []), has_key-erase i id c.running),
  )

  Assigned-trigger :
      (this : ℕ) (c : Chronos H)
      → IsShared (λ i. occurrences i c.available_nodes) c.slots c.running
      → Assigned (trigger_awaitings this c).0
  unfolding trigger_awaitings
  Assigned-trigger this c s =
      let r = IsShared-trigger (λ i. occurrences i c.available_nodes) this c.awaiting c.slots c s in
      (
        subst
            (λ ns.
              IsShared (λ i. occurrences i ns) (trigger_awaitings this c).0.slots
                (trigger_awaitings this c).0.running)
            (sym r.2) r.0,
        r.1,
      )

  -- Without a node that runs nothing, and without one that runs `h`
  abbrev pub left_free : ℕ → Chronos H → Chronos H
  left_free id c = record c {
    available_nodes = remove_element id c.available_nodes;
    slots = remove_element id c.slots;
  }

  abbrev pub left_busy : ℕ → H → Chronos H → Chronos H
  left_busy id h c = record (left_free id c) {
    awaiting = c.awaiting ++ h ∷ [];
    running = erase id c.running;
  }

  pub on_node_remove-free :
      (this id : ℕ) (c : Chronos H)
      → lookup id c.running ≡ none
      → on_node_remove this id c ≡ (left_free id c, [])
  unfolding on_node_remove
  on_node_remove-free this id c n = simp (on_node_remove, n)

  pub on_node_remove-busy :
      (this id : ℕ) (c : Chronos H) (h : H)
      → lookup id c.running ≡ some h
      → on_node_remove this id c ≡ trigger_awaitings this (left_busy id h c)
  unfolding on_node_remove
  on_node_remove-busy this id c h e = simp (on_node_remove, e)

  Assigned-left_free :
      (id : ℕ) (c : Chronos H) → lookup id c.running ≡ none → Assigned c → Assigned (left_free id c)
  unfolding remove_element
  Assigned-left_free id c n a = (
    IsShared-remove_free id c (absent-lookup id c.running n) a.0,
    elim a.1 [ inl w ↦ inl w | inr e ↦ inr (ap (remove_element id) e) ],
  )

  -- A removed node is no longer available.
  pub available-removed :
      (this id : ℕ) (c : Chronos H)
      → Assigned c
      → occurrences id (on_node_remove this id c).0.available_nodes ≡ 0
  unfolding trigger_awaitings
  available-removed this id c a =
      let z = occurrences-remove_element id id c.available_nodes in
      elim (Option-cases (lookup id c.running)) [
        | inl n ↦ rw (on_node_remove-free this id c n) (ground (arith, z))
        | inr (h, e) ↦ rw (on_node_remove-busy this id c h e) (
            let b = left_busy id h c in
            let r =
              IsShared-trigger (λ i. occurrences i b.available_nodes) this b.awaiting b.slots b
                (IsShared-remove id c a.0) in
            rw r.2 (ground (arith, z)))
      ]

  pub Assigned-remove :
      (this id : ℕ) (c : Chronos H) → Assigned c → Assigned (on_node_remove this id c).0
  Assigned-remove this id c a = elim (Option-cases (lookup id c.running)) [
    | inl n ↦ rw (on_node_remove-free this id c n) (Assigned-left_free id c n a)
    | inr (h, e) ↦
        rw (on_node_remove-busy this id c h e)
          (Assigned-trigger this (left_busy id h c) (IsShared-remove id c a.0))
  ]

  Assigned-Step :
      {this : ℕ} {s t : System H} → Step false this s t → Assigned s.chronos → Assigned t.chronos
  unfolding add_event schedule_wait schedule_events_up_to on_handler_completed
  Assigned-Step (adds now later ts h) a = a
  Assigned-Step {this} {s} (removes id) a = Assigned-remove this id s.chronos a
  Assigned-Step {this} {s} (schedules up_to now later) a =
      let r = take_due up_to s.chronos.events s.chronos.awaiting in
      Assigned-trigger this (record s.chronos { events = r.0; awaiting = r.1 }) a.0
  Assigned-Step {this} {s} (completes id h e) a =
      let c = s.chronos in
      Assigned-trigger this (record c { running = erase id c.running; slots = c.slots ++ id ∷ [] })
        (IsShared-complete id c (has_key-lookup id h c.running (e refl)) a.0)

  pub Reach-Assigned :
      {this : ℕ} {nodes : List ℕ} {s : System H}
      → ((i : ℕ) → occurrences i nodes ≤ 1)
      → Reach false this nodes s
      → Assigned s.chronos
  unfolding created has_key
  Reach-Assigned d here = ((tt, λ i. (omega arith, d i)), inl refl)
  Reach-Assigned d (next r p) = Assigned-Step p (Reach-Assigned d r)

-- Under any transactions in a cluster of different nodes, where each completion comes from the node that runs
-- the handler, and so none after the removal of its node: each available node has one slot or runs one handler,
-- every other node has none and runs none, and where a handler waits no node has a slot.
pub assigned_lem :
    {H : Type 0} {this : ℕ} {nodes : List ℕ} {s : System H}
    → ((i : ℕ) → occurrences i nodes ≤ 1)
    → Reach false this nodes s
    → let c = s.chronos in
      ((i : ℕ)
        → (occurrences i c.slots + busy i c.running ≡ occurrences i c.available_nodes)
          × (occurrences i c.available_nodes ≤ 1))
      × (c.awaiting ≡ [] ⊎ c.slots ≡ [])
assigned_lem d r = let a = Reach-Assigned d r in (a.0.1, a.1)
