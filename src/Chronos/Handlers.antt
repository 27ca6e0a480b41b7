-- ===== src/Chronos/Handlers.antt =====
-- What becomes of the handlers that a Chronos is given.
use replob_prototype.Prelude.{false}
use replob_prototype.Prelude.{
  ap, ℕ, ◌≡◌, ◌+◌, ◌≤◌, List, [], ◌∷◌, ◌++◌, arith, inl, inr, refl, Option-cases,
}
use replob_prototype.Std.Map.{lookup, erase, total, total-erase, has_key-lookup}
use replob_prototype.Chronos.{
  Event, Chronos, created, push_event, trigger_awaitings, add_event, schedule_wait, on_node_remove,
  take_due, schedule_events_up_to, on_handler_completed,
}
use replob_prototype.Chronos.Runs.{
  System, Step, adds, removes, schedules, completes, Reach, here, next, occurrences, sum_of,
  sum_of_events,
}
use replob_prototype.Chronos.Slots.{IsShared, IsShared-trigger, sum-trigger}
use replob_prototype.Chronos.Assigned.{
  left_busy, on_node_remove-free, on_node_remove-busy, Assigned, Reach-Assigned, IsShared-remove,
  IsShared-complete,
}

module _ {H : Type 0} (w : H → ℕ) where
  -- The sum of `w` over the handlers that have not completed
  abbrev pub sum_pending : Chronos H → ℕ
  sum_pending c = sum_of_events w c.events + (sum_of w c.awaiting + total w c.running)

  sum-append : (xs : List H) (h : H) → sum_of w (xs ++ h ∷ []) ≡ sum_of w xs + w h
  sum-append [] h = omega arith
  sum-append (x ∷ xs) h = omega (arith, sum-append xs h)

  sum-push_event :
      (e : Event H) (es : List (Event H))
      → sum_of_events w (push_event e es) ≡ sum_of_events w es + w e.h
  unfolding push_event
  sum-push_event e [] = omega arith
  sum-push_event e (x ∷ es) = ground (arith, sum-push_event e es)

  sum-take_due :
      (up_to : ℕ) (es : List (Event H)) (hs : List H)
      → let r = take_due up_to es hs in
        sum_of_events w r.0 + sum_of w r.1 ≡ sum_of_events w es + sum_of w hs
  unfolding take_due
  sum-take_due up_to [] hs = refl
  sum-take_due up_to (e ∷ es) hs =
      ground (arith, sum-take_due up_to es (hs ++ e.h ∷ []), sum-append hs e.h)

  sum-trigger_awaitings :
      (this : ℕ) (c : Chronos H)
      → IsShared (λ i. occurrences i c.available_nodes) c.slots c.running
      → sum_pending (trigger_awaitings this c).0 ≡ sum_pending c
  unfolding trigger_awaitings
  sum-trigger_awaitings this c s =
      let r = IsShared-trigger (λ i. occurrences i c.available_nodes) this c.awaiting c.slots c s in
      omega (
        arith,
        ap (sum_of_events w) r.3,
        sum-trigger w (λ i. occurrences i c.available_nodes) this c.awaiting c.slots c s,
      )

  sum-remove :
      (this id : ℕ) (c : Chronos H)
      → Assigned c
      → sum_pending (on_node_remove this id c).0 ≡ sum_pending c
  sum-remove this id c a = elim (Option-cases (lookup id c.running)) [
    | inl n ↦ rw (on_node_remove-free this id c n) refl
    | inr (h, e) ↦ rw (on_node_remove-busy this id c h e) (
        omega (
          arith,
          sum-trigger_awaitings this (left_busy id h c) (IsShared-remove id c a.0),
          sum-append c.awaiting h,
          total-erase w id h c.running a.0.0 e,
        ))
  ]

  sum-Step :
      {this : ℕ} {s t : System H}
      → Step false this s t
      → Assigned s.chronos
      → sum_of w s.given ≡ sum_of w s.completed + sum_pending s.chronos
      → sum_of w t.given ≡ sum_of w t.completed + sum_pending t.chronos
  unfolding add_event schedule_wait schedule_events_up_to on_handler_completed
  sum-Step {this} {s} (adds now later ts h) a f =
      omega (arith, f, sum-push_event (record { ts = ts; h = h }) s.chronos.events)
  sum-Step {this} {s} (removes id) a f = omega (arith, f, sum-remove this id s.chronos a)
  sum-Step {this} {s} (schedules up_to now later) a f =
      let c = s.chronos in
      let r = take_due up_to c.events c.awaiting in
      omega (
        arith,
        f,
        sum-take_due up_to c.events c.awaiting,
        sum-trigger_awaitings this (record c { events = r.0; awaiting = r.1 }) a.0,
      )
  sum-Step {this} {s} (completes id h e) a f =
      let c = s.chronos in
      omega (
        arith,
        f,
        total-erase w id h c.running a.0.0 (e refl),
        sum-trigger_awaitings this
            (record c { running = erase id c.running; slots = c.slots ++ id ∷ [] })
            (IsShared-complete id c (has_key-lookup id h c.running (e refl)) a.0),
      )

-- Under any transactions in a cluster of different nodes, where each completion comes from the node that runs
-- the handler, and so none after the removal of its node: whatever a handler counts for, the handlers that were
-- given count for as much as those that completed and those that are scheduled, wait or run.
pub handlers_kept :
    {H : Type 0} {this : ℕ} {nodes : List ℕ} {s : System H}
    → ((i : ℕ) → occurrences i nodes ≤ 1)
    → Reach false this nodes s
    → (w : H → ℕ) → sum_of w s.given ≡ sum_of w s.completed + sum_pending w s.chronos
unfolding created
handlers_kept d here w = refl
handlers_kept d (next r p) w = sum-Step w p (Reach-Assigned d r) (handlers_kept d r w)
