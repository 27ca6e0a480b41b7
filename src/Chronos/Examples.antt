-- ===== src/Chronos/Examples.antt =====
-- Tests of the scheduler at node 1 of two nodes, with numbers for handlers, and its theorems there.
use replob_prototype.Prelude.{
  ℕ, ◌≡◌, ◌+◌, ◌≤◌, ◌*◌, ◌^◌, ◌⊎◌, List, [], ◌∷◌, arith, some, none, refl, false,
}
use replob_prototype.Std.Order.{nat_order}
use replob_prototype.Std.Set.{contains}
use replob_prototype.Std.Map.{lookup, insert_or_assign, erase, has_key}
use replob_prototype.Node.{Endpoint, v4, add, broadcast_to}
use replob_prototype.Chronos.{
  created, remove_element, push_event, schedule_events, schedule_wait_for, schedule_wait, add_event,
  execute_handler, trigger, trigger_awaitings, on_node_remove, take_due, schedule_events_up_to,
  on_handler_completed,
}
use replob_prototype.Chronos.Runs.{
  System, Reach, initial, adds, removes, schedules, completes, here, next, occurrences, busy,
  sum_of,
}
use replob_prototype.Chronos.Assigned.{assigned_lem, Reach-Assigned}
use replob_prototype.Chronos.Handlers.{sum_pending, handlers_kept}
use replob_prototype.Chronos.Late.{late_completion}
use replob_prototype.Chronos.Detector.{
  Detector, Process, to_remove, check, request_removal, request_removals, apply_removal,
  remove_node_complete,
}
use replob_prototype.Chronos.Detector.Removed.{remove_node_complete_lem}

abbrev two_nodes : List ℕ
two_nodes = 1 ∷ 2 ∷ []

two_nodes-differ : (i : ℕ) → occurrences i two_nodes ≤ 1
two_nodes-differ i = ground arith

abbrev with_event : ℕ → ℕ → System ℕ → System ℕ
with_event ts h s = record s { chronos = (add_event 0 0 ts h s.chronos).0; given = h ∷ s.given }

abbrev at_time : ℕ → System ℕ → System ℕ
at_time now s = record s { chronos = (schedule_events_up_to 1 now now now s.chronos).0 }

-- The events at 30, 10 and 20 come due: 7 runs at node 1, 8 at node 2, and 9 waits.
abbrev three_given : System ℕ
three_given = with_event 20 8 (with_event 10 7 (with_event 30 9 (initial two_nodes)))

abbrev all_due : System ℕ
all_due = at_time 40 three_given

abbrev without_two : System ℕ
without_two = record all_due { chronos = (on_node_remove 1 2 all_due.chronos).0 }

abbrev one_completed : System ℕ
one_completed = record without_two {
  chronos = (on_handler_completed 1 1 without_two.chronos).0;
  completed = 7 ∷ [];
}

ran :
    (all_due.chronos.running ≡ (1, 7) ∷ (2, 8) ∷ [])
    × (all_due.chronos.awaiting ≡ 9 ∷ [])
    × (without_two.chronos.awaiting ≡ 9 ∷ 8 ∷ [])
    × (one_completed.chronos.running ≡ (1, 9) ∷ [])
    × (one_completed.chronos.awaiting ≡ 8 ∷ [])
unfolding created add_event push_event schedule_events schedule_wait schedule_wait_for
    schedule_events_up_to take_due trigger_awaitings trigger execute_handler on_node_remove
    on_handler_completed remove_element lookup insert_or_assign erase
ran = (refl, refl, refl, refl, refl)

one_runs : lookup 1 without_two.chronos.running ≡ some 7
unfolding created add_event push_event schedule_events schedule_wait schedule_wait_for
    schedule_events_up_to take_due trigger_awaitings trigger execute_handler on_node_remove
    on_handler_completed remove_element lookup insert_or_assign erase
one_runs = refl

due_reached : Reach false 1 two_nodes all_due
due_reached =
    next (next (next (next here (adds 0 0 30 9)) (adds 0 0 10 7)) (adds 0 0 20 8))
      (schedules 40 40 40)

completed_reached : Reach false 1 two_nodes one_completed
completed_reached = next (next due_reached (removes 2)) (completes 1 7 (λ z. one_runs))

assigned_lem_example :
    let c = one_completed.chronos in
    ((i : ℕ)
      → (occurrences i c.slots + busy i c.running ≡ occurrences i c.available_nodes)
        × (occurrences i c.available_nodes ≤ 1))
    × (c.awaiting ≡ [] ⊎ c.slots ≡ [])
assigned_lem_example = assigned_lem two_nodes-differ completed_reached

abbrev itself : ℕ → ℕ
itself h = h

handlers_kept_example :
    sum_of itself one_completed.given
    ≡ sum_of itself one_completed.completed + sum_pending itself one_completed.chronos
handlers_kept_example = handlers_kept two_nodes-differ completed_reached itself

late_completion_example :
    let removed = (on_node_remove 1 2 all_due.chronos).0 in
    let d = (on_handler_completed 1 2 removed).0 in
    (occurrences 2 removed.available_nodes ≡ 0)
    × (occurrences 2 d.available_nodes ≡ 0)
    × (occurrences 2 d.slots + busy 2 d.running ≡ 1)
late_completion_example = late_completion 2 two_nodes-differ due_reached

-- Node 2 takes the handler that waited longest, though it has left.
taken_by_absent : (on_handler_completed 1 2 without_two.chronos).0.running ≡ (1, 7) ∷ (2, 9) ∷ []
unfolding created add_event push_event schedule_events schedule_wait schedule_wait_for
    schedule_events_up_to take_due trigger_awaitings trigger execute_handler on_node_remove
    on_handler_completed remove_element lookup insert_or_assign erase
taken_by_absent = refl

-- At 5 s, node 2 was heard of at 1 s and node 3 at 4 s.
abbrev heard : Detector
heard = record { timer = none; nodes_ts = (2, 10 ^ 9) ∷ (3, 4 * 10 ^ 9) ∷ [] }

asked : check (5 * 10 ^ 9) heard ≡ apply_removal 2 ∷ []
unfolding check to_remove request_removals request_removal has_key
asked = refl

abbrev local : Endpoint
local = record { port = 8001; address = "127.0.0.1"; type = v4 }

abbrev cluster_node : Process ℕ
cluster_node = record {
  detector = heard;
  nodes =
      add 2 local
        (record { config = record { this_node = 1; nodes = (1, local) ∷ [] }; connectors = [] });
  chronos = all_due.chronos;
}

remove_node_complete_lem_example :
    let q = (remove_node_complete 1 2 cluster_node).0 in
    (contains 2 (broadcast_to q.nodes) ≡ false)
    × (occurrences 2 q.chronos.available_nodes ≡ 0)
    × (occurrences 2 q.chronos.slots + busy 2 q.chronos.running ≡ 0)
    × (remove_node_complete 1 2 q ≡ (q, []))
unfolding has_key
remove_node_complete_lem_example =
    remove_node_complete_lem 1 2 cluster_node (Reach-Assigned two_nodes-differ due_reached) refl
