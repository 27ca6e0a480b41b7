-- ===== src/Chronos.antt =====
-- `struct Chronos` of examples/chronos.cpp, a replicated scheduler: events become due, wait, and are
-- executed by the nodes, each of which has one slot. It changes only in transactions of the log. Times
-- are nanoseconds of the clock, and each reading of the clock is an argument. A method returns the new
-- fields and what it asks of others.
pub mod Runs
pub mod Slots
pub mod Assigned
pub mod Handlers
pub mod Late
pub mod Detector
mod Examples
use replob_prototype.Prelude.{
  ℕ, ◌+◌, ◌-◌, ◌/◌, ◌^◌, ◌==◌, ltb, leb, if◌then◌else◌, Option, none, some, List, [], ◌∷◌, ◌++◌,
}
use replob_prototype.Std.Map.{lookup, insert_or_assign, erase}

-- `Chronos::Event`; `H` is the type of handlers.
pub record Event (H : Type 0) : Type 0 where
  pub ts : ℕ
  pub h : H

pub record Chronos (H : Type 0) : Type 0 where
  pub available_nodes : List ℕ
  -- a `std::priority_queue`, in the order in which it gives its elements out
  pub events : List (Event H)
  pub running : List (ℕ × H)
  pub awaiting : List H
  pub slots : List ℕ
  -- the milliseconds that the armed timer waits
  pub next_event : Option ℕ

-- The handler that a node starts, and the transaction that it asks for
pub data Action (H : Type 0) : Type 0 where
  start_handler : ℕ → H → Action H
  schedule_up_to : ℕ → Action H

-- `Chronos::Chronos`, where `nodes` are the configured ones
unfoldable pub created : {H : Type 0} → List ℕ → Chronos H
created nodes = record {
  available_nodes = nodes;
  events = [];
  running = [];
  awaiting = [];
  slots = nodes;
  next_event = none;
}

-- `removeElement`
unfoldable pub remove_element : ℕ → List ℕ → List ℕ
remove_element e [] = []
remove_element e (x ∷ xs) = let rest = remove_element e xs in if x == e then rest else x ∷ rest

module _ {H : Type 0} where
  -- `events_.push`. Events of one time come out in the order in which they went in, which std::priority_queue
  -- leaves open.
  unfoldable pub push_event : Event H → List (Event H) → List (Event H)
  push_event e [] = e ∷ []
  push_event e (x ∷ xs) = if leb x.ts e.ts then x ∷ push_event e xs else e ∷ x ∷ xs

  -- `scheduleEvents` at the time `now`
  unfoldable pub schedule_events : ℕ → List (Event H) → List (Action H)
  schedule_events now [] = []
  schedule_events now (e ∷ es) = if ltb e.ts now then schedule_up_to now ∷ [] else []

  -- `scheduleWait`, with its reading of the clock and that of `scheduleEvents`; the difference in
  -- milliseconds is rounded towards zero.
  unfoldable pub schedule_wait_for : ℕ → ℕ → List (Event H) → Option ℕ → Option ℕ × List (Action H)
  schedule_wait_for now later [] timer = (none, [])
  schedule_wait_for now later (e ∷ es) timer =
      if ltb 0 ((now - e.ts) / 10 ^ 6)
      then (timer, schedule_events later (e ∷ es))
      else (some ((e.ts - now) / 10 ^ 6 + 100), [])

  unfoldable pub schedule_wait : ℕ → ℕ → Chronos H → Chronos H × List (Action H)
  schedule_wait now later c =
      let (timer, acts) = schedule_wait_for now later c.events c.next_event in
      (record c { next_event = timer }, acts)

  -- `addEvent(TimeStamp, Handler)`
  unfoldable pub add_event : ℕ → ℕ → ℕ → H → Chronos H → Chronos H × List (Action H)
  add_event now later ts h c =
      schedule_wait now later
        (record c { events = push_event (record { ts = ts; h = h }) c.events })

  -- `executeHandler` in the state, and what the node `this_node` then does
  unfoldable pub execute_handler : H → ℕ → List (ℕ × H) → List (ℕ × H)
  execute_handler h id running = insert_or_assign id h running

  abbrev pub executed_here : ℕ → H → ℕ → List (Action H)
  executed_here this_node h id = if this_node == id then start_handler id h ∷ [] else []

  -- the loop of `triggerAwaitings`, over the queue and the slots
  unfoldable pub trigger : ℕ → List H → List ℕ → Chronos H → Chronos H × List (Action H)
  trigger this_node [] slots c = (record c { awaiting = []; slots = slots }, [])
  trigger this_node (h ∷ hs) [] c = (record c { awaiting = h ∷ hs; slots = [] }, [])
  trigger this_node (h ∷ hs) (id ∷ ids) c =
      let (d, acts) =
        trigger this_node hs ids (record c { running = execute_handler h id c.running }) in
      (d, executed_here this_node h id ++ acts)

  unfoldable pub trigger_awaitings : ℕ → Chronos H → Chronos H × List (Action H)
  trigger_awaitings this_node c = trigger this_node c.awaiting c.slots c

  -- `onNodeRemove`
  unfoldable pub on_node_remove : ℕ → ℕ → Chronos H → Chronos H × List (Action H)
  on_node_remove this_node id c =
      let d = record c {
        available_nodes = remove_element id c.available_nodes;
        slots = remove_element id c.slots;
      } in
      elim (lookup id c.running) [
        | none ↦ (d, [])
        | some h ↦
            trigger_awaitings this_node
              (record d { awaiting = c.awaiting ++ h ∷ []; running = erase id c.running })
      ]

  -- the loop of `scheduleEventsUpTo`: the events that stay, and the queue
  unfoldable pub take_due : ℕ → List (Event H) → List H → List (Event H) × List H
  take_due now [] awaiting = ([], awaiting)
  take_due now (e ∷ es) awaiting =
      let rest = take_due now es (awaiting ++ e.h ∷ []) in
      if ltb e.ts now then rest else (e ∷ es, awaiting)

  -- `scheduleEventsUpTo`
  unfoldable pub schedule_events_up_to : ℕ → ℕ → ℕ → ℕ → Chronos H → Chronos H × List (Action H)
  schedule_events_up_to this_node up_to now later c =
      let (events, awaiting) = take_due up_to c.events c.awaiting in
      let (d, acts) =
        trigger_awaitings this_node (record c { events = events; awaiting = awaiting }) in
      let (e, more) = schedule_wait now later d in (e, acts ++ more)

  -- `onHandlerCompleted`
  unfoldable pub on_handler_completed : ℕ → ℕ → Chronos H → Chronos H × List (Action H)
  on_handler_completed this_node id c =
      trigger_awaitings this_node
        (record c { running = erase id c.running; slots = c.slots ++ id ∷ [] })
