-- ===== src/Replob.antt =====
-- `struct Replob` of include/synca/once/replob.h and src/replob.cpp, the first protocol of the log: the
-- steps at one node, where a node votes for one message of a step and the step is committed when all
-- nodes have voted. A method returns the new fields and, in order, the broadcasts and the messages that
-- it invokes; an `AnyMsg` is taken to be callable and not to call the protocol itself.
pub mod Window
pub mod Calls
pub mod Order
pub mod Timeout
pub mod Cluster
pub mod Ballot
pub mod Agreed
pub mod Logs
pub mod Member
pub mod Committed
pub mod Cast
pub mod Moves
pub mod Agreement
pub mod Processing
mod Examples
use replob_prototype.Prelude.{
  ℕ, zero, suc, ◌+◌, ◌-◌, ◌/◌, ◌%◌, ◌^◌, Bool, true, false, not, ◌==◌, ltb, leb, if◌then◌else◌,
  Option, none, some, List, [], ◌∷◌, ◌++◌, map, length,
}
use replob_prototype.Std.Order.{nat_order}
use replob_prototype.Std.Set.{insert, insert_all, contains}
use replob_prototype.Std.Map.{lookup, insert_or_assign, erase, value_or}
use replob_prototype.Ids.{UniqueId, lt_id}
use replob_prototype.Voting.{is_empty}
use replob_prototype.Node.{Nodes, remove, node_list}

-- `StepId`, a uint64_t
abbrev pub id_mod : ℕ
id_mod = 2 ^ 64

pub record CarryMsg (M : Type 0) : Type 0 where
  pub msg : M
  pub step_id : ℕ
  pub msg_id : UniqueId

pub data StepState : Type 0 where
  initial voted completed : StepState

abbrev pub is_initial : StepState → Bool
is_initial initial = true
is_initial voted = false
is_initial completed = false

abbrev pub is_completed : StepState → Bool
is_completed initial = false
is_completed voted = false
is_completed completed = true

pub record MsgData (M : Type 0) : Type 0 where
  pub voted_set : List ℕ
  pub msg : M

pub record StepData (M : Type 0) : Type 0 where
  pub state : StepState
  -- a `std::map`, in rising order of its keys
  pub voted_nodes : List (UniqueId × MsgData M)
  pub msgs : List (CarryMsg M)
  -- the milliseconds that the armed timer waits
  pub availability_timer : Option ℕ

abbrev pub fresh : {M : Type 0} → StepData M
fresh = record { state = initial; voted_nodes = []; msgs = []; availability_timer = none }

pub record Replob (M : Type 0) : Type 0 where
  pub next_step_id : ℕ
  pub commiting_step_id : ℕ
  pub steps : List (ℕ × StepData M)

abbrev pub created : {M : Type 0} → Replob M
created = record { next_step_id = 0; commiting_step_id = 0; steps = [] }

-- The calls of `broadcast` and of messages.
pub data Action (M : Type 0) : Type 0 where
  send_vote : CarryMsg M → ℕ → Action M
  send_commit : List (CarryMsg M) → Action M
  send_disconnect : List ℕ → Action M
  invoke : M → Action M

-- `quorumSize`, of the number of connectors
unfoldable pub quorum_size : ℕ → ℕ
quorum_size count = count / 2 + 1

-- the loop of `disconnectNodes`: the nodes that it removed, in order
unfoldable pub remove_all : List ℕ → Nodes → Nodes × List ℕ
remove_all [] n = (n, [])
remove_all (i ∷ is) n =
    let rest = remove_all is (remove i n).0 in if (remove i n).1 then (rest.0, i ∷ rest.1) else rest

-- the loop of `onTimeout`
unfoldable pub unavailable : List ℕ → List ℕ → List ℕ
unavailable voters [] = []
unavailable voters (i ∷ is) =
    let rest = unavailable voters is in if contains i voters then rest else i ∷ rest

module _ {M : Type 0} where
  unfoldable pub cleanup : Replob M → Replob M
  cleanup r = record r { steps = []; commiting_step_id = id_mod - 1 }

  -- `updateCurrentStepId`
  unfoldable pub update_current_step_id : ℕ → Replob M → Replob M
  update_current_step_id id r =
      if leb r.next_step_id id then record r { next_step_id = (id + 1) % id_mod } else r

  -- `steps_[id]`
  unfoldable pub step_at : ℕ → Replob M → StepData M
  step_at id r = value_or fresh (lookup id r.steps)

  -- `getStep`; `none` is the null pointer. What is done through the pointer is written by `put_step`.
  unfoldable pub get_step : ℕ → Replob M → Option (StepData M)
  get_step id r =
      if ltb id r.commiting_step_id
      then none
      else if is_completed (step_at id r).state
      then none
      else some (step_at id r)

  -- The rest of `getStep`, and the step as its caller leaves it
  unfoldable pub put_step : ℕ → StepData M → Replob M → Replob M
  put_step id d r = update_current_step_id id (record r { steps = insert_or_assign id d r.steps })

  -- `getMsg`, and what its caller does to the entry
  unfoldable pub with_msg :
      (List ℕ → List ℕ) → CarryMsg M → List (UniqueId × MsgData M) → List (UniqueId × MsgData M)
  with_msg f m [] = (m.msg_id, record { voted_set = f []; msg = m.msg }) ∷ []
  with_msg f m ((k, e) ∷ rest) =
      let more = with_msg f m rest in
      if lt_id m.msg_id k
      then (m.msg_id, record { voted_set = f []; msg = m.msg }) ∷ (k, e) ∷ rest
      else if lt_id k m.msg_id
      then (k, e) ∷ more
      else (k, record e { voted_set = f e.voted_set }) ∷ rest

  -- `votedNodesSet`
  unfoldable pub voted_nodes_set : List (UniqueId × MsgData M) → List ℕ
  voted_nodes_set [] = []
  voted_nodes_set ((k, e) ∷ rest) = insert_all (voted_nodes_set rest) e.voted_set

  -- the sum of `mayCommit`
  unfoldable pub votes_count : List (UniqueId × MsgData M) → ℕ
  votes_count [] = 0
  votes_count ((k, e) ∷ rest) = length e.voted_set + votes_count rest

  -- `mayCommit`
  unfoldable pub may_commit : ℕ → StepData M → Bool
  may_commit nodes_count d = votes_count d.voted_nodes == nodes_count

  -- the messages that `vote` commits
  unfoldable pub carries : ℕ → List (UniqueId × MsgData M) → List (CarryMsg M)
  carries id [] = []
  carries id ((k, e) ∷ rest) = record { msg = e.msg; step_id = id; msg_id = k } ∷ carries id rest

  -- A round of `tryProcess()` where the step is completed
  unfoldable pub process_step : StepData M → Replob M → Replob M
  process_step d r = record r {
    steps = erase r.commiting_step_id r.steps;
    commiting_step_id = (r.commiting_step_id + 1) % id_mod;
  }

  abbrev pub invoked : List (CarryMsg M) → List (Action M)
  invoked msgs = map (λ c. invoke c.msg) msgs

  -- `tryProcess()`
  unfoldable pub process : ℕ → Replob M → Replob M × List (Action M)
  process zero r = (r, [])
  process (suc fuel) r = elim (lookup r.commiting_step_id r.steps) [
    | none ↦ (r, [])
    | some d ↦
        let rest = process fuel (process_step d r) in
        if is_completed d.state then (rest.0, invoked d.msgs ++ rest.1) else (r, [])
  ]

  -- `tryProcess(id)`. Each round takes a step away.
  unfoldable pub try_process : ℕ → Replob M → Replob M × List (Action M)
  try_process id r = if id == r.commiting_step_id then process (suc (length r.steps)) r else (r, [])

  -- the step as `commit` leaves it
  abbrev pub completed_step : List (CarryMsg M) → StepData M → StepData M
  completed_step msgs d = record d {
    state = completed;
    voted_nodes = [];
    msgs = msgs;
    availability_timer = none;
  }

  -- `commit` where the step is not outdated
  unfoldable pub commit_step :
      ℕ → List (CarryMsg M) → StepData M → Replob M → Replob M × List (Action M)
  commit_step id msgs d r =
      let (s, acts) = try_process id (
        put_step id
          (record { state = completed; voted_nodes = []; msgs = msgs; availability_timer = none })
          r) in
      (s, send_commit msgs ∷ acts)

  -- `commit`; `none` is the failed `VERIFY`.
  unfoldable pub commit : List (CarryMsg M) → Replob M → Option (Replob M × List (Action M))
  commit [] r = none
  commit (c ∷ cs) r = elim (get_step c.step_id r) [
    | none ↦ some (r, [])
    | some d ↦ some (commit_step c.step_id (c ∷ cs) d r)
  ]

  -- `vote`, the step with the vote of `voter`, and of this node where it has not voted
  unfoldable pub voted_step : ℕ → CarryMsg M → ℕ → StepData M → StepData M
  voted_step this_node m voter d =
      if is_initial d.state
      then record d {
        state = voted;
        voted_nodes = with_msg (λ s. insert this_node (insert voter s)) m d.voted_nodes;
      }
      else record d { voted_nodes = with_msg (insert voter) m d.voted_nodes }

  -- `vote`, after the votes are entered; `can_vote` is as in the source.
  unfoldable pub vote_step :
      ℕ → ℕ → CarryMsg M → Bool → StepData M → Replob M → Option (Replob M × List (Action M))
  vote_step this_node nodes_count m can_vote d r =
      if may_commit nodes_count d
      then commit (carries m.step_id d.voted_nodes) (put_step m.step_id d r)
      else if can_vote
      then some (
        put_step m.step_id (record d { availability_timer = some 200 }) r,
        send_vote m this_node ∷ [],
      )
      else some (put_step m.step_id d r, [])

  unfoldable pub vote : ℕ → ℕ → CarryMsg M → ℕ → Replob M → Option (Replob M × List (Action M))
  vote this_node nodes_count m voter r = elim (get_step m.step_id r) [
    | none ↦ some (r, [])
    | some d ↦
        vote_step this_node nodes_count m (is_initial d.state) (voted_step this_node m voter d) r
  ]

  -- `apply`, where `genUniqueId` gives `msg_id`
  unfoldable pub apply : ℕ → ℕ → M → UniqueId → Replob M → Option (Replob M × List (Action M))
  apply this_node nodes_count msg msg_id r =
      vote this_node nodes_count (record { msg = msg; step_id = r.next_step_id; msg_id = msg_id })
        this_node (record r { next_step_id = (r.next_step_id + 1) % id_mod })

  -- `disconnectNodes`
  unfoldable pub disconnect_nodes : List ℕ → Nodes → Nodes × List (Action M)
  disconnect_nodes nodes n =
      let (m, disconnected) = remove_all nodes n in
      (m, if is_empty disconnected then [] else send_disconnect disconnected ∷ [])

  -- `onTimeout`
  unfoldable pub on_timeout : ℕ → Nodes → Replob M → Replob M × Nodes × List (Action M)
  on_timeout id n r = elim (get_step id r) [
    | none ↦ (r, n, [])
    | some d ↦
        let (m, acts) =
          disconnect_nodes (unavailable (voted_nodes_set d.voted_nodes) (node_list n.config)) n in
        (put_step id d r, m, acts)
  ]
