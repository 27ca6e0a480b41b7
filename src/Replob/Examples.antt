-- ===== src/Replob/Examples.antt =====
-- Tests of the first protocol at one of two nodes, and its theorems there.
use replob_prototype.Prelude.{
  ℕ, ◌+◌, ◌<◌, ◌≡◌, ◌⊎◌, refl, true, false, not, ◌&&◌, Option, some, List, [], ◌∷◌, ◌++◌,
  if◌then◌else◌, arith,
}
use replob_prototype.Std.Order.{nat_order}
use replob_prototype.Std.Set.{insert, contains}
use replob_prototype.Std.Map.{lookup, insert_or_assign, erase, has_key}
use replob_prototype.Voting.{is_empty}
use replob_prototype.Ids.{UniqueId}
use replob_prototype.Node.{Nodes, v4, add}
use replob_prototype.Replob.{
  voted, CarryMsg, StepData, Replob, created, Action, send_vote, send_commit, send_disconnect,
  invoked, invoke, update_current_step_id, get_step, put_step, step_at, with_msg, voted_nodes_set,
  votes_count, may_commit, carries, process_step, process, try_process, commit, commit_step,
  voted_step, vote, vote_step, apply, on_timeout,
}
use replob_prototype.Replob.Processing.{done_at, messages}
use replob_prototype.Replob.Order.{Later, commit-closes, commit_order}
use replob_prototype.Replob.Timeout.{on_timeout_lem}

abbrev id_of : ℕ → ℕ → UniqueId
id_of node n = record { first = node; second = n }

abbrev carry : ℕ → ℕ → CarryMsg ℕ
carry msg step = record { msg = msg; step_id = step; msg_id = id_of 1 msg }

-- Node 1 of two applies message 5, and votes for it.
abbrev applied : Option (Replob ℕ × List (Action ℕ))
applied = apply 1 2 5 (id_of 1 5) created

abbrev proposed : Replob ℕ
proposed = record {
  next_step_id = 1;
  commiting_step_id = 0;
  steps =
      (
        0,
        record {
          state = voted;
          voted_nodes = (id_of 1 5, record { voted_set = 1 ∷ []; msg = 5 }) ∷ [];
          msgs = [];
          availability_timer = some 200;
        },
      )
      ∷ [];
}

apply-proposed : applied ≡ some (proposed, send_vote (carry 5 0) 1 ∷ [])
unfolding apply vote get_step step_at lookup voted_step with_msg insert vote_step may_commit
    votes_count put_step update_current_step_id insert_or_assign
apply-proposed = refl

-- The vote of node 2 completes the step.
vote_commits :
    vote 1 2 (carry 5 0) 2 proposed
    ≡ some (
      record { next_step_id = 1; commiting_step_id = 1; steps = [] },
      send_commit (carry 5 0 ∷ []) ∷ invoke 5 ∷ [],
    )
unfolding vote get_step step_at lookup voted_step with_msg insert vote_step may_commit votes_count
    put_step update_current_step_id insert_or_assign commit commit_step carries try_process process
    process_step erase
vote_commits = refl

commit-closes_example :
    (q : Replob ℕ × List (Action ℕ)) × (commit (carry 5 0 ∷ []) proposed ≡ some q)
    × ((s : Replob ℕ)
        → Later 1 2 q.0 s
        → (e : CarryMsg ℕ) (es : List (CarryMsg ℕ)) (voter : ℕ) → e.step_id ≡ 0
        → (commit (e ∷ es) s ≡ some (s, [])) × (vote 1 2 e voter s ≡ some (s, [])))
commit-closes_example = commit-closes 1 2 (carry 5 0) [] proposed (omega arith, omega arith)

abbrev first_step : StepData ℕ
first_step = record {
  state = voted;
  voted_nodes = (id_of 1 5, record { voted_set = 1 ∷ []; msg = 5 }) ∷ [];
  msgs = [];
  availability_timer = some 200;
}

get_step-first : get_step 0 proposed ≡ some first_step
unfolding get_step step_at lookup
get_step-first = refl

commit_order_example :
    let q = commit_step 0 (carry 5 0 ∷ []) first_step proposed in
    ((0 < 0) × (q.1 ≡ send_commit (carry 5 0 ∷ []) ∷ []) × (q.0.commiting_step_id ≡ 0))
    ⊎ ((◌≡◌ {A = ℕ} 0 0)
        × (k : ℕ) × (q.1
            ≡ send_commit (carry 5 0 ∷ []) ∷ invoked (carry 5 0 ∷ [])
              ++ messages k 1 proposed.steps)
        × (q.0.commiting_step_id ≡ 1 + k)
        × ((i : ℕ) → i < k → done_at (1 + i) proposed.steps ≡ true)
        × (done_at (1 + k) proposed.steps ≡ false))
commit_order_example =
    commit_order 0 (carry 5 0 ∷ []) first_step proposed (omega arith, omega arith) get_step-first

abbrev two : Nodes
two =
    add 2 (record { port = 81; address = "b"; type = v4 })
      (add 1 (record { port = 80; address = "a"; type = v4 })
        (record { config = record { this_node = 1; nodes = [] }; connectors = [] }))

on_timeout_lem_example :
    let (s, m, acts) = on_timeout 0 two proposed in
    (gone : List ℕ) × (acts ≡ (if is_empty gone then [] else send_disconnect gone ∷ []))
    × ((i : ℕ)
        → (has_key i m.config.nodes ≡ (has_key i two.config.nodes && not (contains i gone)))
          × (contains i gone ≡ true
              → (has_key i two.config.nodes ≡ true)
                × (contains i (voted_nodes_set first_step.voted_nodes) ≡ false)))
on_timeout_lem_example = on_timeout_lem 0 two proposed first_step get_step-first
