-- ===== src/Replob/Agreement/Examples.antt =====
-- A run of two nodes in which one proposes a message and both invoke it, and the theorems there.
use replob_prototype.Prelude.{ℕ, ◌≡◌, refl, some, List, [], ◌∷◌, ◌++◌, inl, inr, arith}
use replob_prototype.Std.Order.{nat_order}
use replob_prototype.Std.Set.{insert, contains}
use replob_prototype.Std.Map.{lookup, insert_or_assign, erase}
use replob_prototype.Ids.{UniqueId}
use replob_prototype.Replob.{
  voted, CarryMsg, Replob, created, Action, send_vote, send_commit, invoke, update_current_step_id,
  get_step, put_step, step_at, with_msg, votes_count, may_commit, carries, process_step, process,
  try_process, commit, commit_step, voted_step, vote, vote_step, apply,
}
use replob_prototype.Replob.Cluster.{
  broadcasts, invocations, Members, all_created, after, applies, takes_vote, takes_commit, Reach,
  here, next,
}
use replob_prototype.Replob.Agreement.{same_log, one_commit}

abbrev first_id : UniqueId
first_id = record { first = 1; second = 5 }

-- The message is the second half of its id.
abbrev payload : UniqueId → ℕ
payload k = k.second

abbrev both : List ℕ
both = 1 ∷ 2 ∷ []

abbrev carry : CarryMsg ℕ
carry = record { msg = 5; step_id = 0; msg_id = first_id }

abbrev proposed : Replob ℕ × List (Action ℕ)
proposed = (
  record {
    next_step_id = 1;
    commiting_step_id = 0;
    steps =
        (
          0,
          record {
            state = voted;
            voted_nodes = (first_id, record { voted_set = 1 ∷ []; msg = 5 }) ∷ [];
            msgs = [];
            availability_timer = some 200;
          },
        )
        ∷ [];
  },
  send_vote carry 1 ∷ [],
)

abbrev finished : Replob ℕ × List (Action ℕ)
finished = (
  record { next_step_id = 1; commiting_step_id = 1; steps = [] },
  send_commit (carry ∷ []) ∷ invoke 5 ∷ [],
)

first_applies : apply 1 2 5 first_id created ≡ some proposed
unfolding apply vote get_step step_at lookup voted_step with_msg insert vote_step may_commit
    votes_count put_step update_current_step_id insert_or_assign
first_applies = refl

second_votes : vote 2 2 carry 1 created ≡ some finished
unfolding vote get_step step_at lookup voted_step with_msg insert vote_step may_commit votes_count
    put_step update_current_step_id insert_or_assign commit commit_step carries try_process process
    process_step erase
second_votes = refl

first_commits : commit (carry ∷ []) proposed.0 ≡ some finished
unfolding get_step step_at lookup put_step update_current_step_id insert_or_assign commit
    commit_step try_process process process_step erase
first_commits = refl

abbrev all_done : Members ℕ
all_done = after (after (after all_created 1 proposed) 2 finished) 1 finished

all_done-Reach : Reach payload both all_done
unfolding contains broadcasts
all_done-Reach =
    next
      (next (next here (applies 1 first_id proposed refl (omega arith, omega arith) first_applies))
        (takes_vote 2 carry 1 finished refl (inl refl) (omega arith, omega arith) second_votes))
      (takes_commit 1 carry [] finished refl (inr (inl refl)) (omega arith, omega arith)
        first_commits)

both_invoked : (all_done.log 1 ≡ 5 ∷ []) × (all_done.log 2 ≡ 5 ∷ [])
unfolding invocations
both_invoked = (refl, refl)

same_log_example : (rest : List ℕ) × (all_done.log 1 ≡ all_done.log 2 ++ rest)
same_log_example = same_log payload both all_done-Reach 2 1 (omega arith)

one_commit_example : carry ∷ [] ≡ carry ∷ []
unfolding broadcasts
one_commit_example =
    one_commit payload both all_done-Reach (inr (inl refl)) (inr (inr (inl refl))) refl
