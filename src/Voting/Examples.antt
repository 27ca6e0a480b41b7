-- ===== src/Voting/Examples.antt =====
-- Tests of `Voting`, and its theorems at a cluster of two nodes.
use replob_prototype.Prelude.{
  ℕ, ◌≡◌, refl, sym, ◌∙◌, true, none, some, List, [], ◌∷◌, All, inl, inr, arith, if◌then◌else◌,
}
use replob_prototype.Std.Order.{nat_order}
use replob_prototype.Std.Set.{insert, insert_all, contains, eq_set, inter, inter_onto}
use replob_prototype.Voting.{
  CarryMsg2, NodesSet, Voting, voted, completed, Action, send_vote, send_commit, complete,
  cleanup_all, carry_order, fresh, is_completed, is_empty, vote, commit, start, adopt, decide,
  tally, timeout, is_consistent, is_consistent_sets, same_least,
}
use replob_prototype.Voting.Quorum.{IsPolled, AreDisjoint, no_split_brain}
use replob_prototype.Voting.Once.{
  starts, votes, commits, times_out, run, committed, completions, run-CommitsOnce,
}
use replob_prototype.Voting.System.{
  packets, System, after, start_of_step, propose, take_vote, take_commit, Reach, here, next,
}
use replob_prototype.Voting.Agreement.{agreement, no_lost_carry}

abbrev hello : CarryMsg2 ℕ
hello = record { msg = 5; msg_id = record { first = 1; second = 0 } }

abbrev pair : NodesSet
pair = 1 ∷ 2 ∷ []

abbrev IsHello : CarryMsg2 ℕ → Type 0
IsHello c = c ≡ hello

-- Node 1 proposes; node 2 hears its vote and commits; node 1 hears the commit.
abbrev proposed : System ℕ
proposed = after start_of_step 1 (start 1 pair hello fresh)

abbrev decided : System ℕ
decided = after proposed 2 (vote 2 (hello ∷ []) 1 pair (proposed.at_node 2))

abbrev agreed : System ℕ
agreed = after decided 1 (commit (hello ∷ []) (decided.at_node 1))

-- One of two nodes votes and waits; the other commits at once.
node_1_votes : start 1 pair hello fresh ≡ (
  record {
    state = voted;
    nodes = pair;
    voted_set = 1 ∷ [];
    carries = hello ∷ [];
    timer = some 500;
  },
  send_vote (hello ∷ []) 1 pair ∷ [],
)
unfolding start vote adopt decide tally is_empty insert insert_all eq_set
node_1_votes = refl

node_2_commits : (vote 2 (hello ∷ []) 1 pair fresh).1 ≡ send_commit (hello ∷ []) ∷ complete ∷ []
unfolding vote adopt decide tally commit is_empty insert insert_all eq_set
node_2_commits = refl

-- A vote from a node that knows of fewer nodes makes this one vote again in the smaller set.
abbrev in_three : Voting ℕ
in_three = record {
  state = voted;
  nodes = 1 ∷ 2 ∷ 3 ∷ [];
  voted_set = 1 ∷ [];
  carries = hello ∷ [];
  timer = some 500;
}

node_1_votes_again : vote 1 [] 2 (2 ∷ 1 ∷ 4 ∷ []) in_three ≡ (
  record in_three { state = completed; nodes = pair; voted_set = pair },
  send_commit (hello ∷ []) ∷ complete ∷ [],
)
unfolding vote adopt decide tally commit is_empty insert insert_all eq_set inter inter_onto contains
node_1_votes_again = refl

Reach-decided : Reach pair IsHello decided
unfolding start vote adopt decide tally is_empty insert insert_all eq_set contains packets
Reach-decided =
    next (next here (propose 1 hello refl refl refl))
      (take_vote 2 (hello ∷ []) 1 pair refl (inl refl))

Reach-agreed : Reach pair IsHello agreed
unfolding start vote adopt decide tally commit is_empty insert insert_all eq_set contains packets
Reach-agreed = next Reach-decided (take_commit 1 (hello ∷ []) refl (inr (inl refl)))

hello_unique : (a b : CarryMsg2 ℕ) → IsHello a → IsHello b → a.msg_id ≡ b.msg_id → a ≡ b
hello_unique a b p q e = p ∙ sym q

agreement_example : (agreed.at_node 1).carries ≡ (agreed.at_node 2).carries
unfolding start vote adopt decide tally commit is_empty insert insert_all eq_set
agreement_example = agreement pair IsHello hello_unique {s = agreed} Reach-agreed 1 2 refl refl

no_lost_carry_example :
    ((c : CarryMsg2 ℕ)
      → contains c (decided.at_node 1).carries ≡ true
      → contains c (decided.at_node 2).carries ≡ true)
    × All IsHello (decided.at_node 2).carries
unfolding start vote adopt decide tally commit is_empty insert insert_all eq_set
no_lost_carry_example = no_lost_carry pair IsHello {s = decided} Reach-decided 1 2 refl refl

run-CommitsOnce_example :
    (v : Voting ℕ) × (acts : List (Action ℕ)) × (run 1 pair
        (starts hello ∷ times_out ∷ votes (hello ∷ []) 2 pair ∷ commits [] ∷ [])
        fresh
      ≡ some (v, acts))
    × (committed acts ≡ (if is_completed v.state then v.carries ∷ [] else []))
    × (completions acts ≡ (if is_completed v.state then 1 else 0))
run-CommitsOnce_example =
    run-CommitsOnce 1 pair hello (times_out ∷ votes (hello ∷ []) 2 pair ∷ commits [] ∷ [])

-- Each of the two has only its own vote.
abbrev alone : ℕ → Voting ℕ
alone n = record { state = voted; nodes = pair; voted_set = n ∷ []; carries = []; timer = none }

alone-IsPolled_1 : IsPolled (alone 1)
unfolding contains
alone-IsPolled_1 = record {
  nodes_sorted = (refl, tt);
  voted_sorted = tt;
  voters = λ n h. ground arith;
  voted_some = λ e. cc;
}

alone-IsPolled_2 : IsPolled (alone 2)
unfolding contains
alone-IsPolled_2 = record {
  nodes_sorted = (refl, tt);
  voted_sorted = tt;
  voters = λ n h. ground arith;
  voted_some = λ e. cc;
}

apart : AreDisjoint (1 ∷ []) (2 ∷ [])
unfolding contains
apart n h k = ground arith

no_split_brain_example : timeout 2 (alone 2) ≡ some (alone 2, cleanup_all ∷ [])
unfolding is_consistent is_consistent_sets same_least
no_split_brain_example =
    no_split_brain (alone 1) (alone 2) 2 refl alone-IsPolled_1 alone-IsPolled_2 apart refl

-- With votes from outside the node set, two nodes without a common voter both go on.
outsiders_split :
    (is_consistent_sets (1 ∷ 4 ∷ []) pair ≡ some true)
    × (is_consistent_sets (2 ∷ 3 ∷ []) pair ≡ some true)
unfolding is_consistent_sets same_least
outsiders_split = (refl, refl)
