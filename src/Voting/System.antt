-- ===== src/Voting/System.antt =====
-- One step of the log at every node of a cluster without failures: the `Voting` instances that
-- share a step id, and the packets that their broadcasts have put on the network. A packet stays
-- deliverable, so it may be lost, delayed, repeated or overtaken, and it may reach its sender too;
-- `broadcast` of src/node.cpp sends to the other nodes only, which is a part of that. No node leaves,
-- so every node starts with the same node set and no timeout fires.
use replob_prototype.Prelude.{ℕ, ◌≡◌, true, List, [], ◌∷◌, ◌++◌, In, update}
use replob_prototype.Std.Order.{nat_order}
use replob_prototype.Std.Set.{contains}
use replob_prototype.Voting.{
  CarryMsg2, CarrySet, NodesSet, Voting, Action, send_vote, send_commit, complete, invoke,
  cleanup_all, fresh, is_completed, vote, commit, start, on_complete,
}

-- The messages of the two calls of `broadcast()` in `Voting`.
pub data Packet (M : Type 0) : Type 0 where
  vote_packet : CarrySet M → ℕ → NodesSet → Packet M
  commit_packet : CarrySet M → Packet M

module _ {M : Type 0} where
  unfoldable pub packets : List (Action M) → List (Packet M)
  packets [] = []
  packets (send_vote cs src ns ∷ acts) = vote_packet cs src ns ∷ packets acts
  packets (send_commit cs ∷ acts) = commit_packet cs ∷ packets acts
  packets (complete ∷ acts) = packets acts
  packets (invoke m ∷ acts) = packets acts
  packets (cleanup_all ∷ acts) = packets acts

pub record System (M : Type 0) : Type 0 where
  pub at_node : ℕ → Voting M
  pub sent : List (Packet M)

-- Node `i` goes on to `r.0` and its broadcasts are sent.
abbrev pub after : {M : Type 0} → System M → ℕ → Voting M × List (Action M) → System M
after s i r = record { at_node = update s.at_node i r.0; sent = s.sent ++ packets r.1 }

abbrev pub start_of_step : {M : Type 0} → System M
start_of_step = record { at_node = λ i. fresh; sent = [] }

-- `config` is the node set; `Proposed` says what clients hand to `Replob2::apply` for this step.
pub data Step {M : Type 0} (config : NodesSet) (Proposed : CarryMsg2 M → Type 0) (s : System M)
    : System M → Type 0 where
  propose :
      (i : ℕ) (c : CarryMsg2 M)
      → contains i config ≡ true
      → s.at_node i ≡ fresh
      → Proposed c
      → Step config Proposed s (after s i (start i config c (s.at_node i)))
  take_vote :
      (i : ℕ) (cs : CarrySet M) (src : ℕ) (ns : NodesSet)
      → contains i config ≡ true
      → In (vote_packet cs src ns) s.sent
      → Step config Proposed s (after s i (vote i cs src ns (s.at_node i)))
  take_commit :
      (i : ℕ) (cs : CarrySet M)
      → contains i config ≡ true
      → In (commit_packet cs) s.sent
      → Step config Proposed s (after s i (commit cs (s.at_node i)))
  finish :
      (i : ℕ)
      → is_completed (s.at_node i).state ≡ true
      → Step config Proposed s (after s i (on_complete (s.at_node i)))

pub data Reach {M : Type 0} (config : NodesSet) (Proposed : CarryMsg2 M → Type 0)
    : System M → Type 0 where
  here : Reach config Proposed start_of_step
  next :
      {s t : System M}
      → Reach config Proposed s
      → Step config Proposed s t
      → Reach config Proposed t
