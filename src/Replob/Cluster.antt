-- ===== src/Replob/Cluster.antt =====
-- The first protocol at every node of a cluster, with the calls that its broadcasts put on the network.
-- A call stays deliverable, so it may be lost, delayed, repeated or overtaken. No node leaves and no timeout
-- fires, so every node counts the same number of nodes; ids are left for every call.
use replob_prototype.Prelude.{ℕ, ◌≡◌, true, some, List, [], ◌∷◌, ◌++◌, In, length, update}
use replob_prototype.Std.Order.{nat_order}
use replob_prototype.Std.Set.{contains}
use replob_prototype.Ids.{UniqueId}
use replob_prototype.Replob.{
  CarryMsg, Replob, created, Action, send_vote, send_commit, send_disconnect, invoke, vote, commit,
  apply,
}
use replob_prototype.Replob.Window.{HasRoom}

-- The handlers that `vote` and `commit` broadcast
pub data Broadcast (M : Type 0) : Type 0 where
  vote_call : CarryMsg M → ℕ → Broadcast M
  commit_call : List (CarryMsg M) → Broadcast M

module _ {M : Type 0} where
  unfoldable pub broadcasts : List (Action M) → List (Broadcast M)
  broadcasts [] = []
  broadcasts (send_vote m i ∷ acts) = vote_call m i ∷ broadcasts acts
  broadcasts (send_commit msgs ∷ acts) = commit_call msgs ∷ broadcasts acts
  broadcasts (send_disconnect nodes ∷ acts) = broadcasts acts
  broadcasts (invoke m ∷ acts) = broadcasts acts

  -- The messages that are invoked
  unfoldable pub invocations : List (Action M) → List M
  invocations [] = []
  invocations (send_vote m i ∷ acts) = invocations acts
  invocations (send_commit msgs ∷ acts) = invocations acts
  invocations (send_disconnect nodes ∷ acts) = invocations acts
  invocations (invoke m ∷ acts) = m ∷ invocations acts

pub record Members (M : Type 0) : Type 0 where
  pub at_node : ℕ → Replob M
  pub sent : List (Broadcast M)
  -- The messages that each node has invoked
  pub log : ℕ → List M

abbrev pub all_created : {M : Type 0} → Members M
all_created = record { at_node = λ i. created; sent = []; log = λ i. [] }

-- Node `i` goes on to `q.0`, and what it broadcasts is sent, and what it invokes is in its log.
abbrev pub after : {M : Type 0} → Members M → ℕ → Replob M × List (Action M) → Members M
after s i q = record {
  at_node = update s.at_node i q.0;
  sent = s.sent ++ broadcasts q.1;
  log = update s.log i (s.log i ++ invocations q.1);
}

-- `payload` gives the message of an id: `genUniqueId` gives no id twice.
pub data Step {M : Type 0} (payload : UniqueId → M) (config : List ℕ) (s : Members M)
    : Members M → Type 0 where
  applies :
      (i : ℕ) (k : UniqueId) (q : Replob M × List (Action M))
      → contains i config ≡ true
      → HasRoom 2 (s.at_node i).next_step_id (s.at_node i)
      → apply i (length config) (payload k) k (s.at_node i) ≡ some q
      → Step payload config s (after s i q)
  takes_vote :
      (i : ℕ) (m : CarryMsg M) (voter : ℕ) (q : Replob M × List (Action M))
      → contains i config ≡ true
      → In (vote_call m voter) s.sent
      → HasRoom 2 m.step_id (s.at_node i)
      → vote i (length config) m voter (s.at_node i) ≡ some q
      → Step payload config s (after s i q)
  takes_commit :
      (i : ℕ) (c : CarryMsg M) (cs : List (CarryMsg M)) (q : Replob M × List (Action M))
      → contains i config ≡ true
      → In (commit_call (c ∷ cs)) s.sent
      → HasRoom 1 c.step_id (s.at_node i)
      → commit (c ∷ cs) (s.at_node i) ≡ some q
      → Step payload config s (after s i q)

pub data Reach {M : Type 0} (payload : UniqueId → M) (config : List ℕ) : Members M → Type 0 where
  here : Reach payload config all_created
  next :
      {s t : Members M} → Reach payload config s → Step payload config s t → Reach payload config t
