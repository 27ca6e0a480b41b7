-- ===== src/Log.antt =====
-- The replicated log: `Phantom<Voting>` at every node of a cluster, with the messages that go between
-- the phantoms of one step (include/synca/once/broadcast.h) and `Replob2::apply`. A node is its window of
-- steps and the carries that it has invoked. A packet stays deliverable, so it may be lost, delayed, repeated or
-- overtaken; no node leaves and no timeout fires, as in Voting.System. A round of the loop of
-- `Phantom::complete` is a step of its own.
pub mod Window
pub mod Projection
pub mod Invariant
pub mod Order
pub mod Loop
mod Examples
use replob_prototype.Prelude.{
  ℕ, ◌+◌, ◌<◌, ◌^◌, ◌≡◌, Bool, true, false, ◌||◌, if◌then◌else◌, Option, none, some, List, [], ◌∷◌,
  ◌++◌, map, length, In, update,
}
use replob_prototype.Std.Order.{nat_order}
use replob_prototype.Std.Set.{contains}
use replob_prototype.Std.Map.{lookup, insert_or_assign}
use replob_prototype.Phantom.{
  id_mod, WithPhantom, Phantom, Log, get_ptr, entry, create, created, try_complete, step_on, erased,
}
use replob_prototype.Voting.{
  CarryMsg2, CarrySet, NodesSet, Voting, Action, send_vote, send_commit, complete, invoke,
  cleanup_all, fresh, vote, commit, start, on_complete,
}
use replob_prototype.Voting.System.{Packet, vote_packet, commit_packet, packets}

-- The method that a message calls at the node `i`
abbrev pub method : {M : Type 0} → ℕ → Packet M → Voting M → Voting M × List (Action M)
method i (vote_packet cs src ns) = vote i cs src ns
method i (commit_packet cs) = commit cs

-- Whether a method has called `complete`
abbrev pub completes : {M : Type 0} → List (Action M) → Bool
completes [] = false
completes (send_vote cs src ns ∷ acts) = completes acts
completes (send_commit cs ∷ acts) = completes acts
completes (complete ∷ acts) = true
completes (invoke m ∷ acts) = completes acts
completes (cleanup_all ∷ acts) = completes acts

module _ {M : Type 0} where
  -- A method of the step that stands in a window, and the mark that `WithPhantom::complete` sets
  unfoldable pub call_at :
      ℕ
      → (Voting M → Voting M × List (Action M))
      → Phantom (Voting M)
      → Phantom (Voting M) × List (Action M)
  call_at id f p =
      let w = entry fresh id p in
      let (v, acts) = f w.base in
      (
        record p {
          steps =
              insert_or_assign id (record w { base = v; completed = w.completed || completes acts })
                p.steps;
        },
        acts,
      )

  -- The message of `BasePhantom::call`: the method, where the step has not left the window
  unfoldable pub call_phantom :
      ℕ
      → (Voting M → Voting M × List (Action M))
      → Phantom (Voting M)
      → Phantom (Voting M) × List (Action M)
  call_phantom id f p = elim (get_ptr fresh id p) [ none ↦ (p, []) | some q ↦ call_at id f q ]

  -- The call of `start` in `Replob2::apply`, at the step that has been created
  abbrev pub start_created :
      ℕ
      → NodesSet
      → CarryMsg2 M
      → Phantom (Voting M) × Option ℕ
      → Phantom (Voting M) × List (Action M) × Option ℕ
  start_created i config c (q, none) = (q, [], none)
  start_created i config c (q, some id) =
      let (r, acts) = call_at id (start i config c) q in (r, acts, some id)

  -- `Replob2::apply`; the last field is the id of the step, or `none` where `VERIFY` throws.
  unfoldable pub apply :
      ℕ
      → NodesSet
      → CarryMsg2 M
      → Phantom (Voting M)
      → Phantom (Voting M) × List (Action M) × Option ℕ
  apply i config c p = start_created i config c (create fresh p)

  -- `Voting::onComplete` of a step in the window, with the carries that it invokes
  unfoldable pub run_step : ℕ → Phantom (Voting M) → Phantom (Voting M) × List (CarrySet M)
  run_step id p =
      let w = entry fresh id p in
      (
        record p {
          steps = insert_or_assign id (record w { base = (on_complete w.base).0 }) p.steps;
        },
        w.base.carries ∷ [],
      )

pub record Replica (M : Type 0) : Type 0 where
  pub window : Phantom (Voting M)
  pub log : List (CarrySet M)

-- The carries that a part of the loop has invoked
abbrev pub invoked : {M : Type 0} → Log (CarrySet M) → List (CarrySet M)
invoked [] = []
invoked ((id, did) ∷ l) = did ++ invoked l

module _ {M : Type 0} where
  -- A round of `Phantom::complete` at the current step, with what it invokes
  unfoldable pub run_current : Replica M → Replica M
  run_current r =
      let (p, did, done) = try_complete run_step r.window.current_step_id r.window in
      if done then record { window = step_on (erased p); log = r.log ++ invoked did } else r

pub record Cluster (M : Type 0) : Type 0 where
  pub replicas : ℕ → Replica M
  pub sent : List (ℕ × Packet M)

abbrev pub created_cluster : {M : Type 0} → Cluster M
created_cluster = record { replicas = λ i. record { window = created; log = [] }; sent = [] }

abbrev pub tagged : {M : Type 0} → ℕ → List (Packet M) → List (ℕ × Packet M)
tagged id ps = map (λ p. (id, p)) ps

-- Node `i` goes on to the window `p`, and the broadcasts of `acts` by its step `id` are sent.
abbrev pub went_on :
    {M : Type 0} → Cluster M → ℕ → ℕ → Phantom (Voting M) → List (Action M) → Cluster M
went_on s i id p acts = record {
  replicas = update s.replicas i (record (s.replicas i) { window = p });
  sent = s.sent ++ tagged id (packets acts);
}

-- `config` is the node set, and `Proposed id` says what clients hand to `apply` for the step `id`. Ids are
-- left.
pub data Step {M : Type 0} (config : NodesSet) (Proposed : ℕ → CarryMsg2 M → Type 0) (s : Cluster M)
    : Cluster M → Type 0 where
  applies :
      (i id : ℕ) (c : CarryMsg2 M) (p : Phantom (Voting M)) (acts : List (Action M))
      → contains i config ≡ true
      → Proposed id c
      → id + 1 < id_mod
      → apply i config c (s.replicas i).window ≡ (p, acts, some id)
      → Step config Proposed s (went_on s i id p acts)
  receives :
      (i id : ℕ) (m : Packet M) (p : Phantom (Voting M)) (acts : List (Action M))
      → contains i config ≡ true
      → In (id, m) s.sent
      → id + 1 < id_mod
      → call_phantom id (method i m) (s.replicas i).window ≡ (p, acts)
      → Step config Proposed s (went_on s i id p acts)
  rounds :
      (i : ℕ)
      → Step config Proposed s
          (record s { replicas = update s.replicas i (run_current (s.replicas i)) })

pub data Reach {M : Type 0} (config : NodesSet) (Proposed : ℕ → CarryMsg2 M → Type 0)
    : Cluster M → Type 0 where
  here : Reach config Proposed created_cluster
  next :
      {s t : Cluster M}
      → Reach config Proposed s
      → Step config Proposed s t
      → Reach config Proposed t
