-- ===== src/Replob/Agreement.antt =====
-- The nodes of a cluster that runs the first protocol agree: on each step, and on the log.
mod Examples
use replob_prototype.Prelude.{
  ℕ, ◌≤◌, ◌≡◌, refl, sym, ◌∙◌, subst, Option, none, some, List, [], ◌∷◌, ◌++◌, All, All-In,
  All-append, All-map, In, inl, arith, length, update_both, update_all,
}
use replob_prototype.Std.Order.{nat_order}
use replob_prototype.Std.Map.{lookup}
use replob_prototype.Ids.{UniqueId}
use replob_prototype.Replob.{
  CarryMsg, Replob, Action, get_step, step_at, vote, commit, apply, created, fresh,
}
use replob_prototype.Replob.Window.{IsWindow}
use replob_prototype.Replob.Calls
use replob_prototype.Replob.Calls.{Step-kept}
use replob_prototype.Replob.Order.{IsWindow-IsKept, Reach-IsWindow}
use replob_prototype.Replob.Cluster.{
  vote_call, commit_call, broadcasts, invocations, Members, after, Step, applies, takes_vote,
  takes_commit, Reach, here, next,
}
use replob_prototype.Replob.Ballot.{Said}
use replob_prototype.Replob.Agreed.{IsCommit, commit_once}
use replob_prototype.Replob.Logs.{IsLog-start}
use replob_prototype.Replob.Member.{Good, Fits, IsSent, IsSent-Extends, Good-Extends, some-inj}
use replob_prototype.Replob.Committed.{commit-Fits, IsCommit-id}
use replob_prototype.Replob.Moves.{Moved, vote-Moved, apply-Moved}

module _ {M : Type 0} (payload : UniqueId → M) (config : List ℕ) where
  record Inv (s : Members M) : Type 0 where
    said : Said
    good : (i : ℕ) → Good payload config said i (s.at_node i) (s.log i)
    windows : (i : ℕ) → IsWindow (s.at_node i)
    fair : All (IsSent payload config said) s.sent

  Inv-after :
      (s : Members M) (i : ℕ) (o : Option (Replob M × List (Action M)))
      (q : Replob M × List (Action M)) (inv : Inv s)
      → Moved payload config inv.said i (s.log i) o
      → o ≡ some q
      → IsWindow q.0
      → Inv (after s i q)
  Inv-after s i o q inv (said', x, n, p, e, f) h w =
      let (g, b) = subst (Fits payload config said' i (s.log i)) (some-inj (sym e ∙ h)) f in
      record {
        said = said';
        good =
            update_both (λ j r l. Good payload config said' j r l) s.at_node s.log i q.0
              (s.log i ++ invocations q.1) g
              (λ j ne.
                Good-Extends payload config inv.said said' j (s.at_node j) (s.log j) x
                  (λ t. n j t ne) (inv.good j));
        windows = update_all (λ j r. IsWindow r) s.at_node i q.0 w (λ j ne. inv.windows j);
        fair =
            All-append (IsSent payload config said') s.sent (broadcasts q.1)
              (All-map (IsSent payload config inv.said) (IsSent payload config said')
                (λ c. IsSent-Extends payload config inv.said said' c x) s.sent inv.fair)
              b;
      }

  Inv-Step : {s t : Members M} → Step payload config s t → Inv s → Inv t
  Inv-Step {s} (applies i k q member b e) inv =
      Inv-after s i (apply i (length config) (payload k) k (s.at_node i)) q inv
        (apply-Moved payload config inv.said i k (s.at_node i) (s.log i) b member (inv.windows i)
          (inv.good i))
        e (Step-kept IsWindow-IsKept (Calls.applies (payload k) k q b e) (inv.windows i))
  Inv-Step {s} (takes_vote i m voter q member h b e) inv =
      let (own, cast, w) =
        All-In (IsSent payload config inv.said) s.sent inv.fair (vote_call m voter) h in
      Inv-after s i (vote i (length config) m voter (s.at_node i)) q inv
        (vote-Moved payload config inv.said i m voter (s.at_node i) (s.log i) b member own
          (inl (cast, w)) (inv.good i))
        e (Step-kept IsWindow-IsKept (Calls.votes m voter q b e) (inv.windows i))
  Inv-Step {s} (takes_commit i c cs q member h b e) inv =
      let (id, a) =
        All-In (IsSent payload config inv.said) s.sent inv.fair (commit_call (c ∷ cs)) h in
      let (x, y, f) =
        commit-Fits payload config inv.said i c cs (s.at_node i) (s.log i) b
          (subst (λ n. IsCommit payload config inv.said n (c ∷ cs))
            (sym (IsCommit-id payload config inv.said id c cs a)) a)
          (inv.good i) in
      Inv-after s i (commit (c ∷ cs) (s.at_node i)) q inv
        (inv.said, λ j t k z. z, λ j t ne z. z, x, y, f) e
        (Step-kept {this_node = i} {nodes_count = length config} IsWindow-IsKept
          (Calls.commits c cs q b e) (inv.windows i))

  abbrev nothing_said : Said
  nothing_said j t = none

  created-Good : (i : ℕ) → Good payload config nothing_said i created []
  unfolding get_step step_at lookup
  created-Good i = record {
    open_steps = λ id d e. let z : d ≡ fresh = ground (arith, e) in rw z ((λ _. refl), (tt, tt));
    committed = λ id d e. cc;
    logged = refl;
  }

  Reach-Inv : {s : Members M} → Reach payload config s → Inv s
  Reach-Inv here = record {
    said = nothing_said;
    good = created-Good;
    windows = λ i. Reach-IsWindow {this_node = i} {nodes_count = length config} Calls.here;
    fair = tt;
  }
  Reach-Inv (next r p) = Inv-Step p (Reach-Inv r)

  -- In any run of the cluster the messages that one node has invoked are the start of those of any other that
  -- has come to the same step or a later one.
  pub same_log :
      {s : Members M}
      → Reach payload config s
      → (i j : ℕ) → (s.at_node i).commiting_step_id ≤ (s.at_node j).commiting_step_id
      → (rest : List M) × (s.log j ≡ s.log i ++ rest)
  same_log {s} r i j h =
      let inv = Reach-Inv r in
      IsLog-start payload config inv.said (s.at_node i).commiting_step_id
        (s.at_node j).commiting_step_id (s.log i) (s.log j) h (inv.good i).logged
        (inv.good j).logged

  -- In any run of the cluster the commits that are broadcast for one step, by whichever nodes, are the same.
  pub one_commit :
      {s : Members M} {c d : CarryMsg M} {cs ds : List (CarryMsg M)}
      → Reach payload config s
      → In (commit_call (c ∷ cs)) s.sent
      → In (commit_call (d ∷ ds)) s.sent
      → c.step_id ≡ d.step_id
      → c ∷ cs ≡ d ∷ ds
  one_commit {s} {c} {d} {cs} {ds} r h k same =
      let inv = Reach-Inv r in
      let sent = All-In (IsSent payload config inv.said) s.sent inv.fair in
      let (m, x) = sent (commit_call (c ∷ cs)) h in
      let (n, y) = sent (commit_call (d ∷ ds)) k in
      let one : m ≡ n =
        sym (IsCommit-id payload config inv.said m c cs x)
        ∙ same
        ∙ IsCommit-id payload config inv.said n d ds y in
      commit_once payload config inv.said n (c ∷ cs) (d ∷ ds)
        (subst (λ id. IsCommit payload config inv.said id (c ∷ cs)) one x) y
