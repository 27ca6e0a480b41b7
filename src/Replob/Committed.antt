-- ===== src/Replob/Committed.antt =====
-- A commit at a node of a cluster of the first protocol.
use replob_prototype.Prelude.{
  ℕ, suc, ◌≤◌, ◌≡◌, refl, sym, ap, ◌∙◌, subst, ◌==◌, ==_iff, Bool-cases, some, List, [], ◌∷◌, ◌++◌,
  inl, inr, arith, Option-cases,
}
use mathlib.Core.List.{append-nil}
use replob_prototype.Ids.{UniqueId}
use replob_prototype.Replob.{
  CarryMsg, StepData, is_completed, Replob, Action, get_step, try_process, commit, commit_step,
  completed_step,
}
use replob_prototype.Replob.Processing.{Processes}
use replob_prototype.Replob.Window.{
  HasRoom, get_step-some, lookup-put_step, put_step-fields, stored, commit_step-cases,
}
use replob_prototype.Replob.Cluster.{broadcasts, invocations}
use replob_prototype.Replob.Ballot.{Said}
use replob_prototype.Replob.Agreed.{IsCommit}
use replob_prototype.Replob.Logs.{IsLog, AreCommits, IsLog-messages, broadcasts-messages}
use replob_prototype.Replob.Member.{
  get_step-put_step, get_step-processed, lookup-processed, Good, Fits, true-false,
}

module _ {M : Type 0} (payload : UniqueId → M) (config : List ℕ) (said : Said) (i id : ℕ)
    (msgs : List (CarryMsg M)) (d : StepData M) (r : Replob M) (log : List M) (b : HasRoom 1 id r)
    (e : get_step id r ≡ some d) (c : IsCommit payload config said id msgs)
    (g : Good payload config said i r log) where
  ahead : r.commiting_step_id ≤ id
  ahead = (get_step-some id r d e).0

  abbrev put : Replob M
  put = stored id msgs d r b ahead

  put-open : (j : ℕ) (x : StepData M) → get_step j put ≡ some x → get_step j r ≡ some x
  put-open j x h = elim (get_step-put_step j id (completed_step msgs d) x r b.0 h) [
    | inl (same, z) ↦
        absurd (true-false (sym (ap (λ y. is_completed y.state) z) ∙ (get_step-some j put x h).1))
    | inr (n, f) ↦ f
  ]

  put-AreCommits : AreCommits payload config said put.steps
  put-AreCommits j x h done = elim (Bool-cases (id == j)) [
    | inl y ↦
        let z : x ≡ completed_step msgs d =
          ground (arith, h, y, lookup-put_step j id (completed_step msgs d) r) in
        let same = (==_iff id j).0 y in
        rw z (subst (λ n. IsCommit payload config said n msgs) same c)
    | inr y ↦
        g.committed j x (ground (arith, h, y, lookup-put_step j id (completed_step msgs d) r)) done
  ]

  put-IsLog : IsLog payload config said put.commiting_step_id log
  put-IsLog =
      subst (λ n. IsLog payload config said n log)
        (sym (put_step-fields id (completed_step msgs d) r b.0).0) g.logged

  Good-put : Good payload config said i put log
  Good-put = record {
    open_steps = λ j x h. g.open_steps j x (put-open j x h);
    committed = put-AreCommits;
    logged = put-IsLog;
  }

  processed-Good :
      (k : ℕ) (q : Replob M × List (Action M))
      → Processes put k q
      → Good payload config said i q.0 (log ++ invocations q.1)
  processed-Good k q p = record {
    open_steps = λ j x h. g.open_steps j x (put-open j x (get_step-processed j k x put q p h));
    committed = λ j x h done. put-AreCommits j x (lookup-processed j k x put q p h) done;
    logged =
        rw (p.in_order, p.moved)
          (IsLog-messages payload config said k put.commiting_step_id put.steps log put-AreCommits
            put-IsLog p.were_done);
  }

  -- A commit with what the nodes agree on is broadcast, and what it invokes continues the log.
  pub commit_step-Fits : Fits payload config said i log (commit_step id msgs d r)
  unfolding commit_step broadcasts invocations
  commit_step-Fits = elim (commit_step-cases id msgs d r b ahead) [
    | inl (_, k, p) ↦ (
      processed-Good (suc k) (try_process id put) p,
      ((id, c), rw (p.in_order, broadcasts-messages (suc k) put.commiting_step_id put.steps) tt),
    )
    | inr (_, t) ↦ rw t (rw (append-nil log) Good-put, ((id, c), tt))
  ]

module _ {M : Type 0} (payload : UniqueId → M) (config : List ℕ) where
  pub nothing-Fits :
      (said : Said) (i : ℕ) (r : Replob M) (log : List M)
      → Good payload config said i r log
      → Fits payload config said i log (r, [])
  unfolding broadcasts invocations
  nothing-Fits said i r log g = (rw (append-nil log) g, tt)

  -- The step of a commit is the one that its first carry names.
  pub commit-Fits :
      (said : Said) (i : ℕ) (c : CarryMsg M) (cs : List (CarryMsg M)) (r : Replob M) (log : List M)
      → HasRoom 1 c.step_id r
      → IsCommit payload config said c.step_id (c ∷ cs)
      → Good payload config said i r log
      → (q : Replob M × List (Action M)) × (commit (c ∷ cs) r ≡ some q)
        × Fits payload config said i log q
  unfolding commit
  commit-Fits said i c cs r log b a g = elim (Option-cases (get_step c.step_id r)) [
    | inl e ↦ ((r, []), rw (commit, e) refl, nothing-Fits said i r log g)
    | inr (d, e) ↦ (
      commit_step c.step_id (c ∷ cs) d r,
      rw (commit, e) refl,
      commit_step-Fits payload config said i c.step_id (c ∷ cs) d r log b e a g,
    )
  ]

  -- The id of an agreed step is the one in its carries.
  pub IsCommit-id :
      (said : Said) (id : ℕ) (c : CarryMsg M) (cs : List (CarryMsg M))
      → IsCommit payload config said id (c ∷ cs)
      → c.step_id ≡ id
  IsCommit-id said id c cs ([], a, e) = cc
  IsCommit-id said id c cs (k ∷ ks, a, e) = ap (λ l. elim l [ [] ↦ id | (x ∷ xs) ↦ x.step_id ]) e
