-- ===== src/Replob/Member.antt =====
-- What holds at a node of a cluster of the first protocol, and that storing and committing a step keep it.
use replob_prototype.Prelude.{
  ℕ, ◌+◌, ◌<◌, ◌≡◌, ◌≢◌, sym, ap, ◌∙◌, subst, true, false, ◌==◌, ==_iff, ◌⊎◌, Bool-cases, none,
  some, List, ◌++◌, All, inl, inr, arith,
}
use replob_prototype.Std.Order.{nat_order}
use replob_prototype.Std.Set.{contains}
use replob_prototype.Std.Map.{lookup}
use replob_prototype.Ids.{UniqueId}
use replob_prototype.Replob.{
  id_mod, StepData, is_initial, is_completed, Replob, Action, get_step, step_at, put_step,
}
use replob_prototype.Replob.Processing.{Processes}
use replob_prototype.Replob.Window.{lookup-put_step, put_step-fields}
use replob_prototype.Replob.Cluster.{Broadcast, vote_call, commit_call, broadcasts, invocations}
use replob_prototype.Replob.Ballot.{Said, Extends, IsBallot, IsBallot-Extends}
use replob_prototype.Replob.Agreed.{IsCommit, IsAgreed-Extends}
use replob_prototype.Replob.Logs.{IsLog, AreCommits, IsLog-Extends, AreCommits-Extends}

pub true-false : true ≢ false
true-false h = cc

pub some-inj : {A : Type 0} {a b : A} → some a ≡ some b → a ≡ b
some-inj {a} h = ap (λ o. elim o [ none ↦ a | some x ↦ x ]) h

module _ {M : Type 0} where
  pub get_step-put_step :
      (j id : ℕ) (d x : StepData M) (r : Replob M)
      → id + 1 < id_mod
      → get_step j (put_step id d r) ≡ some x
      → ((id ≡ j) × (x ≡ d)) ⊎ ((id ≢ j) × (get_step j r ≡ some x))
  unfolding get_step step_at
  get_step-put_step j id d x r b h = elim (Bool-cases (id == j)) [
    | inl y ↦ inl ((==_iff id j).0 y, ground (arith, h, y, lookup-put_step j id d r))
    | inr y ↦ inr (
      λ same. true-false (sym ((==_iff id j).1 same) ∙ y),
      ground (arith, h, y, lookup-put_step j id d r, (put_step-fields id d r b).0),
    )
  ]

  pub get_step-processed :
      (j k : ℕ) (x : StepData M) (p : Replob M) (q : Replob M × List (Action M))
      → Processes p k q
      → get_step j q.0 ≡ some x
      → get_step j p ≡ some x
  unfolding get_step step_at
  get_step-processed j k x p q s h = ground (arith, h, s.moved, s.kept j)

  pub lookup-processed :
      (j k : ℕ) (x : StepData M) (p : Replob M) (q : Replob M × List (Action M))
      → Processes p k q
      → lookup j q.0.steps ≡ some x
      → lookup j p.steps ≡ some x
  lookup-processed j k x p q s h = ground (arith, h, s.kept j)

module _ {M : Type 0} (payload : UniqueId → M) (config : List ℕ) where
  -- The votes that an open step holds have been cast; the node itself has voted unless it is initial.
  abbrev pub IsOpen : Said → ℕ → ℕ → StepData M → Type 0
  IsOpen said i id d =
      (is_initial d.state ≡ true → said i id ≡ none) × IsBallot payload config id said d.voted_nodes

  -- `log` is what the node `i` has invoked.
  pub record Good (said : Said) (i : ℕ) (r : Replob M) (log : List M) : Type 0 where
    pub open_steps : (id : ℕ) (d : StepData M) → get_step id r ≡ some d → IsOpen said i id d
    pub committed : AreCommits payload config said r.steps
    pub logged : IsLog payload config said r.commiting_step_id log

  abbrev pub IsSent : Said → Broadcast M → Type 0
  IsSent said (vote_call m voter) =
      (m.msg ≡ payload m.msg_id)
      × (said voter m.step_id ≡ some m.msg_id)
      × (contains voter config ≡ true)
  IsSent said (commit_call msgs) = (id : ℕ) × IsCommit payload config said id msgs

  -- What a call leaves
  abbrev pub Fits : Said → ℕ → List M → Replob M × List (Action M) → Type 0
  Fits said i log q = Good said i q.0 (log ++ invocations q.1) × All (IsSent said) (broadcasts q.1)

  pub IsSent-Extends :
      (said said' : Said) (b : Broadcast M) → Extends said said' → IsSent said b → IsSent said' b
  IsSent-Extends said said' (vote_call m voter) x (e, s, c) = (e, x voter m.step_id m.msg_id s, c)
  IsSent-Extends said said' (commit_call msgs) x (id, (ks, a, e)) =
      (id, (ks, IsAgreed-Extends payload config said said' id ks x a, e))

  -- What node `i` knows stands when others vote, and when it votes itself in a step that is not open.
  pub Good-Extends :
      (said said' : Said) (i : ℕ) (r : Replob M) (log : List M)
      → Extends said said'
      → ((id : ℕ) → said i id ≡ none → said' i id ≡ none)
      → Good said i r log
      → Good said' i r log
  Good-Extends said said' i r log x n g = record {
    open_steps = λ id d e.
        let (a, b) = g.open_steps id d e in
        (λ h. n id (a h), IsBallot-Extends payload config id said said' d.voted_nodes x b);
    committed = AreCommits-Extends payload config said said' r.steps x g.committed;
    logged = IsLog-Extends payload config said said' r.commiting_step_id log x g.logged;
  }

  -- A step that is not completed is stored; what was known of this step before is not used.
  pub Good-put_step :
      (said : Said) (i id : ℕ) (d : StepData M) (r : Replob M) (log : List M)
      → id + 1 < id_mod
      → is_completed d.state ≡ false
      → IsOpen said i id d
      → ((j : ℕ) (x : StepData M) → id ≢ j → get_step j r ≡ some x → IsOpen said i j x)
      → AreCommits payload config said r.steps
      → IsLog payload config said r.commiting_step_id log
      → Good said i (put_step id d r) log
  Good-put_step said i id d r log b c o others cs l = record {
    open_steps = λ j x e. elim (get_step-put_step j id d x r b e) [
      | inl (same, z) ↦ rw z (subst (λ n. IsOpen said i n d) same o)
      | inr (n, f) ↦ others j x n f
    ];
    committed = λ j x e done. elim (Bool-cases (id == j)) [
      | inl y ↦ absurd (ground (arith, e, done, c, y, lookup-put_step j id d r))
      | inr y ↦ cs j x (ground (arith, e, y, lookup-put_step j id d r)) done
    ];
    logged = subst (λ n. IsLog payload config said n log) (sym (put_step-fields id d r b).0) l;
  }
