-- ===== src/Replob/Cast.antt =====
-- A vote at a node of a cluster of the first protocol.
use replob_prototype.Prelude.{
  ℕ, ◌≡◌, ◌≢◌, refl, sym, ap, ◌∙◌, subst, Bool, true, false, ◌==◌, ==_iff, Bool-cases, none, some,
  List, [], ◌∷◌, inl, inr, arith, length,
}
use mathlib.Core.List.{append-nil}
use replob_prototype.Std.Order.{nat_order}
use replob_prototype.Std.Set.{insert, contains}
use replob_prototype.Std.Set.Laws.{contains-insert}
use replob_prototype.Ids.{UniqueId}
use replob_prototype.Replob.{
  CarryMsg, MsgData, StepData, is_initial, is_completed, Replob, Action, get_step, put_step,
  send_vote, votes_count, may_commit, carries, voted_step, vote_step, vote,
}
use replob_prototype.Replob.Window.{HasRoom, get_step-some}
use replob_prototype.Replob.Calls.{
  voted_step-cons, carries-cons, put_step-HasRoom, voted_step-waits,
}
use replob_prototype.Replob.Cluster.{broadcasts, invocations}
use replob_prototype.Replob.Ballot.{
  Said, Extends, IsVotes, IsVotes-insert, IsBallot, IsBallot-with_msg, IsBallot-Extends,
}
use replob_prototype.Replob.Agreed.{IsCommit, carries-IsCommit}
use replob_prototype.Replob.Logs.{AreCommits-Extends, IsLog-Extends}
use replob_prototype.Replob.Member.{Good, IsOpen, Fits, Good-put_step, true-false}
use replob_prototype.Replob.Committed.{commit-Fits, nothing-Fits}

module _ {M : Type 0} (payload : UniqueId → M) (config : List ℕ) where
  -- The vote of `voter` for `m` has been cast.
  abbrev pub IsCast : Said → CarryMsg M → ℕ → Type 0
  IsCast said m voter = (said voter m.step_id ≡ some m.msg_id) × (contains voter config ≡ true)

  module _ (said : Said) (i : ℕ) (m : CarryMsg M) (voter : ℕ) (own : m.msg ≡ payload m.msg_id)
      (cast : IsCast said m voter) where
    adds-voter :
        (s : List ℕ)
        → IsVotes payload config m.step_id said m.msg_id s
        → IsVotes payload config m.step_id said m.msg_id (insert voter s)
          × ((j : ℕ) × (contains j (insert voter s) ≡ true))
    adds-voter s v = (
      IsVotes-insert payload config m.step_id said m.msg_id voter s cast.0 cast.1 v,
      (voter, ground (arith, contains-insert voter voter s)),
    )

    adds-both :
        IsCast said m i
        → (s : List ℕ) → IsVotes payload config m.step_id said m.msg_id s
        → IsVotes payload config m.step_id said m.msg_id (insert i (insert voter s))
          × ((j : ℕ) × (contains j (insert i (insert voter s)) ≡ true))
    adds-both mine s v = (
      IsVotes-insert payload config m.step_id said m.msg_id i (insert voter s) mine.0 mine.1
          (adds-voter s v).0,
      (i, ground (arith, contains-insert i i (insert voter s))),
    )

    voted_step-IsOpen :
        (d : StepData M)
        → (is_initial d.state ≡ true → IsCast said m i)
        → IsBallot payload config m.step_id said d.voted_nodes
        → IsOpen payload config said i m.step_id (voted_step i m voter d)
    unfolding voted_step
    voted_step-IsOpen d mine h = elim (Bool-cases (is_initial d.state)) [
      | inl y ↦ rw y (
        λ z. absurd (true-false (sym z)),
        IsBallot-with_msg payload config m.step_id said (λ s. insert i (insert voter s)) m own
            (adds-both (mine y)) d.voted_nodes h,
      )
      | inr n ↦ rw n (
        λ z. absurd (true-false (sym z ∙ n)),
        IsBallot-with_msg payload config m.step_id said (insert voter) m own adds-voter
            d.voted_nodes h,
      )
    ]

    module _ (d old : StepData M) (r : Replob M) (log : List M) (b : HasRoom 2 m.step_id r)
        (e : get_step m.step_id r ≡ some old) (w : is_completed d.state ≡ false)
        (good : (x : StepData M)
          → x.voted_nodes ≡ d.voted_nodes
          → x.state ≡ d.state
          → Good payload config said i (put_step m.step_id x r) log) where
      -- After the votes are entered
      vote_step-Fits :
          (can_vote : Bool)
          → (can_vote ≡ true → IsCast said m i)
          → IsBallot payload config m.step_id said d.voted_nodes
          → ((x : _) × (rest : List (UniqueId × MsgData M)) × (d.voted_nodes ≡ x ∷ rest))
          → (q : Replob M × List (Action M)) × (vote_step i (length config) m can_vote d r ≡ some q)
            × Fits payload config said i log q
      unfolding vote_step may_commit broadcasts invocations
      vote_step-Fits can_vote mine h (x, rest, v) =
          elim (Bool-cases (votes_count d.voted_nodes == length config)) [
            | inl y ↦
                let first = carries-cons m.step_id d.voted_nodes x rest v in
                let (q, a, f) =
                  commit-Fits payload config said i
                    (record { msg = x.1.msg; step_id = m.step_id; msg_id = x.0 })
                    (carries m.step_id rest) (put_step m.step_id d r) log
                    (put_step-HasRoom m.step_id d r b)
                    (subst (IsCommit payload config said m.step_id) first (
                      carries-IsCommit payload config said m.step_id d.voted_nodes h
                        ((==_iff (votes_count d.voted_nodes) (length config)).0 y)))
                    (good d refl refl) in
                (q, rw (y, first) a, f)
            | inr n ↦ elim (Bool-cases can_vote) [
              | inl z ↦ (
                (
                  put_step m.step_id (record d { availability_timer = some 200 }) r,
                  send_vote m i ∷ [],
                ),
                rw (n, z) refl,
                (
                  rw (append-nil log) (good (record d { availability_timer = some 200 }) refl refl),
                  ((own, (mine z).0, (mine z).1), tt),
                ),
              )
              | inr z ↦ (
                (put_step m.step_id d r, []),
                rw (n, z) refl,
                nothing-Fits payload config said i (put_step m.step_id d r) log (good d refl refl),
              )
            ]
          ]

  -- A vote for a step that is not outdated, where `said'` is `said` with the vote that the node casts itself
  -- if the step is initial.
  pub vote-Fits :
      (said said' : Said) (i : ℕ) (m : CarryMsg M) (voter : ℕ) (d : StepData M) (r : Replob M)
      (log : List M)
      → HasRoom 2 m.step_id r
      → get_step m.step_id r ≡ some d
      → m.msg ≡ payload m.msg_id
      → IsCast said' m voter
      → (is_initial d.state ≡ true → IsCast said' m i)
      → Extends said said'
      → ((j : ℕ) → m.step_id ≢ j → said i j ≡ none → said' i j ≡ none)
      → Good payload config said i r log
      → (q : Replob M × List (Action M)) × (vote i (length config) m voter r ≡ some q)
        × Fits payload config said' i log q
  unfolding vote
  vote-Fits said said' i m voter d r log b e own cast mine x n g =
      let v = voted_step i m voter d in
      let waits = voted_step-waits i m voter d (get_step-some m.step_id r d e).1 in
      let opened = voted_step-IsOpen said' i m voter own cast d mine (
        IsBallot-Extends payload config m.step_id said said' d.voted_nodes x
          (g.open_steps m.step_id d e).1) in
      let good =
        λ (y : StepData M) (same : y.voted_nodes ≡ v.voted_nodes) (state : y.state ≡ v.state).
          Good-put_step payload config said' i m.step_id y r log b.0 (ap is_completed state ∙ waits)
            (
              λ z. opened.0 (sym (ap is_initial state) ∙ z),
              subst (IsBallot payload config m.step_id said') (sym same) opened.1,
            )
            (λ j z ne h.
              let (p, q) = g.open_steps j z h in
              (λ s. n j ne (p s), IsBallot-Extends payload config j said said' z.voted_nodes x q))
            (AreCommits-Extends payload config said said' r.steps x g.committed)
            (IsLog-Extends payload config said said' r.commiting_step_id log x g.logged) in
      rw (vote, e)
        (vote_step-Fits said' i m voter own cast v d r log b e waits good (is_initial d.state) mine
          opened.1 (voted_step-cons i m voter d))
