-- ===== src/Voting/Once.antt =====
-- A step at one node, driven by any sequence of calls: it commits once.
use replob_prototype.Prelude.{
  ◌⊎◌, ℕ, suc, ◌+◌, ◌*◌, ◌≡◌, ◌≢◌, refl, ap, Bool, true, false, ◌==◌, ltb, Option, none, some, List,
  [], ◌∷◌, ◌++◌, length, if◌then◌else◌, arith, Bool-cases, inl, inr,
}
use replob_prototype.Std.Order.{nat_order}
use replob_prototype.Std.Set.{insert, insert_all}
use replob_prototype.Voting.{
  CarryMsg2, CarrySet, NodesSet, Voting, Action, send_vote, send_commit, complete, invoke,
  cleanup_all, carry_order, fresh, is_completed, vote, commit, start, adopt, decide, tally, timeout,
  fail, is_consistent, is_consistent_sets, same_least,
}

-- The calls that reach the `Voting` of a step: by the client, from other nodes and from the timer.
pub data Call (M : Type 0) : Type 0 where
  starts : CarryMsg2 M → Call M
  votes : CarrySet M → ℕ → NodesSet → Call M
  commits : CarrySet M → Call M
  times_out : Call M

insert-ne-nil : (n : ℕ) (s : NodesSet) → insert n s ≢ []
unfolding insert
insert-ne-nil n [] = λ e. cc
insert-ne-nil n (x ∷ xs) = ground arith

is_consistent_sets-some : (t u : NodesSet) → t ≢ [] → (b : Bool) × (is_consistent_sets t u ≡ some b)
unfolding is_consistent_sets same_least
is_consistent_sets-some [] u h = absurd (h refl)
is_consistent_sets-some (x ∷ xs) [] h = (true, ground arith)
is_consistent_sets-some (x ∷ xs) (y ∷ ys) h = (
  (if ltb (length (y ∷ ys)) (length (x ∷ xs) * 2)
      then true
      else if ltb (length (x ∷ xs) * 2) (length (y ∷ ys))
      then false
      else x == y),
  ground arith,
)

module _ {M : Type 0} where
  -- `none` where C++ leaves `timeout` undefined.
  unfoldable pub call : ℕ → NodesSet → Call M → Voting M → Option (Voting M × List (Action M))
  call this_node config (starts c) v = some (start this_node config c v)
  call this_node config (votes cs src ns) v = some (vote this_node cs src ns v)
  call this_node config (commits cs) v = some (commit cs v)
  call this_node config times_out v = timeout this_node v

  abbrev pub put_before :
      List (Action M) → Option (Voting M × List (Action M)) → Option (Voting M × List (Action M))
  put_before acts none = none
  put_before acts (some (v, more)) = some (v, acts ++ more)

  unfoldable pub run : ℕ → NodesSet → List (Call M) → Voting M → Option (Voting M × List (Action M))
  run this_node config [] v = some (v, [])
  run this_node config (c ∷ cs) v = elim (call this_node config c v) [
    | none ↦ none
    | some (w, acts) ↦ put_before acts (run this_node config cs w)
  ]

  -- the sets that have been broadcast as committed
  unfoldable pub committed : List (Action M) → List (CarrySet M)
  committed [] = []
  committed (send_vote cs src ns ∷ acts) = committed acts
  committed (send_commit cs ∷ acts) = cs ∷ committed acts
  committed (complete ∷ acts) = committed acts
  committed (invoke m ∷ acts) = committed acts
  committed (cleanup_all ∷ acts) = committed acts

  -- how often the phantom has been completed
  unfoldable pub completions : List (Action M) → ℕ
  completions [] = 0
  completions (send_vote cs src ns ∷ acts) = completions acts
  completions (send_commit cs ∷ acts) = completions acts
  completions (complete ∷ acts) = suc (completions acts)
  completions (invoke m ∷ acts) = completions acts
  completions (cleanup_all ∷ acts) = completions acts

  -- The commits of a call or of a run that takes `v` to `r.0`.
  pub record CommitsOnce (v : Voting M) (r : Voting M × List (Action M)) : Type 0 where
    pub stays :
        is_completed v.state ≡ true
        → (is_completed r.0.state ≡ true)
          × (r.0.carries ≡ v.carries)
          × (committed r.1 ≡ [])
          × (completions r.1 ≡ 0)
    pub commits_now :
        is_completed v.state ≡ false
        → (committed r.1 ≡ (if is_completed r.0.state then r.0.carries ∷ [] else []))
          × (completions r.1 ≡ (if is_completed r.0.state then 1 else 0))

  commit-CommitsOnce : (cs : CarrySet M) (v : Voting M) → CommitsOnce v (commit cs v)
  unfolding commit committed completions
  commit-CommitsOnce cs v = record { stays = λ h. ground arith; commits_now = λ h. ground arith }

  vote-CommitsOnce :
      (this_node : ℕ) (cs : CarrySet M) (src : ℕ) (ns : NodesSet) (v : Voting M)
      → CommitsOnce v (vote this_node cs src ns v)
  unfolding vote adopt decide tally commit committed completions
  vote-CommitsOnce this_node cs src ns v = record {
    stays = λ h. ground arith;
    commits_now = λ h. ground arith;
  }

  vote-voted :
      (this_node : ℕ) (cs : CarrySet M) (src : ℕ) (ns : NodesSet) (v : Voting M)
      → v.voted_set ≢ [] ⊎ (is_completed v.state ≡ false)
      → (vote this_node cs src ns v).0.voted_set ≢ []
  unfolding vote decide tally commit
  vote-voted this_node cs src ns v h = ground (
    arith,
    insert-ne-nil this_node
        (insert src (adopt ns (record v { carries = insert_all v.carries cs })).voted_set),
  )

  commit-voted : (cs : CarrySet M) (v : Voting M) → (commit cs v).0.voted_set ≡ v.voted_set
  unfolding commit
  commit-voted cs v = ground arith

  -- One call, at a step where a node has voted: it has a result, and commits once at most.
  record Calls (v : Voting M) (r : Voting M × List (Action M)) : Type 0 where
    once : CommitsOnce v r
    voters : r.0.voted_set ≢ []

  fail-Calls : (v : Voting M) → v.voted_set ≢ [] → Calls v (fail v)
  unfolding fail committed completions
  fail-Calls v h = record {
    once = record { stays = λ e. (e, refl, refl, refl); commits_now = λ e. ground arith };
    voters = h;
  }

  timeout-Calls :
      (this_node : ℕ) (v : Voting M)
      → v.voted_set ≢ []
      → (r : Voting M × List (Action M)) × (timeout this_node v ≡ some r) × Calls v r
  unfolding timeout is_consistent
  timeout-Calls this_node v h =
      let (b, e) = is_consistent_sets-some v.voted_set v.nodes h in
      elim (Bool-cases b) [
        | inl go ↦ (
          vote this_node v.carries this_node v.voted_set v,
          rw (e, go, timeout) refl,
          record {
            once = vote-CommitsOnce this_node v.carries this_node v.voted_set v;
            voters = vote-voted this_node v.carries this_node v.voted_set v (inl h);
          },
        )
        | inr stop ↦ (fail v, rw (e, stop, timeout) refl, fail-Calls v h)
      ]

  start-CommitsOnce :
      (this_node : ℕ) (config : NodesSet) (c : CarryMsg2 M) (v : Voting M)
      → CommitsOnce v (start this_node config c v)
  unfolding start
  start-CommitsOnce this_node config c v =
      let o =
        vote-CommitsOnce this_node (c ∷ []) this_node config (record v { timer = some 500 }) in
      record { stays = o.stays; commits_now = o.commits_now }

  start-voted :
      (this_node : ℕ) (config : NodesSet) (c : CarryMsg2 M) (v : Voting M)
      → v.voted_set ≢ [] ⊎ (is_completed v.state ≡ false)
      → (start this_node config c v).0.voted_set ≢ []
  unfolding start
  start-voted this_node config c v h =
      vote-voted this_node (c ∷ []) this_node config (record v { timer = some 500 }) h

  call-Calls :
      (this_node : ℕ) (config : NodesSet) (c : Call M) (v : Voting M)
      → v.voted_set ≢ []
      → (r : Voting M × List (Action M)) × (call this_node config c v ≡ some r) × Calls v r
  unfolding call
  call-Calls this_node config (starts c) v h = (
    start this_node config c v,
    refl,
    record {
      once = start-CommitsOnce this_node config c v;
      voters = start-voted this_node config c v (inl h);
    },
  )
  call-Calls this_node config (votes cs src ns) v h = (
    vote this_node cs src ns v,
    refl,
    record {
      once = vote-CommitsOnce this_node cs src ns v;
      voters = vote-voted this_node cs src ns v (inl h);
    },
  )
  call-Calls this_node config (commits cs) v h = (
    commit cs v,
    refl,
    record { once = commit-CommitsOnce cs v; voters = rw (commit-voted cs v) h },
  )
  call-Calls this_node config times_out v h = timeout-Calls this_node v h

  committed-append : (xs ys : List (Action M)) → committed (xs ++ ys) ≡ committed xs ++ committed ys
  unfolding committed
  committed-append [] ys = refl
  committed-append (send_vote cs src ns ∷ xs) ys = committed-append xs ys
  committed-append (send_commit cs ∷ xs) ys = ap (◌∷◌ cs) (committed-append xs ys)
  committed-append (complete ∷ xs) ys = committed-append xs ys
  committed-append (invoke m ∷ xs) ys = committed-append xs ys
  committed-append (cleanup_all ∷ xs) ys = committed-append xs ys

  completions-append :
      (xs ys : List (Action M)) → completions (xs ++ ys) ≡ completions xs + completions ys
  unfolding completions
  completions-append [] ys = omega arith
  completions-append (send_vote cs src ns ∷ xs) ys = completions-append xs ys
  completions-append (send_commit cs ∷ xs) ys = completions-append xs ys
  completions-append (complete ∷ xs) ys = omega (arith, completions-append xs ys)
  completions-append (invoke m ∷ xs) ys = completions-append xs ys
  completions-append (cleanup_all ∷ xs) ys = completions-append xs ys

  CommitsOnce-trans :
      (u v w : Voting M) (xs ys : List (Action M))
      → CommitsOnce u (v, xs)
      → CommitsOnce v (w, ys)
      → CommitsOnce u (w, xs ++ ys)
  CommitsOnce-trans u v w xs ys f g = record {
    stays =
        λ h. ground (arith, f.stays h, g.stays, committed-append xs ys, completions-append xs ys);
    commits_now = λ h. ground (
      arith,
      f.commits_now h,
      g.stays,
      g.commits_now,
      committed-append xs ys,
      completions-append xs ys,
    );
  }

  CommitsOnce-none : (v : Voting M) → CommitsOnce v (v, [])
  unfolding committed completions
  CommitsOnce-none v = record {
    stays = λ e. (e, refl, refl, refl);
    commits_now = λ e. rw e (refl, refl);
  }

  run-Calls :
      (this_node : ℕ) (config : NodesSet) (cs : List (Call M)) (v : Voting M)
      → v.voted_set ≢ []
      → (r : Voting M × List (Action M)) × (run this_node config cs v ≡ some r) × CommitsOnce v r
  unfolding run
  run-Calls this_node config [] v h = ((v, []), refl, CommitsOnce-none v)
  run-Calls this_node config (c ∷ cs) v h =
      let (r, e, once) = call-Calls this_node config c v h in
      let (q, f, rest) = run-Calls this_node config cs r.0 once.voters in
      ((q.0, r.1 ++ q.1), rw (e, run, f) refl, CommitsOnce-trans v r.0 q.0 r.1 q.1 once.once rest)

  -- A step commits once: a `Voting` that a client starts, and to which then any votes, commits, further
  -- starts and timeouts come in any order, always has a result. It has broadcast no commit and never
  -- completed the phantom while it is not completed, and otherwise has done each exactly once, the commit
  -- with the carries that it holds.
  pub run-CommitsOnce :
      (this_node : ℕ) (config : NodesSet) (c : CarryMsg2 M) (cs : List (Call M))
      → (v : Voting M) × (acts : List (Action M)) × (run this_node config (starts c ∷ cs) fresh
          ≡ some (v, acts))
        × (committed acts ≡ (if is_completed v.state then v.carries ∷ [] else []))
        × (completions acts ≡ (if is_completed v.state then 1 else 0))
  unfolding run call
  run-CommitsOnce this_node config c cs =
      let r = start this_node config c fresh in
      let (q, f, rest) =
        run-Calls this_node config cs r.0 (start-voted this_node config c fresh (inr refl)) in
      let whole =
        CommitsOnce-trans fresh r.0 q.0 r.1 q.1 (start-CommitsOnce this_node config c fresh) rest in
      let (a, b) = whole.commits_now refl in (q.0, r.1 ++ q.1, rw f refl, a, b)
