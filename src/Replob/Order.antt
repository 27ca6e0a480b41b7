-- ===== src/Replob/Order.antt =====
-- The log of the first protocol at one node: steps are closed for good and applied in their order.
use replob_prototype.Prelude.{
  ==_iff, ◌≢◌, ℕ, zero, suc, ◌+◌, ◌≤◌, ◌<◌, ◌≡◌, refl, sym, ap, ◌∙◌, true, false, ◌==◌, none, some,
  List, [], ◌∷◌, ◌++◌, arith, inl, inr, ◌⊎◌, Option-cases, Bool-cases, subst,
}
use replob_prototype.Std.Map.{lookup}
use replob_prototype.Ids.{UniqueId}
use replob_prototype.Replob.{
  id_mod, CarryMsg, StepData, Replob, Action, send_commit, invoked, get_step, step_at, put_step,
  commit, commit_step, completed_step, vote, apply,
}
use replob_prototype.Replob.Processing.{done, done_at, messages, Processes}
use replob_prototype.Replob.Window.{
  IsWindow, HasRoom, get_step-some, lookup-put_step, put_step-fields, put_step-IsWindow, stored,
  commit_step-cases, commit_step-IsWindow, commit_step-closed,
}
use replob_prototype.Replob.Calls.{
  IsKept, vote-Keeps, apply-Keeps, Step, Reach, here, next, Step-kept,
}

none-ne-some : {A : Type 0} {a : A} → none ≢ some a
none-ne-some h = cc

module _ {M : Type 0} where
  pub IsWindow-IsKept : IsKept {M = M} IsWindow
  IsWindow-IsKept = record {
    by_put = λ id old d r b e c w.
        put_step-IsWindow id d r b (get_step-some id r old e).0 (ground (arith, c)) w;
    by_commit =
        λ id msgs d r b e w. commit_step-IsWindow id msgs d r b (get_step-some id r d e).0 w;
    by_next = λ r b w. record {
      forward = omega (arith, w.forward, b);
      within = λ j d h. omega (arith, w.within j d h, b);
      current_waits = w.current_waits;
    };
  }

  -- The step is outdated: it was processed, or it is completed and waits to be.
  abbrev pub IsClosed : ℕ → Replob M → Type 0
  IsClosed id r = get_step id r ≡ none

  put_step-IsClosed :
      (j id : ℕ) (old d : StepData M) (r : Replob M)
      → id + 1 < id_mod
      → get_step id r ≡ some old
      → IsClosed j r
      → IsClosed j (put_step id d r)
  unfolding get_step step_at
  put_step-IsClosed j id old d r b e c = elim (Bool-cases (id == j)) [
    | inl y ↦
        absurd (none-ne-some (sym c ∙ subst (λ x. get_step x r ≡ some old) ((==_iff id j).0 y) e))
    | inr y ↦ ground (arith, c, y, lookup-put_step j id d r, (put_step-fields id d r b).0)
  ]

  Processes-IsClosed :
      (j k : ℕ) (p : Replob M) (q : Replob M × List (Action M))
      → Processes p k q
      → IsClosed j p
      → IsClosed j q.0
  unfolding get_step step_at
  Processes-IsClosed j k p q s c = ground (arith, s.moved, s.kept j, c)

  commit_step-IsClosed :
      (j id : ℕ) (msgs : List (CarryMsg M)) (d : StepData M) (r : Replob M)
      → HasRoom 1 id r
      → get_step id r ≡ some d
      → IsClosed j r
      → IsClosed j (commit_step id msgs d r).0
  unfolding commit_step
  commit_step-IsClosed j id msgs d r b e c =
      let g = get_step-some id r d e in
      let p = put_step-IsClosed j id d (completed_step msgs d) r b.0 e c in
      elim (commit_step-cases id msgs d r b g.0) [
        | inl (i, k, s) ↦ Processes-IsClosed j (suc k) (stored id msgs d r b g.0) _ s p
        | inr (l, t) ↦ rw t p
      ]

  IsClosed-IsKept : (j : ℕ) → IsKept {M = M} (IsClosed j)
  unfolding get_step step_at
  IsClosed-IsKept j = record {
    by_put = λ id old d r b e c p. put_step-IsClosed j id old d r b e p;
    by_commit = λ id msgs d r b e p. commit_step-IsClosed j id msgs d r b e p;
    by_next = λ r b p. p;
  }

-- Whatever calls come, the steps that a node stores lie between the current step and the next one, and
-- the current step is not a completed one.
pub Reach-IsWindow :
    {M : Type 0} {this_node nodes_count : ℕ} {r : Replob M}
    → Reach this_node nodes_count r
    → IsWindow r
unfolding lookup
Reach-IsWindow here = record { forward = omega arith; within = λ j d h. cc; current_waits = refl }
Reach-IsWindow (next p s) = Step-kept IsWindow-IsKept s (Reach-IsWindow p)

-- Further calls
pub data Later {M : Type 0} (this_node nodes_count : ℕ) (r : Replob M) : Replob M → Type 0 where
  now : Later this_node nodes_count r r
  later :
      {s t : Replob M}
      → Later this_node nodes_count r s
      → Step this_node nodes_count s t
      → Later this_node nodes_count r t

Later-kept :
    {M : Type 0} {this_node nodes_count : ℕ} {P : Replob M → Type 0} {r s : Replob M}
    → IsKept P
    → Later this_node nodes_count r s
    → P r
    → P s
Later-kept k now p = p
Later-kept k (later l s) p = Step-kept k s (Later-kept k l p)

commit-IsClosed :
    {M : Type 0} (c : CarryMsg M) (cs : List (CarryMsg M)) (r : Replob M)
    → HasRoom 1 c.step_id r
    → (q : Replob M × List (Action M)) × (commit (c ∷ cs) r ≡ some q) × IsClosed c.step_id q.0
unfolding commit
commit-IsClosed c cs r b = elim (Option-cases (get_step c.step_id r)) [
  | inl e ↦ ((r, []), rw (commit, e) refl, e)
  | inr (d, e) ↦ (
    commit_step c.step_id (c ∷ cs) d r,
    rw (commit, e) refl,
    commit_step-closed c.step_id (c ∷ cs) d r b (get_step-some c.step_id r d e).0,
  )
]

-- A commit returns, and its step is then closed for good: after any further calls, neither a commit nor
-- a vote for the same step changes anything or is broadcast, whatever messages it brings.
pub commit-closes :
    {M : Type 0} (this_node nodes_count : ℕ) (c : CarryMsg M) (cs : List (CarryMsg M))
    (r : Replob M)
    → HasRoom 1 c.step_id r
    → (q : Replob M × List (Action M)) × (commit (c ∷ cs) r ≡ some q)
      × ((s : Replob M)
          → Later this_node nodes_count q.0 s
          → (e : CarryMsg M) (es : List (CarryMsg M)) (voter : ℕ) → e.step_id ≡ c.step_id
          → (commit (e ∷ es) s ≡ some (s, []))
            × (vote this_node nodes_count e voter s ≡ some (s, [])))
unfolding commit vote
commit-closes this_node nodes_count c cs r b =
    let (q, h, i) = commit-IsClosed c cs r b in
    (
      q,
      h,
      λ s l e es voter same.
          let z : get_step e.step_id s ≡ none =
            rw same (Later-kept (IsClosed-IsKept c.step_id) l i) in
          (rw (commit, z) refl, rw (vote, z) refl),
    )

any-IsKept : {M : Type 0} → IsKept {M = M} (λ r. Unit {0})
any-IsKept = record {
  by_put = λ id old d r b e c p. tt;
  by_commit = λ id msgs d r b e p. tt;
  by_next = λ r b p. tt;
}

-- The calls of a client and of other nodes return: no `VERIFY` fails while ids are left.
calls-return :
    {M : Type 0} (this_node nodes_count : ℕ) (r : Replob M)
    → ((msg : M) (msg_id : UniqueId)
        → HasRoom 2 r.next_step_id r
        → (q : Replob M × List (Action M)) × (apply this_node nodes_count msg msg_id r ≡ some q))
      × ((m : CarryMsg M) (voter : ℕ)
          → HasRoom 2 m.step_id r
          → (q : Replob M × List (Action M)) × (vote this_node nodes_count m voter r ≡ some q))
calls-return this_node nodes_count r = (
  λ msg msg_id b.
      let (q, e, _) = apply-Keeps any-IsKept this_node nodes_count msg msg_id r b tt in (q, e),
  λ m voter b. let (q, e, _) = vote-Keeps any-IsKept this_node nodes_count m voter r b tt in (q, e),
)

module _ {M : Type 0} (id : ℕ) (msgs : List (CarryMsg M)) (d : StepData M) (r : Replob M)
    (b : HasRoom 1 id r) (g : r.commiting_step_id ≤ id) where
  abbrev after : Replob M
  after = stored id msgs d r b g

  lookup_after : (j : ℕ) → id < j → lookup j after.steps ≡ lookup j r.steps
  lookup_after j l = ground (arith, lookup-put_step j id (completed_step msgs d) r, l)

  messages_after : (k c : ℕ) → id < c → messages k c after.steps ≡ messages k c r.steps
  unfolding messages
  messages_after zero c l = refl
  messages_after (suc k) c l =
      rw (lookup_after c l, messages_after k (c + 1) (omega (arith, l))) refl

  abbrev Applied : ℕ → Replob M × List (Action M) → Type 0
  Applied k q =
      (q.1 ≡ invoked msgs ++ messages k (id + 1) r.steps)
      × (q.0.commiting_step_id ≡ id + 1 + k)
      × ((i : ℕ) → i < k → done_at (id + 1 + i) r.steps ≡ true)
      × (done_at (id + 1 + k) r.steps ≡ false)

  Processes-Applied :
      (k : ℕ) (q : Replob M × List (Action M))
      → id ≡ r.commiting_step_id
      → Processes after (suc k) q
      → Applied k q
  unfolding messages
  Processes-Applied k q i p =
      let c : after.commiting_step_id ≡ id =
        (put_step-fields id (completed_step msgs d) r b.0).0 ∙ sym i in
      let own : lookup id after.steps ≡ some (completed_step msgs d) =
        ground (arith, lookup-put_step id id (completed_step msgs d) r) in
      let at : q.0.commiting_step_id ≡ id + 1 + k = omega (arith, p.moved, c) in
      let last : lookup (id + 1 + k) q.0.steps ≡ lookup (id + 1 + k) after.steps =
        ground (arith, p.kept (id + 1 + k), c) in
      (
        p.in_order ∙ rw (c, own, messages_after k (id + 1) (omega arith)) refl,
        at,
        λ j l.
            let z : after.commiting_step_id + suc j ≡ id + 1 + j = omega (arith, c) in
            subst (λ x. done x ≡ true)
              (ap (λ n. lookup n after.steps) z ∙ lookup_after (id + 1 + j) (omega arith))
              (p.were_done (suc j) (omega (arith, l))),
        subst (λ x. done x ≡ false)
            (ap (λ n. lookup n q.0.steps) at ∙ last ∙ lookup_after (id + 1 + k) (omega arith))
            p.stopped,
      )

-- A commit that is not outdated broadcasts the commit. Where its step is a later one it does nothing
-- more. Where it is the current one, the messages of the commit are invoked, and then those of the
-- completed steps that follow, step by step in the order of their ids, up to the first step that is
-- missing or not completed; that step is the current one from then on.
pub commit_order :
    {M : Type 0} (id : ℕ) (msgs : List (CarryMsg M)) (d : StepData M) (r : Replob M)
    → HasRoom 1 id r
    → get_step id r ≡ some d
    → let q = commit_step id msgs d r in
      ((r.commiting_step_id < id)
        × (q.1 ≡ send_commit msgs ∷ [])
        × (q.0.commiting_step_id ≡ r.commiting_step_id))
      ⊎ ((id ≡ r.commiting_step_id)
          × (k : ℕ) × (q.1 ≡ send_commit msgs ∷ invoked msgs ++ messages k (id + 1) r.steps)
          × (q.0.commiting_step_id ≡ id + 1 + k)
          × ((i : ℕ) → i < k → done_at (id + 1 + i) r.steps ≡ true)
          × (done_at (id + 1 + k) r.steps ≡ false))
unfolding commit_step
commit_order id msgs d r b e =
    let g = (get_step-some id r d e).0 in
    elim (commit_step-cases id msgs d r b g) [
      | inl (i, k, p) ↦
          let (a, c, w, t) = Processes-Applied id msgs d r b g k _ i p in
          inr (i, k, ap (λ l. send_commit msgs ∷ l) a, c, w, t)
      | inr (l, t) ↦ inl (l, rw t refl, rw t (put_step-fields id (completed_step msgs d) r b.0).0)
    ]
