-- ===== src/Replob/Calls.antt =====
-- Any sequence of calls of the first protocol at one node.
use replob_prototype.Prelude.{
  subst, sym, ◌∙◌, ◌<◌, ℕ, ◌+◌, ◌≡◌, refl, ap, ◌%◌, Bool, false, Option, some, List, [], ◌∷◌, arith,
  inl, inr, Option-cases, Bool-cases,
}
use replob_prototype.Std.Order.{nat_order}
use replob_prototype.Std.Set.{insert}
use replob_prototype.Std.Map.{value_or}
use replob_prototype.Ids.{UniqueId, lt_id}
use replob_prototype.Node.{Nodes}
use replob_prototype.Replob.{
  id_mod, CarryMsg, MsgData, StepData, is_completed, is_initial, send_vote, Replob, created, Action,
  get_step, put_step, commit, commit_step, vote, vote_step, voted_step, with_msg, apply, on_timeout,
  may_commit, carries,
}
use replob_prototype.Replob.Window.{HasRoom, get_step-some, put_step-fields, length-put_step}

-- What a call may rely on and has to keep, whichever step it is for: it writes back a step that was
-- not outdated and is not completed, it commits such a step, or it takes an id.
pub record IsKept {M : Type 0} (P : Replob M → Type 0) : Type 0 where
  pub by_put :
      (id : ℕ) (old d : StepData M) (r : Replob M)
      → id + 1 < id_mod
      → get_step id r ≡ some old
      → is_completed d.state ≡ false
      → P r
      → P (put_step id d r)
  pub by_commit :
      (id : ℕ) (msgs : List (CarryMsg M)) (d : StepData M) (r : Replob M)
      → HasRoom 1 id r
      → get_step id r ≡ some d
      → P r
      → P (commit_step id msgs d r).0
  pub by_next :
      (r : Replob M)
      → r.next_step_id + 1 < id_mod
      → P r
      → P (record r { next_step_id = (r.next_step_id + 1) % id_mod })

module _ {M : Type 0} where
  with_msg-cons :
      (f : List ℕ → List ℕ) (m : CarryMsg M) (l : List (UniqueId × MsgData M))
      → (e : UniqueId × MsgData M) × (rest : List (UniqueId × MsgData M)) × (with_msg f m l
          ≡ e ∷ rest)
  unfolding with_msg
  with_msg-cons f m [] = ((m.msg_id, record { voted_set = f []; msg = m.msg }), [], refl)
  with_msg-cons f m ((k, e) ∷ l) = elim (Bool-cases (lt_id m.msg_id k)) [
    | inl x ↦ ((m.msg_id, record { voted_set = f []; msg = m.msg }), (k, e) ∷ l, rw x refl)
    | inr x ↦ elim (Bool-cases (lt_id k m.msg_id)) [
      | inl y ↦ ((k, e), with_msg f m l, rw (x, y) refl)
      | inr y ↦ ((k, record e { voted_set = f e.voted_set }), l, rw (x, y) refl)
    ]
  ]

  pub voted_step-cons :
      (this_node : ℕ) (m : CarryMsg M) (voter : ℕ) (d : StepData M)
      → (e : UniqueId × MsgData M) × (rest : List (UniqueId × MsgData M)) × ((voted_step this_node m
            voter d).voted_nodes
          ≡ e ∷ rest)
  unfolding voted_step
  voted_step-cons this_node m voter d = elim (Bool-cases (is_initial d.state)) [
    | inl e ↦ rw e (with_msg-cons (λ s. insert this_node (insert voter s)) m d.voted_nodes)
    | inr e ↦ rw e (with_msg-cons (insert voter) m d.voted_nodes)
  ]

  pub carries-cons :
      (id : ℕ) (l : List (UniqueId × MsgData M)) (e : UniqueId × MsgData M)
      (rest : List (UniqueId × MsgData M))
      → l ≡ e ∷ rest
      → carries id l ≡ record { msg = e.1.msg; step_id = id; msg_id = e.0 } ∷ carries id rest
  unfolding carries
  carries-cons id l e rest h = ap (carries id) h

  pub put_step-HasRoom :
      (id : ℕ) (d : StepData M) (r : Replob M) → HasRoom 2 id r → HasRoom 1 id (put_step id d r)
  put_step-HasRoom id d r b =
      (b.0, omega (arith, b.1, length-put_step id d r, put_step-fields id d r b.0))

  pub voted_step-waits :
      (this_node : ℕ) (m : CarryMsg M) (voter : ℕ) (d : StepData M)
      → is_completed d.state ≡ false
      → is_completed (voted_step this_node m voter d).state ≡ false
  unfolding voted_step
  voted_step-waits this_node m voter d h = ground (arith, h)

  -- The call returns, and `P` holds afterwards.
  abbrev pub Keeps : (Replob M → Type 0) → Option (Replob M × List (Action M)) → Type 0
  Keeps P o = (q : Replob M × List (Action M)) × (o ≡ some q) × P q.0

module _ {M : Type 0} {P : Replob M → Type 0} (kept : IsKept P) where
  pub commit-Keeps :
      (c : CarryMsg M) (cs : List (CarryMsg M)) (r : Replob M)
      → HasRoom 1 c.step_id r
      → P r
      → Keeps P (commit (c ∷ cs) r)
  unfolding commit
  commit-Keeps c cs r b w = elim (Option-cases (get_step c.step_id r)) [
    | inl e ↦ ((r, []), rw (commit, e) refl, w)
    | inr (d, e) ↦ (
      commit_step c.step_id (c ∷ cs) d r,
      rw (commit, e) refl,
      kept.by_commit c.step_id (c ∷ cs) d r b e w,
    )
  ]

  vote_step-Keeps :
      (this_node nodes_count : ℕ) (m : CarryMsg M) (can_vote : Bool) (d : StepData M) (r : Replob M)
      → HasRoom 2 m.step_id r
      → ((old : StepData M) × (get_step m.step_id r ≡ some old))
      → is_completed d.state ≡ false
      → ((e : UniqueId × MsgData M) × (rest : List (UniqueId × MsgData M)) × (d.voted_nodes
            ≡ e ∷ rest))
      → P r
      → Keeps P (vote_step this_node nodes_count m can_vote d r)
  unfolding vote_step
  vote_step-Keeps this_node nodes_count m can_vote d r b (old, g) c (e, rest, v) w =
      let win = λ (x : StepData M) (h : is_completed x.state ≡ false).
        kept.by_put m.step_id old x r b.0 g h w in
      elim (Bool-cases (may_commit nodes_count d)) [
        | inl y ↦
            rw (y, carries-cons m.step_id d.voted_nodes e rest v)
              (commit-Keeps (record { msg = e.1.msg; step_id = m.step_id; msg_id = e.0 })
                (carries m.step_id rest) (put_step m.step_id d r) (put_step-HasRoom m.step_id d r b)
                (win d c))
        | inr y ↦ elim (Bool-cases can_vote) [
          | inl z ↦
              rw (y, z)
                (
                  (
                    put_step m.step_id (record d { availability_timer = some 200 }) r,
                    send_vote m this_node ∷ [],
                  ),
                  refl,
                  win (record d { availability_timer = some 200 }) c,
                )
          | inr z ↦ rw (y, z) ((put_step m.step_id d r, []), refl, win d c)
        ]
      ]

  -- `vote` never throws, and keeps `P`.
  pub vote-Keeps :
      (this_node nodes_count : ℕ) (m : CarryMsg M) (voter : ℕ) (r : Replob M)
      → HasRoom 2 m.step_id r
      → P r
      → Keeps P (vote this_node nodes_count m voter r)
  unfolding vote
  vote-Keeps this_node nodes_count m voter r b w = elim (Option-cases (get_step m.step_id r)) [
    | inl e ↦ ((r, []), rw (vote, e) refl, w)
    | inr (d, e) ↦
        let g = get_step-some m.step_id r d e in
        rw (vote, e)
          (vote_step-Keeps this_node nodes_count m (is_initial d.state)
            (voted_step this_node m voter d) r b (d, e) (voted_step-waits this_node m voter d g.1)
            (voted_step-cons this_node m voter d) w)
  ]

  pub apply-Keeps :
      (this_node nodes_count : ℕ) (msg : M) (msg_id : UniqueId) (r : Replob M)
      → HasRoom 2 r.next_step_id r
      → P r
      → Keeps P (apply this_node nodes_count msg msg_id r)
  unfolding apply
  apply-Keeps this_node nodes_count msg msg_id r b w =
      vote-Keeps this_node nodes_count
        (record { msg = msg; step_id = r.next_step_id; msg_id = msg_id }) this_node
        (record r { next_step_id = (r.next_step_id + 1) % id_mod }) b (kept.by_next r b.0 w)

  pub on_timeout-keeps :
      (id : ℕ) (n : Nodes) (r : Replob M) → HasRoom 1 id r → P r → P (on_timeout id n r).0
  unfolding on_timeout
  on_timeout-keeps id n r b w = elim (Option-cases (get_step id r)) [
    | inl e ↦ rw (on_timeout, e) w
    | inr (d, e) ↦
        let g = get_step-some id r d e in rw (on_timeout, e) (kept.by_put id d d r b.0 e g.1 w)
  ]

-- A call of the protocol at this node that does not throw. Ids are left for it.
pub data Step {M : Type 0} (this_node nodes_count : ℕ) (r : Replob M) : Replob M → Type 0 where
  applies :
      (msg : M) (msg_id : UniqueId) (q : Replob M × List (Action M))
      → HasRoom 2 r.next_step_id r
      → apply this_node nodes_count msg msg_id r ≡ some q
      → Step this_node nodes_count r q.0
  votes :
      (m : CarryMsg M) (voter : ℕ) (q : Replob M × List (Action M))
      → HasRoom 2 m.step_id r
      → vote this_node nodes_count m voter r ≡ some q
      → Step this_node nodes_count r q.0
  commits :
      (c : CarryMsg M) (cs : List (CarryMsg M)) (q : Replob M × List (Action M))
      → HasRoom 1 c.step_id r
      → commit (c ∷ cs) r ≡ some q
      → Step this_node nodes_count r q.0
  times_out :
      (id : ℕ) (n : Nodes) → HasRoom 1 id r → Step this_node nodes_count r (on_timeout id n r).0

pub data Reach {M : Type 0} (this_node nodes_count : ℕ) : Replob M → Type 0 where
  here : Reach this_node nodes_count created
  next :
      {r s : Replob M}
      → Reach this_node nodes_count r
      → Step this_node nodes_count r s
      → Reach this_node nodes_count s

Keeps-result :
    {M : Type 0} (P : Replob M → Type 0) (o : Option (Replob M × List (Action M)))
    (q : Replob M × List (Action M))
    → Keeps P o
    → o ≡ some q
    → P q.0
Keeps-result P o q (x, e, p) h = subst (λ y. P y.0) (ap (value_or x) (sym e ∙ h)) p

-- What each call keeps holds after a step.
pub Step-kept :
    {M : Type 0} {this_node nodes_count : ℕ} {P : Replob M → Type 0} {r s : Replob M}
    → IsKept P
    → Step this_node nodes_count r s
    → P r
    → P s
Step-kept {this_node} {nodes_count} {P} {r} k (applies msg msg_id q b e) p =
    Keeps-result P (apply this_node nodes_count msg msg_id r) q
      (apply-Keeps k this_node nodes_count msg msg_id r b p) e
Step-kept {this_node} {nodes_count} {P} {r} k (votes m voter q b e) p =
    Keeps-result P (vote this_node nodes_count m voter r) q
      (vote-Keeps k this_node nodes_count m voter r b p) e
Step-kept {P} {r} k (commits c cs q b e) p =
    Keeps-result P (commit (c ∷ cs) r) q (commit-Keeps k c cs r b p) e
Step-kept {r} k (times_out id n b) p = on_timeout-keeps k id n r b p
