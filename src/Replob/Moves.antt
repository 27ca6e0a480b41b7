-- ===== src/Replob/Moves.antt =====
-- A call at a node of a cluster of the first protocol, and the vote that the node may cast in it.
use replob_prototype.Prelude.{
  ℕ, ◌+◌, ◌%◌, ◌≡◌, ◌≢◌, refl, sym, ap, ◌∙◌, true, ◌==◌, ◌⊎◌, ◌&&◌, Bool-cases, Option, none, some,
  List, [], inl, inr, arith, Option-cases, length, if◌then◌else◌,
}
use replob_prototype.Std.Order.{nat_order}
use replob_prototype.Std.Set.{contains}
use replob_prototype.Std.Map.{lookup}
use replob_prototype.Ids.{UniqueId}
use replob_prototype.Replob.{
  id_mod, CarryMsg, StepData, is_initial, Replob, Action, get_step, step_at, vote, apply,
}
use replob_prototype.Replob.Window.{IsWindow, HasRoom}
use replob_prototype.Replob.Ballot.{Said, Extends}
use replob_prototype.Replob.Member.{true-false, Good, Fits}
use replob_prototype.Replob.Committed.{nothing-Fits}
use replob_prototype.Replob.Cast.{IsCast, vote-Fits}

-- `said`, and the vote of node `i` for `k` in the step `id`
abbrev say : ℕ → ℕ → UniqueId → Said → Said
say i id k said j s = if j == i && s == id then some k else said j s

none-some : {k : UniqueId} → none ≢ some k
none-some h = cc

say-Extends :
    (i id : ℕ) (k : UniqueId) (said : Said) → said i id ≡ none → Extends said (say i id k said)
say-Extends i id k said n j s l e = elim (Bool-cases (j == i && s == id)) [
  | inl y ↦
      let a : j ≡ i = ground arith in
      let b : s ≡ id = ground arith in
      absurd (none-some (sym n ∙ sym (ap (λ x. said x id) a) ∙ sym (ap (said j) b) ∙ e))
  | inr y ↦ rw y e
]

module _ {M : Type 0} (payload : UniqueId → M) (config : List ℕ) where
  -- A call at node `i`, in which it may vote itself
  abbrev pub Moved : Said → ℕ → List M → Option (Replob M × List (Action M)) → Type 0
  Moved said i log o =
      (said' : Said) × Extends said said'
      × ((j s : ℕ) → i ≢ j → said j s ≡ none → said' j s ≡ none)
      × (q : Replob M × List (Action M)) × (o ≡ some q)
      × Fits payload config said' i log q

  -- A vote of another node has been cast; a node's own vote opens the step.
  pub vote-Moved :
      (said : Said) (i : ℕ) (m : CarryMsg M) (voter : ℕ) (r : Replob M) (log : List M)
      → HasRoom 2 m.step_id r
      → contains i config ≡ true
      → m.msg ≡ payload m.msg_id
      → (IsCast payload config said m voter
          ⊎ ((voter ≡ i)
              × ((d : StepData M) → get_step m.step_id r ≡ some d → is_initial d.state ≡ true)))
      → Good payload config said i r log
      → Moved said i log (vote i (length config) m voter r)
  unfolding vote
  vote-Moved said i m voter r log b member own cast g = elim (Option-cases (get_step m.step_id r)) [
    | inl e ↦ (
      said,
      λ j s k h. h,
      λ j s ne h. h,
      (r, []),
      rw (vote, e) refl,
      nothing-Fits payload config said i r log g,
    )
    | inr (d, e) ↦ elim (Bool-cases (is_initial d.state)) [
      | inl first ↦
          let said' = say i m.step_id m.msg_id said in
          let x = say-Extends i m.step_id m.msg_id said ((g.open_steps m.step_id d e).0 first) in
          let mine : IsCast payload config said' m i = (ground arith, member) in
          let other : (j : ℕ) → m.step_id ≢ j → said i j ≡ none → said' i j ≡ none =
            λ j ne h. ground (arith, ne, h) in
          let (q, a, f) =
            vote-Fits payload config said said' i m voter d r log b e own
              (elim cast [
                | inl (c, w) ↦ (x voter m.step_id m.msg_id c, w)
                | inr (z, _) ↦ rw z mine
              ])
              (λ _. mine) x other g in
          (said', x, λ j s ne h. ground (arith, ne, h), q, a, f)
      | inr late ↦ elim cast [
        | inl c ↦
            let (q, a, f) =
              vote-Fits payload config said said i m voter d r log b e own c
                (λ z. absurd (true-false (sym z ∙ late))) (λ j s k h. h) (λ j ne h. h) g in
            (said, λ j s k h. h, λ j s ne h. h, q, a, f)
        | inr (_, z) ↦ absurd (true-false (sym (z d e) ∙ late))
      ]
    ]
  ]

  -- The id that a call of `apply` takes is one of a step that is not stored.
  next-initial :
      (r : Replob M) (n : ℕ) (d : StepData M)
      → IsWindow r
      → get_step r.next_step_id (record r { next_step_id = n }) ≡ some d
      → is_initial d.state ≡ true
  unfolding get_step step_at
  next-initial r n d w h = elim (Option-cases (lookup r.next_step_id r.steps)) [
    | inl e ↦ ground (arith, h, e)
    | inr (x, e) ↦ absurd (omega (arith, w.within r.next_step_id x e))
  ]

  Good-next :
      (said : Said) (i : ℕ) (r : Replob M) (log : List M) (n : ℕ)
      → Good payload config said i r log
      → Good payload config said i (record r { next_step_id = n }) log
  unfolding get_step step_at
  Good-next said i r log n g = record {
    open_steps = λ id d e. g.open_steps id d e;
    committed = g.committed;
    logged = g.logged;
  }

  pub apply-Moved :
      (said : Said) (i : ℕ) (k : UniqueId) (r : Replob M) (log : List M)
      → HasRoom 2 r.next_step_id r
      → contains i config ≡ true
      → IsWindow r
      → Good payload config said i r log
      → Moved said i log (apply i (length config) (payload k) k r)
  unfolding apply
  apply-Moved said i k r log b member w g =
      let n = (r.next_step_id + 1) % id_mod in
      vote-Moved said i (record { msg = payload k; step_id = r.next_step_id; msg_id = k }) i
        (record r { next_step_id = n }) log b member refl
        (inr (refl, λ d h. next-initial r n d w h)) (Good-next said i r log n g)
