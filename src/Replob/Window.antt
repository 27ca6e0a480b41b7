-- ===== src/Replob/Window.antt =====
-- The steps of the first protocol that are stored, under any calls of its methods.
use replob_prototype.Prelude.{
  ==_iff, ◌⊎◌, ℕ, zero, suc, ◌+◌, ◌≤◌, ◌<◌, ◌≡◌, ◌≢◌, refl, sym, ap, ◌∙◌, true, false, ◌&&◌, ◌==◌,
  if◌then◌else◌, Option, none, some, List, [], ◌∷◌, length, arith, inl, inr, Bool-cases, subst,
}
use replob_prototype.Std.Map.{lookup, insert_or_assign, lookup-insert}
use replob_prototype.Replob.{
  id_mod, CarryMsg, StepData, is_completed, Replob, Action, get_step, put_step, step_at,
  update_current_step_id, try_process, commit_step, completed_step,
}
use replob_prototype.Replob.Processing.{done, done_at, Processes, process-Processes}

true-ne-false : true ≢ false
true-ne-false h = cc

module _ {M : Type 0} where
  -- The stored steps are those to come, the current one included, and the current one is not completed.
  pub record IsWindow (r : Replob M) : Type 0 where
    pub forward : r.commiting_step_id ≤ r.next_step_id
    pub within :
        (j : ℕ) (d : StepData M)
        → lookup j r.steps ≡ some d
        → (r.commiting_step_id ≤ j) × (j < r.next_step_id)
    pub current_waits : done_at r.commiting_step_id r.steps ≡ false

  -- There are ids left after the step `id` and after as many steps as are stored and `n` more.
  abbrev pub HasRoom : ℕ → ℕ → Replob M → Type 0
  HasRoom n id r = (id + 1 < id_mod) × (r.commiting_step_id + length r.steps + n < id_mod)

  pub get_step-some :
      (id : ℕ) (r : Replob M) (d : StepData M)
      → get_step id r ≡ some d
      → (r.commiting_step_id ≤ id) × (is_completed d.state ≡ false)
  unfolding get_step
  get_step-some id r d h = ground (arith, h)

  pub lookup-put_step :
      (j id : ℕ) (d : StepData M) (r : Replob M)
      → lookup j (put_step id d r).steps ≡ (if id == j then some d else lookup j r.steps)
  unfolding put_step update_current_step_id
  lookup-put_step j id d r = ground (arith, lookup-insert j id d r.steps)

  pub put_step-fields :
      (id : ℕ) (d : StepData M) (r : Replob M)
      → id + 1 < id_mod
      → ((put_step id d r).commiting_step_id ≡ r.commiting_step_id)
        × (id < (put_step id d r).next_step_id)
        × (r.next_step_id ≤ (put_step id d r).next_step_id)
  unfolding put_step update_current_step_id
  put_step-fields id d r h = (ground arith, ground (arith, h), ground (arith, h))

  length-insert :
      (k : ℕ) (v : StepData M) (m : List (ℕ × StepData M))
      → length (insert_or_assign k v m) ≤ length m + 1
  unfolding insert_or_assign
  length-insert k v [] = omega arith
  length-insert k v ((i, w) ∷ m) = ground (arith, length-insert k v m)

  pub length-put_step :
      (id : ℕ) (d : StepData M) (r : Replob M) → length (put_step id d r).steps ≤ length r.steps + 1
  unfolding put_step update_current_step_id
  length-put_step id d r = ground (arith, length-insert id d r.steps)

  abbrev IsWithin : Replob M → Type 0
  IsWithin r =
      (j : ℕ) (d : StepData M)
      → lookup j r.steps ≡ some d
      → (r.commiting_step_id ≤ j) × (j < r.next_step_id)

  put_step-IsWithin :
      (id : ℕ) (d : StepData M) (r : Replob M)
      → id + 1 < id_mod
      → r.commiting_step_id ≤ id
      → IsWithin r
      → IsWithin (put_step id d r)
  put_step-IsWithin id d r b l w j e h =
      ground (arith, lookup-put_step j id d r, put_step-fields id d r b, w j e, h)

  -- Where the step that is put back is not the current one, or is not completed
  pub put_step-IsWindow :
      (id : ℕ) (d : StepData M) (r : Replob M)
      → id + 1 < id_mod
      → r.commiting_step_id ≤ id
      → (is_completed d.state && id == r.commiting_step_id) ≡ false
      → IsWindow r
      → IsWindow (put_step id d r)
  put_step-IsWindow id d r b l c w =
      let f = put_step-fields id d r b in
      record {
        forward = omega (arith, f.0, f.2, w.forward);
        within = put_step-IsWithin id d r b l w.within;
        current_waits =
            rw (f.0, lookup-put_step r.commiting_step_id id d r)
              (elim (Bool-cases (id == r.commiting_step_id)) [
                | inl e ↦ rw e (ground (arith, c, e))
                | inr e ↦ rw e w.current_waits
              ]);
      }

  done-some : (o : Option (StepData M)) → done o ≡ true → (d : StepData M) × (o ≡ some d)
  done-some none h = cc
  done-some (some d) h = (d, refl)

  done_at-le :
      (r : Replob M) (k : ℕ)
      → r.commiting_step_id ≤ r.next_step_id
      → IsWithin r
      → ((i : ℕ) → i < k → done_at (r.commiting_step_id + i) r.steps ≡ true)
      → r.commiting_step_id + k ≤ r.next_step_id
  done_at-le r zero l w t = omega (arith, l)
  done_at-le r (suc k) l w t =
      let (d, e) = done-some (lookup (r.commiting_step_id + k) r.steps) (t k (omega arith)) in
      omega (arith, w (r.commiting_step_id + k) d e)

  Processes-IsWindow :
      (r : Replob M) (k : ℕ) (q : Replob M × List (Action M))
      → r.commiting_step_id ≤ r.next_step_id
      → IsWithin r
      → Processes r k q
      → IsWindow q.0
  Processes-IsWindow r k q l w p = record {
    forward = omega (arith, p.moved, p.same_next, done_at-le r k l w p.were_done);
    within = λ j d h. ground (arith, p.kept j, p.moved, p.same_next, w j d, h);
    current_waits = p.stopped;
  }

  Processes-pos :
      (p : Replob M) (k : ℕ) (q : Replob M × List (Action M))
      → done_at p.commiting_step_id p.steps ≡ true
      → Processes p k q
      → (j : ℕ) × Processes p (suc j) q
  Processes-pos p zero q h s =
      let c : q.0.commiting_step_id ≡ p.commiting_step_id = omega (arith, s.moved) in
      let e : lookup p.commiting_step_id q.0.steps ≡ lookup p.commiting_step_id p.steps =
        ground (arith, s.kept p.commiting_step_id) in
      let f : done_at p.commiting_step_id q.0.steps ≡ false =
        subst (λ x. done_at x q.0.steps ≡ false) c s.stopped in
      absurd (true-ne-false (sym h ∙ ap done (sym e) ∙ f))
  Processes-pos p (suc j) q h s = (j, s)

  try_process_here :
      (id : ℕ) (p : Replob M)
      → id ≡ p.commiting_step_id
      → p.commiting_step_id + length p.steps < id_mod
      → (k : ℕ) × Processes p k (try_process id p)
  unfolding try_process
  try_process_here id p e b =
      rw ((==_iff id p.commiting_step_id).1 e)
        (process-Processes (suc (length p.steps)) p (omega arith) b)

  try_process_elsewhere :
      (id : ℕ) (p : Replob M) → (id == p.commiting_step_id) ≡ false → try_process id p ≡ (p, [])
  unfolding try_process
  try_process_elsewhere id p e = rw e refl

module _ {M : Type 0} (id : ℕ) (msgs : List (CarryMsg M)) (d : StepData M) (r : Replob M)
    (room : HasRoom 1 id r) (ahead : r.commiting_step_id ≤ id) where
  abbrev pub stored : Replob M
  stored = put_step id (completed_step msgs d) r

  same_commiting : stored.commiting_step_id ≡ r.commiting_step_id
  same_commiting = (put_step-fields id (completed_step msgs d) r room.0).0

  enough_room : stored.commiting_step_id + length stored.steps < id_mod
  enough_room = omega (arith, room.1, same_commiting, length-put_step id (completed_step msgs d) r)

  current_done :
      id ≡ stored.commiting_step_id → done_at stored.commiting_step_id stored.steps ≡ true
  current_done i =
      subst (λ j. done_at j stored.steps ≡ true) i
        (ground (arith, lookup-put_step id id (completed_step msgs d) r))

  -- Either the step is the current one and some steps are processed, or it is a later one.
  pub commit_step-cases :
      ((id ≡ r.commiting_step_id) × (k : ℕ) × Processes stored (suc k) (try_process id stored))
      ⊎ ((r.commiting_step_id < id) × (try_process id stored ≡ (stored, [])))
  commit_step-cases = elim (Bool-cases (id == stored.commiting_step_id)) [
    | inl e ↦
        let i = (==_iff id stored.commiting_step_id).0 e in
        let (k, p) = try_process_here id stored i enough_room in
        let (j, t) = Processes-pos stored k (try_process id stored) (current_done i) p in
        inl (i ∙ same_commiting, j, t)
    | inr e ↦ inr (ground (arith, e, same_commiting, ahead), try_process_elsewhere id stored e)
  ]

  pub commit_step-IsWindow : IsWindow r → IsWindow (commit_step id msgs d r).0
  unfolding commit_step
  commit_step-IsWindow w = elim commit_step-cases [
    | inl (e, k, p) ↦
        Processes-IsWindow stored (suc k) (try_process id stored)
          (omega (arith, w.forward, put_step-fields id (completed_step msgs d) r room.0))
          (put_step-IsWithin id (completed_step msgs d) r room.0 ahead w.within) p
    | inr (l, e) ↦
        rw e (put_step-IsWindow id (completed_step msgs d) r room.0 ahead (ground (arith, l)) w)
  ]

  -- A committed step is closed.
  pub commit_step-closed : get_step id (commit_step id msgs d r).0 ≡ none
  unfolding commit_step get_step step_at
  commit_step-closed = elim commit_step-cases [
    | inl (e, k, p) ↦ ground (arith, p.moved, e, same_commiting)
    | inr (l, e) ↦ rw e (ground (arith, lookup-put_step id id (completed_step msgs d) r))
  ]
