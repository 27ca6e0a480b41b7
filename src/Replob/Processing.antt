-- ===== src/Replob/Processing.antt =====
-- `tryProcess` invokes the messages of the completed steps in the order of the steps.
use replob_prototype.Prelude.{
  ◌%◌, subst, ℕ, zero, suc, ◌+◌, ◌≤◌, ◌<◌, ◌≡◌, refl, sym, Bool, true, false, ◌&&◌, ltb, leb,
  if◌then◌else◌, Option, none, some, List, [], ◌∷◌, ◌++◌, length, arith, inl, inr, Option-cases,
  Bool-cases,
}
use replob_prototype.Std.Map.{lookup, erase, lookup-erase}
use replob_prototype.Replob.{
  id_mod, StepData, is_completed, Replob, Action, invoked, process_step, process,
}

module _ {M : Type 0} where
  -- The step `j` is stored and completed.
  abbrev pub done : Option (StepData M) → Bool
  done none = false
  done (some d) = is_completed d.state

  abbrev pub done_at : ℕ → List (ℕ × StepData M) → Bool
  done_at j steps = done (lookup j steps)

  abbrev pub msgs_of : Option (StepData M) → List (Action M)
  msgs_of none = []
  msgs_of (some d) = invoked d.msgs

  -- The messages of the `k` steps from `c` on
  unfoldable pub messages : ℕ → ℕ → List (ℕ × StepData M) → List (Action M)
  messages zero c steps = []
  messages (suc k) c steps = msgs_of (lookup c steps) ++ messages k (c + 1) steps

  lookup-erase_ne :
      (c j : ℕ) (steps : List (ℕ × StepData M)) → j < c → lookup c (erase j steps) ≡ lookup c steps
  lookup-erase_ne c j steps h = ground (arith, lookup-erase c j steps, h)

  messages-erase :
      (k c j : ℕ) (steps : List (ℕ × StepData M))
      → j < c
      → messages k c (erase j steps) ≡ messages k c steps
  unfolding messages
  messages-erase zero c j steps h = refl
  messages-erase (suc k) c j steps h =
      rw (messages-erase k (c + 1) j steps (omega arith), lookup-erase_ne c j steps h) refl

  length-erase-le : (j : ℕ) (steps : List (ℕ × StepData M)) → length (erase j steps) ≤ length steps
  unfolding erase
  length-erase-le j [] = omega arith
  length-erase-le j ((i, d) ∷ steps) = ground (arith, length-erase-le j steps)

  length-erase-lt :
      (j : ℕ) (d : StepData M) (steps : List (ℕ × StepData M))
      → lookup j steps ≡ some d
      → length (erase j steps) < length steps
  unfolding erase lookup
  length-erase-lt j d [] h = cc
  length-erase-lt j d ((i, e) ∷ steps) h =
      ground (arith, length-erase-lt j d steps, length-erase-le j steps)

  -- `k` steps are processed in order, and the next one is not completed.
  pub record Processes (r : Replob M) (k : ℕ) (q : Replob M × List (Action M)) : Type 0 where
    pub moved : q.0.commiting_step_id ≡ r.commiting_step_id + k
    pub in_order : q.1 ≡ messages k r.commiting_step_id r.steps
    pub were_done : (i : ℕ) → i < k → done_at (r.commiting_step_id + i) r.steps ≡ true
    pub stopped : done_at q.0.commiting_step_id q.0.steps ≡ false
    pub same_next : q.0.next_step_id ≡ r.next_step_id
    pub kept :
        (j : ℕ)
        → lookup j q.0.steps ≡ (
            if leb r.commiting_step_id j && ltb j (r.commiting_step_id + k)
            then none
            else lookup j r.steps)

  Processes-zero :
      (r : Replob M) → done_at r.commiting_step_id r.steps ≡ false → Processes r 0 (r, [])
  unfolding messages
  Processes-zero r h = record {
    moved = omega arith;
    in_order = refl;
    were_done = λ i l. absurd (omega (arith, l));
    stopped = h;
    same_next = refl;
    kept = λ j. ground arith;
  }

  were_done-suc :
      (c k : ℕ) (d : StepData M) (steps : List (ℕ × StepData M))
      → lookup c steps ≡ some d
      → is_completed d.state ≡ true
      → ((i : ℕ) → i < k → done_at (c + 1 + i) (erase c steps) ≡ true)
      → (i : ℕ) → i < suc k
      → done_at (c + i) steps ≡ true
  were_done-suc c k d steps e h t zero l = let z : c + 0 ≡ c = omega arith in rw (z, e) h
  were_done-suc c k d steps e h t (suc i) l =
      let z : c + suc i ≡ c + 1 + i = omega arith in
      rw (z, sym (lookup-erase_ne (c + 1 + i) c steps (omega arith))) (t i (omega (arith, l)))

  Processes-suc :
      (r : Replob M) (d : StepData M) (k : ℕ) (q : Replob M × List (Action M))
      → r.commiting_step_id + 1 < id_mod
      → lookup r.commiting_step_id r.steps ≡ some d
      → is_completed d.state ≡ true
      → Processes (process_step d r) k q
      → Processes r (suc k) (q.0, invoked d.msgs ++ q.1)
  unfolding process_step messages
  Processes-suc r d k q b e c p =
      let c1 : (r.commiting_step_id + 1) % id_mod ≡ r.commiting_step_id + 1 = omega (arith, b) in
      record {
        moved = omega (arith, p.moved, c1);
        in_order =
            rw
              (
                e,
                p.in_order,
                c1,
                messages-erase k (r.commiting_step_id + 1) r.commiting_step_id r.steps
                    (omega arith),
              )
              refl;
        were_done = were_done-suc r.commiting_step_id k d r.steps e c (λ i l.
            subst (λ x. done_at (x + i) (erase r.commiting_step_id r.steps) ≡ true) c1
              (p.were_done i l));
        stopped = p.stopped;
        same_next = p.same_next;
        kept = λ j. ground (arith, p.kept j, c1, lookup-erase j r.commiting_step_id r.steps);
      }

  pub process-Processes :
      (fuel : ℕ) (r : Replob M)
      → length r.steps < fuel
      → r.commiting_step_id + length r.steps < id_mod
      → (k : ℕ) × Processes r k (process fuel r)
  unfolding process process_step
  process-Processes zero r l b = absurd (omega (arith, l))
  process-Processes (suc fuel) r l b = elim (Option-cases (lookup r.commiting_step_id r.steps)) [
    | inl e ↦ (0, rw (process, e) (Processes-zero r (rw e refl)))
    | inr (d, e) ↦
        let less = length-erase-lt r.commiting_step_id d r.steps e in
        elim (Bool-cases (is_completed d.state)) [
          | inl c ↦
              let (k, p) =
                process-Processes fuel (process_step d r) (omega (arith, l, less))
                  (omega (arith, b, less)) in
              (
                suc k,
                simp (process, e, c)
                    (Processes-suc r d k (process fuel (process_step d r)) (omega (arith, b, less))
                      e c p),
              )
          | inr c ↦ (0, simp (process, e, c) (Processes-zero r (rw e c)))
        ]
  ]
