-- ===== src/Phantom/Order.antt =====
-- `complete` runs the steps one by one in the order of their ids, and leaves no step behind that
-- could run.
use replob_prototype.Phantom.{
  round, go_on, WithPhantom, Phantom, Log, is_marked, try_complete, with_log, step_on, erased,
  advance, complete_at, complete,
}
use replob_prototype.Prelude.{
  subst, ◌⊎◌, ℕ, zero, suc, ◌+◌, ◌≤◌, ◌<◌, ◌≡◌, ◌≢◌, refl, ap, Bool, true, false, ◌==◌, ltb, Option,
  none, some, List, [], ◌∷◌, map, length, arith, Bool-cases, Option-cases, inl, inr,
}
use replob_prototype.Std.Map.{lookup, insert_or_assign, lookup-insert, lookup-erase}
use replob_prototype.Phantom.Window.{IsValid, IsSettled}

-- What `onComplete` may do to the window: it may add steps and complete others, but not the current.
pub record IsHandler {T E : Type 0} (exec : ℕ → Phantom T → Phantom T × List E) : Type 0 where
  pub keeps_valid : (id : ℕ) (p : Phantom T) → IsValid p → IsValid (exec id p).0
  pub keeps_current : (id : ℕ) (p : Phantom T) → (exec id p).0.current_step_id ≡ p.current_step_id
  pub keeps_next : (id : ℕ) (p : Phantom T) → p.next_step_id ≤ (exec id p).0.next_step_id

-- `n` ids from `a` on
abbrev pub ids_from : ℕ → ℕ → List ℕ
ids_from a zero = []
ids_from a (suc n) = a ∷ ids_from (suc a) n

-- The steps in `log` are those from `a` on, one by one; each but perhaps the last, which took its
-- completion back, has left the window; and no further step can run.
pub record HasRun {T E : Type 0} (a : ℕ) (p : Phantom T) (log : Log E) : Type 0 where
  pub valid : IsValid p
  pub settled : IsSettled p
  pub in_order : map (λ e. e.0) log ≡ ids_from a (length log)
  pub from : a ≤ p.current_step_id
  pub not_beyond : p.current_step_id ≤ a + length log
  pub all_but_one : a + length log ≤ p.current_step_id + 1

module _ {T E : Type 0} (exec : ℕ → Phantom T → Phantom T × List E) (handler : IsHandler exec) where
  -- `tryComplete` at the current id, with a step that is not the last of the window.
  pub record HasTried (p : Phantom T) (r : Phantom T × Log E × Bool) : Type 0 where
    pub valid : IsValid r.0
    pub same_current : r.0.current_step_id ≡ p.current_step_id
    pub inside : r.0.current_step_id < r.0.next_step_id
    pub stopped : r.2 ≡ false → IsSettled r.0
    pub logged :
        (r.1 ≡ []) × (r.2 ≡ false) ⊎ ((did : List E) × (r.1 ≡ (p.current_step_id, did) ∷ []))

  pub try_complete_lem :
      (p : Phantom T)
      → IsValid p
      → p.current_step_id < p.next_step_id
      → HasTried p (try_complete exec p.current_step_id p)
  unfolding try_complete
  try_complete_lem p v h = elim (Bool-cases (is_marked (lookup p.current_step_id p.steps))) [
    | inl e ↦ rw e (record {
      valid = handler.keeps_valid p.current_step_id p v;
      same_current = handler.keeps_current p.current_step_id p;
      inside = omega (
        arith,
        handler.keeps_current p.current_step_id p,
        handler.keeps_next p.current_step_id p,
      );
      stopped = λ f. rw (handler.keeps_current p.current_step_id p) f;
      logged = inr ((exec p.current_step_id p).1, refl);
    })
    | inr e ↦ rw e (record {
      valid = v;
      same_current = refl;
      inside = h;
      stopped = λ f. e;
      logged = inl (refl, refl);
    })
  ]

  -- The current step erased and the window moved on.
  abbrev pub moved : Phantom T → Phantom T
  moved p = step_on (erased p)

  pub moved-IsValid :
      (p : Phantom T) → IsValid p → p.current_step_id < p.next_step_id → IsValid (moved p)
  moved-IsValid p v h = record {
    ordered = omega (arith, v.small);
    small = v.small;
    window =
        λ k w e. ground (arith, v.small, lookup-erase k p.current_step_id p.steps, v.window k w, e);
  }

  pub moved-current :
      (p : Phantom T)
      → IsValid p
      → p.current_step_id < p.next_step_id
      → (moved p).current_step_id ≡ p.current_step_id + 1
  moved-current p v h = omega (arith, v.small)

  -- A run that goes on after the step at `a`.
  HasRun-cons :
      (a : ℕ) (did : List E) (p : Phantom T) (log : Log E)
      → HasRun (suc a) p log
      → HasRun a p ((a, did) ∷ log)
  HasRun-cons a did p log h = record {
    valid = h.valid;
    settled = h.settled;
    in_order = ap (◌∷◌ a) h.in_order;
    from = omega (arith, h.from);
    not_beyond = omega (arith, h.not_beyond);
    all_but_one = omega (arith, h.all_but_one);
  }

  HasRun-stop :
      (p : Phantom T) (r : Phantom T × Log E × Bool)
      → HasTried p r
      → r.2 ≡ false
      → HasRun p.current_step_id r.0 r.1
  HasRun-stop p r t e = elim t.logged [
    | inl (none_run, _) ↦ rw none_run (record {
      valid = t.valid;
      settled = t.stopped e;
      in_order = refl;
      from = omega (arith, t.same_current);
      not_beyond = omega (arith, t.same_current);
      all_but_one = omega (arith, t.same_current);
    })
    | inr (did, one_run) ↦ rw one_run (record {
      valid = t.valid;
      settled = t.stopped e;
      in_order = refl;
      from = omega (arith, t.same_current);
      not_beyond = omega (arith, t.same_current);
      all_but_one = omega (arith, t.same_current);
    })
  ]

  abbrev Ends : ℕ → Option (Phantom T × Log E) → Type 0
  Ends a none = Unit
  Ends a (some (p, log)) = HasRun a p log

  with_log-Ends :
      (a : ℕ) (did : List E) (o : Option (Phantom T × Log E))
      → Ends (suc a) o
      → Ends a (with_log exec ((a, did) ∷ []) o)
  with_log-Ends a did none h = tt
  with_log-Ends a did (some (p, log)) h = HasRun-cons a did p log h

  go_on-Ends :
      (rest : Phantom T → Option (Phantom T × Log E)) (p : Phantom T) (r : Phantom T × Log E × Bool)
      → HasTried p r
      → Ends (suc p.current_step_id) (rest (erased r.0))
      → Ends p.current_step_id (go_on exec rest r)
  unfolding go_on
  go_on-Ends rest p r t ih = elim (Bool-cases r.2) [
    | inr e ↦ rw e (HasRun-stop p r t e)
    | inl e ↦ elim t.logged [
      | inl (_, stop) ↦ cc
      | inr (did, one_run) ↦
          rw (e, one_run) (with_log-Ends p.current_step_id did (rest (erased r.0)) ih)
    ]
  ]

  full-IsSettled :
      (p : Phantom T) → IsValid p → ¬ (p.current_step_id < p.next_step_id) → IsSettled p
  full-IsSettled p v h = elim (Option-cases (lookup p.current_step_id p.steps)) [
    | inl e ↦ rw e refl
    | inr (w, e) ↦ absurd (h (v.window p.current_step_id w e).1)
  ]

  HasRun-none : (p : Phantom T) → IsValid p → IsSettled p → HasRun {E = E} p.current_step_id p []
  HasRun-none p v s = record {
    valid = v;
    settled = s;
    in_order = refl;
    from = omega arith;
    not_beyond = omega arith;
    all_but_one = omega arith;
  }

  tried-Ends :
      (rest : Phantom T → Option (Phantom T × Log E)) (p : Phantom T)
      → IsValid p
      → p.current_step_id < p.next_step_id
      → ((r : Phantom T)
          → IsValid r
          → r.current_step_id < r.next_step_id
          → Ends (suc r.current_step_id) (rest (erased r)))
      → Ends p.current_step_id (go_on exec rest (try_complete exec p.current_step_id p))
  tried-Ends rest p v h ih =
      go_on-Ends rest p r t
        (subst (λ a. Ends (suc a) (rest (erased r.0))) t.same_current (ih r.0 t.valid t.inside))
    where
      r : Phantom T × Log E × Bool
      r = try_complete exec p.current_step_id p

      t : HasTried p r
      t = try_complete_lem p v h

  round-Ends :
      (rest : Phantom T → Option (Phantom T × Log E)) (p : Phantom T)
      → IsValid p
      → ((r : Phantom T)
          → IsValid r
          → r.current_step_id < r.next_step_id
          → Ends (suc r.current_step_id) (rest (erased r)))
      → Ends p.current_step_id (round exec rest p)
  unfolding round
  round-Ends rest p v ih = elim (Bool-cases (ltb p.current_step_id p.next_step_id)) [
    | inl lt ↦ rw (lt, Ends) (tried-Ends rest p v (ground arith) ih)
    | inr ge ↦ rw (ge, Ends) (HasRun-none p v (full-IsSettled p v (ground arith)))
  ]

  advance-Ends :
      (fuel : ℕ) (r : Phantom T)
      → IsValid r
      → r.current_step_id < r.next_step_id
      → Ends (suc r.current_step_id) (advance exec fuel (erased r))
  unfolding advance
  advance-Ends zero r v h = tt
  advance-Ends (suc fuel) r v h =
      subst (λ a. Ends a (round exec (advance exec fuel) (moved r)))
        (omega (arith, moved-current r v h))
        (round-Ends (advance exec fuel) (moved r) (moved-IsValid r v h) (advance-Ends fuel))

  pub mark-IsValid :
      (id : ℕ) (w : WithPhantom T) (p : Phantom T)
      → IsValid p
      → lookup id p.steps ≡ some w
      → IsValid (record p { steps = insert_or_assign id (record w { completed = true }) p.steps })
  mark-IsValid id w p v e = record {
    ordered = v.ordered;
    small = v.small;
    window = λ k x f. ground (
      arith,
      lookup-insert k id (record w { completed = true }) p.steps,
      v.window k x,
      v.window id w e,
      f,
    );
  }

  abbrev pub marked : ℕ → WithPhantom T → Phantom T → Phantom T
  marked id w p = record p { steps = insert_or_assign id (record w { completed = true }) p.steps }

  complete_at-Ends :
      (fuel id step_id : ℕ) (p : Phantom T)
      → IsValid p
      → step_id ≡ id
      → id < p.next_step_id
      → (p.current_step_id ≢ id → IsSettled p)
      → Ends p.current_step_id (complete_at exec fuel id step_id p)
  unfolding complete_at
  complete_at-Ends fuel id step_id p v e h s = elim (Bool-cases (step_id == p.current_step_id)) [
    | inl now ↦
        let here : p.current_step_id ≡ id = ground arith in
        rw now (
          subst
            (λ k. Ends p.current_step_id (go_on exec (advance exec fuel) (try_complete exec k p)))
            here (tried-Ends (advance exec fuel) p v (rw here h) (advance-Ends fuel)))
    | inr later ↦ rw later (HasRun-none p v (s (ground arith)))
  ]

  marked-IsSettled :
      (id : ℕ) (w : WithPhantom T) (p : Phantom T)
      → IsSettled p
      → p.current_step_id ≢ id
      → IsSettled (marked id w p)
  marked-IsSettled id w p s h =
      ground (arith, lookup-insert p.current_step_id id (record w { completed = true }) p.steps)

  complete-Ends :
      (fuel id : ℕ) (p : Phantom T)
      → IsValid p
      → IsSettled p
      → Ends p.current_step_id (complete exec fuel id p)
  unfolding complete
  complete-Ends fuel id p v s = elim (Option-cases (lookup id p.steps)) [
    | inl e ↦ rw (e, complete) tt
    | inr (w, e) ↦
        let inside = v.window id w e in
        rw (e, complete)
          (complete_at-Ends fuel id w.step_id (marked id w p) (mark-IsValid id w p v e) inside.2
            inside.1 (marked-IsSettled id w p s))
  ]

  -- Completion in order: where `complete` is called on a step, in a window whose current step is not
  -- completed, and the loop ends, the steps that ran are the current one and those after it, each once, in
  -- the order of their ids. All but perhaps the last have left the window, so no later `getPtr` finds
  -- them, and the step at the new current id is not completed.
  pub complete-HasRun :
      (fuel id : ℕ) (p : Phantom T)
      → IsValid p
      → IsSettled p
      → (q : Phantom T) (log : Log E) → complete exec fuel id p ≡ some (q, log)
      → HasRun p.current_step_id q log
  complete-HasRun fuel id p v s q log e =
      subst (Ends p.current_step_id) e (complete-Ends fuel id p v s)
