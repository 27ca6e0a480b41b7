-- ===== src/Log/Loop.antt =====
-- The loop of `Phantom::complete` over a window of `Voting` steps, round by round.
use replob_prototype.Prelude.{
  ℕ, zero, suc, ◌+◌, ◌<◌, Bool, ==_iff, ◌≡◌, ◌≢◌, Option-cases, refl, sym, subst, ap, ◌∙◌, true,
  false, ltb, if◌then◌else◌, ◌==◌, Bool-cases, Option, none, some, List, [], ◌∷◌, ◌++◌, arith, inl,
  inr,
}
use mathlib.Core.List.{append-nil, append_assoc}
use replob_prototype.Std.Map.{lookup, insert_or_assign}
use replob_prototype.Phantom.{
  WithPhantom, Phantom, Log, try_complete, with_log, go_on, round, advance, complete_at, complete,
  step_on, erased,
}
use replob_prototype.Phantom.Window.{IsValid}
use replob_prototype.Voting.{CarrySet, Voting}
use replob_prototype.Log.{Replica, run_step, run_current, invoked}
use replob_prototype.Log.Window.{marked_at, run_step-Differs, run_current-moved, assign-Differs}

true-false : true ≢ false
true-false h = cc

module _ {M : Type 0} where
  -- `n` rounds
  abbrev pub run_rounds : ℕ → Replica M → Replica M
  run_rounds zero r = r
  run_rounds (suc n) r = run_rounds n (run_current r)

  invoked-append : (k l : Log (CarrySet M)) → invoked (k ++ l) ≡ invoked k ++ invoked l
  invoked-append [] l = refl
  invoked-append ((id, did) ∷ k) l =
      ap (λ x. did ++ x) (invoked-append k l) ∙ sym (append_assoc did (invoked k) (invoked l))

  -- A replica that has gone on to this end of the loop, where the current step is not one that is completed
  abbrev IsRounds : Replica M → Option (Phantom (Voting M) × Log (CarrySet M)) → Type 0
  IsRounds r none = ⊥
  IsRounds r (some (q, l)) =
      (n : ℕ) × (run_rounds n r ≡ record { window = q; log = r.log ++ invoked l })
      × (marked_at q.current_step_id q ≡ false)

  -- No round, where the loop ends at once
  no-IsRounds :
      (p : Phantom (Voting M)) (logged : List (CarrySet M))
      → marked_at p.current_step_id p ≡ false
      → IsRounds (record { window = p; log = logged }) (some (p, []))
  no-IsRounds p logged m =
      (0, ap (λ l. record { window = p; log = l }) (sym (append-nil logged)), m)

  after_round :
      (r : Replica M) (l : Log (CarrySet M)) (o : Option (Phantom (Voting M) × Log (CarrySet M)))
      → (run_current r).log ≡ r.log ++ invoked l
      → IsRounds (run_current r) o
      → IsRounds r (with_log run_step l o)
  after_round r l none e h = h
  after_round r l (some (q, more)) e (n, h, m) = (
    suc n,
    h
        ∙ ap (λ x. record { window = q; log = x })
            (ap (λ x. x ++ invoked more) e
              ∙ append_assoc r.log (invoked l) (invoked more)
              ∙ ap (λ x. r.log ++ x) (sym (invoked-append l more))),
    m,
  )

  -- What a round makes of an attempt at the current step
  abbrev tried : Replica M → Phantom (Voting M) × Log (CarrySet M) × Bool → Replica M
  tried r (p, l, b) =
      if b then record { window = step_on (erased p); log = r.log ++ invoked l } else r

  try_complete-idle :
      (p : Phantom (Voting M))
      → marked_at p.current_step_id p ≡ false
      → try_complete run_step p.current_step_id p ≡ (p, [], false)
  unfolding try_complete
  try_complete-idle p e = rw (try_complete, e) refl

  try_complete-now :
      (p : Phantom (Voting M))
      → marked_at p.current_step_id p ≡ true
      → marked_at p.current_step_id (run_step p.current_step_id p).0 ≡ true
      → let r = run_step p.current_step_id p in
        try_complete run_step p.current_step_id p ≡ (r.0, (p.current_step_id, r.1) ∷ [], true)
  unfolding try_complete
  try_complete-now p e m = rw (try_complete, e, m) refl

  run_current-tried :
      (r : Replica M)
      → run_current r ≡ tried r (try_complete run_step r.window.current_step_id r.window)
  unfolding run_current
  run_current-tried r = refl

  -- `after` is the loop after a round.
  tried-IsRounds :
      (fuel : ℕ) (p : Phantom (Voting M)) (logged : List (CarrySet M))
      → IsValid p
      → p.next_step_id < p.current_step_id + 1 + fuel
      → ((q : Phantom (Voting M)) (l : List (CarrySet M))
          → IsValid (step_on q)
          → q.next_step_id < (step_on q).current_step_id + fuel
          → IsRounds (record { window = step_on q; log = l }) (advance run_step fuel q))
      → IsRounds
          (record { window = p; log = logged })
          (go_on run_step (advance run_step fuel) (try_complete run_step p.current_step_id p))
  unfolding go_on
  tried-IsRounds fuel p logged v f after = elim (Bool-cases (marked_at p.current_step_id p)) [
    | inr idle ↦ rw (try_complete-idle p idle) (no-IsRounds p logged idle)
    | inl now ↦
        let (d, did, m, h, n) = run_step-Differs p v now in
        let q = run_step p.current_step_id p in
        let r : Replica M = record { window = p; log = logged } in
        let l : Log (CarrySet M) = (p.current_step_id, q.1) ∷ [] in
        let e = try_complete-now p now m in
        let t : run_current r
            ≡ record { window = step_on (erased q.0); log = logged ++ invoked l } =
          run_current-tried r ∙ ap (tried r) e in
        let (c, w, _) = run_current-moved p q.0 d.valid d h n in
        rw e (
          after_round r l (advance run_step fuel (erased q.0)) (ap (λ x. x.log) t) (
            subst (λ x. IsRounds x (advance run_step fuel (erased q.0))) (sym t)
              (after (erased q.0) (logged ++ invoked l) w (omega (arith, c, n, f)))))
  ]

  -- Past the window no step is completed.
  past-unmarked :
      (p : Phantom (Voting M))
      → IsValid p
      → ltb p.current_step_id p.next_step_id ≡ false
      → marked_at p.current_step_id p ≡ false
  past-unmarked p v ge = elim (Option-cases (lookup p.current_step_id p.steps)) [
    | inl e ↦ rw e refl
    | inr (w, e) ↦ let k = v.window p.current_step_id w e in absurd (ground (arith, ge, k))
  ]

  advance-IsRounds :
      (fuel : ℕ) (p : Phantom (Voting M)) (logged : List (CarrySet M))
      → IsValid (step_on p)
      → p.next_step_id < (step_on p).current_step_id + fuel
      → IsRounds (record { window = step_on p; log = logged }) (advance run_step fuel p)
  unfolding advance round
  advance-IsRounds zero p logged v f = omega (arith, v.ordered, f)
  advance-IsRounds (suc fuel) p logged v f =
      elim (Bool-cases (ltb (step_on p).current_step_id p.next_step_id)) [
        | inl lt ↦
            rw (advance, round, lt)
              (tried-IsRounds fuel (step_on p) logged v (omega (arith, f)) (advance-IsRounds fuel))
        | inr ge ↦
            rw (advance, round, ge)
              (no-IsRounds (step_on p) logged (past-unmarked (step_on p) v ge))
      ]

  -- The mark that `WithPhantom::complete` sets
  abbrev pub marked : ℕ → WithPhantom (Voting M) → Phantom (Voting M) → Phantom (Voting M)
  marked id w p = record p { steps = insert_or_assign id (record w { completed = true }) p.steps }

  -- The end of the loop of `complete` for the step `id`
  abbrev IsEnd :
      ℕ
      → Phantom (Voting M)
      → List (CarrySet M)
      → Option (Phantom (Voting M) × Log (CarrySet M))
      → Type 0
  IsEnd id p logged none = ⊥
  IsEnd id p logged (some (q, l)) =
      (n : ℕ) × (run_rounds n (record { window = p; log = logged })
        ≡ record { window = q; log = logged ++ invoked l })
      × (id ≡ p.current_step_id → marked_at q.current_step_id q ≡ false)
      × (id ≢ p.current_step_id → (q ≡ p) × (l ≡ []))

  rounds-IsEnd :
      (id : ℕ) (p : Phantom (Voting M)) (logged : List (CarrySet M))
      (o : Option (Phantom (Voting M) × Log (CarrySet M)))
      → id ≡ p.current_step_id
      → IsRounds (record { window = p; log = logged }) o
      → IsEnd id p logged o
  rounds-IsEnd id p logged none e h = h
  rounds-IsEnd id p logged (some (q, l)) e (n, h, m) = (n, h, λ _. m, λ other. absurd (other e))

  complete_at-IsEnd :
      (fuel id : ℕ) (p : Phantom (Voting M)) (logged : List (CarrySet M))
      → IsValid p
      → p.next_step_id < p.current_step_id + 1 + fuel
      → IsEnd id p logged (complete_at run_step fuel id id p)
  unfolding complete_at
  complete_at-IsEnd fuel id p logged v f = elim (Bool-cases (id == p.current_step_id)) [
    | inl e ↦
        let same = (==_iff id p.current_step_id).0 e in
        rw (complete_at, e)
          (rounds-IsEnd id p logged _ same (
            subst
              (λ k.
                IsRounds (record { window = p; log = logged })
                  (go_on run_step (advance run_step fuel) (try_complete run_step k p)))
              (sym same) (tried-IsRounds fuel p logged v f (advance-IsRounds fuel))))
    | inr n ↦
        rw (complete_at, n)
          (
            0,
            ap (λ l. record { window = p; log = l }) (sym (append-nil logged)),
            λ e. absurd (true-false (sym ((==_iff id p.current_step_id).1 e) ∙ n)),
            λ _. (refl, refl),
          )
  ]

  -- Where the loop has fuel for the rest of the window, `complete` of a step ends. Of a step that is not the current
  -- one it only sets the mark. Of the current step it leaves the window and invokes the carries that rounds of
  -- `run_current` do, one after another, and it stops only where the step that is current then is not marked.
  pub complete_rounds :
      (fuel id : ℕ) (p : Phantom (Voting M)) (w : WithPhantom (Voting M))
      (logged : List (CarrySet M))
      → IsValid p
      → lookup id p.steps ≡ some w
      → p.next_step_id < p.current_step_id + 1 + fuel
      → (q : Phantom (Voting M)) × (l : Log (CarrySet M)) × (complete run_step fuel id p
          ≡ some (q, l))
        × (n : ℕ) × (run_rounds n (record { window = marked id w p; log = logged })
            ≡ record { window = q; log = logged ++ invoked l })
        × (id ≡ p.current_step_id → marked_at q.current_step_id q ≡ false)
        × (id ≢ p.current_step_id → (q ≡ marked id w p) × (l ≡ []))
  unfolding complete
  complete_rounds fuel id p w logged v e f =
      let (lo, hi, k) = v.window id w e in
      let d = assign-Differs id (record w { completed = true }) p v lo hi k in
      let o = complete_at-IsEnd fuel id (marked id w p) logged d.valid f in
      let c : complete run_step fuel id p ≡ complete_at run_step fuel id id (marked id w p) =
        rw (complete, e, k) refl in
      ended _ o c
    where
      ended :
          (o : Option (Phantom (Voting M) × Log (CarrySet M)))
          → IsEnd id (marked id w p) logged o
          → complete run_step fuel id p ≡ o
          → (q : Phantom (Voting M)) × (l : Log (CarrySet M)) × (complete run_step fuel id p
              ≡ some (q, l))
            × (n : ℕ) × (run_rounds n (record { window = marked id w p; log = logged })
                ≡ record { window = q; log = logged ++ invoked l })
            × (id ≡ p.current_step_id → marked_at q.current_step_id q ≡ false)
            × (id ≢ p.current_step_id → (q ≡ marked id w p) × (l ≡ []))
      ended none h c = absurd h
      ended (some (q, l)) (n, h, m, k) c = (q, l, c, n, h, m, k)
