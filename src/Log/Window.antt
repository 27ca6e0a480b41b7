-- ===== src/Log/Window.antt =====
-- What the calls of a step and the rounds of the loop do to a window of `Voting` steps.
use replob_prototype.Prelude.{
  ℕ, ◌+◌, ◌<◌, ◌≤◌, ◌≡◌, ◌≢◌, refl, subst, sym, true, false, ◌∷◌, ◌++◌, ap, ◌∙◌, Bool, ◌||◌, ltb,
  Option, none, some, List, [], arith, Bool-cases, Option-cases, ◌⊎◌, inl, inr,
}
use mathlib.Core.List.{append-nil}
use replob_prototype.Std.Map.{lookup, insert_or_assign, lookup-insert, lookup-erase}
use replob_prototype.Phantom.{
  id_mod, WithPhantom, Phantom, is_marked, entry, touch, get_ptr, try_complete, step_on, erased,
}
use replob_prototype.Phantom.Window.{
  IsValid, touch-IsValid, touch-grows, bumped, bumped-IsValid, absent, create-touch,
}
use replob_prototype.Voting.{NodesSet, CarryMsg2, Voting, Action, fresh, start, on_complete}
use replob_prototype.Log.{
  completes, call_at, start_created, call_phantom, apply, run_step, Replica, run_current,
}

unmarked : false ≢ true
unmarked h = cc

module _ {M : Type 0} where
  abbrev pub base_of : Option (WithPhantom (Voting M)) → Voting M
  base_of none = fresh
  base_of (some w) = w.base

  -- The step `k` of a window, and whether it is marked completed
  abbrev pub voting_at : ℕ → Phantom (Voting M) → Voting M
  voting_at k p = base_of (lookup k p.steps)

  abbrev pub marked_at : ℕ → Phantom (Voting M) → Bool
  marked_at k p = is_marked (lookup k p.steps)

  entry-base : (k : ℕ) (p : Phantom (Voting M)) → (entry fresh k p).base ≡ voting_at k p
  entry-base k p = elim (Option-cases (lookup k p.steps)) [
    | inl n ↦ rw n refl
    | inr (w, e) ↦ rw e refl
  ]

  entry-completed : (k : ℕ) (p : Phantom (Voting M)) → (entry fresh k p).completed ≡ marked_at k p
  entry-completed k p = elim (Option-cases (lookup k p.steps)) [
    | inl n ↦ rw n refl
    | inr (w, e) ↦ rw e refl
  ]

  -- Windows that differ at the step `id` only
  pub record Differs (id : ℕ) (p q : Phantom (Voting M)) : Type 0 where
    pub elsewhere : (k : ℕ) → id ≢ k → lookup k q.steps ≡ lookup k p.steps
    pub same_current : q.current_step_id ≡ p.current_step_id
    pub valid : IsValid q

  pub assign-Differs :
      (id : ℕ) (w : WithPhantom (Voting M)) (p : Phantom (Voting M))
      → IsValid p
      → p.current_step_id ≤ id
      → id < p.next_step_id
      → w.step_id ≡ id
      → Differs id p (record p { steps = insert_or_assign id w p.steps })
  assign-Differs id w p v l h e = record {
    elsewhere = λ k n. ground (arith, lookup-insert k id w p.steps, n);
    same_current = refl;
    valid = record {
      ordered = v.ordered;
      small = v.small;
      window = λ k x f. ground (arith, lookup-insert k id w p.steps, v.window k x, f, l, h, e);
    };
  }

  assigned-here :
      (id : ℕ) (w : WithPhantom (Voting M)) (p : Phantom (Voting M))
      → lookup id (insert_or_assign id w p.steps) ≡ some w
  assigned-here id w p = ground (arith, lookup-insert id id w p.steps)

  -- What a method call leaves of its step
  pub record Called (id : ℕ) (r : Voting M × List (Action M)) (p q : Phantom (Voting M))
      : Type 0 where
    pub differs : Differs id p q
    pub voting : voting_at id q ≡ r.0
    pub marked : marked_at id q ≡ (marked_at id p || completes r.1)

  pub call_at-Called :
      (id : ℕ) (f : Voting M → Voting M × List (Action M)) (p : Phantom (Voting M))
      → IsValid p
      → p.current_step_id ≤ id
      → id < p.next_step_id
      → Called id (f (voting_at id p)) p (call_at id f p).0
        × ((call_at id f p).1 ≡ (f (voting_at id p)).1)
  unfolding call_at
  call_at-Called id f p v l h =
      let w = entry fresh id p in
      let e = entry-base id p in
      let x = record w { base = (f w.base).0; completed = w.completed || completes (f w.base).1 } in
      let here = assigned-here id x p in
      (
        record {
          differs = assign-Differs id x p v l h refl;
          voting = ap base_of here ∙ ap (λ b. (f b).0) e;
          marked = ap is_marked here ∙ rw (entry-completed id p, e) refl;
        },
        ap (λ b. (f b).1) e,
      )

  touch-Differs :
      (id : ℕ) (p : Phantom (Voting M))
      → IsValid p
      → p.current_step_id ≤ id
      → id + 1 < id_mod
      → Differs id p (touch fresh id p)
        × (voting_at id (touch fresh id p) ≡ voting_at id p)
        × (marked_at id (touch fresh id p) ≡ marked_at id p)
  unfolding touch
  touch-Differs id p v l h =
      let here = assigned-here id (entry fresh id p) p in
      (
        record {
          elsewhere = λ k n. ground (arith, lookup-insert k id (entry fresh id p) p.steps, n);
          same_current = refl;
          valid = touch-IsValid fresh id p v l h;
        },
        ap base_of here ∙ entry-base id p,
        ap is_marked here ∙ entry-completed id p,
      )

  Differs-trans :
      (id : ℕ) (p q r : Phantom (Voting M)) → Differs id p q → Differs id q r → Differs id p r
  Differs-trans id p q r d e = record {
    elsewhere = λ k n. e.elsewhere k n ∙ d.elsewhere k n;
    same_current = e.same_current ∙ d.same_current;
    valid = e.valid;
  }

  -- A call after the step has been found or made
  Called-after :
      (id : ℕ) (r : Voting M × List (Action M)) (p q t : Phantom (Voting M))
      → Differs id p q
      → marked_at id q ≡ marked_at id p
      → Called id r q t
      → Called id r p t
  Called-after id r p q t d m c = record {
    differs = Differs-trans id p q t d c.differs;
    voting = c.voting;
    marked = c.marked ∙ ap (λ b. b || completes r.1) m;
  }

  -- A message is ignored where its step has left the window, and calls its method otherwise.
  pub call_phantom-Called :
      (id : ℕ) (f : Voting M → Voting M × List (Action M)) (p : Phantom (Voting M))
      → IsValid p
      → id + 1 < id_mod
      → (call_phantom id f p ≡ (p, []))
        ⊎ ((p.current_step_id ≤ id)
            × Called id (f (voting_at id p)) p (call_phantom id f p).0
            × ((call_phantom id f p).1 ≡ (f (voting_at id p)).1))
  unfolding call_phantom get_ptr
  call_phantom-Called id f p v h = elim (Bool-cases (ltb id p.current_step_id)) [
    | inl old ↦ inl (rw (call_phantom, get_ptr, old) refl)
    | inr new ↦
        let l : p.current_step_id ≤ id = ground arith in
        let q = touch fresh id p in
        let (d, b, m) = touch-Differs id p v l h in
        let (c, a) =
          call_at-Called id f q d.valid (rw d.same_current l) (touch-grows fresh id p h).1 in
        rw (call_phantom, get_ptr, new)
          (inr (
            l,
            Called-after id (f (voting_at id p)) p q (call_at id f q).0 d m
                (subst (λ x. Called id (f x) q (call_at id f q).0) b c),
            a ∙ ap (λ x. (f x).1) b,
          ))
  ]

  -- `apply` makes the step that is next, which is fresh.
  pub apply-Called :
      (i : ℕ) (config : NodesSet) (c : CarryMsg2 M) (p : Phantom (Voting M))
      → IsValid p
      → p.next_step_id + 1 < id_mod
      → (q : Phantom (Voting M)) × (acts : List (Action M)) × (apply i config c p
          ≡ (q, acts, some p.next_step_id))
        × Called p.next_step_id (start i config c fresh) p q
        × (acts ≡ (start i config c fresh).1)
        × (voting_at p.next_step_id p ≡ fresh)
  unfolding apply
  apply-Called i config c p v h =
      let id = p.next_step_id in
      let b = bumped fresh p in
      let q = touch fresh id b in
      let (d, e, m) = touch-Differs id b (bumped-IsValid fresh p v h) v.ordered h in
      let z = ap base_of (absent fresh p v) in
      let (k, a) =
        call_at-Called id (start i config c) q d.valid (rw d.same_current v.ordered)
          (touch-grows fresh id b h).1 in
      let r = call_at id (start i config c) q in
      (
        r.0,
        r.1,
        ap (start_created i config c) (create-touch fresh p v),
        Called-after id (start i config c fresh) p q r.0
            (record { elsewhere = d.elsewhere; same_current = d.same_current; valid = d.valid }) m
            (subst (λ x. Called id (start i config c x) q r.0) (e ∙ z) k),
        a ∙ ap (λ x. (start i config c x).1) (e ∙ z),
        z,
      )

  -- A round of the loop where the current step is completed
  pub record Ran (r t : Replica M) : Type 0 where
    pub marked : marked_at r.window.current_step_id r.window ≡ true
    pub logged : t.log ≡ r.log ++ (voting_at r.window.current_step_id r.window).carries ∷ []
    pub moved : t.window.current_step_id ≡ r.window.current_step_id + 1
    pub valid : IsValid t.window
    pub elsewhere :
        (k : ℕ) → r.window.current_step_id ≢ k → lookup k t.window.steps ≡ lookup k r.window.steps

  marked-inside :
      (p : Phantom (Voting M))
      → IsValid p
      → marked_at p.current_step_id p ≡ true
      → p.current_step_id < p.next_step_id
  marked-inside p v m = elim (Option-cases (lookup p.current_step_id p.steps)) [
    | inl n ↦ absurd (unmarked (sym (ap is_marked n) ∙ m))
    | inr (w, e) ↦ (v.window p.current_step_id w e).1
  ]

  pub run_step-Differs :
      (p : Phantom (Voting M))
      → IsValid p
      → marked_at p.current_step_id p ≡ true
      → let (q, did) = run_step p.current_step_id p in
        Differs p.current_step_id p q
        × (did ≡ (voting_at p.current_step_id p).carries ∷ [])
        × (marked_at p.current_step_id q ≡ true)
        × (p.current_step_id < p.next_step_id)
        × (q.next_step_id ≡ p.next_step_id)
  unfolding run_step
  run_step-Differs p v m =
      let id = p.current_step_id in
      let w = entry fresh id p in
      let x = record w { base = (on_complete w.base).0 } in
      let h = marked-inside p v m in
      (
        assign-Differs id x p v (omega arith) h refl,
        ap (λ b. b.carries ∷ []) (entry-base id p),
        ap is_marked (assigned-here id x p) ∙ entry-completed id p ∙ m,
        h,
        refl,
      )

  pub run_current-moved :
      (p q : Phantom (Voting M))
      → IsValid q
      → Differs p.current_step_id p q
      → p.current_step_id < p.next_step_id
      → q.next_step_id ≡ p.next_step_id
      → let t = step_on (erased q) in
        (t.current_step_id ≡ p.current_step_id + 1)
        × IsValid t
        × ((k : ℕ) → p.current_step_id ≢ k → lookup k t.steps ≡ lookup k p.steps)
  run_current-moved p q v d h n = (
    omega (arith, d.same_current, h, n, v.small),
    record {
      ordered = omega (arith, d.same_current, h, n, v.small);
      small = v.small;
      window = λ k w e. ground (
        arith,
        v.small,
        d.same_current,
        lookup-erase k q.current_step_id q.steps,
        v.window k w,
        e,
      );
    },
    λ k z.
        ground (arith, d.same_current, lookup-erase k q.current_step_id q.steps, z)
        ∙ d.elsewhere k z,
  )

  pub run_current-Ran :
      (r : Replica M) → IsValid r.window → (run_current r ≡ r) ⊎ Ran r (run_current r)
  unfolding run_current try_complete
  run_current-Ran r v = elim (Bool-cases (marked_at r.window.current_step_id r.window)) [
    | inr idle ↦ inl (rw (run_current, try_complete, idle) refl)
    | inl now ↦
        let p = r.window in
        let (d, did, m, h, n) = run_step-Differs p v now in
        let (c, w, e) = run_current-moved p (run_step p.current_step_id p).0 d.valid d h n in
        rw (run_current, try_complete, now, m)
          (inr (record {
            marked = now;
            logged = ap (λ l. r.log ++ l) (append-nil (run_step p.current_step_id p).1 ∙ did);
            moved = c;
            valid = w;
            elsewhere = e;
          }))
  ]

  -- `apply` never throws, and its step is the next one.
  pub apply-id :
      (i : ℕ) (config : NodesSet) (c : CarryMsg2 M) (p : Phantom (Voting M))
      → IsValid p
      → (apply i config c p).2 ≡ some p.next_step_id
  unfolding apply
  apply-id i config c p v = ap (λ x. (start_created i config c x).2) (create-touch fresh p v)
