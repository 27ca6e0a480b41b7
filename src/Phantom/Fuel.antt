-- ===== src/Phantom/Fuel.antt =====
-- The loop of `complete` ends, and what is left of a window after `cleanup`.
use replob_prototype.Prelude.{
  ℕ, zero, suc, ◌+◌, ◌≤◌, ◌<◌, ◌≡◌, ◌≢◌, Bool, ◌==◌, ltb, Option, none, some, List, arith,
  Bool-cases, Option-cases, inl, inr, subst,
}
use replob_prototype.Std.Map.{lookup}
use replob_prototype.Phantom.{
  max_id, Phantom, Log, try_complete, with_log, erased, advance, go_on, round, complete_at,
  complete, cleanup, get_ptr, create,
}
use replob_prototype.Phantom.Window.{IsValid}
use replob_prototype.Phantom.Order.{
  IsHandler, try_complete_lem, moved, moved-IsValid, moved-current, marked, mark-IsValid,
}

abbrev pub Succeeds {ℓ} : {A : Type ℓ} → Option A → Type 0
Succeeds none = ⊥
Succeeds (some a) = Unit

module _ {T E : Type 0} (exec : ℕ → Phantom T → Phantom T × List E) (handler : IsHandler exec)
    (no_new : (id : ℕ) (p : Phantom T) → (exec id p).0.next_step_id ≡ p.next_step_id) where
  with_log-Succeeds :
      (l : Log E) (o : Option (Phantom T × Log E)) → Succeeds o → Succeeds (with_log exec l o)
  with_log-Succeeds l none h = h
  with_log-Succeeds l (some r) h = tt

  go_on-Succeeds :
      (rest : Phantom T → Option (Phantom T × Log E)) (r : Phantom T × Log E × Bool)
      → Succeeds (rest (erased r.0))
      → Succeeds (go_on exec rest r)
  unfolding go_on
  go_on-Succeeds rest r h = elim (Bool-cases r.2) [
    | inl e ↦ rw e (with_log-Succeeds r.1 (rest (erased r.0)) h)
    | inr e ↦ rw e tt
  ]

  try_complete-next :
      (id : ℕ) (p : Phantom T) → (try_complete exec id p).0.next_step_id ≡ p.next_step_id
  unfolding try_complete
  try_complete-next id p = ground (arith, no_new id p)

  tried-Succeeds :
      (rest : Phantom T → Option (Phantom T × Log E)) (p : Phantom T) (fuel : ℕ)
      → IsValid p
      → p.current_step_id < p.next_step_id
      → p.next_step_id ≤ p.current_step_id + fuel
      → ((r : Phantom T)
          → IsValid r
          → r.current_step_id < r.next_step_id
          → r.next_step_id ≤ r.current_step_id + fuel
          → Succeeds (rest (erased r)))
      → Succeeds (go_on exec rest (try_complete exec p.current_step_id p))
  tried-Succeeds rest p fuel v h f ih =
      let r = try_complete exec p.current_step_id p in
      let t = try_complete_lem exec handler p v h in
      go_on-Succeeds rest r (
        ih r.0 t.valid t.inside
          (omega (arith, t.same_current, try_complete-next p.current_step_id p)))

  advance-Succeeds :
      (fuel : ℕ) (r : Phantom T)
      → IsValid r
      → r.current_step_id < r.next_step_id
      → r.next_step_id ≤ r.current_step_id + fuel
      → Succeeds (advance exec fuel (erased r))
  unfolding advance round
  advance-Succeeds zero r v h f = omega arith
  advance-Succeeds (suc fuel) r v h f =
      let q = moved exec handler r in
      let e : q.current_step_id ≡ r.current_step_id + 1 = moved-current exec handler r v h in
      elim (Bool-cases (ltb q.current_step_id q.next_step_id)) [
        | inl lt ↦
            rw (lt, Succeeds)
              (tried-Succeeds (advance exec fuel) q fuel (moved-IsValid exec handler r v h)
                (ground arith) (omega arith) (advance-Succeeds fuel))
        | inr ge ↦ rw (ge, Succeeds) tt
      ]

  -- The loop ends: in a valid window whose handlers make no new steps, `complete` on a step of the window
  -- has a result with as much fuel as the window is long.
  pub complete-Succeeds :
      (fuel id : ℕ) (p : Phantom T)
      → IsValid p
      → lookup id p.steps ≢ none
      → p.next_step_id ≤ p.current_step_id + fuel
      → Succeeds (complete exec fuel id p)
  unfolding complete complete_at
  complete-Succeeds fuel id p v h f = elim (Option-cases (lookup id p.steps)) [
    | inl e ↦ absurd (h e)
    | inr (w, e) ↦
        let q = marked exec handler id w p in
        rw (e, complete)
          (elim (Bool-cases (w.step_id == p.current_step_id)) [
            | inl now ↦
                let here : p.current_step_id ≡ id = ground (arith, v.window id w e) in
                rw now (
                  subst (λ k. Succeeds (go_on exec (advance exec fuel) (try_complete exec k q)))
                    here
                    (tried-Succeeds (advance exec fuel) q fuel
                      (mark-IsValid exec handler id w p v e) (omega (arith, v.window id w e)) f
                      (advance-Succeeds fuel)))
            | inr later ↦ rw later tt
          ])
  ]

-- After `cleanup` the node takes no part in any step: for every id but the largest `getPtr` is null, and
-- `create` throws, while ids are left.
pub cleanup-closes :
    {T : Type 0} (default : T) (p : Phantom T)
    → ((id : ℕ) → id < max_id → get_ptr default id (cleanup p) ≡ none)
      × (p.next_step_id < max_id → (create default (cleanup p)).1 ≡ none)
unfolding cleanup get_ptr create
cleanup-closes default p = ((λ id h. ground arith), (λ h. ground arith))
