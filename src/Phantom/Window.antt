-- ===== src/Phantom/Window.antt =====
-- The window of `Phantom`: its steps lie between the current id and the next, and no completed step
-- waits at the current id.
use replob_prototype.Prelude.{
  ℕ, ◌+◌, ◌%◌, ◌≤◌, ◌<◌, ◌≡◌, refl, false, ltb, none, some, arith, Bool-cases, Option-cases, inl,
  inr, ◌⊎◌,
}
use replob_prototype.Std.Map.{lookup, lookup-insert}
use replob_prototype.Phantom.{
  id_mod, WithPhantom, Phantom, get_ptr, create, touch, entry, is_marked,
}

pub record IsValid {T : Type 0} (p : Phantom T) : Type 0 where
  pub ordered : p.current_step_id ≤ p.next_step_id
  pub small : p.next_step_id < id_mod
  pub window :
      (k : ℕ) (w : WithPhantom T)
      → lookup k p.steps ≡ some w
      → (p.current_step_id ≤ k) × (k < p.next_step_id) × (w.step_id ≡ k)

-- No completed step waits at the current id.
abbrev pub IsSettled : {T : Type 0} → Phantom T → Type 0
IsSettled p = is_marked (lookup p.current_step_id p.steps) ≡ false

module _ {T : Type 0} (default : T) where
  pub touch-IsValid :
      (step_id : ℕ) (p : Phantom T)
      → IsValid p
      → p.current_step_id ≤ step_id
      → step_id + 1 < id_mod
      → IsValid (touch default step_id p)
  unfolding touch
  touch-IsValid step_id p v le h = record {
    ordered = ground arith;
    small = ground arith;
    window = λ k w e.
        ground (arith, lookup-insert k step_id (entry default step_id p) p.steps, v.window k w, e);
  }

  -- A step that is made or found is not marked completed anew.
  touch-IsSettled :
      (step_id : ℕ) (p : Phantom T) → IsSettled p → IsSettled (touch default step_id p)
  unfolding touch
  touch-IsSettled step_id p h =
      ground (arith, lookup-insert p.current_step_id step_id (entry default step_id p) p.steps)

  pub touch-grows :
      (step_id : ℕ) (p : Phantom T)
      → step_id + 1 < id_mod
      → (p.next_step_id ≤ (touch default step_id p).next_step_id)
        × (step_id < (touch default step_id p).next_step_id)
        × ((touch default step_id p).current_step_id ≡ p.current_step_id)
  unfolding touch
  touch-grows step_id p h = (ground arith, ground arith, refl)

  -- `getPtr` is null exactly for the steps that have been completed. Otherwise the window and its order
  -- stay, and the window reaches beyond the id.
  get_ptr_lem :
      (step_id : ℕ) (p : Phantom T)
      → IsValid p
      → IsSettled p
      → step_id + 1 < id_mod
      → ((step_id < p.current_step_id) × (get_ptr default step_id p ≡ none))
        ⊎ ((q : Phantom T) × (get_ptr default step_id p ≡ some q)
            × (p.current_step_id ≤ step_id)
            × (step_id < q.next_step_id)
            × IsValid q
            × IsSettled q)
  unfolding get_ptr
  get_ptr_lem step_id p v s h = elim (Bool-cases (ltb step_id p.current_step_id)) [
    | inl old ↦ inl (ground arith, rw old refl)
    | inr new ↦ inr (
      touch default step_id p,
      rw new refl,
      ground arith,
      (touch-grows step_id p h).1,
      touch-IsValid step_id p v (ground arith) h,
      touch-IsSettled step_id p s,
    )
  ]

  abbrev pub bumped : Phantom T → Phantom T
  bumped p = record p { next_step_id = (p.next_step_id + 1) % id_mod }

  pub bumped-IsValid :
      (p : Phantom T) → IsValid p → p.next_step_id + 1 < id_mod → IsValid (bumped p)
  bumped-IsValid p v h = record {
    ordered = omega (arith, v.ordered);
    small = omega arith;
    window = λ k w e. ground (arith, v.window k w, e);
  }

  pub absent : (p : Phantom T) → IsValid p → lookup p.next_step_id p.steps ≡ none
  absent p v = elim (Option-cases (lookup p.next_step_id p.steps)) [
    | inl e ↦ e
    | inr (w, e) ↦ absurd (omega (arith, v.window p.next_step_id w e))
  ]

  touch-next :
      (p : Phantom T)
      → p.next_step_id + 1 < id_mod
      → (touch default p.next_step_id (bumped p)).next_step_id ≡ p.next_step_id + 1
  unfolding touch
  touch-next p h = ground arith

  pub touch-new :
      (step_id : ℕ) (p : Phantom T)
      → lookup step_id p.steps ≡ none
      → lookup step_id (touch default step_id p).steps
        ≡ some (record { base = default; step_id = step_id; completed = false })
  unfolding touch
  touch-new step_id p e =
      ground (arith, lookup-insert step_id step_id (entry default step_id p) p.steps)

  pub create-touch :
      (p : Phantom T)
      → IsValid p
      → create default p ≡ (touch default p.next_step_id (bumped p), some p.next_step_id)
  unfolding create get_ptr
  create-touch p v = rw (not_old, create) refl
    where
      not_old : ltb p.next_step_id p.current_step_id ≡ false
      not_old = ground (arith, v.ordered)

  -- `create` never fails while ids are left: it gives out the next id, which no step has had, and makes
  -- an entry for it that is not completed.
  create_lem :
      (p : Phantom T)
      → IsValid p
      → IsSettled p
      → p.next_step_id + 1 < id_mod
      → (q : Phantom T) × (create default p ≡ (q, some p.next_step_id))
        × (lookup p.next_step_id p.steps ≡ none)
        × (lookup p.next_step_id q.steps
            ≡ some (record { base = default; step_id = p.next_step_id; completed = false }))
        × (q.next_step_id ≡ p.next_step_id + 1)
        × IsValid q
        × IsSettled q
  create_lem p v s h = (
    touch default p.next_step_id (bumped p),
    create-touch p v,
    absent p v,
    made,
    touch-next p h,
    touch-IsValid p.next_step_id (bumped p) (bumped-IsValid p v h) v.ordered h,
    touch-IsSettled p.next_step_id (bumped p) s,
  )
    where
      made :
          lookup p.next_step_id (touch default p.next_step_id (bumped p)).steps
          ≡ some (record { base = default; step_id = p.next_step_id; completed = false })
      made = touch-new p.next_step_id (bumped p) (absent p v)
