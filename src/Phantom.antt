-- ===== src/Phantom.antt =====
-- `struct Phantom<T>` of include/synca/once/phantom.h: the steps of a protocol at one node, and the
-- window in which they complete in order. A reference to a `T` is its step id. `exec` is the
-- `onComplete` of the client's `T`: it runs with the whole window at hand, since the handlers that it
-- invokes may create and complete further steps, and it returns what they did to the outside.
pub mod Window
pub mod Order
pub mod Fuel
mod Examples
use replob_prototype.Prelude.{
  ℕ, zero, suc, ◌+◌, ◌-◌, ◌%◌, ◌^◌, ◌≡◌, Bool, true, false, ◌==◌, ltb, leb, Option, none, some,
  List, [], ◌∷◌, ◌++◌, if◌then◌else◌, arith,
}
use replob_prototype.Std.Map.{lookup, insert_or_assign, erase, value_or}

-- `StepId`, a uint64_t
abbrev pub id_mod : ℕ
id_mod = 2 ^ 64

abbrev pub max_id : ℕ
max_id = 2 ^ 64 - 1

-- `Phantom::WithPhantom`
pub record WithPhantom (T : Type 0) : Type 0 where
  pub base : T
  pub step_id : ℕ
  pub completed : Bool

pub record Phantom (T : Type 0) : Type 0 where
  pub next_step_id : ℕ
  pub current_step_id : ℕ
  pub steps : List (ℕ × WithPhantom T)

abbrev pub created : {T : Type 0} → Phantom T
created = record { next_step_id = 0; current_step_id = 0; steps = [] }

module _ {T : Type 0} (default : T) where
  -- the entry at `step_id`, which `steps_[stepId]` makes where there is none
  abbrev pub entry : ℕ → Phantom T → WithPhantom T
  entry step_id p =
      record (value_or (record { base = default; step_id = 0; completed = false })
        (lookup step_id p.steps)) { step_id = step_id }

  -- `getPtr` where it does not return at once
  unfoldable pub touch : ℕ → Phantom T → Phantom T
  touch step_id p = record p {
    steps = insert_or_assign step_id (entry step_id p) p.steps;
    next_step_id = if leb p.next_step_id step_id then (step_id + 1) % id_mod else p.next_step_id;
  }

  -- `getPtr`; `none` is the null pointer.
  unfoldable pub get_ptr : ℕ → Phantom T → Option (Phantom T)
  get_ptr step_id p = if ltb step_id p.current_step_id then none else some (touch step_id p)

  -- `create`: the new window with the id of the new step, or `none` where `VERIFY` throws.
  unfoldable pub create : Phantom T → Phantom T × Option ℕ
  create p =
      let q = record p { next_step_id = (p.next_step_id + 1) % id_mod } in
      elim (get_ptr p.next_step_id q) [ none ↦ (q, none) | some r ↦ (r, some p.next_step_id) ]

-- The steps whose `onComplete` has run, in order, with what each did.
abbrev pub Log : Type 0 → Type 0
Log E = List (ℕ × List E)

abbrev pub is_marked : {T : Type 0} → Option (WithPhantom T) → Bool
is_marked none = false
is_marked (some w) = w.completed

-- `++currentStepId_`
abbrev pub step_on : {T : Type 0} → Phantom T → Phantom T
step_on p = record p { current_step_id = (p.current_step_id + 1) % id_mod }

-- `steps_.erase(currentStepId_)`
abbrev pub erased : {T : Type 0} → Phantom T → Phantom T
erased p = record p { steps = erase p.current_step_id p.steps }

module _ {T E : Type 0} (exec : ℕ → Phantom T → Phantom T × List E) where
  -- `WithPhantom::tryComplete`: the last field is its result.
  unfoldable pub try_complete : ℕ → Phantom T → Phantom T × Log E × Bool
  try_complete id p =
      if is_marked (lookup id p.steps)
      then (let (q, did) = exec id p in (q, (id, did) ∷ [], is_marked (lookup id q.steps)))
      else (p, [], false)

  abbrev pub with_log : Log E → Option (Phantom T × Log E) → Option (Phantom T × Log E)
  with_log l none = none
  with_log l (some (p, more)) = some (p, l ++ more)

  -- After a `tryComplete` of the current step: erase it and go on, or stop.
  unfoldable pub go_on :
      (Phantom T → Option (Phantom T × Log E))
      → Phantom T × Log E × Bool
      → Option (Phantom T × Log E)
  go_on rest r = elim r.2 [ true ↦ with_log r.1 (rest (erased r.0)) | false ↦ some (r.0, r.1) ]

  -- The test of the `while` loop of `complete`, where `currentStepId_` has been increased, and a round.
  unfoldable pub round :
      (Phantom T → Option (Phantom T × Log E)) → Phantom T → Option (Phantom T × Log E)
  round rest p = elim (ltb p.current_step_id p.next_step_id) [
    | true ↦ go_on rest (try_complete p.current_step_id p)
    | false ↦ some (p, [])
  ]

  -- That loop, entered after the current step is erased; `none` where the fuel runs out.
  unfoldable pub advance : ℕ → Phantom T → Option (Phantom T × Log E)
  advance zero p = none
  advance (suc fuel) p = round (advance fuel) (step_on p)

  -- `complete(WithPhantom&)` for the step at key `id`, whose `stepId_` is `step_id`.
  unfoldable pub complete_at : ℕ → ℕ → ℕ → Phantom T → Option (Phantom T × Log E)
  complete_at fuel id step_id p =
      if step_id == p.current_step_id
      then go_on (advance fuel) (try_complete id p)
      else some (p, [])

  -- `WithPhantom::complete` at step `id`; `none` also where there is no such step.
  unfoldable pub complete : ℕ → ℕ → Phantom T → Option (Phantom T × Log E)
  complete fuel id p = elim (lookup id p.steps) [
    | none ↦ none
    | some w ↦
        complete_at fuel id w.step_id
          (record p { steps = insert_or_assign id (record w { completed = true }) p.steps })
  ]

-- `WithPhantom::uncomplete`
unfoldable pub uncomplete : {T : Type 0} → ℕ → Phantom T → Phantom T
uncomplete id p = elim (lookup id p.steps) [
  | none ↦ p
  | some w ↦ record p { steps = insert_or_assign id (record w { completed = false }) p.steps }
]

-- `cleanup`
unfoldable pub cleanup : {T : Type 0} → Phantom T → Phantom T
cleanup p = record p { steps = []; current_step_id = max_id }
