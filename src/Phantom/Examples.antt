-- ===== src/Phantom/Examples.antt =====
-- Tests of `Phantom`, and its theorems at concrete windows.
use replob_prototype.Prelude.{
  ℕ, ◌<◌, ◌≡◌, ◌≢◌, refl, Bool, true, false, none, some, List, [], ◌∷◌, arith,
}
use replob_prototype.Std.Map.{lookup, insert_or_assign, erase}
use replob_prototype.Phantom.{
  max_id, WithPhantom, Phantom, get_ptr, create, complete, uncomplete, cleanup, try_complete,
  advance, round, go_on, complete_at,
}
use replob_prototype.Phantom.Window.{IsValid, IsSettled}
use replob_prototype.Phantom.Order.{IsHandler, HasRun, complete-HasRun}
use replob_prototype.Phantom.Fuel.{Succeeds, complete-Succeeds, cleanup-closes}

-- A client whose `onComplete` reports the id and leaves the window alone.
abbrev report : ℕ → Phantom ℕ → Phantom ℕ × List ℕ
report id p = (p, id ∷ [])

report-IsHandler : IsHandler report
report-IsHandler = record {
  keeps_valid = λ id p v. v;
  keeps_current = λ id p. refl;
  keeps_next = λ id p. omega arith;
}

abbrev step : ℕ → Bool → WithPhantom ℕ
step id done = record { base = 7; step_id = id; completed = done }

-- Steps 0 and 2 are under way, step 1 is completed and waits for step 0.
abbrev waiting : Phantom ℕ
waiting = record {
  next_step_id = 3;
  current_step_id = 0;
  steps = (0, step 0 false) ∷ (1, step 1 true) ∷ (2, step 2 false) ∷ [];
}

waiting-IsValid : IsValid waiting
unfolding lookup
waiting-IsValid = record {
  ordered = omega arith;
  small = omega arith;
  window = λ k w e. ground arith;
}

waiting-IsSettled : IsSettled waiting
unfolding lookup
waiting-IsSettled = refl

abbrev done_two : Phantom ℕ
done_two = record { next_step_id = 3; current_step_id = 2; steps = (2, step 2 false) ∷ [] }

complete_runs_two : complete report 3 0 waiting ≡ some (done_two, (0, 0 ∷ []) ∷ (1, 1 ∷ []) ∷ [])
unfolding complete complete_at try_complete advance round go_on lookup insert_or_assign erase
complete_runs_two = refl

-- Completing a later step only marks it.
complete_waits :
    complete report 3 2 waiting
    ≡ some (
      record waiting { steps = (0, step 0 false) ∷ (1, step 1 true) ∷ (2, step 2 true) ∷ [] },
      [],
    )
unfolding complete complete_at lookup insert_or_assign
complete_waits = refl

uncomplete_undoes :
    uncomplete 1 waiting
    ≡ record waiting { steps = (0, step 0 false) ∷ (1, step 1 false) ∷ (2, step 2 false) ∷ [] }
unfolding uncomplete lookup insert_or_assign
uncomplete_undoes = refl

complete-HasRun_example : HasRun {E = ℕ} 0 done_two ((0, 0 ∷ []) ∷ (1, 1 ∷ []) ∷ [])
complete-HasRun_example =
    complete-HasRun report report-IsHandler 3 0 waiting waiting-IsValid waiting-IsSettled done_two
      ((0, 0 ∷ []) ∷ (1, 1 ∷ []) ∷ []) complete_runs_two

has_step_0 : lookup 0 waiting.steps ≢ none
unfolding lookup
has_step_0 e = cc

complete-Succeeds_example : Succeeds (complete report 3 0 waiting)
complete-Succeeds_example =
    complete-Succeeds report report-IsHandler (λ id p. refl) 3 0 waiting waiting-IsValid has_step_0
      (omega arith)

cleanup-closes_example :
    ((id : ℕ) → id < max_id → get_ptr 7 id (cleanup waiting) ≡ none)
    × (3 < max_id → (create 7 (cleanup waiting)).1 ≡ none)
cleanup-closes_example = cleanup-closes 7 waiting
