-- ===== src/Journey/Waits/Ends.antt =====
-- That a journey that waits for an operation stops waiting when the operation is over.
use replob_prototype.Prelude.{◌⊎◌, ◌≡◌, refl, ◌∙◌, Bool, true, false, inl, inr, arith}
use replob_prototype.Journey.{JourneyState, Outcome, may_proceed}
use replob_prototype.Journey.Waits.{
  Stage, starts, suspended, guarded, past, past_guard, ended, Wait, wait_of, complete, raise,
  cancel_under_guard, test_done, test_again, leave_guard, finish, guard_and_cancel, finish_guarded,
  completes, raises_event, tests, tests_again, leaves_guard, finishes, OwnOf, guards, goes_on,
  finishes_guarded, Reach, here, by_others, by_own,
}
use replob_prototype.Journey.Waits.Always.{by_test, At, Reach-At}

proceeds-done : (s : JourneyState) → s.done ≡ true → may_proceed s ≡ true
unfolding may_proceed
proceeds-done s d = ground (arith, d)

-- A stage at which the call of this kind stands
abbrev IsStageOf : Bool → Stage → Type 0
IsStageOf g starts = Unit
IsStageOf g suspended = g ≡ false
IsStageOf g (guarded b) = Unit
IsStageOf g past = g ≡ false
IsStageOf g (past_guard b) = g ≡ true
IsStageOf g (ended o) = Unit

OwnOf-IsStageOf : (g : Bool) (w v : Wait) → OwnOf g w v → IsStageOf g v.stage
unfolding test_done test_again leave_guard finish finish_guarded guard_and_cancel cancel_under_guard
OwnOf-IsStageOf false w v (tests e) =
    by_test (λ (x : Wait). IsStageOf false x.stage) w.state.done _ _ (λ _. refl) (λ _. refl)
OwnOf-IsStageOf false w v (tests_again e m) =
    by_test (λ (x : Wait). IsStageOf false x.stage) w.state.done _ _ (λ _. refl) (λ _. tt)
OwnOf-IsStageOf false w v (leaves_guard b e m) = refl
OwnOf-IsStageOf false w v (finishes e) = tt
OwnOf-IsStageOf true w v (guards e) =
    by_test (λ (x : Wait). IsStageOf true x.stage) w.state.done _ _ (λ _. refl) (λ _. tt)
OwnOf-IsStageOf true w v (goes_on b e m) = refl
OwnOf-IsStageOf true w v (finishes_guarded b e) = tt

Reach-IsStageOf : {g : Bool} {w : Wait} → Reach g w → IsStageOf g w.stage
unfolding wait_of complete raise
Reach-IsStageOf (here s) = tt
Reach-IsStageOf (by_others r (completes c)) = Reach-IsStageOf r
Reach-IsStageOf (by_others r (raises_event e)) = Reach-IsStageOf r
Reach-IsStageOf {g} (by_own {w} {v} r o) = OwnOf-IsStageOf g w v o

next_step :
    (g : Bool) (p : Stage) (w : Wait)
    → w.stage ≡ p
    → IsStageOf g p
    → At p w
    → w.completed ≡ true
    → ((o : Outcome) × (w.stage ≡ ended o)) ⊎ ((v : Wait) × OwnOf g w v)
next_step true starts w e k h c = inr (guard_and_cancel w, guards e)
next_step false starts w e k h c = inr (test_done w, tests e)
next_step true suspended w e k h c = cc
next_step false suspended w e k (a, b, d) c =
    inr (test_again w, tests_again e (proceeds-done w.state (d ∙ c)))
next_step true (guarded b) w e k (x, y, d, f) c =
    inr (record w { stage = past_guard b }, goes_on b e (proceeds-done w.state (d ∙ c)))
next_step false (guarded b) w e k (x, y, d, f) c =
    inr (leave_guard b w, leaves_guard b e (proceeds-done w.state (d ∙ c)))
next_step true past w e k h c = cc
next_step false past w e k h c = inr (finish w, finishes e)
next_step true (past_guard b) w e k h c = inr (finish_guarded b w, finishes_guarded b e)
next_step false (past_guard b) w e k h c = cc
next_step g (ended o) w e k h c = inl (o, e)

-- Once the operation is over, a call that can go no further has ended.
pub wait_always-ends :
    {g : Bool} {w : Wait}
    → Reach g w
    → w.completed ≡ true
    → ((v : Wait) → OwnOf g w v → ⊥)
    → (o : Outcome) × (w.stage ≡ ended o)
wait_always-ends {g} {w} r c stuck =
    elim (next_step g w.stage w refl (Reach-IsStageOf r) (Reach-At r) c) [
      | inl e ↦ e
      | inr (v, o) ↦ absurd (stuck v o)
    ]
