-- ===== src/Journey/Waits/Always.antt =====
-- What a journey that waits for an operation may rely on.
use replob_prototype.Prelude.{
  ◌≤◌, ◌<◌, ◌≡◌, refl, sym, ◌∙◌, ap, subst, Bool, true, false, ◌||◌, Bool-cases, if◌then◌else◌, inl,
  inr, arith,
}
use replob_prototype.Journey.{
  JourneyState, Event, cancelled_event, timedout_event, Outcome, returns, raises, verify_fails,
  may_proceed, set_done, add_raise_event, handle_events, handle_raise_events, reset_done,
  disable_events, enable_events,
}
use replob_prototype.Journey.Guards.{guard, end_dtor_guard}
use replob_prototype.Journey.Waits.{
  Stage, starts, suspended, guarded, past, past_guard, ended, Wait, wait_of, complete, raise,
  cancel_under_guard, test_done, test_again, leave_guard, finish, guard_and_cancel, finish_guarded,
  Others, completes, raises_event, Own, tests, tests_again, leaves_guard, finishes, OwnGuarded,
  OwnOf, guards, goes_on, finishes_guarded, Reach, here, by_others, by_own,
}

abbrev pub is_failure : Outcome → Bool
is_failure returns = false
is_failure (raises e) = false
is_failure verify_fails = true

-- What holds at a stage: nothing is cleaned up before the operation is over, and then once.
abbrev pub At : Stage → Wait → Type 0
At starts w = (w.cancels ≡ 0) × (w.cleanups ≡ 0) × (w.state.done ≡ w.completed)
At suspended w = (w.cancels ≡ 0) × (w.cleanups ≡ 0) × (w.state.done ≡ w.completed)
At (guarded b) w =
    (w.cancels ≡ 1)
    × (w.cleanups ≡ 0)
    × (w.state.done ≡ w.completed)
    × (w.state.events_enabled ≡ false)
At past w = (w.cancels ≤ 1) × (w.cleanups ≡ 0) × (w.state.done ≡ true) × (w.completed ≡ true)
At (past_guard b) w =
    (w.cancels ≤ 1)
    × (w.cleanups ≡ 0)
    × (w.state.done ≡ true)
    × (w.completed ≡ true)
    × (w.state.events_enabled ≡ false)
At (ended o) w = (w.cancels ≤ 1) × (w.cleanups ≡ 1) × (w.completed ≡ true) × (is_failure o ≡ false)

raise-fields :
    (e : Event) (s : JourneyState)
    → ((add_raise_event e s).0.done ≡ s.done)
      × ((add_raise_event e s).0.events_enabled ≡ s.events_enabled)
unfolding add_raise_event
raise-fields cancelled_event s = (ground arith, ground arith)
raise-fields timedout_event s = (ground arith, ground arith)

reset_done-succeeds :
    (r : JourneyState × Outcome) → is_failure r.1 ≡ false → is_failure (reset_done r).1 ≡ false
unfolding reset_done
reset_done-succeeds (s, returns) h = refl
reset_done-succeeds (s, raises e) h = refl
reset_done-succeeds (s, verify_fails) h = h

raise_events-succeeds : (s : JourneyState) → is_failure (handle_raise_events s s).1 ≡ false
unfolding handle_raise_events
raise_events-succeeds s = elim (Bool-cases s.cancelled) [
  | inl c ↦ rw c refl
  | inr c ↦ elim (Bool-cases s.timedout) [ inl t ↦ rw (c, t) refl | inr t ↦ rw (c, t) refl ]
]

-- What holds of both branches of a test
pub by_test :
    {A : Type 0} (P : A → Type 0) (b : Bool) (x y : A)
    → (b ≡ true → P x)
    → (b ≡ false → P y)
    → P (if b then x else y)
by_test P true x y f g = f refl
by_test P false x y f g = g refl

-- `handleEvents` does not fail where the operation is done.
handle_events-succeeds : (s : JourneyState) → s.done ≡ true → is_failure (handle_events s).1 ≡ false
unfolding handle_events
handle_events-succeeds s d =
    by_test (λ (r : JourneyState × Outcome). is_failure r.1 ≡ false) s.events_enabled _ _
      (λ e.
        by_test (λ (r : JourneyState × Outcome). is_failure r.1 ≡ false)
          (s.cancelled || s.timedout || s.done) _ _
          (λ c. reset_done-succeeds (handle_raise_events s s) (raise_events-succeeds s))
          (λ c. absurd (ground (arith, c, d))))
      (λ e.
        by_test (λ (r : JourneyState × Outcome). is_failure r.1 ≡ false) s.done _ _
          (λ c. reset_done-succeeds (s, returns) refl) (λ c. absurd (ground (arith, c, d))))

At-complete : (p : Stage) (w : Wait) → w.completed ≡ false → At p w → At p (complete w)
unfolding complete set_done
At-complete starts w c (a, b, d) = (a, b, refl)
At-complete suspended w c (a, b, d) = (a, b, refl)
At-complete (guarded x) w c (a, b, d, e) = (a, b, refl, e)
At-complete past w c (a, b, d, e) = (a, b, refl, refl)
At-complete (past_guard x) w c (a, b, d, e, f) = (a, b, refl, refl, f)
At-complete (ended o) w c (a, b, d, e) = (a, b, refl, e)

At-raise : (p : Stage) (e : Event) (w : Wait) → At p w → At p (raise e w)
unfolding raise
At-raise starts e w (a, b, d) = (a, b, (raise-fields e w.state).0 ∙ d)
At-raise suspended e w (a, b, d) = (a, b, (raise-fields e w.state).0 ∙ d)
At-raise (guarded x) e w (a, b, d, f) = let r = raise-fields e w.state in (a, b, r.0 ∙ d, r.1 ∙ f)
At-raise past e w (a, b, d, f) = (a, b, (raise-fields e w.state).0 ∙ d, f)
At-raise (past_guard x) e w (a, b, d, f, g) =
    let r = raise-fields e w.state in (a, b, r.0 ∙ d, f, r.1 ∙ g)
At-raise (ended o) e w h = h

At-Others : {w v : Wait} → Others w v → At w.stage w → At v.stage v
unfolding complete raise
At-Others {w} (completes c) h = At-complete w.stage w c h
At-Others {w} (raises_event e) h = At-raise w.stage e w h

At-finish :
    (w : Wait) (p : Stage)
    → (w.cancels ≤ 1) × (w.cleanups ≡ 0) × (w.state.done ≡ true) × (w.completed ≡ true)
    → At (finish w).stage (finish w)
unfolding finish
At-finish w p (a, b, d, c) = (a, omega (arith, b), c, handle_events-succeeds w.state d)

At-cancel :
    (w : Wait)
    → (w.cancels ≡ 0) × (w.cleanups ≡ 0) × (w.state.done ≡ w.completed)
    → At (cancel_under_guard w).stage (cancel_under_guard w)
unfolding cancel_under_guard guard disable_events
At-cancel w (a, b, d) = (omega (arith, a), b, d, refl)

-- The call goes on under a guard only when the operation is over.
guarded-done : (s : JourneyState) → s.events_enabled ≡ false → may_proceed s ≡ true → s.done ≡ true
unfolding may_proceed
guarded-done s e m = ground (arith, e, m)

end_dtor_guard-done : (b : Bool) (s : JourneyState) → (end_dtor_guard b s).done ≡ s.done
unfolding end_dtor_guard enable_events
end_dtor_guard-done true s = refl
end_dtor_guard-done false s = refl

At-Own : {w v : Wait} → Own w v → At w.stage w → At v.stage v
unfolding test_done test_again leave_guard
At-Own {w} (tests e) h =
    let (a, b, d) = subst (λ p. At p w) e h in
    by_test (λ v. At v.stage v) w.state.done _ _ (λ y. (omega (arith, a), b, y, sym d ∙ y))
      (λ n. (a, b, d))
At-Own {w} (tests_again e m) h =
    let (a, b, d) = subst (λ p. At p w) e h in
    by_test (λ v. At v.stage v) w.state.done _ _ (λ y. (omega (arith, a), b, y, sym d ∙ y))
      (λ n. At-cancel w (a, b, d))
At-Own {w} (leaves_guard x e m) h =
    let (a, b, d, f) = subst (λ p. At p w) e h in
    let y = guarded-done w.state f m in
    (omega (arith, a), b, end_dtor_guard-done x w.state ∙ y, sym d ∙ y)
At-Own {w} (finishes e) h = At-finish w past (subst (λ p. At p w) e h)

At-OwnGuarded : {w v : Wait} → OwnGuarded w v → At w.stage w → At v.stage v
unfolding guard_and_cancel finish_guarded finish guard disable_events
At-OwnGuarded {w} (guards e) h =
    let (a, b, d) = subst (λ p. At p w) e h in
    by_test (λ v. At v.stage v) w.state.done _ _ (λ y. (omega (arith, a), b, y, sym d ∙ y, refl))
      (λ n. At-cancel w (a, b, d))
At-OwnGuarded {w} (goes_on x e m) h =
    let (a, b, d, f) = subst (λ p. At p w) e h in
    let y = guarded-done w.state f m in (omega (arith, a), b, y, sym d ∙ y, f)
At-OwnGuarded {w} (finishes_guarded x e) h =
    let (a, b, d, c, f) = subst (λ p. At p w) e h in
    (a, omega (arith, b), c, handle_events-succeeds w.state d)

At-OwnOf : (g : Bool) (w v : Wait) → OwnOf g w v → At w.stage w → At v.stage v
At-OwnOf true w v o h = At-OwnGuarded o h
At-OwnOf false w v o h = At-Own o h

pub Reach-At : {g : Bool} {w : Wait} → Reach g w → At w.stage w
unfolding wait_of
Reach-At (here s) = (refl, refl, refl)
Reach-At (by_others r o) = At-Others o (Reach-At r)
Reach-At {g} (by_own {w} {v} r o) = At-OwnOf g w v o (Reach-At r)

-- What the operation and its owner may rely on
abbrev pub IsCareful : Wait → Type 0
IsCareful w =
    (w.cancels ≤ 1)
    × (w.cleanups ≤ 1)
    × (0 < w.cleanups → w.completed ≡ true)
    × ((o : Outcome) → w.stage ≡ ended o → (w.cleanups ≡ 1) × (is_failure o ≡ false))

At-IsCareful : (p : Stage) (w : Wait) → w.stage ≡ p → At p w → IsCareful w
At-IsCareful starts w e (a, b, d) =
    (omega (arith, a), omega (arith, b), λ h. absurd (omega (arith, h, b)), λ o f. cc)
At-IsCareful suspended w e (a, b, d) =
    (omega (arith, a), omega (arith, b), λ h. absurd (omega (arith, h, b)), λ o f. cc)
At-IsCareful (guarded x) w e (a, b, d, g) =
    (omega (arith, a), omega (arith, b), λ h. absurd (omega (arith, h, b)), λ o f. cc)
At-IsCareful past w e (a, b, d, c) = (a, omega (arith, b), λ h. c, λ o f. cc)
At-IsCareful (past_guard x) w e (a, b, d, c, g) = (a, omega (arith, b), λ h. c, λ o f. cc)
At-IsCareful (ended o) w e (a, b, c, g) = (
  a,
  omega (arith, b),
  λ h. c,
  λ q f. (b, subst (λ y. is_failure y ≡ false) (ap (outcome_of o) (sym e ∙ f)) g),
)
  where
    outcome_of : Outcome → Stage → Outcome
    outcome_of z starts = z
    outcome_of z suspended = z
    outcome_of z (guarded x) = z
    outcome_of z past = z
    outcome_of z (past_guard x) = z
    outcome_of z (ended y) = y

-- Whatever events come and whenever the operation ends, with and without a guard, the operation is cancelled at
-- most once, and it is cleaned up at most once and only when it is over; a call that has ended has cleaned up, and
-- has not failed a `VERIFY`.
pub wait_always_lem : {g : Bool} {w : Wait} → Reach g w → IsCareful w
wait_always_lem {g} {w} r = At-IsCareful w.stage w refl (Reach-At r)
