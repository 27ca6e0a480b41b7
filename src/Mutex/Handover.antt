-- ===== src/Mutex/Handover.antt =====
-- To whom `unlock` hands the mutex, and what a cancellation of that journey does.
use replob_prototype.Prelude.{
  ℕ, ◌≡◌, refl, ap, fun_ext, Bool, true, false, ◌==◌, ==_iff, Bool-cases, none, some, List, [], ◌∷◌,
  ◌++◌, All, ◌∙◌, update_self, ◌⊎◌, inl, inr, arith, update,
}
use replob_prototype.Oers.{
  is_ready, Journeys, DetachableDoer, stored, doer_acquire, goer_raise, doer_release_and_done,
}
use replob_prototype.Journey.{
  acquire, JourneyState, raises, cancelled_event, handle_events, handle_raise_events, reset_done,
  add_raise_event, release_and_done,
}
use replob_prototype.Mutex.{Mutex, Unlocked, wake_first, unlock, lock}

update_same : {A : Type 0} (f : ℕ → A) (i : ℕ) → update f i (f i) ≡ f
update_same f i =
    fun_ext (λ j. elim (Bool-cases (i == j)) [
      | inl e ↦ rw e (ap f ((==_iff i j).0 e))
      | inr e ↦ rw e refl
    ])

acquire-not_ready :
    (js : Journeys) (d : DetachableDoer) → is_ready js d ≡ false → doer_acquire d js ≡ (js, false)
unfolding is_ready doer_acquire acquire
acquire-not_ready js d h =
    ap (stored js d.journey) refused ∙ ap (λ f. (f, false)) (update_same js d.journey)
  where
    refused : acquire d.counter d.events_enabled (js d.journey) ≡ (js d.journey, false)
    refused = ground (arith, h)

acquire-is_ready :
    (js : Journeys) (d : DetachableDoer) → is_ready js d ≡ true → (doer_acquire d js).1 ≡ true
unfolding is_ready doer_acquire acquire
acquire-is_ready js d h = ground (arith, h)

-- No doer is ready, and the mutex is free.
abbrev pub IsFreed : Journeys → List DetachableDoer → Unlocked → Type 0
IsFreed js ds u =
    (u ≡ record { mutex = record { acquired = false; doers = [] }; journeys = js; woken = none })
    × All (λ d. is_ready js d ≡ false) ds

-- The first ready doer is taken, those before it are dropped, and those behind it stay.
abbrev pub IsHandedOver : Bool → Journeys → List DetachableDoer → Unlocked → Type 0
IsHandedOver acquired js ds u =
    (d : DetachableDoer) × (skipped : List DetachableDoer) × (rest : List DetachableDoer) × (ds
      ≡ skipped ++ d ∷ rest)
    × All (λ d. is_ready js d ≡ false) skipped
    × (is_ready js d ≡ true)
    × (u ≡ record {
      mutex = record { acquired = acquired; doers = rest };
      journeys = (doer_acquire d js).0;
      woken = some d;
    })

wake_first-not_ready :
    (acquired : Bool) (js : Journeys) (d : DetachableDoer) (ds : List DetachableDoer)
    → is_ready js d ≡ false
    → wake_first acquired js (d ∷ ds) ≡ wake_first acquired js ds
unfolding wake_first
wake_first-not_ready acquired js d ds h = rw (acquire-not_ready js d h) refl

wake_first_lem :
    (acquired : Bool) (js : Journeys) (ds : List DetachableDoer)
    → IsFreed js ds (wake_first acquired js ds)
      ⊎ IsHandedOver acquired js ds (wake_first acquired js ds)
unfolding wake_first
wake_first_lem acquired js [] = inl (refl, tt)
wake_first_lem acquired js (d ∷ ds) = elim (Bool-cases (is_ready js d)) [
  | inl e ↦ inr (d, [], ds, refl, tt, e, rw (acquire-is_ready js d e) refl)
  | inr e ↦
      let skip = wake_first-not_ready acquired js d ds e in
      elim (wake_first_lem acquired js ds) [
        | inl f ↦ inl (skip ∙ f.0, (e, f.1))
        | inr (w, skipped, rest, s, a, r, u) ↦
            inr (w, d ∷ skipped, rest, ap (λ l. d ∷ l) s, (e, a), r, skip ∙ u)
      ]
]

-- `unlock` hands the mutex to the first journey that waits for it and to which no event has come since;
-- the mutex stays acquired, the doers before it are dropped and those behind it stay. Where there is no
-- such journey it frees the mutex and drops all doers.
unlock_lem :
    (js : Journeys) (m : Mutex)
    → IsFreed js m.doers (unlock js m) ⊎ IsHandedOver m.acquired js m.doers (unlock js m)
unfolding unlock
unlock_lem js m = wake_first_lem m.acquired js m.doers

-- The journeys after the `releaseAndDone` at the end of `unlock` and a cancellation of the woken one.
abbrev pub cancelled_after : DetachableDoer → Journeys → Journeys
cancelled_after d js =
    (goer_raise cancelled_event (some d.journey) (doer_release_and_done d js).0).0

cancelled_word :
    (s : JourneyState)
    → (handle_events (add_raise_event cancelled_event (release_and_done true s).0).0).1
      ≡ raises cancelled_event
unfolding handle_events add_raise_event release_and_done handle_raise_events reset_done
cancelled_word s = refl

cancelled_after-raises :
    (d : DetachableDoer) (js : Journeys)
    → d.events_enabled ≡ true
    → (handle_events (cancelled_after d js d.journey)).1 ≡ raises cancelled_event
unfolding goer_raise doer_release_and_done
cancelled_after-raises d js e =
    rw (update_self (doer_release_and_done d js).0 d.journey, update_self js d.journey, e)
      (cancelled_word (js d.journey))

-- What a call of `unlock` makes of the two fields.
pub unlock_cases :
    (js : Journeys) (m : Mutex)
    → (((unlock js m).woken ≡ none)
        × ((unlock js m).mutex ≡ record { acquired = false; doers = [] }))
      ⊎ ((d : DetachableDoer) × ((unlock js m).woken ≡ some d)
          × ((unlock js m).mutex.acquired ≡ m.acquired))
unlock_cases js m = elim (unlock_lem js m) [
  | inl f ↦ inl (ap (λ u. u.woken) f.0, ap (λ u. u.mutex) f.0)
  | inr (d, skipped, rest, s, a, r, u) ↦ inr (d, ap (λ v. v.woken) u, ap (λ v. v.mutex.acquired) u)
]

woken-acquired :
    (js : Journeys) (m : Mutex) (d : DetachableDoer)
    → m.acquired ≡ true
    → (unlock js m).woken ≡ some d
    → (unlock js m).mutex.acquired ≡ true
woken-acquired js m d h w = elim (unlock_cases js m) [
  | inl f ↦ ground (arith, w, f.0)
  | inr (c, v, k) ↦ k ∙ h
]

lock-waits : (k : ℕ) (js : Journeys) (m : Mutex) → m.acquired ≡ true → (lock k js m).1 ≡ false
unfolding lock
lock-waits k js m h = rw h refl

-- A journey that waits with events enabled is handed the mutex. When a cancellation comes before it has
-- gone on, its `lock` throws the cancellation, and the mutex stays acquired: whoever calls `lock` next
-- waits.
pub cancelled_handover :
    (js : Journeys) (m : Mutex) (d : DetachableDoer) (k : ℕ)
    → m.acquired ≡ true
    → (unlock js m).woken ≡ some d
    → d.events_enabled ≡ true
    → let after = cancelled_after d (unlock js m).journeys in
      ((handle_events (after d.journey)).1 ≡ raises cancelled_event)
      × ((lock k after (unlock js m).mutex).1 ≡ false)
cancelled_handover js m d k h w e = (
  cancelled_after-raises d (unlock js m).journeys e,
  lock-waits k (cancelled_after d (unlock js m).journeys) (unlock js m).mutex
      (woken-acquired js m d h w),
)
