-- ===== src/Journey/Suspend.antt =====
-- `Journey::suspend` between the yield of the coroutine and its next run (src/journey.cpp), where other threads
-- only call `done` and raise events, as they do while the journey waits for something that it has started.
use replob_prototype.Prelude.{
  ◌+◌, ◌<◌, ◌≡◌, ◌≢◌, sym, ◌∙◌, ap, subst, Bool, true, false, Bool-cases, inl, inr, arith,
}
use replob_prototype.Journey.{
  JourneyState, Event, cancelled_event, timedout_event, may_proceed, set_done, add_raise_event,
  reset_entered,
}
use replob_prototype.Journey.Threads
use replob_prototype.Journey.Threads.{
  Position, parked, running, leaving, checking, finished, Journey, wake, Reach, later, own_yield,
  load, proceed_on_exit, exchange, exchange_fails,
}
use replob_prototype.Journey.Safety.{one_resumption}

-- The journey has yielded, and has not been run since.
pub data Suspension : Journey → Type 0 where
  yields :
      {j : Journey} → Reach j → j.position ≡ running → Suspension (record j { position = leaving })
  others_done : {j : Journey} → Suspension j → Suspension (wake j (set_done j.state))
  others_raise :
      {j : Journey} (e : Event) → Suspension j → Suspension (wake j (add_raise_event e j.state))
  loads :
      {j : Journey}
      → Suspension j
      → j.position ≡ leaving
      → Suspension (record j { position = checking j.state })
  proceeds :
      {j : Journey} (prev : JourneyState)
      → Suspension j
      → j.position ≡ checking prev
      → may_proceed prev ≡ true
      → Suspension (record j { position = parked; scheduled = j.scheduled + 1 })
  exchanges :
      {j : Journey} (prev : JourneyState)
      → Suspension j
      → j.position ≡ checking prev
      → may_proceed prev ≡ false
      → j.state ≡ prev
      → Suspension (record j { state = reset_entered prev; position = parked })
  fails :
      {j : Journey} (prev : JourneyState)
      → Suspension j
      → j.position ≡ checking prev
      → may_proceed prev ≡ false
      → Suspension (record j { position = checking j.state })

-- What was loaded still holds.
abbrev Loaded : Position → JourneyState → Type 0
Loaded parked s = Unit
Loaded running s = Unit
Loaded leaving s = Unit
Loaded (checking prev) s = may_proceed prev ≡ true → may_proceed s ≡ true
Loaded finished s = Unit

abbrev Fits : Journey → Type 0
Fits j = (0 < j.scheduled → may_proceed j.state ≡ true) × Loaded j.position j.state

true-false : true ≢ false
true-false h = cc

running-parked : running ≢ parked
running-parked h = cc

set_done-proceeds : (s : JourneyState) → may_proceed (set_done s).0 ≡ true
unfolding may_proceed set_done
set_done-proceeds s = ground arith

raise-proceeds :
    (e : Event) (s : JourneyState)
    → (add_raise_event e s).1 ≡ true
    → may_proceed (add_raise_event e s).0 ≡ true
unfolding may_proceed add_raise_event
raise-proceeds cancelled_event s h = ground (arith, h)
raise-proceeds timedout_event s h = ground (arith, h)

raise-keeps :
    (e : Event) (s : JourneyState)
    → may_proceed s ≡ true
    → may_proceed (add_raise_event e s).0 ≡ true
unfolding may_proceed add_raise_event
raise-keeps cancelled_event s h = ground (arith, h)
raise-keeps timedout_event s h = ground (arith, h)

Loaded-later :
    (p : Position) (s t : JourneyState)
    → (may_proceed s ≡ true → may_proceed t ≡ true)
    → Loaded p s
    → Loaded p t
Loaded-later parked s t f l = tt
Loaded-later running s t f l = tt
Loaded-later leaving s t f l = tt
Loaded-later (checking prev) s t f l = λ h. f (l h)
Loaded-later finished s t f l = tt

Fits-wake :
    (j : Journey) (r : JourneyState × Bool)
    → (r.1 ≡ true → may_proceed r.0 ≡ true)
    → (may_proceed j.state ≡ true → may_proceed r.0 ≡ true)
    → Fits j
    → Fits (wake j r)
Fits-wake j r woken kept f = (
  λ h. elim (Bool-cases r.1) [ inl w ↦ woken w | inr n ↦ kept (f.0 (ground (arith, h, n))) ],
  Loaded-later j.position j.state r.0 kept f.1,
)

none_scheduled : (j : Journey) → Fits j → may_proceed j.state ≡ false → 0 < j.scheduled → ⊥
none_scheduled j f e h = true-false (sym (f.0 h) ∙ e)

Suspension-Fits : {j : Journey} → Suspension j → Fits j
Suspension-Fits {j} (yields {j = i} r p) =
    (λ h. absurd (running-parked (sym p ∙ (one_resumption {j = i} r).1 h)), tt)
Suspension-Fits (others_done {j = i} s) =
    Fits-wake i (set_done i.state) (λ _. set_done-proceeds i.state) (λ _. set_done-proceeds i.state)
      (Suspension-Fits s)
Suspension-Fits (others_raise {j = i} e s) =
    Fits-wake i (add_raise_event e i.state) (raise-proceeds e i.state) (raise-keeps e i.state)
      (Suspension-Fits s)
Suspension-Fits (loads s p) = ((Suspension-Fits s).0, λ h. h)
Suspension-Fits (proceeds {j = i} prev s p m) =
    let l = subst (λ x. Loaded x i.state) p (Suspension-Fits s).1 in (λ h. l m, tt)
Suspension-Fits (exchanges {j = i} prev s p m e) =
    let f = Suspension-Fits s in (λ h. absurd (none_scheduled i f (ap may_proceed e ∙ m) h), tt)
Suspension-Fits (fails prev s p m) = ((Suspension-Fits s).0, λ h. h)

-- What happens in a suspension happens in a run of the journey among any threads.
pub Suspension-Reach : {j : Journey} → Suspension j → Reach j
Suspension-Reach (yields r p) = later r (own_yield p)
Suspension-Reach (others_done s) = later (Suspension-Reach s) Threads.others_done
Suspension-Reach (others_raise e s) = later (Suspension-Reach s) (Threads.others_raise e)
Suspension-Reach (loads s p) = later (Suspension-Reach s) (load p)
Suspension-Reach (proceeds prev s p m) = later (Suspension-Reach s) (proceed_on_exit prev p m)
Suspension-Reach (exchanges prev s p m e) = later (Suspension-Reach s) (exchange prev p m e)
Suspension-Reach (fails prev s p m) = later (Suspension-Reach s) (exchange_fails prev p m)

-- A run that is scheduled in a suspension finds that the journey is done, or that an event has come while
-- events are enabled: the journey is not woken for nothing.
pub woken_for_cause : {j : Journey} → Suspension j → 0 < j.scheduled → may_proceed j.state ≡ true
woken_for_cause s h = (Suspension-Fits s).0 h
