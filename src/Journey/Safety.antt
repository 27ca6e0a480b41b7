-- ===== src/Journey/Safety.antt =====
-- No thread resumes a coroutine that runs, none touches a deleted journey, and no wake-up is lost.
use replob_prototype.Prelude.{
  subst, sym, ◌∙◌, ◌<◌, ℕ, ◌≤◌, ◌≡◌, refl, Bool, true, false, ◌⊎◌, inl, inr, arith,
}
use replob_prototype.Journey.{
  JourneyState, Event, cancelled_event, timedout_event, may_proceed, disable_events, enable_events,
  set_done, add_raise_event, acquire, release_and_done, count_up, clear_done, reset_entered,
}
use replob_prototype.Journey.Threads.{
  Position, parked, running, leaving, checking, finished, reset_flags, Journey, wake, Step,
  others_done, others_raise, others_acquire, others_release, own_done, own_disable, own_enable,
  own_reset, own_count_up, own_clear, own_yield, own_end, resume, load, proceed_on_exit, exchange,
  exchange_fails, Reach, start, later,
}

-- A parked journey either waits for nothing more than a wake-up, or has exactly one run scheduled;
-- elsewhere no run is scheduled, and the word says that a thread is in.
abbrev pub Fits : Position → Journey → Type 0
Fits parked j =
    ((j.state.entered ≡ true) × (j.scheduled ≡ 1))
    ⊎ ((j.state.entered ≡ false) × (j.scheduled ≡ 0) × (may_proceed j.state ≡ false))
Fits running j = (j.state.entered ≡ true) × (j.scheduled ≡ 0)
Fits leaving j = (j.state.entered ≡ true) × (j.scheduled ≡ 0)
Fits (checking prev) j = (j.state.entered ≡ true) × (j.scheduled ≡ 0)
Fits finished j = (j.state.entered ≡ true) × (j.scheduled ≡ 0)

-- An operation of another thread.
record IsWake (s : JourneyState) (r : JourneyState × Bool) : Type 0 where
  stays_in : s.entered ≡ true → (r.0.entered ≡ true) × (r.1 ≡ false)
  stays_out :
      s.entered ≡ false
      → may_proceed s ≡ false
      → ((r.0.entered ≡ true) × (r.1 ≡ true))
        ⊎ ((r.0.entered ≡ false) × (r.1 ≡ false) × (may_proceed r.0 ≡ false))

wake-Fits :
    (j : Journey) (r : JourneyState × Bool) (p : Position)
    → IsWake j.state r
    → Fits p j
    → Fits p (wake j r)
wake-Fits j r parked w (inl f) = ground (arith, w.stays_in f.0)
wake-Fits j r parked w (inr f) = ground (arith, w.stays_out f.0 f.2)
wake-Fits j r running w f = ground (arith, w.stays_in f.0)
wake-Fits j r leaving w f = ground (arith, w.stays_in f.0)
wake-Fits j r (checking prev) w f = ground (arith, w.stays_in f.0)
wake-Fits j r finished w f = ground (arith, w.stays_in f.0)

set_done-IsWake : (s : JourneyState) → IsWake s (set_done s)
unfolding set_done may_proceed
set_done-IsWake s = record { stays_in = λ h. ground arith; stays_out = λ h k. ground arith }

raise-IsWake : (e : Event) (s : JourneyState) → IsWake s (add_raise_event e s)
unfolding add_raise_event may_proceed
raise-IsWake cancelled_event s = record {
  stays_in = λ h. ground arith;
  stays_out = λ h k. ground arith;
}
raise-IsWake timedout_event s = record {
  stays_in = λ h. ground arith;
  stays_out = λ h k. ground arith;
}

acquire-IsWake : (c : ℕ) (b : Bool) (s : JourneyState) → IsWake s ((acquire c b s).0, false)
unfolding acquire may_proceed
acquire-IsWake c b s = record { stays_in = λ h. ground arith; stays_out = λ h k. ground arith }

release-IsWake : (b : Bool) (s : JourneyState) → IsWake s (release_and_done b s)
unfolding release_and_done set_done may_proceed
release-IsWake b s = record { stays_in = λ h. ground arith; stays_out = λ h k. ground arith }

reset_flags-entered : (c t d : Bool) (s : JourneyState) → (reset_flags c t d s).entered ≡ s.entered
unfolding reset_flags
reset_flags-entered c t d s = refl

disable_events-entered : (s : JourneyState) → (disable_events s).0.entered ≡ s.entered
unfolding disable_events
disable_events-entered s = refl

enable_events-entered : (s : JourneyState) → (enable_events s).entered ≡ s.entered
unfolding enable_events
enable_events-entered s = refl

count_up-entered : (s : JourneyState) → (count_up s).entered ≡ s.entered
unfolding count_up
count_up-entered s = refl

clear_done-entered : (s : JourneyState) → (clear_done s).entered ≡ s.entered
unfolding clear_done
clear_done-entered s = refl

-- An operation of the coroutine on itself leaves `FlagEntered` alone.
own-Fits :
    (j : Journey) (s : JourneyState)
    → j.position ≡ running
    → s.entered ≡ j.state.entered
    → Fits j.position j
    → Fits j.position (record j { state = s })
own-Fits j s e h f =
    let g = subst (λ p. Fits p j) e f in
    subst (λ p. Fits p (record j { state = s })) (sym e) (h ∙ g.0, g.1)

scheduled-parked :
    (j : Journey) (p : Position)
    → Fits p j
    → 0 < j.scheduled
    → (p ≡ parked) × (j.state.entered ≡ true) × (j.scheduled ≡ 1)
scheduled-parked j parked (inl f) h = (refl, f.0, f.1)
scheduled-parked j parked (inr f) h = absurd (omega (arith, f.1))
scheduled-parked j running f h = absurd (omega (arith, f.1))
scheduled-parked j leaving f h = absurd (omega (arith, f.1))
scheduled-parked j (checking prev) f h = absurd (omega (arith, f.1))
scheduled-parked j finished f h = absurd (omega (arith, f.1))

at_most_one :
    (j : Journey) (p : Position) → Fits p j → (j.scheduled ≤ 1) × (0 < j.scheduled → p ≡ parked)
at_most_one j parked (inl f) = (omega (arith, f.1), λ h. refl)
at_most_one j parked (inr f) = (omega (arith, f.1), λ h. refl)
at_most_one j running f = (omega (arith, f.1), λ h. absurd (omega (arith, f.1)))
at_most_one j leaving f = (omega (arith, f.1), λ h. absurd (omega (arith, f.1)))
at_most_one j (checking prev) f = (omega (arith, f.1), λ h. absurd (omega (arith, f.1)))
at_most_one j finished f = (omega (arith, f.1), λ h. absurd (omega (arith, f.1)))

reset_entered-lem :
    (prev : JourneyState) (n : ℕ)
    → n ≡ 0
    → may_proceed prev ≡ false
    → ((reset_entered prev).entered ≡ false) × (n ≡ 0) × (may_proceed (reset_entered prev) ≡ false)
unfolding reset_entered may_proceed
reset_entered-lem prev n z m = (refl, z, m)

wakes_done : (s : JourneyState) → s.entered ≡ false → (set_done s).1 ≡ true
unfolding set_done
wakes_done s h = ground arith

wakes_release :
    (s : JourneyState) → s.entered ≡ false → (b : Bool) → (release_and_done b s).1 ≡ true
unfolding release_and_done set_done
wakes_release s h b = ground arith

wakes_event :
    (s : JourneyState)
    → s.entered ≡ false
    → (e : Event) → s.events_enabled ≡ true
    → (add_raise_event e s).1 ≡ true
unfolding add_raise_event
wakes_event s h cancelled_event e = ground arith
wakes_event s h timedout_event e = ground arith

Fits-Step : {j k : Journey} → Step j k → Fits j.position j → Fits k.position k
Fits-Step {j} others_done f = wake-Fits j (set_done j.state) j.position (set_done-IsWake j.state) f
Fits-Step {j} (others_raise e) f = wake-Fits j _ j.position (raise-IsWake e j.state) f
Fits-Step {j} (others_acquire c b) f =
    wake-Fits j ((acquire c b j.state).0, false) j.position (acquire-IsWake c b j.state) f
Fits-Step {j} (others_release b) f = wake-Fits j _ j.position (release-IsWake b j.state) f
Fits-Step {j} (own_done e) f = wake-Fits j (set_done j.state) j.position (set_done-IsWake j.state) f
Fits-Step {j} (own_disable e) f = own-Fits j _ e (disable_events-entered j.state) f
Fits-Step {j} (own_enable e) f = own-Fits j _ e (enable_events-entered j.state) f
Fits-Step {j} (own_reset c t d e) f = own-Fits j _ e (reset_flags-entered c t d j.state) f
Fits-Step {j} (own_count_up e) f = own-Fits j _ e (count_up-entered j.state) f
Fits-Step {j} (own_clear e) f = own-Fits j _ e (clear_done-entered j.state) f
Fits-Step {j} (own_yield e) f = subst (λ p. Fits p j) e f
Fits-Step {j} (own_end e) f = subst (λ p. Fits p j) e f
Fits-Step {j} (resume {n} e) f =
    let g = scheduled-parked j j.position f (omega arith) in (g.1, omega (arith, g.2))
Fits-Step {j} (load e) f = subst (λ p. Fits p j) e f
Fits-Step {j} (proceed_on_exit prev e m) f =
    let g = subst (λ p. Fits p j) e f in inl (g.0, omega (arith, g.1))
Fits-Step {j} (exchange prev e m q) f =
    let g = subst (λ p. Fits p j) e f in inr (reset_entered-lem prev j.scheduled g.1 m)
Fits-Step {j} (exchange_fails prev e m) f = subst (λ p. Fits p j) e f

-- Every state that a journey reaches is one of those above.
pub Reach-Fits : {j : Journey} → Reach j → Fits j.position j
Reach-Fits start = inl (refl, refl)
Reach-Fits (later r st) = Fits-Step st (Reach-Fits r)

-- One resumption at a time: whatever the threads do and in whichever order, at most one run of
-- `proceed0` is scheduled, and only while no thread is in `proceed0` and the journey is not deleted. So
-- the coroutine that it resumes is suspended, and `proceed0` never meets a deleted journey.
pub one_resumption :
    {j : Journey} → Reach j → (j.scheduled ≤ 1) × (0 < j.scheduled → j.position ≡ parked)
one_resumption {j} r = at_most_one j j.position (Reach-Fits r)

may_proceed-flags :
    (s : JourneyState)
    → may_proceed s ≡ false
    → (s.done ≡ false) × (s.events_enabled ≡ true → (s.cancelled ≡ false) × (s.timedout ≡ false))
unfolding may_proceed
may_proceed-flags s h = (ground (arith, h), λ e. (ground (arith, h, e), ground (arith, h, e)))

-- No lost wake-up: a journey that is parked with no run scheduled is not done and has no event that it
-- would take. And then each wake-up schedules a run: `done`, either `releaseAndDone`, and an event,
-- where events are enabled.
pub no_lost_wakeup :
    {j : Journey}
    → Reach j
    → j.position ≡ parked
    → j.scheduled ≡ 0
    → (j.state.done ≡ false)
      × (j.state.events_enabled ≡ true → (j.state.cancelled ≡ false) × (j.state.timedout ≡ false))
      × ((set_done j.state).1 ≡ true)
      × ((enabled : Bool) → (release_and_done enabled j.state).1 ≡ true)
      × ((e : Event) → j.state.events_enabled ≡ true → (add_raise_event e j.state).1 ≡ true)
no_lost_wakeup {j} r e z = waiting (subst (λ p. Fits p j) e (Reach-Fits r))
  where
    waiting :
        Fits parked j
        → (j.state.done ≡ false)
          × (j.state.events_enabled ≡ true
              → (j.state.cancelled ≡ false) × (j.state.timedout ≡ false))
          × ((set_done j.state).1 ≡ true)
          × ((enabled : Bool) → (release_and_done enabled j.state).1 ≡ true)
          × ((e : Event) → j.state.events_enabled ≡ true → (add_raise_event e j.state).1 ≡ true)
    waiting (inl f) = absurd (omega (arith, f.1))
    waiting (inr f) =
        let g = may_proceed-flags j.state f.2 in
        (g.0, g.1, wakes_done j.state f.0, wakes_release j.state f.0, wakes_event j.state f.0)
