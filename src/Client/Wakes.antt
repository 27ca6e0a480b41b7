-- ===== src/Client/Wakes.antt =====
-- What the `done` of a message does to the words of the journeys.
use replob_prototype.Prelude.{
  ℕ, ◌≡◌, refl, ap, ◌∙◌, Bool, true, Bool-cases, inl, inr, arith, update_all, update_self,
}
use replob_prototype.Journey.{JourneyState, acquire, release_and_done, set_done}
use replob_prototype.Oers.{
  Journeys, DetachableDoer, doer_acquire, doer_release_and_done, detachable_done,
}

-- No counter changes, and a journey that is done stays so.
abbrev pub IsOnward : Journeys → Journeys → Type 0
IsOnward js ks =
    (i : ℕ) → ((ks i).counter ≡ (js i).counter) × ((js i).done ≡ true → (ks i).done ≡ true)

pub IsOnward-trans : (js ks ls : Journeys) → IsOnward js ks → IsOnward ks ls → IsOnward js ls
IsOnward-trans js ks ls f g i = let a = f i in let b = g i in (b.0 ∙ a.0, λ h. b.1 (a.1 h))

acquire-keeps :
    (c : ℕ) (b : Bool) (s : JourneyState)
    → ((acquire c b s).0.counter ≡ s.counter) × ((acquire c b s).0.done ≡ s.done)
unfolding acquire
acquire-keeps c b s = (ground arith, ground arith)

release-done :
    (b : Bool) (s : JourneyState)
    → ((release_and_done b s).0.counter ≡ s.counter) × ((release_and_done b s).0.done ≡ true)
unfolding release_and_done set_done
release-done b s = (ground arith, ground arith)

acquire-IsOnward : (d : DetachableDoer) (js : Journeys) → IsOnward js (doer_acquire d js).0
unfolding doer_acquire
acquire-IsOnward d js =
    let k = acquire-keeps d.counter d.events_enabled (js d.journey) in
    update_all
      (λ i (w : JourneyState). (w.counter ≡ (js i).counter) × ((js i).done ≡ true → w.done ≡ true))
      js d.journey _ (k.0, λ h. k.1 ∙ h) (λ i n. (refl, λ h. h))

release-IsOnward : (d : DetachableDoer) (js : Journeys) → IsOnward js (doer_release_and_done d js).0
unfolding doer_release_and_done
release-IsOnward d js =
    let k = release-done d.events_enabled (js d.journey) in
    update_all
      (λ i (w : JourneyState). (w.counter ≡ (js i).counter) × ((js i).done ≡ true → w.done ≡ true))
      js d.journey _ (k.0, λ h. k.1) (λ i n. (refl, λ h. h))

pub done-IsOnward : (d : DetachableDoer) (js : Journeys) → IsOnward js (detachable_done d js).0
unfolding detachable_done
done-IsOnward d js = elim (Bool-cases (doer_acquire d js).1) [
  | inl held ↦ rw held (
      IsOnward-trans js (doer_acquire d js).0 (doer_release_and_done d (doer_acquire d js).0).0
        (acquire-IsOnward d js) (release-IsOnward d (doer_acquire d js).0))
  | inr missed ↦ rw missed (acquire-IsOnward d js)
]

acquires :
    (d : DetachableDoer) (js : Journeys)
    → d.counter ≡ (js d.journey).counter
    → (doer_acquire d js).1 ≡ true
unfolding doer_acquire acquire
acquires d js e = ground (arith, e)

released-done :
    (d : DetachableDoer) (js : Journeys) → ((doer_release_and_done d js).0 d.journey).done ≡ true
unfolding doer_release_and_done
released-done d js =
    ap (λ (w : JourneyState). w.done) (update_self js d.journey _)
    ∙ (release-done d.events_enabled (js d.journey)).1

-- The journey of a doer to which no event has come since is done.
pub wakes_journey :
    (d : DetachableDoer) (js : Journeys)
    → d.counter ≡ (js d.journey).counter
    → ((detachable_done d js).0 d.journey).done ≡ true
unfolding detachable_done
wakes_journey d js e = rw (acquires d js e) (released-done d (doer_acquire d js).0)
