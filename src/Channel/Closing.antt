-- ===== src/Channel/Closing.antt =====
-- Closing a channel ends the wait of each journey that waits in `get`.
use replob_prototype.Prelude.{
  ==_iff, update_ne, ◌≢◌, Bool-cases, subst, ℕ, ◌≡◌, refl, ◌∙◌, true, false, not, ◌||◌, ◌==◌, List,
  [], ◌∷◌, In, inl, inr, arith, if◌then◌else◌, update,
}
use replob_prototype.Journey.{JourneyState, acquire, release_and_done, set_done}
use replob_prototype.Oers.{
  Journeys, DetachableDoer, is_ready, doer_acquire, doer_release_and_done, detachable_done,
}
use replob_prototype.Channel.{Channel, finished, reset_all, close, get, get_none}

-- The word of the doer's journey after `DetachableDoer::done`, and those of the others
word_after : DetachableDoer → JourneyState → JourneyState
word_after d s =
    if (acquire d.counter d.events_enabled s).1
    then (release_and_done d.events_enabled (acquire d.counter d.events_enabled s).0).0
    else (acquire d.counter d.events_enabled s).0

done-word_after :
    (d : DetachableDoer) (js : Journeys)
    → (detachable_done d js).0 d.journey ≡ word_after d (js d.journey)
unfolding detachable_done doer_acquire doer_release_and_done word_after
done-word_after d js = elim (Bool-cases (acquire d.counter d.events_enabled (js d.journey)).1) [
  | inl e ↦ simp (e, (==_iff d.journey d.journey).1 refl)
  | inr e ↦ simp (e, (==_iff d.journey d.journey).1 refl)
]

done_elsewhere :
    (d : DetachableDoer) (js : Journeys) (j : ℕ) → d.journey ≢ j → (detachable_done d js).0 j ≡ js j
unfolding detachable_done doer_acquire doer_release_and_done
done_elsewhere d js j h = elim (Bool-cases (acquire d.counter d.events_enabled (js d.journey)).1) [
  | inl e ↦ rw e (
      update_ne (update js d.journey (acquire d.counter d.events_enabled (js d.journey)).0)
        d.journey j
        (release_and_done d.events_enabled
          (update js d.journey (acquire d.counter d.events_enabled (js d.journey)).0 d.journey)).0
        h
      ∙ update_ne js d.journey j (acquire d.counter d.events_enabled (js d.journey)).0 h)
  | inr e ↦ rw e (update_ne js d.journey j (acquire d.counter d.events_enabled (js d.journey)).0 h)
]

word_after-keeps :
    (d : DetachableDoer) (s : JourneyState)
    → ((word_after d s).counter ≡ s.counter) × (s.done ≡ true → (word_after d s).done ≡ true)
unfolding word_after acquire release_and_done set_done
word_after-keeps d s = (ground arith, λ h. ground (arith, h))

word_after-done :
    (d : DetachableDoer) (s : JourneyState)
    → (not d.events_enabled || d.counter == s.counter) ≡ true
    → (word_after d s).done ≡ true
unfolding word_after acquire release_and_done set_done
word_after-done d s h = ground (arith, h)

done-keeps :
    (d : DetachableDoer) (js : Journeys) (j : ℕ)
    → (((detachable_done d js).0 j).counter ≡ (js j).counter)
      × ((js j).done ≡ true → ((detachable_done d js).0 j).done ≡ true)
done-keeps d js j = elim (Bool-cases (d.journey == j)) [
  | inl e ↦
      let p = (==_iff d.journey j).0 e in
      subst
        (λ i.
          (((detachable_done d js).0 i).counter ≡ (js i).counter)
          × ((js i).done ≡ true → ((detachable_done d js).0 i).done ≡ true))
        p (rw (done-word_after d js) (word_after-keeps d (js d.journey)))
  | inr e ↦ rw (done_elsewhere d js j (ground (arith, e))) (refl, λ h. h)
]

done-is_ready :
    (d c : DetachableDoer) (js : Journeys) → is_ready (detachable_done d js).0 c ≡ is_ready js c
unfolding is_ready
done-is_ready d c js = rw (done-keeps d js c.journey).0 refl

reset_all-keeps :
    (ds : List DetachableDoer) (js : Journeys) (j : ℕ)
    → (js j).done ≡ true
    → (reset_all ds js j).done ≡ true
unfolding reset_all
reset_all-keeps [] js j h = h
reset_all-keeps (d ∷ ds) js j h =
    reset_all-keeps ds (detachable_done d js).0 j ((done-keeps d js j).1 h)

reset_all-done :
    (ds : List DetachableDoer) (js : Journeys) (d : DetachableDoer)
    → In d ds
    → is_ready js d ≡ true
    → (reset_all ds js d.journey).done ≡ true
unfolding reset_all is_ready
reset_all-done [] js d i h = absurd i
reset_all-done (c ∷ ds) js d (inl e) h = reset_all-keeps ds (detachable_done c js).0 d.journey (
    rw e (
      rw (done-word_after c js)
        (word_after-done c (js c.journey) (subst (λ x. is_ready js x ≡ true) e h))))
reset_all-done (c ∷ ds) js d (inr i) h =
    reset_all-done ds (detachable_done c js).0 d i (done-is_ready c d js ∙ h)

-- Closing an open channel lets each waiting journey to which no event has come go on: its word is done.
-- Nobody waits in the closed channel, and a `get` of it returns false at once where no value is queued.
pub close_lem :
    {T : Type 0} (js : Journeys) (c : Channel T) (d : DetachableDoer) (j : ℕ)
    → c.closed ≡ false
    → In d c.waiters
    → is_ready js d ≡ true
    → let r = close js c in
      ((r.1 d.journey).done ≡ true)
      × (r.0.waiters ≡ [])
      × (r.0.queue ≡ c.queue)
      × (c.queue ≡ [] → (get j r.1 r.0).1 ≡ finished)
unfolding close get get_none
close_lem js c d j h i r = rw h (reset_all-done c.waiters js d i r, refl, refl, λ z. simp z)
