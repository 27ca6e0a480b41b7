-- ===== src/Channel/Order.antt =====
-- The values of a channel come out in the order in which they were put in.
use replob_prototype.Prelude.{
  subst, ℕ, ◌≡◌, refl, ap, sym, ◌∙◌, false, Bool-cases, Option, none, some, List, [], ◌∷◌, ◌++◌,
  ◌⊎◌, ◌≢◌, inl, inr, arith,
}
use mathlib.Core.List.{append-nil, append_assoc}
use replob_prototype.Journey.{constructed}
use replob_prototype.Oers.{Journeys, DetachableDoer, doer_acquire}
use replob_prototype.Channel.{
  Channel, Sent, Received, took, finished, waits, hand_first, put, get, get_none, open_channel,
  close,
}

-- `given` are the values whose `put` has ended without an exception, and `delivered` those that a `get`
-- has returned or a `put` has handed to a waiting journey, both in order.
pub record System (T : Type 0) : Type 0 where
  pub channel : Channel T
  pub journeys : Journeys
  pub given : List T
  pub delivered : List T

module _ {T : Type 0} where
  abbrev pub unused : System T
  unused = record {
    channel = record { queue = []; waiters = []; closed = false };
    journeys = λ j. constructed;
    given = [];
    delivered = [];
  }

  abbrev pub handed_to : T → Option DetachableDoer → List T → List T
  handed_to v none delivered = delivered
  handed_to v (some d) delivered = delivered ++ v ∷ []

  -- After a `put` that did not throw
  abbrev pub after_put : System T → T → Sent T → System T
  after_put s v r = record {
    channel = r.channel;
    journeys = r.journeys;
    given = s.given ++ v ∷ [];
    delivered = handed_to v r.handed s.delivered;
  }

  abbrev pub received : List T → Received T → List T
  received delivered (took v) = delivered ++ v ∷ []
  received delivered finished = delivered
  received delivered waits = delivered

  abbrev pub after_get : System T → Channel T × Received T → System T
  after_get s r = record s { channel = r.0; delivered = received s.delivered r.1 }

  abbrev pub after_close : System T → Channel T × Journeys → System T
  after_close s r = record s { channel = r.0; journeys = r.1 }

-- `elsewhere` is all that the journeys and other threads do to the words, the `Waiter::set` of a `put`
-- included.
pub data Step {T : Type 0} (s : System T) : System T → Type 0 where
  puts : (v : T) (r : Sent T) → put v s.journeys s.channel ≡ some r → Step s (after_put s v r)
  gets : (j : ℕ) → Step s (after_get s (get j s.journeys s.channel))
  opens : Step s (record s { channel = open_channel s.channel })
  closes : Step s (after_close s (close s.journeys s.channel))
  elsewhere : (js : Journeys) → Step s (record s { journeys = js })

pub data Reach {T : Type 0} : System T → Type 0 where
  here : Reach unused
  next : {s t : System T} → Reach s → Step s t → Reach t

list_cases : {A : Type 0} (l : List A) → (l ≡ []) ⊎ ((v : A) × (vs : List A) × (l ≡ v ∷ vs))
list_cases [] = inl refl
list_cases (v ∷ vs) = inr (v, vs, refl)

cons-nil : {A : Type 0} (v : A) (vs : List A) → v ∷ vs ≢ []
cons-nil v vs h = cc

module _ {T : Type 0} where
  abbrev Fits : System T → Type 0
  Fits s =
      (s.given ≡ s.delivered ++ s.channel.queue) × (s.channel.queue ≡ [] ⊎ s.channel.waiters ≡ [])

  -- A value is handed over, or it is queued and nobody waits.
  hand_first_lem :
      (v : T) (js : Journeys) (c : Channel T) (ds : List DetachableDoer)
      → let r = hand_first v js c ds in
        ((d : DetachableDoer) × (r.handed ≡ some d) × (r.channel.queue ≡ c.queue) × (ds ≢ []))
        ⊎ ((r.handed ≡ none) × (r.channel.queue ≡ c.queue ++ v ∷ []) × (r.channel.waiters ≡ []))
  unfolding hand_first
  hand_first_lem v js c [] = inr (refl, refl, refl)
  hand_first_lem v js c (d ∷ ds) = elim (Bool-cases (doer_acquire d js).1) [
    | inl e ↦ inl (d, rw e refl, rw e refl, λ h. cc)
    | inr e ↦ elim (hand_first_lem v (doer_acquire d js).0 c ds) [
      | inl (w, h, q, n) ↦ inl (w, rw e h, rw e q, λ h. cc)
      | inr h ↦ inr (rw e h)
    ]
  ]

  hand_over :
      (given delivered queue : List T) (v : T)
      → given ≡ delivered ++ queue
      → queue ≡ []
      → given ++ v ∷ [] ≡ (delivered ++ v ∷ []) ++ queue
  hand_over given delivered queue v e z =
      rw (e, z, append-nil delivered, append-nil (delivered ++ v ∷ [])) refl

  Fits-sent :
      (s : System T) (v : T)
      → Fits s
      → Fits (after_put s v (hand_first v s.journeys s.channel s.channel.waiters))
  Fits-sent s v f = elim (hand_first_lem v s.journeys s.channel s.channel.waiters) [
    | inl (d, h, q, n) ↦ elim f.1 [
      | inl z ↦ (rw (h, q) (hand_over s.given s.delivered s.channel.queue v f.0 z), inl (q ∙ z))
      | inr w ↦ absurd (n w)
    ]
    | inr (h, q, w) ↦ (rw (h, q, f.0) (append_assoc s.delivered s.channel.queue (v ∷ [])), inr w)
  ]

  put-some :
      (v : T) (js : Journeys) (c : Channel T) (r : Sent T)
      → put v js c ≡ some r
      → hand_first v js c c.waiters ≡ r
  unfolding put
  put-some v js c r e = ground (arith, e)

  Fits-put :
      (s : System T) (v : T) (r : Sent T)
      → put v s.journeys s.channel ≡ some r
      → Fits s
      → Fits (after_put s v r)
  Fits-put s v r e f =
      subst (λ u. Fits (after_put s v u)) (put-some v s.journeys s.channel r e) (Fits-sent s v f)

  get-nil : (j : ℕ) (js : Journeys) (c : Channel T) → c.queue ≡ [] → get j js c ≡ get_none j js c
  unfolding get
  get-nil j js c z = simp (get, z)

  get-cons :
      (j : ℕ) (js : Journeys) (c : Channel T) (v : T) (vs : List T)
      → c.queue ≡ v ∷ vs
      → get j js c ≡ (record c { queue = vs }, took v)
  unfolding get
  get-cons j js c v vs z = simp (get, z)

  get_none-keeps :
      (j : ℕ) (js : Journeys) (c : Channel T) (delivered : List T)
      → ((get_none j js c).0.queue ≡ c.queue) × (received delivered (get_none j js c).1 ≡ delivered)
  unfolding get_none
  get_none-keeps j js c delivered = elim (Bool-cases c.closed) [
    | inl e ↦ rw e (refl, refl)
    | inr e ↦ rw e (refl, refl)
  ]

  Fits-get_none :
      (s : System T) (j : ℕ)
      → s.channel.queue ≡ []
      → Fits s
      → Fits (after_get s (get_none j s.journeys s.channel))
  Fits-get_none s j z f =
      let k = get_none-keeps j s.journeys s.channel s.delivered in
      (rw (k.0, k.1) f.0, inl (k.0 ∙ z))

  Fits-took :
      (s : System T) (v : T) (vs : List T)
      → s.channel.queue ≡ v ∷ vs
      → Fits s
      → Fits (after_get s (record s.channel { queue = vs }, took v))
  Fits-took s v vs z f = (
    f.0 ∙ ap (λ q. s.delivered ++ q) z ∙ sym (append_assoc s.delivered (v ∷ []) vs),
    elim f.1 [ inl e ↦ absurd (cons-nil v vs (sym z ∙ e)) | inr w ↦ inr w ],
  )

  Fits-get : (s : System T) (j : ℕ) → Fits s → Fits (after_get s (get j s.journeys s.channel))
  Fits-get s j f = elim (list_cases s.channel.queue) [
    | inl z ↦
        subst (λ r. Fits (after_get s r)) (sym (get-nil j s.journeys s.channel z))
          (Fits-get_none s j z f)
    | inr (v, vs, z) ↦
        subst (λ r. Fits (after_get s r)) (sym (get-cons j s.journeys s.channel v vs z))
          (Fits-took s v vs z f)
  ]

  Fits-close : (s : System T) → Fits s → Fits (after_close s (close s.journeys s.channel))
  unfolding close
  Fits-close s f = elim (Bool-cases s.channel.closed) [
    | inl e ↦ rw e f
    | inr e ↦ rw e (f.0, inr refl)
  ]

  Fits-Step : {s t : System T} → Step s t → Fits s → Fits t
  unfolding open_channel
  Fits-Step {s} (puts v r e) f = Fits-put s v r e f
  Fits-Step {s} (gets j) f = Fits-get s j f
  Fits-Step opens f = f
  Fits-Step {s} closes f = Fits-close s f
  Fits-Step (elsewhere js) f = f

  Reach-Fits : {s : System T} → Reach s → Fits s
  Reach-Fits here = (refl, inl refl)
  Reach-Fits (next r p) = Fits-Step p (Reach-Fits r)

-- Under any calls of the operations of a channel, and whatever happens to the waiting journeys meanwhile,
-- the values that were put are, in order, those that were delivered and then those that are queued; and
-- while a value is queued nobody waits for one.
pub values_in_order :
    {T : Type 0} {s : System T}
    → Reach s
    → (s.given ≡ s.delivered ++ s.channel.queue) × (s.channel.queue ≡ [] ⊎ s.channel.waiters ≡ [])
values_in_order r = Reach-Fits r
