-- ===== src/AnyResult/Answer.antt =====
-- What `goAnyResult` answers.
use replob_prototype.Prelude.{
  ℕ, ◌+◌, ◌^◌, ◌<◌, ◌≡◌, ◌≢◌, ◌==◌, refl, sym, subst, ◌∙◌, Bool-cases, Option-cases, true, false,
  if◌then◌else◌, Option, none, some, inl, inr, ◌⊎◌, arith,
}
use replob_prototype.AnyResult.{
  AnyResult, any_started, counts_to_one, give, give_none, proceed_with, all_started, destroy, Step,
  gives, gives_none, proceeds, starts_all, destroys, Reach, here, next,
}

none-some : {A : Type 0} (a : A) → none ≢ some a
none-some a h = cc

false-true : false ≢ true
false-true h = cc

module _ {R : Type 0} where
  -- What the caller has been told: where a value came, it is told that value, once; where none came, it is told
  -- so once the counter has been destroyed.
  abbrev pub IsAnswered : AnyResult R → Option R → Type 0
  IsAnswered s none =
      (s.counter ≡ (if s.destroyed then 1 else 0))
      × (s.winner ≡ none)
      × (s.result ≡ none)
      × (s.proceeds ≡ (if s.destroyed then 1 else 0))
  IsAnswered s (some r) =
      (0 < s.counter)
      × (((s.winner ≡ some r) × (s.proceeds ≡ 0) × (s.destroyed ≡ false))
          ⊎ ((s.winner ≡ none) × (s.proceeds ≡ 1) × (s.result ≡ some r)))

  -- The references that are left, and the counts to come
  abbrev IsSmall : AnyResult R → Type 0
  IsSmall s =
      (s.counter + s.running < 2 ^ 31 + (if s.destroyed then 1 else 0))
      × (s.destroyed ≡ true → (s.running ≡ 0) × (s.starting ≡ false) × (s.winner ≡ none))

  abbrev Answered : AnyResult R → Type 0
  Answered s = (o : Option R) × (s.first ≡ o) × IsAnswered s o

  not-destroyed : (s : AnyResult R) → IsSmall s → 0 < s.running → s.destroyed ≡ false
  not-destroyed s b h = elim (Bool-cases s.destroyed) [
    | inl d ↦ absurd (omega (arith, h, (b.1 d).0))
    | inr d ↦ d
  ]

  Answered-give :
      (r : R) (s : AnyResult R) → 0 < s.running → IsSmall s → Answered s → Answered (give r s)
  unfolding give
  Answered-give r s h b (none, e, (c, w, x, p)) =
      let d = not-destroyed s b h in
      let one : counts_to_one s.counter ≡ true = ground (arith, c, d) in
      (some r, rw one refl, (ground (arith, c, d), inl (rw one refl, ground (arith, p, d), d)))
  Answered-give r s h b (some q, e, (c, x)) =
      let d = not-destroyed s b h in
      let more : counts_to_one s.counter ≡ false = ground (arith, c, d, b.0) in
      (
        some q,
        rw more e,
        (
          ground (arith, c, d, b.0),
          elim x [ inl (w, p, _) ↦ inl (rw more w, p, d) | inr (w, p, z) ↦ inr (rw more w, p, z) ],
        ),
      )

  Answered-proceed_with :
      (r : R) (s : AnyResult R) → s.winner ≡ some r → Answered s → Answered (proceed_with r s)
  unfolding proceed_with
  Answered-proceed_with r s h (none, e, (c, w, x, p)) = absurd (none-some r (sym w ∙ h))
  Answered-proceed_with r s h (some q, e, (c, inl (w, p, d))) =
      (some q, e, (c, inr (refl, omega (arith, p), sym h ∙ w)))
  Answered-proceed_with r s h (some q, e, (c, inr (w, p, z))) = absurd (none-some r (sym w ∙ h))

  Answered-destroy :
      (s : AnyResult R)
      → s.winner ≡ none
      → s.destroyed ≡ false
      → IsSmall s
      → Answered s
      → Answered (destroy s)
  unfolding destroy
  Answered-destroy s h d b (none, e, (c, w, x, p)) =
      let one : counts_to_one s.counter ≡ true = ground (arith, c, d) in
      (none, e, (ground (arith, c, d), w, rw one refl, rw one (ground (arith, p, d))))
  Answered-destroy s h d b (some q, e, (c, inl (w, p, _))) = absurd (none-some q (sym h ∙ w))
  Answered-destroy s h d b (some q, e, (c, inr (w, p, z))) =
      let more : counts_to_one s.counter ≡ false = ground (arith, c, d, b.0) in
      (some q, e, (ground (arith, c, d, b.0), inr (w, rw more p, rw more z)))

  Answered-Step : {s t : AnyResult R} → Step s t → IsSmall s → Answered s → Answered t
  unfolding give_none all_started
  Answered-Step {s} (gives r h) b a = Answered-give r s h b a
  Answered-Step (gives_none h) b a = a
  Answered-Step {s} (proceeds r h) b a = Answered-proceed_with r s h a
  Answered-Step (starts_all h) b a = a
  Answered-Step {s} (destroys z w st d) b a = Answered-destroy s w d b a

  IsSmall-Step : {s t : AnyResult R} → Step s t → IsSmall s → IsSmall t
  unfolding give give_none proceed_with all_started destroy
  IsSmall-Step {s} (gives r h) b =
      let d = not-destroyed s b h in
      (ground (arith, b.0, d, h), λ e. absurd (false-true (sym d ∙ e)))
  IsSmall-Step {s} (gives_none h) b =
      let d = not-destroyed s b h in (omega (arith, b.0, h), λ e. absurd (false-true (sym d ∙ e)))
  IsSmall-Step {s} (proceeds r h) b = (b.0, λ e. absurd (none-some r (sym (b.1 e).2 ∙ h)))
  IsSmall-Step {s} (starts_all h) b = (b.0, λ e. absurd (false-true (sym (b.1 e).1 ∙ h)))
  IsSmall-Step {s} (destroys z w st d) b = (ground (arith, b.0, d, z), λ e. (z, st, w))

  Reach-Fits : {n : ℕ} {s : AnyResult R} → Reach n s → IsSmall s × Answered s
  unfolding any_started
  Reach-Fits (here h) = ((omega (arith, h), λ e. cc), (none, refl, (refl, refl, refl, refl)))
  Reach-Fits (next r p) = let f = Reach-Fits r in (IsSmall-Step p f.0, Answered-Step p f.0 f.1)

  -- Under any interleaving the caller of `goAnyResult` goes on at most once: with the first value that came to
  -- the counter, or without one where none came before the last reference to the counter was gone.
  pub any_result_lem : {n : ℕ} {s : AnyResult R} → Reach n s → IsAnswered s s.first
  any_result_lem {s} r = let (o, e, a) = (Reach-Fits r).1 in subst (λ x. IsAnswered s x) (sym e) a

  stuck-destroyed : (s : AnyResult R) → ((t : AnyResult R) → Step s t → ⊥) → s.destroyed ≡ true
  stuck-destroyed s stuck = elim (Bool-cases s.destroyed) [
    | inl d ↦ d
    | inr d ↦ elim (Option-cases s.winner) [
      | inr (r, w) ↦ absurd (stuck (proceed_with r s) (proceeds r w))
      | inl w ↦ elim (Bool-cases s.starting) [
        | inl st ↦ absurd (stuck (all_started s) (starts_all st))
        | inr st ↦ elim (Bool-cases (s.running == 0)) [
          | inl z ↦ absurd (stuck (destroy s) (destroys (ground arith) w st d))
          | inr z ↦ absurd (stuck (give_none s) (gives_none (ground arith)))
        ]
      ]
    ]
  ]

  told :
      (s : AnyResult R) (o : Option R)
      → s.destroyed ≡ true
      → s.first ≡ o
      → IsAnswered s o
      → (s.proceeds ≡ 1) × (s.result ≡ s.first)
  told s none d e (c, w, x, p) = (ground (arith, p, d), x ∙ sym e)
  told s (some r) d e (c, inl (w, p, f)) = absurd (false-true (sym f ∙ d))
  told s (some r) d e (c, inr (w, p, x)) = (p, x ∙ sym e)

  -- Where no journey can go on any further, the caller has gone on, once, with the first value that came to the
  -- counter, or without one where none came; whether the handlers gave values, gave none or threw.
  pub any_result-returns :
      {n : ℕ} {s : AnyResult R}
      → Reach n s
      → ((t : AnyResult R) → Step s t → ⊥)
      → (s.proceeds ≡ 1) × (s.result ≡ s.first)
  any_result-returns {s} r stuck =
      let (b, (o, e, a)) = Reach-Fits r in let d = stuck-destroyed s stuck in told s o d e a
