-- ===== src/AnyWait/First.antt =====
-- Which handler `goAnyWait` returns.
use replob_prototype.Prelude.{
  ℕ, ◌+◌, ◌^◌, ◌<◌, ◌≡◌, ◌≢◌, ◌==◌, Bool, Bool-cases, true, false, none, some, List, [], ◌∷◌, ◌++◌,
  length, length-append, ◌⊎◌, inl, inr, refl, arith, ◌∙◌, sym, update,
}
use replob_prototype.AnyWait.{
  AnyWait, begun, count_up, proceed, throw, Step, counts, proceeds, throws, Reach, here, next,
}

-- What the caller has been told, when these handlers have ended without an exception
abbrev pub IsTold : ℕ → AnyWait → List ℕ → Type 0
IsTold n s [] = (s.winner ≡ none) × (s.proceeds ≡ 0)
IsTold n s (i ∷ rest) =
    (i < n)
    × (((s.winner ≡ some i) × (s.proceeds ≡ 0))
        ⊎ ((s.winner ≡ none) × (s.proceeds ≡ 1) × (s.index ≡ i)))

abbrev Fits : ℕ → AnyWait → Type 0
Fits n s =
    (s.counter ≡ length s.finished) × ((i : ℕ) → s.running i ≡ true → i < n) × IsTold n s s.finished

IsTold-count_up :
    (n i : ℕ) (s : AnyWait) (fs : List ℕ)
    → s.counter ≡ length fs
    → length fs + 1 < 2 ^ 31
    → i < n
    → IsTold n s fs
    → IsTold n (count_up i s) (fs ++ i ∷ [])
unfolding count_up
IsTold-count_up n i s [] c l b t = (b, inl (ground (arith, c), t.1))
IsTold-count_up n i s (f ∷ fs) c l b t =
    let keeps : (count_up i s).winner ≡ s.winner = ground (arith, c, l) in
    (t.0, elim t.1 [ inl (w, p) ↦ inl (keeps ∙ w, p) | inr (w, p, e) ↦ inr (keeps ∙ w, p, e) ])

still-running :
    (n i : ℕ) (f : ℕ → Bool)
    → ((j : ℕ) → f j ≡ true → j < n)
    → (j : ℕ) → update f i false j ≡ true
    → j < n
still-running n i f h j e = elim (Bool-cases (i == j)) [
  | inl q ↦ ground (arith, e, q)
  | inr q ↦ h j (ground (arith, e, q))
]

none-some : (i : ℕ) → none ≢ some i
none-some i h = cc

some-injective : {i j : ℕ} → some i ≡ some j → i ≡ j
some-injective h = cc

IsTold-proceed :
    (n i : ℕ) (s : AnyWait) (fs : List ℕ)
    → s.winner ≡ some i
    → IsTold n s fs
    → IsTold n (proceed i s) fs
unfolding proceed
IsTold-proceed n i s [] w t = absurd (none-some i (sym t.0 ∙ w))
IsTold-proceed n i s (f ∷ fs) w t = (
  t.0,
  elim t.1 [
    | inl (v, p) ↦ inr (refl, omega (arith, p), some-injective (sym w ∙ v))
    | inr (v, p, e) ↦ absurd (none-some i (sym v ∙ w))
  ],
)

Fits-Step : {n : ℕ} {s t : AnyWait} → Step s t → Fits n s → Fits n t
unfolding count_up proceed throw
Fits-Step {n} {s} (counts i r l) f = (
  omega (arith, f.0, l, length-append s.finished (i ∷ [])),
  still-running n i s.running f.1,
  IsTold-count_up n i s s.finished f.0 l (f.1 i r) f.2,
)
Fits-Step {n} {s} (proceeds i w) f = (f.0, f.1, IsTold-proceed n i s s.finished w f.2)
Fits-Step {n} {s} (throws i r) f = (f.0, still-running n i s.running f.1, f.2)

Reach-Fits : {n : ℕ} {s : AnyWait} → Reach n s → Fits n s
unfolding begun
Reach-Fits here = (refl, λ i e. ground (arith, e), (refl, refl))
Reach-Fits (next r p) = Fits-Step p (Reach-Fits r)

-- Among any interleaving of the journeys, the caller goes on at most once and then with the index of the first
-- handler that ended without an exception; while there is none, it does not go on, and once there is one, it
-- has gone on or that handler's journey is about to let it.
pub any_wait_lem : {n : ℕ} {s : AnyWait} → Reach n s → IsTold n s s.finished
any_wait_lem r = (Reach-Fits r).2
