-- ===== src/Client/Replay.antt =====
-- The messages of the log at one node, where the calls that wait there have their frames.
use replob_prototype.Prelude.{
  ℕ, ◌≡◌, ◌≢◌, refl, ap, sym, ◌∙◌, ◌==◌, ==_iff, Bool-cases, false, Option, none, some, List, [],
  ◌∷◌, ◌++◌, All, All-map, inl, inr, update_ne, Option-cases,
}
use replob_prototype.Client.Wakes.{IsOnward, IsOnward-trans, done-IsOnward}
use replob_prototype.Client.{Call, Frame, Site, exec_in, exec_call, exec_calls}

none-some : {A : Type 0} (a : A) → none ≢ some a
none-some a h = cc

module _ {S R : Type 0} where
  -- The object after the calls, whatever node runs them
  abbrev pub replay : List (Call S R) → S → S
  replay [] x = x
  replay (c ∷ cs) x = replay cs (c.handler x).0

  -- A frame that has not been left
  abbrev pub Waits : ℕ → Site S R → Type 0
  Waits a s = (f : Frame R) × (s.frames a ≡ some f)

  -- The calls by this node among these have their frames, and none of them has the frame `a`.
  abbrev pub IsWaiting : ℕ → Site S R → List (Call S R) → Type 0
  IsWaiting this s cs = All (λ c. c.src ≡ this → Waits c.frame s) cs

  abbrev pub Spares : ℕ → ℕ → List (Call S R) → Type 0
  Spares this a cs = All (λ c. c.src ≡ this → c.frame ≢ a) cs

  pub exec_in-Waits :
      (a : ℕ) (c : Call S R) (f : Frame R) (s : Site S R) → Waits a s → Waits a (exec_in c f s)
  unfolding exec_in
  exec_in-Waits a c f s w = elim (Bool-cases (c.frame == a)) [
    | inl e ↦ (record f { result = some (c.handler s.object).1 }, rw e refl)
    | inr e ↦ (w.0, rw e w.1)
  ]

  exec_in-frames :
      (a : ℕ) (c : Call S R) (f : Frame R) (s : Site S R)
      → c.frame ≢ a
      → (exec_in c f s).frames a ≡ s.frames a
  unfolding exec_in
  exec_in-frames a c f s n =
      update_ne s.frames c.frame a (some (record f { result = some (c.handler s.object).1 })) n

  -- A call by this node, and by another
  pub exec_call-here :
      (this : ℕ) (c : Call S R) (s : Site S R) (o : Option (Frame R))
      → c.src ≡ this
      → s.frames c.frame ≡ o
      → exec_call this c s ≡ elim o [ none ↦ none | some f ↦ some (exec_in c f s) ]
  unfolding exec_call
  exec_call-here this c s o e w = rw (exec_call, (==_iff c.src this).1 e, w) refl

  exec_call-there :
      (this : ℕ) (c : Call S R) (s : Site S R)
      → (c.src == this) ≡ false
      → exec_call this c s ≡ some (record s { object = (c.handler s.object).0 })
  unfolding exec_call
  exec_call-there this c s e = rw (exec_call, e) refl

  -- What calls that have their frames leave of a site
  abbrev pub IsRun : ℕ → List (Call S R) → Site S R → Site S R → Type 0
  IsRun this cs s t =
      (t.object ≡ replay cs s.object)
      × ((a : ℕ) → Waits a s → Waits a t)
      × ((a : ℕ) → Spares this a cs → t.frames a ≡ s.frames a)
      × IsOnward s.journeys t.journeys

  exec_call-IsRun :
      (this : ℕ) (c : Call S R) (s : Site S R)
      → (c.src ≡ this → Waits c.frame s)
      → (t : Site S R) × (exec_call this c s ≡ some t) × IsRun this (c ∷ []) s t
  unfolding exec_in
  exec_call-IsRun this c s w = elim (Bool-cases (c.src == this)) [
    | inl e ↦
        let p = (==_iff c.src this).0 e in
        let f = w p in
        (
          exec_in c f.0 s,
          exec_call-here this c s (some f.0) p f.1,
          (
            refl,
            λ a. exec_in-Waits a c f.0 s,
            λ a n. exec_in-frames a c f.0 s (n.0 p),
            done-IsOnward f.0.doer s.journeys,
          ),
        )
    | inr e ↦ (
      record s { object = (c.handler s.object).0 },
      exec_call-there this c s e,
      (refl, λ a v. v, λ a n. refl, λ i. (refl, λ h. h)),
    )
  ]

  pub exec_calls-next :
      (this : ℕ) (c : Call S R) (cs : List (Call S R)) (s : Site S R) (o : Option (Site S R))
      → exec_call this c s ≡ o
      → exec_calls this (c ∷ cs) s ≡ elim o [ none ↦ none | some t ↦ exec_calls this cs t ]
  unfolding exec_calls
  exec_calls-next this c cs s o e = rw (exec_calls, e) refl

  pub exec_calls-IsRun :
      (this : ℕ) (cs : List (Call S R)) (s : Site S R)
      → IsWaiting this s cs
      → (t : Site S R) × (exec_calls this cs s ≡ some t) × IsRun this cs s t
  unfolding exec_calls
  exec_calls-IsRun this [] s w = (s, refl, (refl, λ a v. v, λ a n. refl, λ i. (refl, λ h. h)))
  exec_calls-IsRun this (c ∷ cs) s w =
      let (t, e, (o, k, n, x)) = exec_call-IsRun this c s w.0 in
      let (u, f, (p, l, m, y)) = exec_calls-IsRun this cs t (
        All-map (λ d. d.src ≡ this → Waits d.frame s) (λ d. d.src ≡ this → Waits d.frame t)
          (λ d v z. k d.frame (v z)) cs w.1) in
      (
        u,
        exec_calls-next this c cs s (some t) e ∙ f,
        (
          p ∙ ap (replay cs) o,
          λ a v. l a (k a v),
          λ a v. m a v.1 ∙ n a (v.0, tt),
          IsOnward-trans s.journeys t.journeys u.journeys x y,
        ),
      )

  pub exec_calls-append :
      (this : ℕ) (xs ys : List (Call S R)) (s : Site S R) (t : Site S R)
      → exec_calls this xs s ≡ some t
      → exec_calls this (xs ++ ys) s ≡ exec_calls this ys t
  unfolding exec_calls
  exec_calls-append this [] ys s t e =
      ap (λ o. elim o [ none ↦ exec_calls this ys s | some u ↦ exec_calls this ys u ]) e
  exec_calls-append this (x ∷ xs) ys s t e = elim (Option-cases (exec_call this x s)) [
    | inl n ↦ absurd (none-some t (sym (exec_calls-next this x xs s none n) ∙ e))
    | inr (u, f) ↦
        exec_calls-next this x (xs ++ ys) s (some u) f
        ∙ exec_calls-append this xs ys u t (sym (exec_calls-next this x xs s (some u) f) ∙ e)
  ]
