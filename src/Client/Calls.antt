-- ===== src/Client/Calls.antt =====
-- The result that a call through the log gives its caller, and what its message does once the caller has
-- been timed out.
use replob_prototype.Prelude.{true}
use replob_prototype.Client.Replay.{
  exec_in-Waits, replay, Waits, IsWaiting, Spares, exec_call-here, exec_calls-next,
  exec_calls-IsRun, exec_calls-append,
}
use replob_prototype.Prelude.{
  ℕ, ◌≡◌, refl, ap, sym, ◌∙◌, none, some, List, [], ◌∷◌, ◌++◌, All-map, update_self, update_ne,
}
use replob_prototype.Oers.{detachable_doer, detachable_done}
use replob_prototype.Client.Wakes.{wakes_journey}
use replob_prototype.Client.{
  Call, Frame, Site, begin_call, leave, returned_value, exec_in, exec_calls,
}

module _ {S R : Type 0} where
  -- The frame and the object after the message of a call, where its frame is at hand
  exec_in_lem :
      (c : Call S R) (f : Frame R) (s : Site S R)
      → ((exec_in c f s).object ≡ (c.handler s.object).0)
        × ((exec_in c f s).frames c.frame
            ≡ some (record f { result = some (c.handler s.object).1 }))
        × ((exec_in c f s).journeys ≡ (detachable_done f.doer s.journeys).0)
  unfolding exec_in
  exec_in_lem c f s = (
    refl,
    update_self s.frames c.frame (some (record f { result = some (c.handler s.object).1 })),
    refl,
  )

  returned_value_lem :
      (a : ℕ) (f : Frame R) (s : Site S R) → s.frames a ≡ some f → returned_value a s ≡ f.result
  unfolding returned_value
  returned_value_lem a f s e = rw (returned_value, e) refl

  replay-append : (xs ys : List (Call S R)) (x : S) → replay (xs ++ ys) x ≡ replay ys (replay xs x)
  replay-append [] ys x = refl
  replay-append (c ∷ xs) ys x = replay-append xs ys (c.handler x).0

  -- The calls that have their frames have them in a site with more frames.
  IsWaiting-mono :
      (this : ℕ) (s t : Site S R) (cs : List (Call S R))
      → ((a : ℕ) → Waits a s → Waits a t)
      → IsWaiting this s cs
      → IsWaiting this t cs
  IsWaiting-mono this s t cs m w =
      All-map (λ d. d.src ≡ this → Waits d.frame s) (λ d. d.src ≡ this → Waits d.frame t)
        (λ d v x. m d.frame (v x)) cs w

  waiting-run :
      (this : ℕ) (c : Call S R) (f : Frame R) (s : Site S R) (before after : List (Call S R))
      → c.src ≡ this
      → s.frames c.frame ≡ some f
      → f.doer.counter ≡ (s.journeys f.doer.journey).counter
      → IsWaiting this s before
      → IsWaiting this s after
      → Spares this c.frame before
      → Spares this c.frame after
      → (t : Site S R) × (exec_calls this (before ++ c ∷ after) s ≡ some t)
        × (t.object ≡ replay (before ++ c ∷ after) s.object)
        × (returned_value c.frame t ≡ some (c.handler (replay before s.object)).1)
        × ((t.journeys f.doer.journey).done ≡ true)
  waiting-run this c f s before after p e r wb wa sb sa =
      let (t, b, (o, k, n, x)) = exec_calls-IsRun this before s wb in
      let u = exec_in c f t in
      let i = exec_in_lem c f t in
      let h = exec_call-here this c t (some f) p (n c.frame sb ∙ e) in
      let (v, d, (q, l, m, y)) =
        exec_calls-IsRun this after u
          (IsWaiting-mono this s u after (λ a w. exec_in-Waits a c f t (k a w)) wa) in
      (
        v,
        exec_calls-append this before (c ∷ after) s t b
            ∙ exec_calls-next this c after t (some u) h
            ∙ d,
        q
            ∙ ap (replay after) i.0
            ∙ ap (λ x. replay after (c.handler x).0) o
            ∙ sym (replay-append before (c ∷ after) s.object),
        returned_value_lem c.frame (record f { result = some (c.handler t.object).1 }) v
              (m c.frame sa ∙ i.1)
            ∙ ap (λ z. some (c.handler z).1) o,
        (y f.doer.journey).1 (
            ap (λ js. (js f.doer.journey).done) i.2
            ∙ wakes_journey f.doer t.journeys (r ∙ sym (x f.doer.journey).0)),
      )

  left-run :
      (this : ℕ) (c : Call S R) (s : Site S R) (before after : List (Call S R))
      → c.src ≡ this
      → s.frames c.frame ≡ none
      → IsWaiting this s before
      → Spares this c.frame before
      → exec_calls this (before ++ c ∷ after) s ≡ none
  left-run this c s before after p e wb sb =
      let (t, b, (o, k, n, x)) = exec_calls-IsRun this before s wb in
      exec_calls-append this before (c ∷ after) s t b
      ∙ exec_calls-next this c after t none (exec_call-here this c t none p (n c.frame sb ∙ e))

  -- The calls that do not use a frame have theirs after it is left.
  leave-IsWaiting :
      (this a : ℕ) (s : Site S R) (cs : List (Call S R))
      → IsWaiting this s cs
      → Spares this a cs
      → IsWaiting this (leave a s) cs
  unfolding leave
  leave-IsWaiting this a s [] w n = tt
  leave-IsWaiting this a s (c ∷ cs) w n = (
    λ x. let v = w.0 x in (v.0, update_ne s.frames a c.frame none (λ e. n.0 x (sym e)) ∙ v.1),
    leave-IsWaiting this a s cs w.1 n.1,
  )

-- Of a call through the log that waits without an event, where the other calls of its node in the log have frames
-- of their own, the log leaves the journey done, so that its `waitForDone` returns, and the value to return is what
-- its handler gives for the object after the calls before it in the log; the object becomes what all the calls give
-- in the order of the log. When the caller has been timed out before, its message accesses variables that have been
-- left.
pub sync_call_lem :
    {S R : Type 0} (this j a : ℕ) (handler : S → S × R) (s : Site S R)
    (before after : List (Call S R))
    → let (b, c) = begin_call this j a handler s in
      IsWaiting this b before
      → IsWaiting this b after
      → Spares this a before
      → Spares this a after
      → ((t : Site S R) × (exec_calls this (before ++ c ∷ after) b ≡ some t)
          × (t.object ≡ replay (before ++ c ∷ after) s.object)
          × (returned_value a t ≡ some (handler (replay before s.object)).1)
          × ((t.journeys j).done ≡ true))
        × (exec_calls this (before ++ c ∷ after) (leave a b) ≡ none)
unfolding begin_call leave detachable_doer
sync_call_lem {R} this j a handler s before after wb wa sb sa =
    let (b, c) = begin_call this j a handler s in
    let f : Frame R = record { doer = detachable_doer j s.journeys; result = none } in
    (
      waiting-run this c f b before after refl (update_self s.frames a (some f)) refl wb wa sb sa,
      left-run this c (leave a b) before after refl (update_self b.frames a none)
          (leave-IsWaiting this a b before wb sb) sb,
    )
