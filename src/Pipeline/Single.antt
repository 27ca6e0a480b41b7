-- ===== src/Pipeline/Single.antt =====
-- What one journey of a pipeline puts into its target.
use replob_prototype.Prelude.{
  ◌≤◌, Option, none, length, ℕ, ◌≡◌, ◌≢◌, refl, sym, ap, ◌∙◌, subst, false, some, List, [], ◌∷◌,
  ◌++◌, arith,
}
use mathlib.Core.List.{append_assoc}
use replob_prototype.Pipeline.{
  values_of, got_handed, hand, interrupt, hands, gets_handed, Position, getting, putting, ended,
  Pipes, piped, got, put_next, put_all, end, feed, Step, feeds, closes, gets, puts, goes_on, ends,
  interrupts, elsewhere, Reach, here, next,
}
use replob_prototype.Pipeline.Fits.{
  outputs, left, is_ended, is_getting, Fits, only, Fits-got, Fits-got_handed, Fits-hand,
  Fits-put_next, Fits-on, Fits-end, Fits-interrupt,
}

module _ {T U : Type 0} (body : T → List U) where
  -- An operation of a journey that has not ended is one of the journey 0.
  by_zero :
      (s : Pipes T U) (op : ℕ → Pipes T U) (x : Position U)
      → x ≢ ended
      → (s.journeys 0 ≡ x → Fits body s → Fits body (op 0))
      → (j : ℕ) → s.journeys j ≡ x
      → Fits body s
      → Fits body (op j)
  by_zero s op x n h j e f =
      let z = only body s j x f e n in subst (λ k. Fits body (op k)) z (h (ap s.journeys z ∙ e) f)

  -- The same, where more is known of what was handed to the journey
  by_zero_handed :
      (s : Pipes T U) (op : ℕ → Pipes T U) (o : Option T)
      → (s.journeys 0 ≡ getting → s.handed 0 ≡ o → Fits body s → Fits body (op 0))
      → (j : ℕ) → s.journeys j ≡ getting
      → s.handed j ≡ o
      → Fits body s
      → Fits body (op j)
  by_zero_handed s op o h j e n f =
      let z = only body s j getting f e (λ x. cc) in
      subst (λ k. Fits body (op k)) z (h (ap s.journeys z ∙ e) (ap s.handed z ∙ n) f)

  Fits-feed : (s : Pipes T U) (v : T) → Fits body s → Fits body (feed v s)
  unfolding feed
  Fits-feed s v f = record {
    alone = f.alone;
    fed =
        sym (append_assoc (s.taken ++ s.dropped ++ values_of (s.handed 0)) s.source (v ∷ []))
        ∙ ap (λ l. l ++ v ∷ []) f.fed;
    kept = f.kept;
    none_handed = f.none_handed;
    few = f.few;
    given = f.given;
    lost = f.lost;
    is_open = f.is_open;
  }

  Fits-Step : {s t : Pipes T U} → Step body s t → Fits body s → Fits body t
  unfolding put_all
  Fits-Step {s} (feeds v c) f = Fits-feed s v f
  Fits-Step {s} (hands j v c e q n) f =
      by_zero_handed s (λ k. hand k v s) none (λ z m g. Fits-hand body s v z q m g) j e n f
  Fits-Step {s} closes f = record {
    alone = f.alone;
    fed = f.fed;
    kept = f.kept;
    none_handed = f.none_handed;
    few = f.few;
    given = f.given;
    lost = f.lost;
    is_open = f.is_open;
  }
  Fits-Step {s} (gets j v vs e n h) f =
      by_zero_handed s (λ k. got body k v vs s) none (λ z m g. Fits-got body s v vs z m h g) j e n f
  Fits-Step {s} (gets_handed j v e n) f =
      by_zero_handed s (λ k. got_handed body k v s) (some v)
        (λ z m g. Fits-got_handed body s v z m g) j e n f
  Fits-Step {s} (puts js j u us e) f =
      by_zero s (λ k. put_next js k u us s) (putting (u ∷ us)) (λ z. cc)
        (λ z g. Fits-put_next body js s u us z g) j e f
  Fits-Step {s} (goes_on j e) f =
      by_zero s (λ k. put_all k s) (putting []) (λ z. cc)
        (λ z g.
          Fits-on body s getting s.target (ap left z) refl (g.is_open ∙ ap is_ended z)
            (ap is_ended z) (g.none_handed (ap is_getting z)) g)
        j e f
  Fits-Step {s} (ends js j e n h c) f =
      by_zero_handed s (λ k. end js k s) none (λ z m g. Fits-end body js s z m g) j e n f
  Fits-Step {s} (interrupts js j e) f =
      by_zero s (λ k. interrupt js k s) getting (λ z. cc) (λ z g. Fits-interrupt body js s z g) j e
        f
  Fits-Step {s} (elsewhere c e) f = record {
    alone = f.alone;
    fed = f.fed;
    kept = f.kept;
    none_handed = f.none_handed;
    few = f.few;
    given = f.given;
    lost = f.lost;
    is_open = e ∙ f.is_open;
  }

  Reach-Fits : {s : Pipes T U} → Reach body 1 s → Fits body s
  unfolding piped
  Reach-Fits here = record {
    alone = λ j n. ground (arith, n);
    fed = refl;
    kept = λ _. refl;
    none_handed = λ _. refl;
    few = omega arith;
    given = refl;
    lost = refl;
    is_open = refl;
  }
  Reach-Fits (next r p) = Fits-Step p (Reach-Fits r)

  -- What a pipeline of one journey has put into the target, with what it has left to put, is what the handler makes
  -- of the values it has taken, in order. Those are the first that were put into the source; after them come those
  -- dropped, one that was handed to it, and those that still stand in the source. Only an event that ends a `get` to
  -- which a value was handed drops one, with the journey. No value that the journey puts is lost, and the target is
  -- closed once the journey has ended, and open before.
  pub single_pipe :
      {s : Pipes T U}
      → Reach body 1 s
      → (s.given ++ left (s.journeys 0) ≡ outputs body s.taken)
        × (s.taken ++ s.dropped ++ values_of (s.handed 0) ++ s.source ≡ s.fed)
        × (is_ended (s.journeys 0) ≡ false → s.dropped ≡ [])
        × (length s.dropped ≤ 1)
        × (s.lost ≡ [])
        × (s.target.closed ≡ is_ended (s.journeys 0))
  single_pipe r = let f = Reach-Fits r in (f.given, f.fed, f.kept, f.few, f.lost, f.is_open)
