-- ===== src/Pipeline/Fits.antt =====
-- The invariant of a pipeline of one journey, kept by each of its operations.
use replob_prototype.Prelude.{
  ◌≤◌, Option, none, length, ℕ, ◌≡◌, ◌≢◌, ◌==◌, refl, sym, ap, ◌∙◌, subst, Bool, true, false,
  Bool-cases, some, List, [], ◌∷◌, ◌++◌, update, update_self, update_ne, inl, inr, arith,
}
use mathlib.Core.List.{append-nil, append_assoc}
use replob_prototype.Oers.{Journeys, DetachableDoer, doer_acquire}
use replob_prototype.Channel.{Channel, Sent, put, close, hand_first}
use replob_prototype.Pipeline.{
  values_of, got_handed, hand, interrupt, Position, getting, putting, ended, Pipes, got, put_next,
  end,
}

-- What a handler puts for these values, in order
abbrev pub outputs : {T U : Type 0} → (T → List U) → List T → List U
outputs body [] = []
outputs body (v ∷ vs) = body v ++ outputs body vs

-- What a journey has left to put
abbrev pub left : {U : Type 0} → Position U → List U
left getting = []
left (putting us) = us
left ended = []

abbrev pub is_ended : {U : Type 0} → Position U → Bool
is_ended getting = false
is_ended (putting us) = false
is_ended ended = true

abbrev pub is_getting : {U : Type 0} → Position U → Bool
is_getting getting = true
is_getting (putting us) = false
is_getting ended = false

outputs-append :
    {T U : Type 0} (body : T → List U) (xs : List T) (v : T)
    → outputs body (xs ++ v ∷ []) ≡ outputs body xs ++ body v
outputs-append body [] v = append-nil (body v)
outputs-append body (x ∷ xs) v =
    ap (λ l. body x ++ l) (outputs-append body xs v)
    ∙ sym (append_assoc (body x) (outputs body xs) (body v))

hand_first-closed :
    {U : Type 0} (u : U) (js : Journeys) (c : Channel U) (ds : List DetachableDoer)
    → (hand_first u js c ds).channel.closed ≡ c.closed
unfolding hand_first
hand_first-closed u js c [] = refl
hand_first-closed u js c (d ∷ ds) = ground (arith, hand_first-closed u (doer_acquire d js).0 c ds)

length-values_of : {T : Type 0} (o : Option T) → length (values_of o) ≤ 1
length-values_of none = omega arith
length-values_of (some v) = omega arith

pub true-false : true ≢ false
true-false h = cc

close-closed : {U : Type 0} (js : Journeys) (c : Channel U) → (close js c).0.closed ≡ true
unfolding close
close-closed js c = ground arith

module _ {T U : Type 0} (body : T → List U) where
  -- The journey 0 is the only one, and the target is open until it ends.
  pub record Fits (s : Pipes T U) : Type 0 where
    pub alone : (j : ℕ) → 0 ≢ j → s.journeys j ≡ ended
    pub fed : s.taken ++ s.dropped ++ values_of (s.handed 0) ++ s.source ≡ s.fed
    pub kept : is_ended (s.journeys 0) ≡ false → s.dropped ≡ []
    pub none_handed : is_getting (s.journeys 0) ≡ false → s.handed 0 ≡ none
    pub few : length s.dropped ≤ 1
    pub given : s.given ++ left (s.journeys 0) ≡ outputs body s.taken
    pub lost : s.lost ≡ []
    pub is_open : s.target.closed ≡ is_ended (s.journeys 0)

  pub only :
      (s : Pipes T U) (j : ℕ) (x : Position U) → Fits s → s.journeys j ≡ x → x ≢ ended → 0 ≡ j
  only s j x f e n = elim (Bool-cases (0 == j)) [
    | inl same ↦ ground arith
    | inr other ↦ absurd (n (sym e ∙ f.alone j (ground arith)))
  ]

  put-closed :
      (js : Journeys) (u : U) (c : Channel U)
      → c.closed ≡ false
      → (r : Sent U) × (put u js c ≡ some r) × (r.channel.closed ≡ false)
  unfolding put
  put-closed js u c e =
      (hand_first u js c c.waiters, rw e refl, hand_first-closed u js c c.waiters ∙ e)

  -- The journey 0 goes on to the position `x`.
  moved :
      (s : Pipes T U) (x : Position U)
      → ((j : ℕ) → 0 ≢ j → s.journeys j ≡ ended)
      → (j : ℕ) → 0 ≢ j
      → update s.journeys 0 x j ≡ ended
  moved s x f j n = update_ne s.journeys 0 j x n ∙ f j n

  at_zero : (s : Pipes T U) (x : Position U) → update s.journeys 0 x 0 ≡ x
  at_zero s x = update_self s.journeys 0 x

  -- Until it ends, nothing is dropped.
  all_fed :
      (s : Pipes T U)
      → Fits s
      → is_ended (s.journeys 0) ≡ false
      → s.taken ++ values_of (s.handed 0) ++ s.source ≡ s.fed
  all_fed s f live =
      ap (λ l. l ++ values_of (s.handed 0) ++ s.source)
        (sym (append-nil s.taken) ∙ ap (λ d. s.taken ++ d) (sym (f.kept live)))
      ∙ f.fed

  -- The journey 0 takes `v`, after which `vs` are left.
  Fits-takes :
      (s : Pipes T U) (v : T) (vs : List T) (h : ℕ → Option T)
      → s.journeys 0 ≡ getting
      → values_of (s.handed 0) ++ s.source ≡ v ∷ vs
      → h 0 ≡ none
      → Fits s
      → Fits (record s {
        source = vs;
        handed = h;
        taken = s.taken ++ v ∷ [];
        journeys = update s.journeys 0 (putting (body v));
      })
  Fits-takes s v vs h e q n f =
      let k = f.kept (ap is_ended e) in
      record {
        alone = moved s (putting (body v)) f.alone;
        fed =
            ap (λ d. (s.taken ++ v ∷ []) ++ d ++ values_of (h 0) ++ vs) k
            ∙ ap (λ o. (s.taken ++ v ∷ []) ++ [] ++ values_of o ++ vs) n
            ∙ ap (λ l. l ++ vs)
                (append-nil ((s.taken ++ v ∷ []) ++ []) ∙ append-nil ((s.taken ++ v ∷ [])))
            ∙ append_assoc s.taken (v ∷ []) vs
            ∙ ap (λ l. s.taken ++ l) (sym q)
            ∙ sym (append_assoc s.taken (values_of (s.handed 0)) s.source)
            ∙ all_fed s f (ap is_ended e);
        kept = λ _. k;
        none_handed = λ _. n;
        few = f.few;
        given =
            ap (λ x. s.given ++ left x) (at_zero s (putting (body v)))
            ∙ ap (λ l. l ++ body v)
                (sym (append-nil s.given) ∙ ap (λ x. s.given ++ left x) (sym e) ∙ f.given)
            ∙ sym (outputs-append body s.taken v);
        lost = f.lost;
        is_open = f.is_open ∙ ap is_ended e ∙ sym (ap is_ended (at_zero s (putting (body v))));
      }

  pub Fits-got :
      (s : Pipes T U) (v : T) (vs : List T)
      → s.journeys 0 ≡ getting
      → s.handed 0 ≡ none
      → s.source ≡ v ∷ vs
      → Fits s
      → Fits (got body 0 v vs s)
  unfolding got
  Fits-got s v vs e n h f =
      Fits-takes s v vs s.handed e (ap (λ o. values_of o ++ s.source) n ∙ h) n f

  pub Fits-got_handed :
      (s : Pipes T U) (v : T)
      → s.journeys 0 ≡ getting
      → s.handed 0 ≡ some v
      → Fits s
      → Fits (got_handed body 0 v s)
  unfolding got_handed
  Fits-got_handed s v e h f =
      Fits-takes s v s.source (update s.handed 0 none) e (ap (λ o. values_of o ++ s.source) h)
        (update_self s.handed 0 none) f

  pub Fits-hand :
      (s : Pipes T U) (v : T)
      → s.journeys 0 ≡ getting
      → s.source ≡ []
      → s.handed 0 ≡ none
      → Fits s
      → Fits (hand 0 v s)
  unfolding hand
  Fits-hand s v e h n f = record {
    alone = f.alone;
    fed =
        ap (λ d. s.taken ++ d ++ values_of (update s.handed 0 (some v) 0) ++ s.source)
          (f.kept (ap is_ended e))
        ∙ ap (λ o. s.taken ++ [] ++ values_of o ++ s.source) (update_self s.handed 0 (some v))
        ∙ ap (λ l. s.taken ++ [] ++ (v ∷ []) ++ l) h
        ∙ append-nil (s.taken ++ [] ++ (v ∷ []))
        ∙ ap (λ l. l ++ v ∷ [])
            (sym (append-nil (s.taken ++ []))
              ∙ ap (λ l. s.taken ++ [] ++ l) (sym h)
              ∙ ap (λ o. s.taken ++ values_of o ++ s.source) (sym n)
              ∙ all_fed s f (ap is_ended e));
    kept = f.kept;
    none_handed = λ x. absurd (true-false (sym (ap is_getting e) ∙ x));
    few = f.few;
    given = f.given;
    lost = f.lost;
    is_open = f.is_open;
  }

  pub Fits-put_next :
      (js : Journeys) (s : Pipes T U) (u : U) (us : List U)
      → s.journeys 0 ≡ putting (u ∷ us)
      → Fits s
      → Fits (put_next js 0 u us s)
  unfolding put_next
  Fits-put_next js s u us e f =
      let (r, h, c) = put-closed js u s.target (f.is_open ∙ ap is_ended e) in
      rw (put_next, h)
        (record {
          alone = moved s (putting us) f.alone;
          fed = f.fed;
          kept = λ _. f.kept (ap is_ended e);
          none_handed = λ _. f.none_handed (ap is_getting e);
          few = f.few;
          given =
              ap (λ x. (s.given ++ u ∷ []) ++ left x) (at_zero s (putting us))
              ∙ append_assoc s.given (u ∷ []) us
              ∙ ap (λ x. s.given ++ left x) (sym e)
              ∙ f.given;
          lost = f.lost;
          is_open = c ∙ sym (ap is_ended (at_zero s (putting us)));
        })

  -- The journey 0 puts nothing, and closes the target if it ends; `d` is dropped, and `o` is handed to it then.
  Fits-moved :
      (s : Pipes T U) (x : Position U) (c : Channel U) (d : List T) (h : ℕ → Option T)
      → left (s.journeys 0) ≡ []
      → left x ≡ []
      → c.closed ≡ is_ended x
      → d ++ values_of (h 0) ≡ values_of (s.handed 0)
      → is_ended (s.journeys 0) ≡ false
      → (is_ended x ≡ false → d ≡ [])
      → h 0 ≡ none
      → Fits s
      → Fits (record s {
        journeys = update s.journeys 0 x;
        target = c;
        dropped = s.dropped ++ d;
        handed = h;
      })
  Fits-moved s x c d h l m o q live kept n f =
      let k = f.kept live in
      record {
        alone = moved s x f.alone;
        fed =
            ap (λ z. s.taken ++ (z ++ d) ++ values_of (h 0) ++ s.source) k
            ∙ ap (λ z. z ++ s.source) (append_assoc s.taken d (values_of (h 0)))
            ∙ ap (λ z. s.taken ++ z ++ s.source) q
            ∙ all_fed s f live;
        kept = λ e. ap (λ z. z ++ d) k ∙ kept (sym (ap is_ended (at_zero s x)) ∙ e);
        none_handed = λ _. n;
        few =
            let z : s.dropped ++ d ≡ d = ap (λ z. z ++ d) k in
            let y : values_of (s.handed 0) ≡ d =
              sym q ∙ ap (λ o. d ++ values_of o) n ∙ append-nil d in
            subst (λ l. length l ≤ 1) (y ∙ sym z) (length-values_of (s.handed 0));
        given =
            ap (λ y. s.given ++ left y) (at_zero s x)
            ∙ ap (λ y. s.given ++ y) (m ∙ sym l)
            ∙ f.given;
        lost = f.lost;
        is_open = o ∙ sym (ap is_ended (at_zero s x));
      }

  -- Where nothing is dropped
  pub Fits-on :
      (s : Pipes T U) (x : Position U) (c : Channel U)
      → left (s.journeys 0) ≡ []
      → left x ≡ []
      → c.closed ≡ is_ended x
      → is_ended (s.journeys 0) ≡ false
      → s.handed 0 ≡ none
      → Fits s
      → Fits (record s { journeys = update s.journeys 0 x; target = c })
  Fits-on s x c l m o live n f =
      subst (λ d. Fits (record s { journeys = update s.journeys 0 x; target = c; dropped = d }))
        (append-nil s.dropped) (Fits-moved s x c [] s.handed l m o refl live (λ _. refl) n f)

  pub Fits-end :
      (js : Journeys) (s : Pipes T U)
      → s.journeys 0 ≡ getting
      → s.handed 0 ≡ none
      → Fits s
      → Fits (end js 0 s)
  unfolding end
  Fits-end js s e n f =
      Fits-on s ended (close js s.target).0 (ap left e) refl (close-closed js s.target)
        (ap is_ended e) n f

  pub Fits-interrupt :
      (js : Journeys) (s : Pipes T U) → s.journeys 0 ≡ getting → Fits s → Fits (interrupt js 0 s)
  unfolding interrupt end
  Fits-interrupt js s e f =
      Fits-moved s ended (close js s.target).0 (values_of (s.handed 0)) (update s.handed 0 none)
        (ap left e) refl (close-closed js s.target)
        (ap (λ o. values_of (s.handed 0) ++ values_of o) (update_self s.handed 0 none)
          ∙ append-nil (values_of (s.handed 0)))
        (ap is_ended e) (λ x. absurd (true-false x)) (update_self s.handed 0 none) f
