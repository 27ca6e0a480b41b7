-- ===== src/Replob/Logs.antt =====
-- The log that the committed steps make, and what processing them adds to it.
use replob_prototype.Prelude.{
  Option, Option-cases, ◌<◌, ℕ, zero, suc, ◌+◌, ◌≤◌, ◌≡◌, refl, sym, ap, ◌∙◌, subst, true, ◌==◌,
  ==_iff, Bool-cases, none, some, List, [], ◌∷◌, ◌++◌, map, inl, inr, arith,
}
use mathlib.Core.List.{append-nil, append_assoc}
use replob_prototype.Std.Order.{nat_order}
use replob_prototype.Std.Map.{lookup}
use replob_prototype.Ids.{UniqueId, id_order}
use replob_prototype.Replob.{CarryMsg, StepData, is_completed, Action, invoked}
use replob_prototype.Replob.Processing.{done, done_at, messages, msgs_of}
use replob_prototype.Replob.Cluster.{broadcasts, invocations}
use replob_prototype.Replob.Ballot.{Said, Extends, carry_of}
use replob_prototype.Replob.Agreed.{IsAgreed, IsAgreed-Extends, agreed_once, IsCommit}

module _ {M : Type 0} (payload : UniqueId → M) (config : List ℕ) where
  -- `log` is what the steps below `n` are agreed on, one after another.
  abbrev pub IsLog : Said → ℕ → List M → Type 0
  IsLog said zero log = log ≡ []
  IsLog said (suc n) log =
      (before : List M) × (ks : List UniqueId) × IsLog said n before
      × IsAgreed payload config said n ks
      × (log ≡ before ++ map payload ks)

  pub IsLog-Extends :
      (said said' : Said) (n : ℕ) (log : List M)
      → Extends said said'
      → IsLog said n log
      → IsLog said' n log
  IsLog-Extends said said' zero log x h = h
  IsLog-Extends said said' (suc n) log x (before, ks, h, a, e) = (
    before,
    ks,
    IsLog-Extends said said' n before x h,
    IsAgreed-Extends payload config said said' n ks x a,
    e,
  )

  pub IsLog-same : (said : Said) (n : ℕ) (l m : List M) → IsLog said n l → IsLog said n m → l ≡ m
  IsLog-same said zero l m h k = h ∙ sym k
  IsLog-same said (suc n) l m (b, ks, h, a, e) (c, ls, k, d, f) =
      let u = IsLog-same said n b c h k in let v = agreed_once payload config said n ks ls a d in cc

  -- Of two logs the one of fewer steps is the start of the other.
  pub IsLog-start :
      (said : Said) (n p : ℕ) (l m : List M)
      → n ≤ p
      → IsLog said n l
      → IsLog said p m
      → (rest : List M) × (m ≡ l ++ rest)
  IsLog-start said n zero l m le h k =
      let z : n ≡ zero = omega (arith, le) in
      ([], IsLog-same said zero m l k (subst (λ x. IsLog said x l) z h) ∙ sym (append-nil l))
  IsLog-start said n (suc p) l m le h (c, ks, k, a, e) = elim (Bool-cases (n == suc p)) [
    | inl y ↦
        let z = (==_iff n (suc p)).0 y in
        (
          [],
          IsLog-same said (suc p) m l (c, ks, k, a, e) (subst (λ x. IsLog said x l) z h)
              ∙ sym (append-nil l),
        )
    | inr y ↦
        let (rest, f) = IsLog-start said n p l c (ground (arith, le, y)) h k in
        (
          rest ++ map payload ks,
          e ∙ ap (λ x. x ++ map payload ks) f ∙ append_assoc l rest (map payload ks),
        )
  ]

  -- The completed steps that are stored are committed with what the nodes agree on.
  abbrev pub AreCommits : Said → List (ℕ × StepData M) → Type 0
  AreCommits said steps =
      (id : ℕ) (d : StepData M)
      → lookup id steps ≡ some d
      → is_completed d.state ≡ true
      → IsCommit payload config said id d.msgs

  pub AreCommits-Extends :
      (said said' : Said) (steps : List (ℕ × StepData M))
      → Extends said said'
      → AreCommits said steps
      → AreCommits said' steps
  AreCommits-Extends said said' steps x h id d e c =
      let (ks, a, m) = h id d e c in (ks, IsAgreed-Extends payload config said said' id ks x a, m)

  invocations-invoked :
      (id : ℕ) (ks : List UniqueId) (acts : List (Action M))
      → invocations (invoked (map (carry_of payload config id) ks) ++ acts)
        ≡ map payload ks ++ invocations acts
  unfolding invocations
  invocations-invoked id [] acts = refl
  invocations-invoked id (k ∷ ks) acts = ap (λ l. payload k ∷ l) (invocations-invoked id ks acts)

  stored_done :
      (o : Option (StepData M))
      → done o ≡ true
      → (d : StepData M) × (o ≡ some d) × (is_completed d.state ≡ true)
  stored_done none h = cc
  stored_done (some d) h = (d, refl, h)

  -- The messages of the completed steps from `n` on continue the log.
  pub IsLog-messages :
      (said : Said) (k n : ℕ) (steps : List (ℕ × StepData M)) (log : List M)
      → AreCommits said steps
      → IsLog said n log
      → ((i : ℕ) → i < k → done_at (n + i) steps ≡ true)
      → IsLog said (n + k) (log ++ invocations (messages k n steps))
  unfolding messages invocations
  IsLog-messages said zero n steps log c h t =
      let z : n ≡ n + zero = omega arith in
      subst (λ x. IsLog said x (log ++ [])) z (subst (IsLog said n) (sym (append-nil log)) h)
  IsLog-messages said (suc k) n steps log c h t =
      let z : n + 0 ≡ n = omega arith in
      let (d, e, done) =
        stored_done (lookup n steps) (subst (λ x. done_at x steps ≡ true) z (t 0 (omega arith))) in
      let (ks, a, m) = c n d e done in
      let first : IsLog said (suc n) (log ++ map payload ks) = (log, ks, h, a, refl) in
      let one : suc n ≡ n + 1 = omega arith in
      let last : n + 1 + k ≡ n + suc k = omega arith in
      let rest =
        IsLog-messages said k (n + 1) steps (log ++ map payload ks) c
          (subst (λ x. IsLog said x (log ++ map payload ks)) one first)
          (λ i l.
            let y : n + suc i ≡ n + 1 + i = omega arith in
            subst (λ x. done_at x steps ≡ true) y (t (suc i) (omega (arith, l)))) in
      subst (λ x. IsLog said x (log ++ invocations (messages (suc k) n steps))) last
        (subst (IsLog said (n + 1 + k))
          (append_assoc log (map payload ks) (invocations (messages k (n + 1) steps))
            ∙ ap (λ l. log ++ l)
                (sym (invocations-invoked n ks (messages k (n + 1) steps))
                  ∙ ap (λ x. invocations (invoked x ++ messages k (n + 1) steps)) (sym m)
                  ∙ ap (λ o. invocations (msgs_of o ++ messages k (n + 1) steps)) (sym e)))
          rest)

module _ {M : Type 0} where
  broadcasts-invoked :
      (msgs : List (CarryMsg M)) (acts : List (Action M))
      → broadcasts (invoked msgs ++ acts) ≡ broadcasts acts
  unfolding broadcasts
  broadcasts-invoked [] acts = refl
  broadcasts-invoked (m ∷ msgs) acts = broadcasts-invoked msgs acts

  -- Steps that are processed broadcast nothing.
  pub broadcasts-messages :
      (k n : ℕ) (steps : List (ℕ × StepData M)) → broadcasts (messages k n steps) ≡ []
  unfolding messages broadcasts
  broadcasts-messages zero n steps = refl
  broadcasts-messages (suc k) n steps = elim (Option-cases (lookup n steps)) [
    | inl e ↦ rw e (broadcasts-messages k (n + 1) steps)
    | inr (d, e) ↦
        rw e (
          broadcasts-invoked d.msgs (messages k (n + 1) steps)
          ∙ broadcasts-messages k (n + 1) steps)
  ]
