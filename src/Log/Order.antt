-- ===== src/Log/Order.antt =====
-- All nodes invoke the same carries in the same order.
use replob_prototype.Prelude.{
  ℕ, suc, ◌+◌, ◌<◌, ◌≤◌, ◌≡◌, refl, sym, ap, ◌∙◌, subst, true, some, List, [], ◌∷◌, length, take,
  get_elem?, get_elem?-inside, All, arith,
}
use replob_prototype.Voting.{
  NodesSet, CarryMsg2, CarrySet, State, initial, voted, completed, is_completed,
}
use replob_prototype.Voting.Agreement.{agreement, completed-proposed}
use replob_prototype.Log.{Cluster, Reach}
use replob_prototype.Log.Invariant.{Inv, Reach-Inv}

is_completed-completed : (x : State) → is_completed x ≡ true → x ≡ completed
is_completed-completed initial e = cc
is_completed-completed voted e = cc
is_completed-completed completed e = refl

some-injective : {A : Type 0} {a b : A} → some a ≡ some b → a ≡ b
some-injective h = cc

-- A list whose elements stand in another list too, at the same places, is its start.
take_ext :
    {A : Type 0} (xs ys : List A)
    → length xs ≤ length ys
    → ((k : ℕ) → k < length xs → get_elem? xs k ≡ get_elem? ys k)
    → take (length xs) ys ≡ xs
take_ext [] [] h f = refl
take_ext [] (y ∷ ys) h f = refl
take_ext (x ∷ xs) [] h f = absurd (omega (arith, h))
take_ext (x ∷ xs) (y ∷ ys) h f =
    rw
      (
        some-injective (f 0 (omega arith)),
        take_ext xs ys (omega (arith, h)) (λ k l. f (suc k) (omega (arith, l))),
      )
      refl

-- The carries of each step, from the step `k` on, have been proposed for it.
abbrev pub IsProposed : {M : Type 0} → (ℕ → CarryMsg2 M → Type 0) → ℕ → List (CarrySet M) → Type 0
IsProposed Proposed k [] = Unit
IsProposed Proposed k (cs ∷ l) = All (Proposed k) cs × IsProposed Proposed (suc k) l

IsProposed-each :
    {M : Type 0} (Proposed : ℕ → CarryMsg2 M → Type 0) (k : ℕ) (l : List (CarrySet M))
    → ((j : ℕ) (cs : CarrySet M) → get_elem? l j ≡ some cs → All (Proposed (k + j)) cs)
    → IsProposed Proposed k l
IsProposed-each Proposed k [] f = tt
IsProposed-each Proposed k (cs ∷ l) f = (
  subst (λ x. All (Proposed x) cs) (omega arith) (f 0 cs refl),
  IsProposed-each Proposed (suc k) l
      (λ j ds e. subst (λ x. All (Proposed x) ds) (omega arith) (f (suc j) ds e)),
)

module _ {M : Type 0} (config : NodesSet) (Proposed : ℕ → CarryMsg2 M → Type 0)
    (unique : (k : ℕ) (a b : CarryMsg2 M)
      → Proposed k a
      → Proposed k b
      → a.msg_id ≡ b.msg_id
      → a ≡ b) where
  -- Two nodes that have both invoked a step invoked the same carries in it.
  same-carries :
      {s : Cluster M}
      → Inv config Proposed s
      → (i j k : ℕ) → k < length (s.replicas i).log
      → k < length (s.replicas j).log
      → get_elem? (s.replicas i).log k ≡ get_elem? (s.replicas j).log k
  same-carries {s} inv i j k hi hj =
      let p = inv.steps k in
      let (di, ei) = (p.nodes i).past (omega (arith, hi, (inv.replica i).1)) in
      let (dj, ej) = (p.nodes j).past (omega (arith, hj, (inv.replica j).1)) in
      ei
      ∙ ap some (
          agreement config (Proposed k) (unique k) p.reached i j (is_completed-completed _ di)
            (is_completed-completed _ dj))
      ∙ sym ej

  carries-proposed :
      {s : Cluster M}
      → Inv config Proposed s
      → (i k : ℕ) (cs : CarrySet M) → get_elem? (s.replicas i).log k ≡ some cs
      → All (Proposed k) cs
  carries-proposed {s} inv i k cs e =
      let p = inv.steps k in
      let l = get_elem?-inside (s.replicas i).log k cs e in
      let (d, f) = (p.nodes i).past (omega (arith, l, (inv.replica i).1)) in
      subst (All (Proposed k)) (some-injective (sym f ∙ e))
        (completed-proposed config (Proposed k) p.reached i (is_completed-completed _ d))

  -- In every state that the cluster reaches, by any proposals, any order of deliveries and any losses, of any two
  -- nodes the one that has invoked fewer steps has invoked exactly the first of those that the other has, in
  -- the same order and with the same carries, provided that no two different proposals for a step share an id;
  -- and the carries of each step have been proposed for it.
  pub one_log :
      {s : Cluster M}
      → Reach config Proposed s
      → (i j : ℕ) → length (s.replicas i).log ≤ length (s.replicas j).log
      → (take (length (s.replicas i).log) (s.replicas j).log ≡ (s.replicas i).log)
        × IsProposed Proposed 0 (s.replicas i).log
  one_log {s} r i j h =
      let inv = Reach-Inv config Proposed r in
      (
        take_ext (s.replicas i).log (s.replicas j).log h
            (λ k l. same-carries inv i j k l (omega (arith, h, l))),
        IsProposed-each Proposed 0 (s.replicas i).log (λ k cs e.
            subst (λ x. All (Proposed x) cs) (omega arith) (carries-proposed inv i k cs e)),
      )
