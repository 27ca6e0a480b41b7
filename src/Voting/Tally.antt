-- ===== src/Voting/Tally.antt =====
-- What the nodes of `Voting.System` have said: the carries with which each left its initial state.
use replob_prototype.Prelude.{
  ℕ, ◌≡◌, refl, sym, ◌∙◌, Bool, true, false, Option, none, some, [], ◌∷◌, any, All, All-map, arith,
}
use replob_prototype.Std.Order.{nat_order}
use replob_prototype.Std.Set.{contains, IsSorted}
use replob_prototype.Voting.{CarryMsg2, CarrySet, NodesSet, carry_order}

abbrev pub Said : Type 0 → Type 0
Said M = ℕ → Option (CarrySet M)

module _ {M : Type 0} where
  abbrev pub says : Option (CarrySet M) → CarryMsg2 M → Bool
  says none c = false
  says (some cs) c = contains c cs

  -- some node of `ns` has said a carry with the id of `c`
  abbrev pub heard : Said M → CarryMsg2 M → NodesSet → Bool
  heard said c ns = any (λ n. says (said n) c) ns

  abbrev pub has_said : Option (CarrySet M) → Bool
  has_said none = false
  has_said (some cs) = true

  -- Whatever has been said stays said.
  abbrev pub Extends : Said M → Said M → Type 0
  Extends said said' = (n : ℕ) → has_said (said n) ≡ true → said' n ≡ said n

  abbrev pub Known : NodesSet → Said M → ℕ → Type 0
  Known config said n = (has_said (said n) ≡ true) × (contains n config ≡ true)

  pub heard-Extends :
      (config : NodesSet) (said said' : Said M) (c : CarryMsg2 M) (ns : NodesSet)
      → Extends said said'
      → All (Known config said) ns
      → heard said' c ns ≡ heard said c ns
  heard-Extends config said said' c [] x h = refl
  heard-Extends config said said' c (n ∷ ns) x h =
      rw (x n h.0.0, heard-Extends config said said' c ns x h.1)

  pub Known-Extends :
      (config : NodesSet) (said said' : Said M) (ns : NodesSet)
      → Extends said said'
      → All (Known config said) ns
      → All (Known config said') ns
  Known-Extends config said said' ns x =
      All-map (Known config said) (Known config said') (λ n k. (rw (x n k.0) k.0, k.1)) ns

  -- A node among those heard is heard.
  pub heard-member :
      (said : Said M) (c : CarryMsg2 M) (i : ℕ) (ns : NodesSet)
      → contains i ns ≡ true
      → says (said i) c ≡ true
      → heard said c ns ≡ true
  unfolding contains
  heard-member said c i [] h s = cc
  heard-member said c i (n ∷ ns) h s = ground (arith, heard-member said c i ns)

  pub heard-le :
      (said : Said M) (c : CarryMsg2 M) (config ns : NodesSet)
      → All (Known config said) ns
      → heard said c ns ≡ true
      → heard said c config ≡ true
  heard-le said c config [] k h = cc
  heard-le said c config (n ∷ ns) k h =
      ground (arith, heard-member said c n config k.0.1, heard-le said c config ns k.1)

-- `carries` is what the nodes `ns` have said, all of them proposed.
pub record IsTally {M : Type 0} (config : NodesSet) (Proposed : CarryMsg2 M → Type 0)
    (said : Said M) (ns : NodesSet) (carries : CarrySet M) : Type 0 where
  pub known : All (Known config said) ns
  pub total : (c : CarryMsg2 M) → contains c carries ≡ heard said c ns
  pub sorted : IsSorted carries
  pub proposed : All Proposed carries

module _ {M : Type 0} {config : NodesSet} {Proposed : CarryMsg2 M → Type 0} where
  pub IsTally-Extends :
      {said said' : Said M} {ns : NodesSet} {cs : CarrySet M}
      → Extends said said'
      → IsTally config Proposed said ns cs
      → IsTally config Proposed said' ns cs
  IsTally-Extends {said} {said'} {ns} x t = record {
    known = Known-Extends config said said' ns x t.known;
    total = λ c. t.total c ∙ sym (heard-Extends config said said' c ns x t.known);
    sorted = t.sorted;
    proposed = t.proposed;
  }
