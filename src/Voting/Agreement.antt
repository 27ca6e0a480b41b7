-- ===== src/Voting/Agreement.antt =====
-- The members of a cluster that complete a step complete it with the same carries.
use replob_prototype.Prelude.{
  ℕ, ◌≡◌, refl, sym, ◌∙◌, ap, subst, true, none, some, [], ◌∷◌, All, All-In, update, update_self,
  update_ne, map,
}
use replob_prototype.Std.Order.{nat_order}
use replob_prototype.Std.Set.{insert_all, contains}
use replob_prototype.Std.Set.Laws.{sorted_ext, contains-insert_all}
use replob_prototype.Ids.{lt_id_eq}
use replob_prototype.Voting.{
  invoke, CarryMsg2, CarrySet, NodesSet, Voting, State, initial, voted, completed, carry_order,
  fresh, is_completed, vote, start, on_complete,
}
use replob_prototype.Voting.System.{
  vote_packet, commit_packet, packets, System, after, Step, propose, take_vote, take_commit, finish,
  Reach, here, next,
}
use replob_prototype.Voting.Tally.{Said, says, IsTally, heard-le}
use replob_prototype.Voting.Outcome.{
  Good, IsHonest, Outcome, commit-Outcome, vote-voted, vote-idle, Inv, Inv-after, Inv-says,
}

module _ {M : Type 0} (config : NodesSet) (Proposed : CarryMsg2 M → Type 0) where
  says-own :
      (said : Said M) (i : ℕ) (cs : CarrySet M)
      → said i ≡ some (insert_all [] cs)
      → (c : CarryMsg2 M) → says (said i) c ≡ contains c cs
  unfolding contains
  says-own said i cs e c = rw e (contains-insert_all c [] cs)

  Inv-propose :
      (s : System M) (i : ℕ) (c : CarryMsg2 M)
      → contains i config ≡ true
      → s.at_node i ≡ fresh
      → Proposed c
      → Inv config Proposed s
      → Inv config Proposed (after s i (start i config c (s.at_node i)))
  unfolding start
  Inv-propose s i c member f p inv = rw f (
      Inv-says config Proposed s i cs _ inv silent (
        vote-idle config Proposed said' i i (c ∷ []) (some 500) first (rw first refl, member) member
          (p, tt) (says-own said' i (c ∷ []) first)))
    where
      cs : CarrySet M
      cs = insert_all [] (c ∷ [])

      said' : Said M
      said' = update inv.said i (some cs)

      first : said' i ≡ some cs
      first = update_self inv.said i (some cs)

      silent : inv.said i ≡ none
      silent = (subst (λ v. Good config Proposed inv.said i v.state v) f (inv.good i)).1

  -- `said` with `cs` for the silent node `i`: what another node has said stands.
  says-other :
      (said : Said M) (i src : ℕ) (cs own : CarrySet M)
      → said i ≡ none
      → said src ≡ some cs
      → update said i (some own) src ≡ some cs
  says-other said i src cs own e h = update_ne said i src (some own) (λ q. cc (ap said q)) ∙ h

  vote-completed :
      (said : Said M) (i : ℕ) (cs : CarrySet M) (src : ℕ) (v : Voting M)
      → v.state ≡ completed
      → Good config Proposed said i v.state v
      → Outcome config Proposed said i (vote i cs src config v)
  unfolding vote packets
  vote-completed said i cs src v e g = rw (ap is_completed e) (g, tt)

  on_complete-Outcome :
      (said : Said M) (i : ℕ) (v : Voting M) (x : State)
      → is_completed x ≡ true
      → Good config Proposed said i x v
      → Good config Proposed said i x (on_complete v).0
  unfolding on_complete
  on_complete-Outcome said i v initial e g = cc
  on_complete-Outcome said i v voted e g = cc
  on_complete-Outcome said i v completed e g = g

  -- Invoking the carries sends nothing.
  packets-invoke : (cs : CarrySet M) → packets (map (λ c. invoke c.msg) cs) ≡ []
  unfolding packets
  packets-invoke [] = refl
  packets-invoke (c ∷ cs) = packets-invoke cs

  finish-Outcome :
      (said : Said M) (i : ℕ) (v : Voting M)
      → is_completed v.state ≡ true
      → Good config Proposed said i v.state v
      → Outcome config Proposed said i (on_complete v)
  unfolding on_complete
  finish-Outcome said i v e g =
      (on_complete-Outcome said i v v.state e g, rw (packets-invoke v.carries) tt)

  Inv-take_vote :
      (s : System M) (i : ℕ) (cs : CarrySet M) (src : ℕ) (x : State)
      → (s.at_node i).state ≡ x
      → contains i config ≡ true
      → (inv : Inv config Proposed s) → Good config Proposed inv.said i x (s.at_node i)
      → IsHonest config Proposed inv.said (vote_packet cs src config)
      → Inv config Proposed (after s i (vote i cs src config (s.at_node i)))
  Inv-take_vote s i cs src initial e member inv g h = rw g.0 (
      Inv-says config Proposed s i own _ inv g.1 (
        vote-idle config Proposed said' i src cs none first (rw kept refl, h.1) member h.3
          (λ c. rw kept refl)))
    where
      own : CarrySet M
      own = insert_all [] cs

      said' : Said M
      said' = update inv.said i (some own)

      first : said' i ≡ some own
      first = update_self inv.said i (some own)

      kept : said' src ≡ some cs
      kept = says-other inv.said i src cs own g.1 h.0
  Inv-take_vote s i cs src voted e member inv g h =
      Inv-after config Proposed s i _ inv
        (vote-voted config Proposed inv.said i src cs (s.at_node i) e g member h)
  Inv-take_vote s i cs src completed e member inv g h =
      Inv-after config Proposed s i _ inv
        (vote-completed (inv.said) i cs src (s.at_node i) e (inv.good i))

  Inv-Step :
      {s t : System M} → Step config Proposed s t → Inv config Proposed s → Inv config Proposed t
  Inv-Step {s} (propose i c member f p) inv = Inv-propose s i c member f p inv
  Inv-Step {s} (take_vote i cs src ns member sent) inv =
      let h =
        All-In (IsHonest config Proposed inv.said) s.sent inv.honest (vote_packet cs src ns) sent in
      subst (λ n. Inv config Proposed (after s i (vote i cs src n (s.at_node i)))) (sym h.2)
        (Inv-take_vote s i cs src (s.at_node i).state refl member inv (inv.good i)
          (h.0, h.1, refl, h.3))
  Inv-Step {s} (take_commit i cs member sent) inv = Inv-after config Proposed s i _ inv (
      commit-Outcome config Proposed inv.said i cs (s.at_node i) (inv.good i)
        (All-In (IsHonest config Proposed inv.said) s.sent inv.honest (commit_packet cs) sent))
  Inv-Step {s} (finish i done) inv =
      Inv-after config Proposed s i _ inv
        (finish-Outcome inv.said i (s.at_node i) done (inv.good i))

  Reach-Inv : {s : System M} → Reach config Proposed s → Inv config Proposed s
  Reach-Inv here = record { said = λ i. none; good = λ i. (refl, refl); honest = tt }
  Reach-Inv (next r st) = Inv-Step st (Reach-Inv r)

  module _
      (unique : (a b : CarryMsg2 M) → Proposed a → Proposed b → a.msg_id ≡ b.msg_id → a ≡ b) where
    -- Agreement: in every state that the cluster reaches from the start of a step, by any proposals, any
    -- order of deliveries and any losses, two nodes that have completed the step hold the same carries,
    -- provided that no two different proposals share an id.
    pub agreement :
        {s : System M}
        → Reach config Proposed s
        → (i j : ℕ) → (s.at_node i).state ≡ completed
        → (s.at_node j).state ≡ completed
        → (s.at_node i).carries ≡ (s.at_node j).carries
    agreement {s} r i j ei ej =
        sorted_ext Proposed (λ a b p q h k. unique a b p q (lt_id_eq a.msg_id b.msg_id h k)) _ _
          ti.sorted tj.sorted ti.proposed tj.proposed (λ c. ti.total c ∙ sym (tj.total c))
      where
        inv : Inv config Proposed s
        inv = Reach-Inv r

        ti : IsTally config Proposed inv.said config (s.at_node i).carries
        ti = subst (λ x. Good config Proposed inv.said i x (s.at_node i)) ei (inv.good i)

        tj : IsTally config Proposed inv.said config (s.at_node j).carries
        tj = subst (λ x. Good config Proposed inv.said j x (s.at_node j)) ej (inv.good j)

  -- The carries of a completed step have been proposed.
  pub completed-proposed :
      {s : System M}
      → Reach config Proposed s
      → (i : ℕ) → (s.at_node i).state ≡ completed
      → All Proposed (s.at_node i).carries
  completed-proposed {s} r i e = t.proposed
    where
      inv : Inv config Proposed s
      inv = Reach-Inv r

      t : IsTally config Proposed inv.said config (s.at_node i).carries
      t = subst (λ x. Good config Proposed inv.said i x (s.at_node i)) e (inv.good i)

  -- No carry is lost and none is made up: in every state that the cluster reaches, whatever a node that
  -- has voted holds is among the carries of each node that has completed the step, and those have all
  -- been proposed.
  pub no_lost_carry :
      {s : System M}
      → Reach config Proposed s
      → (i j : ℕ) → (s.at_node i).state ≡ voted
      → (s.at_node j).state ≡ completed
      → ((c : CarryMsg2 M)
          → contains c (s.at_node i).carries ≡ true
          → contains c (s.at_node j).carries ≡ true)
        × All Proposed (s.at_node j).carries
  no_lost_carry {s} r i j ei ej = (
    (λ c h.
        tj.total c
        ∙ heard-le inv.said c config (s.at_node i).voted_set ti.known (sym (ti.total c) ∙ h)),
    completed-proposed r j ej,
  )
    where
      inv : Inv config Proposed s
      inv = Reach-Inv r

      ti : IsTally config Proposed inv.said (s.at_node i).voted_set (s.at_node i).carries
      ti = (subst (λ x. Good config Proposed inv.said i x (s.at_node i)) ei (inv.good i)).2

      tj : IsTally config Proposed inv.said config (s.at_node j).carries
      tj = subst (λ x. Good config Proposed inv.said j x (s.at_node j)) ej (inv.good j)
