-- ===== src/Voting/Outcome.antt =====
-- What each method of `Voting` keeps of the invariant of `Voting.System`.
use replob_prototype.Voting.{
  is_empty, CarryMsg2, CarrySet, NodesSet, Voting, State, initial, voted, completed, Action,
  carry_order, fresh, is_completed, is_initial, vote, commit, adopt, decide, tally,
}
use replob_prototype.Prelude.{
  ◌⊎◌, ℕ, ◌≡◌, refl, sym, ◌∙◌, ap, subst, true, false, Option, none, some, List, [], All, All-map,
  All-append, update, update_all, update_ne, arith, inl, inr, Bool-cases,
}
use replob_prototype.Std.Order.{nat_order}
use replob_prototype.Std.Set.{insert, insert_all, contains, eq_set}
use replob_prototype.Std.Set.Laws.{
  All-contains, any-insert, All-insert, contains-insert, contains-insert_all, insert_all-IsSorted,
  All-insert_all, eq_set_lem, eq_set_refl,
}
use replob_prototype.Voting.System.{Packet, vote_packet, commit_packet, packets, System, after}
use replob_prototype.Voting.Tally.{
  Said, says, Extends, Known, IsTally, IsTally-Extends, heard-member,
}

module _ {M : Type 0} (config : NodesSet) (Proposed : CarryMsg2 M → Type 0) where
  IsTally-vote :
      {said : Said M} {ns : NodesSet} {carries : CarrySet M} (cs : CarrySet M) (i src : ℕ)
      → Known config said i
      → Known config said src
      → All Proposed cs
      → ((c : CarryMsg2 M) → says (said src) c ≡ contains c cs)
      → ((c : CarryMsg2 M) → says (said i) c ≡ true → contains c (insert_all carries cs) ≡ true)
      → IsTally config Proposed said ns carries
      → IsTally config Proposed said (insert i (insert src ns)) (insert_all carries cs)
  IsTally-vote {said} {ns} {carries} cs i src ki ks p from_src own t = record {
    known =
        All-insert (Known config said) i (insert src ns) ki
          (All-insert (Known config said) src ns ks t.known);
    total = λ c. ground (
      arith,
      contains-insert_all c carries cs,
      t.total c,
      from_src c,
      own c,
      any-insert (λ n. says (said n) c) i (insert src ns),
      any-insert (λ n. says (said n) c) src ns,
    );
    sorted = insert_all-IsSorted carries cs t.sorted;
    proposed = All-insert_all Proposed carries cs t.proposed p;
  }

  IsTally-none : (said : Said M) → IsTally config Proposed said [] []
  unfolding contains
  IsTally-none said = record { known = tt; total = λ c. refl; sorted = tt; proposed = tt }

  -- What is known of node `i` in each state.
  abbrev pub Good : Said M → ℕ → State → Voting M → Type 0
  Good said i initial v = (v ≡ fresh) × (said i ≡ none)
  Good said i voted v =
      (v.nodes ≡ config)
      × (contains i v.voted_set ≡ true)
      × IsTally config Proposed said v.voted_set v.carries
  Good said i completed v = IsTally config Proposed said config v.carries

  abbrev pub IsHonest : Said M → Packet M → Type 0
  IsHonest said (vote_packet cs src ns) =
      (said src ≡ some cs) × (contains src config ≡ true) × (ns ≡ config) × All Proposed cs
  IsHonest said (commit_packet cs) = IsTally config Proposed said config cs

  -- A method's result at node `i`.
  abbrev pub Outcome : Said M → ℕ → Voting M × List (Action M) → Type 0
  Outcome said i r = Good said i r.0.state r.0 × All (IsHonest said) (packets r.1)

  pub commit-Outcome :
      (said : Said M) (i : ℕ) (cs : CarrySet M) (v : Voting M)
      → Good said i v.state v
      → IsTally config Proposed said config cs
      → Outcome said i (commit cs v)
  unfolding commit packets
  commit-Outcome said i cs v g t = elim (Bool-cases (is_completed v.state)) [
    | inl e ↦ rw e (g, tt)
    | inr e ↦ rw e (t, (t, tt))
  ]

  decide-Outcome :
      (said : Said M) (i : ℕ) (v : Voting M)
      → is_completed v.state ≡ false
      → v.nodes ≡ config
      → contains i v.voted_set ≡ true
      → contains i config ≡ true
      → (is_initial v.state ≡ true → said i ≡ some v.carries)
      → IsTally config Proposed said v.voted_set v.carries
      → Outcome said i (decide i v)
  unfolding decide packets commit
  decide-Outcome said i v going e mine member own t =
      elim (Bool-cases (eq_set v.voted_set v.nodes)) [
        | inl all ↦
            let whole =
              subst (λ ns. IsTally config Proposed said ns v.carries)
                (eq_set_lem v.voted_set v.nodes all ∙ e) t in
            rw (all, going) (whole, (whole, tt))
        | inr more ↦ elim (Bool-cases (is_initial v.state)) [
          | inl first ↦ rw (more, first) ((e, mine, t), ((own first, member, e, t.proposed), tt))
          | inr later ↦ rw (more, later) (stays v.state going later, tt)
        ]
      ]
    where
      stays : (x : State) → is_completed x ≡ false → is_initial x ≡ false → Good said i x v
      stays initial a b = cc
      stays voted a b = (e, mine, t)
      stays completed a b = cc

  tally-Outcome :
      (said : Said M) (i src : ℕ) (cs : CarrySet M) (v : Voting M)
      → is_completed v.state ≡ false
      → v.nodes ≡ config
      → Known config said i
      → Known config said src
      → All Proposed cs
      → ((c : CarryMsg2 M) → says (said src) c ≡ contains c cs)
      → ((c : CarryMsg2 M) → says (said i) c ≡ true → contains c (insert_all v.carries cs) ≡ true)
      → (is_initial v.state ≡ true → said i ≡ some (insert_all v.carries cs))
      → IsTally config Proposed said v.voted_set v.carries
      → Outcome said i (decide i (tally i src (record v { carries = insert_all v.carries cs })))
  unfolding tally
  tally-Outcome said i src cs v going e ki ks p from_src own first t =
      decide-Outcome said i (record v { carries = _; voted_set = _ }) going e
        (ground (arith, contains-insert i i (insert src v.voted_set))) ki.1 first
        (IsTally-vote cs i src ki ks p from_src own t)

  adopt-config :
      (v : Voting M)
      → (v.nodes ≡ []) ⊎ (v.nodes ≡ config)
      → adopt config v ≡ record v { nodes = config }
  unfolding adopt is_empty
  adopt-config v (inl e) = rw e
  adopt-config v (inr e) = ground (arith, eq_set_refl config)

  vote-config :
      (i src : ℕ) (cs : CarrySet M) (v : Voting M)
      → is_completed v.state ≡ false
      → (v.nodes ≡ []) ⊎ (v.nodes ≡ config)
      → vote i cs src config v
        ≡ decide i (tally i src (record v { nodes = config; carries = insert_all v.carries cs }))
  unfolding vote
  vote-config i src cs v going e = rw going (
      ap (λ w. decide i (tally i src w))
        (adopt-config (record v { carries = insert_all v.carries cs }) e))

  -- A vote at a node that has voted already.
  pub vote-voted :
      (said : Said M) (i src : ℕ) (cs : CarrySet M) (v : Voting M)
      → v.state ≡ voted
      → Good said i voted v
      → contains i config ≡ true
      → IsHonest said (vote_packet cs src config)
      → Outcome said i (vote i cs src config v)
  vote-voted said i src cs v e g member h =
      subst (Outcome said i) (sym (vote-config i src cs v (rw e refl) (inr g.0))) (
        tally-Outcome said i src cs (record v { nodes = config }) (rw e refl) refl ki ks h.3
          (λ c. rw h.0 refl) own (λ first. ground arith) g.2)
    where
      ks : Known config said src
      ks = (rw h.0 refl, h.1)

      ki : Known config said i
      ki = All-contains (Known config said) i v.voted_set g.2.known g.1

      own : (c : CarryMsg2 M) → says (said i) c ≡ true → contains c (insert_all v.carries cs) ≡ true
      own c h' = ground (
        arith,
        contains-insert_all c v.carries cs,
        g.2.total c,
        heard-member said c i v.voted_set g.1,
      )

  abbrev pub idle : Option ℕ → Voting M
  idle timer = record fresh { timer = timer }

  -- The first vote at a node: from now on the node has said its carries.
  pub vote-idle :
      (said : Said M) (i src : ℕ) (cs : CarrySet M) (timer : Option ℕ)
      → said i ≡ some (insert_all [] cs)
      → Known config said src
      → contains i config ≡ true
      → All Proposed cs
      → ((c : CarryMsg2 M) → says (said src) c ≡ contains c cs)
      → Outcome said i (vote i cs src config (idle timer))
  vote-idle said i src cs timer ei ks member p from_src =
      subst (Outcome said i) (sym (vote-config i src cs (idle timer) refl (inl refl))) (
        tally-Outcome said i src cs (record (idle timer) { nodes = config }) refl refl
          (rw ei refl, member) ks p from_src (λ c h. subst (λ o. says o c ≡ true) ei h) (λ _. ei)
          (IsTally-none said))

  -- What is known of a whole state, with what its nodes have said.
  pub record Inv (s : System M) : Type 0 where
    pub said : Said M
    pub good : (i : ℕ) → Good said i (s.at_node i).state (s.at_node i)
    pub honest : All (IsHonest said) s.sent

  Good-Extends :
      (said said' : Said M) (i : ℕ) (x : State) (v : Voting M)
      → Extends said said'
      → said' i ≡ said i
      → Good said i x v
      → Good said' i x v
  Good-Extends said said' i initial v x e g = (g.0, e ∙ g.1)
  Good-Extends said said' i voted v x e g = (g.0, g.1, IsTally-Extends x g.2)
  Good-Extends said said' i completed v x e g = IsTally-Extends x g

  IsHonest-Extends :
      (said said' : Said M)
      → Extends said said'
      → (p : Packet M) → IsHonest said p
      → IsHonest said' p
  IsHonest-Extends said said' x (vote_packet cs src ns) h =
      (x src (rw h.0 refl) ∙ h.0, h.1, h.2, h.3)
  IsHonest-Extends said said' x (commit_packet cs) h = IsTally-Extends x h

  -- A method that says nothing new keeps the invariant.
  pub Inv-after :
      (s : System M) (i : ℕ) (r : Voting M × List (Action M)) (inv : Inv s)
      → Outcome inv.said i r
      → Inv (after s i r)
  Inv-after s i r inv o = record {
    said = inv.said;
    good = update_all (λ j v. Good inv.said j v.state v) s.at_node i r.0 o.0 (λ j ne. inv.good j);
    honest = All-append (IsHonest inv.said) s.sent (packets r.1) inv.honest o.1;
  }

  -- So does one by which node `i`, silent so far, says `cs`.
  pub Inv-says :
      (s : System M) (i : ℕ) (cs : CarrySet M) (r : Voting M × List (Action M)) (inv : Inv s)
      → inv.said i ≡ none
      → Outcome (update inv.said i (some cs)) i r
      → Inv (after s i r)
  Inv-says s i cs r inv e o = record {
    said = said';
    good =
        update_all (λ j v. Good said' j v.state v) s.at_node i r.0 o.0
          (λ j ne.
            Good-Extends inv.said said' j (s.at_node j).state (s.at_node j) grows
              (update_ne inv.said i j (some cs) ne) (inv.good j));
    honest =
        All-append (IsHonest said') s.sent (packets r.1)
          (All-map (IsHonest inv.said) (IsHonest said') (IsHonest-Extends inv.said said' grows)
            s.sent inv.honest)
          o.1;
  }
    where
      said' : Said M
      said' = update inv.said i (some cs)

      grows : Extends inv.said said'
      grows n h = update_ne inv.said i n (some cs) (λ q. ground arith)
