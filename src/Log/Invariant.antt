-- ===== src/Log/Invariant.antt =====
-- The invariant of the replicated log: every step is a run of Voting.System that the replicas share.
use replob_prototype.Prelude.{
  ℕ, ◌+◌, ◌<◌, ◌≤◌, ◌≡◌, ◌≢◌, ◌==◌, ==_iff, refl, sym, subst, ap, ◌∙◌, true, some, List, [], ◌∷◌,
  length, length-append, arith, Bool-cases, inl, inr, In, In-append, In-append_left,
  In-append_right, update, update_all, update_both,
}
use replob_prototype.Std.Order.{nat_order}
use replob_prototype.Std.Set.{contains}
use replob_prototype.Std.Map.{lookup}
use replob_prototype.Phantom.{id_mod, Phantom}
use replob_prototype.Phantom.Window.{IsValid}
use replob_prototype.Voting.{NodesSet, CarryMsg2, Voting, Action, start, on_complete}
use replob_prototype.Voting.System.{
  Packet, vote_packet, commit_packet, packets, after, propose, take_vote, take_commit, finish,
}
use replob_prototype.Voting.System as protocol
use replob_prototype.Log.{
  method, call_phantom, apply, Replica, run_current, Cluster, created_cluster, tagged, went_on,
  Step, applies, receives, rounds, Reach, here, next,
}
use replob_prototype.Log.Window.{
  voting_at, Called, call_phantom-Called, apply-id, apply-Called, Ran, run_current-Ran,
}
use replob_prototype.Log.Projection.{
  IsMarking, method-IsMarking, start-IsMarking, In-tagged, AtNode, AtNode-Called, AtNode-elsewhere,
  AtNode-Ran, AtNode-Ran_elsewhere,
}

-- The window of a replica is valid, and it has invoked the steps before the current one.
abbrev pub IsReplica : {M : Type 0} → Replica M → Type 0
IsReplica r = IsValid r.window × (r.window.current_step_id ≡ length r.log)

some-injective : {A : Type 0} {a b : A} → some a ≡ some b → a ≡ b
some-injective h = cc

module _ {M : Type 0} (config : NodesSet) (Proposed : ℕ → CarryMsg2 M → Type 0) where
  -- The run of the step `k`
  pub record Projection (k : ℕ) (s : Cluster M) : Type 0 where
    pub system : protocol.System M
    pub reached : protocol.Reach config (Proposed k) system
    pub nodes : (i : ℕ) → AtNode k (s.replicas i) (system.at_node i)
    pub packets_sent : (p : Packet M) → In (k, p) s.sent → In p system.sent

  pub record Inv (s : Cluster M) : Type 0 where
    pub replica : (i : ℕ) → IsReplica (s.replicas i)
    pub steps : (k : ℕ) → Projection k s

  -- A cluster that has nothing more than another.
  Inv-same :
      (s t : Cluster M)
      → ((i : ℕ) → t.replicas i ≡ s.replicas i)
      → ((k : ℕ) (p : Packet M) → In (k, p) t.sent → In (k, p) s.sent)
      → Inv s
      → Inv t
  Inv-same s t e sent inv = record {
    replica = λ i. subst IsReplica (sym (e i)) (inv.replica i);
    steps = λ k.
        let j = inv.steps k in
        record {
          system = j.system;
          reached = j.reached;
          nodes = λ i. subst (λ r. AtNode k r (j.system.at_node i)) (sym (e i)) (j.nodes i);
          packets_sent = λ p h. j.packets_sent p (sent k p h);
        };
  }

  module _ (s : Cluster M) (i id : ℕ) (f : Voting M → Voting M × List (Action M))
      (p : Phantom (Voting M)) (acts : List (Action M))
      (l : (s.replicas i).window.current_step_id ≤ id)
      (c : Called id (f (voting_at id (s.replicas i).window)) (s.replicas i).window p)
      (a : acts ≡ (f (voting_at id (s.replicas i).window)).1) (m : IsMarking f) where
    called-here :
        (j : Projection id s)
        → protocol.Step config (Proposed id) j.system (after j.system i (f (j.system.at_node i)))
        → Projection id (went_on s i id p acts)
    called-here j st =
        let v = j.system.at_node i in
        let e : acts ≡ (f v).1 = a ∙ ap (λ x. (f x).1) ((j.nodes i).present l).0 in
        record {
          system = after j.system i (f v);
          reached = protocol.next j.reached st;
          nodes =
              update_both (λ n r x. AtNode id r x) s.replicas j.system.at_node i
                (record (s.replicas i) { window = p }) (f v).0
                (AtNode-Called id f (s.replicas i) p v l m c (j.nodes i)) (λ n z. j.nodes n);
          packets_sent = λ q h. elim (In-append (id, q) s.sent (tagged id (packets acts)) h) [
            | inl old ↦ In-append_left q j.system.sent (packets (f v).1) (j.packets_sent q old)
            | inr new ↦
                In-append_right q j.system.sent (packets (f v).1)
                  (subst (λ x. In q (packets x)) e (In-tagged id id q (packets acts) new).1)
          ];
        }

    called-elsewhere : (k : ℕ) → id ≢ k → Projection k s → Projection k (went_on s i id p acts)
    called-elsewhere k z j = record {
      system = j.system;
      reached = j.reached;
      nodes =
          update_all (λ n r. AtNode k r (j.system.at_node n)) s.replicas i
            (record (s.replicas i) { window = p })
            (AtNode-elsewhere id k (s.replicas i) p (f (voting_at id (s.replicas i).window))
              (j.system.at_node i) z c (j.nodes i))
            (λ n y. j.nodes n);
      packets_sent = λ q h. elim (In-append (k, q) s.sent (tagged id (packets acts)) h) [
        | inl old ↦ j.packets_sent q old
        | inr new ↦ absurd (z (sym (In-tagged k id q (packets acts) new).0))
      ];
    }

    Inv-called :
        Inv s
        → ((j : Projection id s)
            → protocol.Step config
                (Proposed id)
                j.system
                (after j.system i (f (j.system.at_node i))))
        → Inv (went_on s i id p acts)
    Inv-called inv st = record {
      replica =
          update_all (λ n r. IsReplica r) s.replicas i (record (s.replicas i) { window = p })
            (c.differs.valid, c.differs.same_current ∙ (inv.replica i).1) (λ n y. inv.replica n);
      steps = λ k. elim (Bool-cases (id == k)) [
        | inl e ↦
            subst (λ x. Projection x (went_on s i id p acts)) ((==_iff id k).0 e)
              (called-here (inv.steps id) (st (inv.steps id)))
        | inr n ↦ called-elsewhere k (ground arith) (inv.steps k)
      ];
    }

  took :
      (i : ℕ) (m : Packet M) (id : ℕ) (s : protocol.System M)
      → contains i config ≡ true
      → In m s.sent
      → protocol.Step config (Proposed id) s (after s i (method i m (s.at_node i)))
  took i (vote_packet cs src ns) id s h sent = take_vote i cs src ns h sent
  took i (commit_packet cs) id s h sent = take_commit i cs h sent

  -- A message for a step that has left the window
  Inv-ignored :
      (s : Cluster M) (i id : ℕ) (p : Phantom (Voting M)) (acts : List (Action M))
      → p ≡ (s.replicas i).window
      → acts ≡ []
      → Inv s
      → Inv (went_on s i id p acts)
  unfolding packets
  Inv-ignored s i id p acts e a =
      Inv-same s (went_on s i id p acts)
        (update_all (λ n r. r ≡ s.replicas n) s.replicas i (record (s.replicas i) { window = p })
          (ap (λ w. record (s.replicas i) { window = w }) e) (λ n z. refl))
        (λ k q h. elim (In-append (k, q) s.sent (tagged id (packets acts)) h) [
          | inl old ↦ old
          | inr new ↦ absurd (subst (λ x. In (k, q) (tagged id (packets x))) a new)
        ])

  Inv-receives :
      (s : Cluster M) (i id : ℕ) (m : Packet M) (p : Phantom (Voting M)) (acts : List (Action M))
      → contains i config ≡ true
      → In (id, m) s.sent
      → id + 1 < id_mod
      → call_phantom id (method i m) (s.replicas i).window ≡ (p, acts)
      → Inv s
      → Inv (went_on s i id p acts)
  Inv-receives s i id m p acts h sent small e inv =
      let w = (s.replicas i).window in
      elim (call_phantom-Called id (method i m) w (inv.replica i).0 small) [
        | inl ignored ↦
            Inv-ignored s i id p acts (sym (ap (λ x. x.0) e) ∙ ap (λ x. x.0) ignored)
              (sym (ap (λ x. x.1) e) ∙ ap (λ x. x.1) ignored) inv
        | inr (l, c, a) ↦
            Inv-called s i id (method i m) p acts l
              (subst (λ q. Called id (method i m (voting_at id w)) w q) (ap (λ x. x.0) e) c)
              (sym (ap (λ x. x.1) e) ∙ a) (method-IsMarking i m) inv
              (λ j. took i m id j.system h (j.packets_sent m sent))
      ]

  Inv-applied :
      (s : Cluster M) (i : ℕ) (c : CarryMsg2 M) (p : Phantom (Voting M)) (acts : List (Action M))
      → let id = (s.replicas i).window.next_step_id in
        contains i config ≡ true
        → Proposed id c
        → id + 1 < id_mod
        → apply i config c (s.replicas i).window ≡ (p, acts, some id)
        → Inv s
        → Inv (went_on s i id p acts)
  Inv-applied s i c p acts h prop small e inv =
      let w = (s.replicas i).window in
      let id = w.next_step_id in
      let v = (inv.replica i).0 in
      let (q, more, g, k, a, z) = apply-Called i config c w v small in
      let d = sym g ∙ e in
      Inv-called s i id (start i config c) p acts v.ordered
        (subst (λ x. Called id (start i config c (voting_at id w)) w x) (ap (λ x. x.0) d)
          (subst (λ x. Called id (start i config c x) w q) (sym z) k))
        (sym (ap (λ x. x.1) d) ∙ a ∙ ap (λ x. (start i config c x).1) (sym z))
        (start-IsMarking i config c) inv
        (λ j. propose i c h (sym ((j.nodes i).present v.ordered).0 ∙ z) prop)

  Inv-applies :
      (s : Cluster M) (i id : ℕ) (c : CarryMsg2 M) (p : Phantom (Voting M)) (acts : List (Action M))
      → contains i config ≡ true
      → Proposed id c
      → id + 1 < id_mod
      → apply i config c (s.replicas i).window ≡ (p, acts, some id)
      → Inv s
      → Inv (went_on s i id p acts)
  Inv-applies s i id c p acts h prop small e inv =
      let w = (s.replicas i).window in
      let n : w.next_step_id ≡ id =
        some-injective (sym (apply-id i config c w (inv.replica i).0) ∙ ap (λ x. x.2) e) in
      subst
        (λ x.
          Proposed x c
          → x + 1 < id_mod
          → apply i config c w ≡ (p, acts, some x)
          → Inv (went_on s i x p acts))
        n (λ a b d. Inv-applied s i c p acts h a b d inv) prop small e

  module _ (s : Cluster M) (i : ℕ) (t : Replica M) (r : IsReplica (s.replicas i))
      (n : Ran (s.replicas i) t) where
    ran-here :
        Projection (s.replicas i).window.current_step_id s
        → Projection
            (s.replicas i).window.current_step_id
            (record s { replicas = update s.replicas i t })
    ran-here j =
        let k = (s.replicas i).window.current_step_id in
        let v = j.system.at_node i in
        record {
          system = after j.system i (on_complete v);
          reached =
              protocol.next j.reached (finish i (((j.nodes i).present (omega arith)).1 n.marked));
          nodes =
              update_both (λ a x y. AtNode k x y) s.replicas j.system.at_node i t (on_complete v).0
                (AtNode-Ran (s.replicas i) t v r.1 n (j.nodes i)) (λ a z. j.nodes a);
          packets_sent = λ q h.
              In-append_left q j.system.sent (packets (on_complete v).1) (j.packets_sent q h);
        }

    ran-elsewhere :
        (k : ℕ)
        → (s.replicas i).window.current_step_id ≢ k
        → Projection k s
        → Projection k (record s { replicas = update s.replicas i t })
    ran-elsewhere k z j = record {
      system = j.system;
      reached = j.reached;
      nodes =
          update_all (λ a x. AtNode k x (j.system.at_node a)) s.replicas i t
            (AtNode-Ran_elsewhere k (s.replicas i) t (j.system.at_node i) r.1 z n (j.nodes i))
            (λ a y. j.nodes a);
      packets_sent = j.packets_sent;
    }

    ran-IsReplica : IsReplica t
    ran-IsReplica = (
      n.valid,
      omega (
        arith,
        n.moved,
        r.1,
        ap length n.logged,
        length-append (s.replicas i).log
            ((voting_at (s.replicas i).window.current_step_id (s.replicas i).window).carries ∷ []),
      ),
    )

    Inv-ran : Inv s → Inv (record s { replicas = update s.replicas i t })
    Inv-ran inv =
        let c = (s.replicas i).window.current_step_id in
        record {
          replica =
              update_all (λ a x. IsReplica x) s.replicas i t ran-IsReplica (λ a z. inv.replica a);
          steps = λ k. elim (Bool-cases (c == k)) [
            | inl e ↦
                subst (λ x. Projection x (record s { replicas = update s.replicas i t }))
                  ((==_iff c k).0 e) (ran-here (inv.steps c))
            | inr z ↦ ran-elsewhere k (ground arith) (inv.steps k)
          ];
        }

  Inv-Step : {s t : Cluster M} → Step config Proposed s t → Inv s → Inv t
  Inv-Step {s} (applies i id c p acts h prop small e) inv =
      Inv-applies s i id c p acts h prop small e inv
  Inv-Step {s} (receives i id m p acts h sent small e) inv =
      Inv-receives s i id m p acts h sent small e inv
  Inv-Step {s} (rounds i) inv = elim (run_current-Ran (s.replicas i) (inv.replica i).0) [
    | inl e ↦
        Inv-same s (record s { replicas = update s.replicas i (run_current (s.replicas i)) })
          (update_all (λ n r. r ≡ s.replicas n) s.replicas i (run_current (s.replicas i)) e
            (λ n z. refl))
          (λ k p h. h) inv
    | inr n ↦ Inv-ran s i (run_current (s.replicas i)) (inv.replica i) n inv
  ]

  Inv-created : Inv created_cluster
  unfolding lookup
  Inv-created = record {
    replica =
        λ i. (record { ordered = omega arith; small = omega arith; window = λ k w e. cc }, refl);
    steps = λ k. record {
      system = protocol.start_of_step;
      reached = protocol.here;
      nodes = λ i. record { past = λ h. absurd (omega (arith, h)); present = λ h. (refl, λ m. cc) };
      packets_sent = λ p h. absurd h;
    };
  }

  pub Reach-Inv : {s : Cluster M} → Reach config Proposed s → Inv s
  Reach-Inv here = Inv-created
  Reach-Inv (next r st) = Inv-Step st (Reach-Inv r)
