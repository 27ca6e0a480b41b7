-- ===== src/Log/Projection.antt =====
-- Each step of the log, seen through the windows of all nodes, is a run of Voting.System.
use replob_prototype.Prelude.{
  ℕ, ◌<◌, ◌≤◌, ◌≡◌, ◌≢◌, sym, ap, ◌∙◌, true, some, List, [], ◌∷◌, ◌++◌, length, get_elem?,
  get_elem?-append, get_elem?-append_left, arith, inl, inr, In,
}
use replob_prototype.Std.Order.{nat_order}
use replob_prototype.Phantom.{Phantom, is_marked}
use replob_prototype.Voting.{
  NodesSet, CarryMsg2, CarrySet, Voting, Action, is_completed, vote, commit, decide, start,
  on_complete,
}
use replob_prototype.Voting.System.{Packet, vote_packet, commit_packet}
use replob_prototype.Log.{method, completes, Replica, tagged}
use replob_prototype.Log.Window.{base_of, voting_at, marked_at, Called, Ran}

-- A method calls `complete` only when it ends in the completed state, and never leaves that state.
abbrev pub IsMarking : {M : Type 0} → (Voting M → Voting M × List (Action M)) → Type 0
IsMarking f =
    (v : _)
    → (completes (f v).1 ≡ true → is_completed (f v).0.state ≡ true)
      × (is_completed v.state ≡ true → is_completed (f v).0.state ≡ true)

module _ {M : Type 0} where
  commit-IsMarking : (cs : CarrySet M) → IsMarking (commit cs)
  unfolding commit
  commit-IsMarking cs v = ground arith

  vote-IsMarking :
      (i : ℕ) (cs : CarrySet M) (src : ℕ) (ns : NodesSet) → IsMarking (vote i cs src ns)
  unfolding vote decide commit
  vote-IsMarking i cs src ns v = ground arith

  pub method-IsMarking : (i : ℕ) (m : Packet M) → IsMarking (method i m)
  method-IsMarking i (vote_packet cs src ns) v = vote-IsMarking i cs src ns v
  method-IsMarking i (commit_packet cs) v = commit-IsMarking cs v

  pub start-IsMarking : (i : ℕ) (config : NodesSet) (c : CarryMsg2 M) → IsMarking (start i config c)
  unfolding start
  start-IsMarking i config c v = vote-IsMarking i (c ∷ []) i config (record v { timer = some 500 })

  -- How the step `k` stands at a replica: it has been invoked, or it is in the window.
  pub record AtNode (k : ℕ) (r : Replica M) (v : Voting M) : Type 0 where
    pub past :
        k < r.window.current_step_id
        → (is_completed v.state ≡ true) × (get_elem? r.log k ≡ some v.carries)
    pub present :
        r.window.current_step_id ≤ k
        → (voting_at k r.window ≡ v) × (marked_at k r.window ≡ true → is_completed v.state ≡ true)

  pub In-tagged :
      (k id : ℕ) (p : Packet M) (ps : List (Packet M))
      → In (k, p) (tagged id ps)
      → (k ≡ id) × In p ps
  In-tagged k id p [] h = absurd h
  In-tagged k id p (q ∷ ps) (inl e) = (ap (λ x. x.0) e, inl (ap (λ x. x.1) e))
  In-tagged k id p (q ∷ ps) (inr h) = let (e, i) = In-tagged k id p ps h in (e, inr i)

  -- A call at the step `id` of a replica, seen at that step and at another
  pub AtNode-Called :
      (id : ℕ) (f : Voting M → Voting M × List (Action M)) (r : Replica M) (p : Phantom (Voting M))
      (v : Voting M)
      → r.window.current_step_id ≤ id
      → IsMarking f
      → Called id (f (voting_at id r.window)) r.window p
      → AtNode id r v
      → AtNode id (record r { window = p }) (f v).0
  AtNode-Called id f r p v l m c a =
      let (b, d) = a.present l in
      let n = m v in
      let e : (f (voting_at id r.window)) ≡ f v = ap f b in
      record {
        past = λ h. absurd (omega (arith, h, l, c.differs.same_current));
        present = λ h. (
          c.voting ∙ ap (λ x. x.0) e,
          λ k. ground (arith, c.marked, ap (λ x. completes x.1) e, n, d, k),
        );
      }

  pub AtNode-elsewhere :
      (id k : ℕ) (r : Replica M) (p : Phantom (Voting M)) (x : Voting M × List (Action M))
      (v : Voting M)
      → id ≢ k
      → Called id x r.window p
      → AtNode k r v
      → AtNode k (record r { window = p }) v
  AtNode-elsewhere id k r p x v n c a =
      let e = c.differs.elsewhere k n in
      record {
        past = λ h. a.past (omega (arith, h, c.differs.same_current));
        present = λ h.
            let (b, d) = a.present (omega (arith, h, c.differs.same_current)) in
            (ap base_of e ∙ b, λ m. d (sym (ap is_marked e) ∙ m));
      }

  -- A round, seen at the step that it ends and at another
  pub AtNode-Ran :
      (r t : Replica M) (v : Voting M)
      → r.window.current_step_id ≡ length r.log
      → Ran r t
      → AtNode r.window.current_step_id r v
      → AtNode r.window.current_step_id t (on_complete v).0
  unfolding on_complete
  AtNode-Ran r t v l n a =
      let (b, d) = a.present (omega arith) in
      record {
        past = λ h. (
          d n.marked,
          ap (λ x. get_elem? x r.window.current_step_id) n.logged
              ∙ ap
                  (λ x.
                    get_elem? (r.log ++ (voting_at r.window.current_step_id r.window).carries ∷ [])
                      x)
                  l
              ∙ get_elem?-append r.log (voting_at r.window.current_step_id r.window).carries []
              ∙ ap (λ x. some x.carries) b,
        );
        present = λ h. absurd (omega (arith, h, n.moved));
      }

  pub AtNode-Ran_elsewhere :
      (k : ℕ) (r t : Replica M) (v : Voting M)
      → r.window.current_step_id ≡ length r.log
      → r.window.current_step_id ≢ k
      → Ran r t
      → AtNode k r v
      → AtNode k t v
  AtNode-Ran_elsewhere k r t v l z n a =
      let e = n.elsewhere k z in
      record {
        past = λ h.
            let i : k < r.window.current_step_id = omega (arith, h, n.moved, z) in
            let (b, d) = a.past i in
            (
              b,
              ap (λ x. get_elem? x k) n.logged
                  ∙ get_elem?-append_left r.log _ k (omega (arith, i, l))
                  ∙ d,
            );
        present = λ h.
            let (b, d) = a.present (omega (arith, h, n.moved)) in
            (ap base_of e ∙ b, λ m. d (sym (ap is_marked e) ∙ m));
      }
