-- ===== src/Replob/Timeout.antt =====
-- The timeout of a step removes nodes that have not voted, and no others.
use replob_prototype.Prelude.{
  ==_iff, ap, ◌∙◌, ℕ, ◌≡◌, refl, true, false, not, ◌&&◌, ◌==◌, if◌then◌else◌, none, some, List, [],
  ◌∷◌, arith, inl, inr, Option-cases, Bool-cases,
}
use replob_prototype.Std.Order.{nat_order}
use replob_prototype.Std.Set.{contains}
use replob_prototype.Std.Set.Laws.{contains-same}
use replob_prototype.Voting.{is_empty}
use replob_prototype.Std.Map.{lookup, has_key, has_key-erase}
use replob_prototype.Node.{Nodes, remove, remove_found, remove_node, node_list, keys}
use replob_prototype.Replob.{
  StepData, Replob, send_disconnect, get_step, voted_nodes_set, remove_all, disconnect_nodes,
  unavailable, on_timeout,
}

has_key-same :
    (i j : ℕ) (n : Nodes) → (i == j) ≡ true → has_key i n.config.nodes ≡ has_key j n.config.nodes
has_key-same i j n h = ap (λ k. has_key k n.config.nodes) ((==_iff i j).0 h)

remove-config :
    (i j : ℕ) (n : Nodes)
    → (has_key i (remove j n).0.config.nodes
        ≡ (has_key i n.config.nodes && not ((remove j n).1 && i == j)))
      × ((remove j n).1 ≡ true → has_key j n.config.nodes ≡ true)
unfolding remove remove_found remove_node
remove-config i j n = elim (Option-cases (lookup j n.connectors)) [
  | inl e ↦ rw (remove, e) (ground arith, λ h. cc)
  | inr (none, e) ↦ rw (remove, e) (ground arith, λ h. cc)
  | inr (some c, e) ↦
      rw (remove, e)
        (
          ground (arith, has_key-erase i j n.config.nodes, has_key-same i j n),
          λ h. ground (arith, h),
        )
]

-- What `disconnectNodes` does to the configuration, where `gone` are the nodes that it removed
abbrev IsDisconnected : List ℕ → Nodes → Nodes → List ℕ → ℕ → Type 0
IsDisconnected is n m gone i =
    (has_key i m.config.nodes ≡ (has_key i n.config.nodes && not (contains i gone)))
    × (contains i gone ≡ true → (contains i is ≡ true) × (has_key i n.config.nodes ≡ true))

removed_key :
    (is : List ℕ) (n : Nodes) (i j : ℕ) (gone : List ℕ)
    → ((has_key i (remove j n).0.config.nodes
          ≡ (has_key i n.config.nodes && not ((remove j n).1 && i == j)))
        × ((remove j n).1 ≡ true → has_key j n.config.nodes ≡ true))
    → (remove j n).1 ≡ true
    → (contains i gone ≡ true
        → (contains i is ≡ true) × (has_key i (remove j n).0.config.nodes ≡ true))
    → contains i (j ∷ gone) ≡ true
    → (contains i (j ∷ is) ≡ true) × (has_key i n.config.nodes ≡ true)
unfolding contains
removed_key is n i j gone one e more h = elim (Bool-cases (i == j)) [
  | inl x ↦ (ground (arith, x), has_key-same i j n x ∙ one.1 e)
  | inr x ↦
      let m = more (ground (arith, x, h)) in (ground (arith, m.0), ground (arith, m.1, one.0, x))
]

remove_all-IsDisconnected :
    (is : List ℕ) (n : Nodes) (i : ℕ)
    → IsDisconnected is n (remove_all is n).0 (remove_all is n).1 i
unfolding remove_all contains
remove_all-IsDisconnected [] n i = (ground arith, λ h. cc)
remove_all-IsDisconnected (j ∷ is) n i =
    let more = remove_all-IsDisconnected is (remove j n).0 i in
    let one = remove-config i j n in
    elim (Bool-cases (remove j n).1) [
      | inl e ↦ simp e (
        ground (arith, more.0, one.0, e),
        λ h. removed_key is n i j (remove_all is (remove j n).0).1 one e (more.1) h,
      )
      | inr e ↦ simp e (ground (arith, more.0, one.0, e), λ h. ground (arith, more.1 h, one.0, e))
    ]

contains-unavailable :
    (voters is : List ℕ) (i : ℕ)
    → contains i (unavailable voters is) ≡ (contains i is && not (contains i voters))
unfolding unavailable contains
contains-unavailable voters [] i = refl
contains-unavailable voters (j ∷ is) i =
    ground (arith, contains-unavailable voters is i, contains-same i j voters)

-- When the timer of a step that is not outdated fires, `onTimeout` takes some nodes out of the
-- configuration, all of which were in it and have not voted for the step; the others stay. It tells the
-- other nodes which they are, in one broadcast, and broadcasts nothing where there are none.
pub on_timeout_lem :
    {M : Type 0} (id : ℕ) (n : Nodes) (r : Replob M) (d : StepData M)
    → get_step id r ≡ some d
    → let (s, m, acts) = on_timeout id n r in
      (gone : List ℕ) × (acts ≡ (if is_empty gone then [] else send_disconnect gone ∷ []))
      × ((i : ℕ)
          → (has_key i m.config.nodes ≡ (has_key i n.config.nodes && not (contains i gone)))
            × (contains i gone ≡ true
                → (has_key i n.config.nodes ≡ true)
                  × (contains i (voted_nodes_set d.voted_nodes) ≡ false)))
unfolding on_timeout disconnect_nodes node_list
on_timeout_lem id n r d e =
    let voters = voted_nodes_set d.voted_nodes in
    let out = unavailable voters (keys n.config.nodes) in
    rw (on_timeout, e)
      (
        (remove_all out n).1,
        refl,
        λ i.
            let (kept, gone) = remove_all-IsDisconnected out n i in
            (
              kept,
              λ h.
                  let (listed, was) = gone h in
                  (
                    was,
                    ground (arith, listed, contains-unavailable voters (keys n.config.nodes) i),
                  ),
            ),
      )
