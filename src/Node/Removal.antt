-- ===== src/Node/Removal.antt =====
-- What `Nodes::remove` and `Nodes::cleanup` leave of a node.
use replob_prototype.Prelude.{
  ◌∙◌, subst, sym, ap, ◌⊎◌, if◌then◌else◌, ℕ, ◌≡◌, refl, Bool, true, false, Option, none, some,
  List, [], ◌∷◌, arith, Option-cases, inl, inr,
}
use replob_prototype.Std.Order.{nat_order}
use replob_prototype.Std.Set.{contains}
use replob_prototype.Std.Map.{lookup, erase, has_key, lookup-insert, has_key-erase}
use replob_prototype.Node.{
  Connector, Nodes, connector, throws, absent, has_been_disconnected, remove_node, other_nodes,
  disconnect, get, remove, remove_found, drop_all, cleanup, broadcast_to,
}
use replob_prototype.Node.Config.{contains-other_keys}

remove_found-again :
    (id : ℕ) (c : Connector) (n : Nodes)
    → lookup id n.connectors ≡ some (some c)
    → (remove id (remove_found id c n).0).1 ≡ false
unfolding remove remove_found remove_node
remove_found-again id c n e = ground (
  arith,
  e,
  has_key-erase id id n.config.nodes,
  lookup-insert id id (some (disconnect c)) n.connectors,
)

remove-silent :
    (id : ℕ) (n : Nodes) (o : Option (Option Connector))
    → lookup id n.connectors ≡ o
    → (o ≡ none) ⊎ (o ≡ some none)
    → remove id n ≡ (n, false)
unfolding remove
remove-silent id n o e (inl h) = rw (remove, e ∙ h)
remove-silent id n o e (inr h) = rw (remove, e ∙ h)

remove-found :
    (id : ℕ) (c : Connector) (n : Nodes)
    → lookup id n.connectors ≡ some (some c)
    → remove id n ≡ remove_found id c n
unfolding remove
remove-found id c n e = rw (remove, e)

-- What is left after a removal with this result.
abbrev IsRemoved : ℕ → Nodes × Bool → Type 0
IsRemoved id r =
    ((remove id r.0).1 ≡ false)
    × (r.1 ≡ true
        → (contains id (broadcast_to r.0) ≡ false)
          × (c : Connector) × (get id r.0 ≡ connector c)
          × (c.disconnected ≡ true))

silent-IsRemoved : (id : ℕ) (n : Nodes) → remove id n ≡ (n, false) → IsRemoved id (n, false)
silent-IsRemoved id n e = (ap (λ r. r.1) e, λ h. cc)

remove_found-IsRemoved :
    (id : ℕ) (c : Connector) (n : Nodes)
    → lookup id n.connectors ≡ some (some c)
    → IsRemoved id (remove_found id c n)
unfolding remove_found remove_node get disconnect broadcast_to other_nodes
remove_found-IsRemoved id c n e = (
  remove_found-again id c n e,
  λ h. (
    ground (
      arith,
      contains-other_keys n.config.this_node id (erase id n.config.nodes),
      has_key-erase id id n.config.nodes,
    ),
    disconnect c,
    ground (arith, lookup-insert id id (some (disconnect c)) n.connectors),
    refl,
  ),
)

-- A node is removed once: whatever `remove` did, when it is called again for the same node it answers
-- false. And where it answered true, no broadcast goes to the node, and a send to it meets a connector
-- that is disconnected.
remove_lem :
    (id : ℕ) (n : Nodes)
    → ((remove id (remove id n).0).1 ≡ false)
      × ((remove id n).1 ≡ true
          → (contains id (broadcast_to (remove id n).0) ≡ false)
            × (c : Connector) × (get id (remove id n).0 ≡ connector c)
            × (c.disconnected ≡ true))
remove_lem id n = elim (Option-cases (lookup id n.connectors)) [
  | inl e ↦
      let s = remove-silent id n none e (inl refl) in
      subst (IsRemoved id) (sym s) (silent-IsRemoved id n s)
  | inr (none, e) ↦
      let s = remove-silent id n (some none) e (inr refl) in
      subst (IsRemoved id) (sym s) (silent-IsRemoved id n s)
  | inr (some c, e) ↦
      subst (IsRemoved id) (sym (remove-found id c n e)) (remove_found-IsRemoved id c n e)
]

get-drop_all :
    (id : ℕ) (m : List (ℕ × Option Connector))
    → lookup id (drop_all m) ≡ (if has_key id m then some none else none)
unfolding drop_all lookup has_key
get-drop_all id [] = refl
get-drop_all id ((k, c) ∷ m) = ground (arith, get-drop_all id m)

-- After `cleanup` every send throws: "has been disconnected" for the nodes that were known, "absent" for
-- all others.
cleanup-get :
    (id : ℕ) (n : Nodes)
    → get id (cleanup n)
      ≡ throws (if has_key id n.connectors then has_been_disconnected else absent)
unfolding cleanup get
cleanup-get id n = ground (arith, get-drop_all id n.connectors)
