-- ===== src/Node/Config.antt =====
-- The views of `NodesConfig` agree, and removal and cleanup end the traffic to a node.
use replob_prototype.Prelude.{
  ℕ, ◌+◌, ◌≡◌, refl, not, ◌&&◌, ◌||◌, ◌==◌, List, [], ◌∷◌, if◌then◌else◌, arith,
}
use replob_prototype.Std.Order.{nat_order}
use replob_prototype.Std.Set.{insert, contains, IsSorted}
use replob_prototype.Std.Set.Laws.{contains-insert, insert-IsSorted}
use replob_prototype.Std.Map.{erase, has_key, IsKeyed, has_key-erase, length-erase}
use replob_prototype.Node.{
  NodesConfig, remove_node, key_set, nodes_set, nodes_count, other_keys, other_nodes,
}

contains-key_set :
    {V : Type 0} (n : ℕ) (res : List ℕ) (m : List (ℕ × V))
    → contains n (key_set res m) ≡ (has_key n m || contains n res)
unfolding key_set has_key
contains-key_set n res [] = refl
contains-key_set n res ((k, v) ∷ m) =
    ground (arith, contains-key_set n (insert k res) m, contains-insert n k res)

key_set-IsSorted :
    {V : Type 0} (res : List ℕ) (m : List (ℕ × V)) → IsSorted res → IsSorted (key_set res m)
unfolding key_set
key_set-IsSorted res [] h = h
key_set-IsSorted res ((k, v) ∷ m) h = key_set-IsSorted (insert k res) m (insert-IsSorted k res h)

pub contains-other_keys :
    {V : Type 0} (this_node n : ℕ) (m : List (ℕ × V))
    → contains n (other_keys this_node m) ≡ (has_key n m && not (n == this_node))
unfolding other_keys has_key contains
contains-other_keys this_node n [] = refl
contains-other_keys this_node n ((k, v) ∷ m) = ground (arith, contains-other_keys this_node n m)

-- After `removeNode`, `nodesSet` is still in rising order and holds exactly the nodes that it held, less
-- that one; a broadcast goes to exactly those of them that are not this node; `nodesCount` has fallen by
-- one if the node was there, which is what the call says, and is the same otherwise.
remove_node_lem :
    (id : ℕ) (c : NodesConfig)
    → IsKeyed c.nodes
    → let d = (remove_node id c).0 in
      IsSorted (nodes_set d)
      × ((n : ℕ) → contains n (nodes_set d) ≡ (contains n (nodes_set c) && not (n == id)))
      × ((n : ℕ)
          → contains n (other_nodes d)
            ≡ (contains n (nodes_set c) && not (n == id) && not (n == c.this_node)))
      × (nodes_count d + (if (remove_node id c).1 then 1 else 0) ≡ nodes_count c)
      × ((remove_node id c).1 ≡ contains id (nodes_set c))
unfolding remove_node nodes_set other_nodes nodes_count contains
remove_node_lem id c k = (
  key_set-IsSorted [] (erase id c.nodes) tt,
  (λ n. ground (
    arith,
    contains-key_set n [] (erase id c.nodes),
    contains-key_set n [] c.nodes,
    has_key-erase n id c.nodes,
  )),
  (λ n. ground (
    arith,
    contains-other_keys c.this_node n (erase id c.nodes),
    contains-key_set n [] c.nodes,
    has_key-erase n id c.nodes,
  )),
  length-erase id c.nodes k,
  ground (arith, contains-key_set id [] c.nodes),
)
