-- ===== src/Node/Examples.antt =====
-- Tests of the nodes of a configuration, and the theorems at a cluster of two.
use replob_prototype.Prelude.{◌≡◌, refl, true, [], ◌∷◌}
use replob_prototype.Std.Order.{nat_order}
use replob_prototype.Std.Set.{insert}
use replob_prototype.Std.Map.{lookup, insert_or_assign, insert_new, has_key, IsKeyed}
use replob_prototype.Node.{
  v4, v6, NodesConfig, Nodes, add_node, remove_node, key_set, nodes_set, add, remove, remove_found,
}

abbrev two : NodesConfig
two = record {
  this_node = 1;
  nodes =
      (1, record { port = 80; address = "a"; type = v4 })
      ∷ (2, record { port = 81; address = "b"; type = v6 })
      ∷ [];
}

abbrev wired : Nodes
wired =
    add 2 (record { port = 81; address = "b"; type = v6 })
      (add 1 (record { port = 80; address = "a"; type = v4 })
        (record { config = record { this_node = 1; nodes = [] }; connectors = [] }))

wired-two : nodes_set wired.config ≡ 1 ∷ 2 ∷ []
unfolding nodes_set key_set insert add add_node insert_new has_key
wired-two = refl

removes-two : (remove 2 wired).1 ≡ true
unfolding add add_node insert_new has_key remove remove_found remove_node lookup insert_or_assign
removes-two = refl

two-IsKeyed : IsKeyed two.nodes
unfolding has_key
two-IsKeyed = (refl, (refl, tt))
