-- ===== src/Node.antt =====
-- include/synca/once/node.h and src/node.cpp, with the fields of `Connector` (src/connector.cpp) that
-- they change: the configured nodes and the connections to them. The messages that a node sends are
-- lists of destinations; the sockets behind them are not modelled.
pub mod Config
pub mod Removal
mod Examples
use Prim.Native.String.{String}
use replob_prototype.Prelude.{
  ℕ, ◌+◌, ◌%◌, ◌^◌, ◌≡◌, Bool, true, false, not, ◌==◌, Option, none, some, List, [], ◌∷◌, map,
  length, if◌then◌else◌,
}
use replob_prototype.Std.Order.{nat_order}
use replob_prototype.Std.Set.{insert}
use replob_prototype.Std.Map.{lookup, insert_or_assign, insert_new, erase, has_key}
use replob_prototype.Ids.{UniqueId}

-- `Endpoint::Type`
pub data EndpointType : Type 0 where
  v4 v6 : EndpointType

pub record Endpoint : Type 0 where
  pub port : ℕ
  pub address : String
  pub type : EndpointType

pub record NodesConfig : Type 0 where
  pub this_node : ℕ
  pub nodes : List (ℕ × Endpoint)

unfoldable pub add_node : ℕ → Endpoint → NodesConfig → NodesConfig
add_node id e c = record c { nodes = insert_new id e c.nodes }

-- `removeNode`, with whether the node was there
unfoldable pub remove_node : ℕ → NodesConfig → NodesConfig × Bool
remove_node id c = (record c { nodes = erase id c.nodes }, has_key id c.nodes)

-- `getInfo`; `none` is the exception of `at`.
unfoldable pub get_info : ℕ → NodesConfig → Option Endpoint
get_info id c = lookup id c.nodes

-- `nodes`, and `keys` for its loop
unfoldable pub keys {ℓ} : {V : Type ℓ} → List (ℕ × V) → List ℕ
keys [] = []
keys ((k, v) ∷ m) = k ∷ keys m

unfoldable pub node_list : NodesConfig → List ℕ
node_list c = keys c.nodes

-- the loop of `nodesSet`
unfoldable pub key_set {ℓ} : {V : Type ℓ} → List ℕ → List (ℕ × V) → List ℕ
key_set res [] = res
key_set res ((k, v) ∷ m) = key_set (insert k res) m

unfoldable pub nodes_set : NodesConfig → List ℕ
nodes_set c = key_set [] c.nodes

unfoldable pub nodes_count : NodesConfig → ℕ
nodes_count c = length c.nodes

-- the loop of `otherNodes`
unfoldable pub other_keys {ℓ} : {V : Type ℓ} → ℕ → List (ℕ × V) → List ℕ
other_keys this_node [] = []
other_keys this_node ((k, v) ∷ m) =
    let rest = other_keys this_node m in if k == this_node then rest else k ∷ rest

unfoldable pub other_nodes : NodesConfig → List ℕ
other_nodes c = other_keys c.this_node c.nodes

unfoldable pub set_this_node : ℕ → NodesConfig → NodesConfig
set_this_node id c = record c { this_node = id }

-- `genUniqueId`, with the counter of `nextId`, a uint64_t
unfoldable pub gen_unique_id : NodesConfig → ℕ → UniqueId × ℕ
gen_unique_id c next_id = (record { first = c.this_node; second = next_id }, (next_id + 1) % 2 ^ 64)

-- The fields of `Connector`. The socket is open between a successful connect and a close.
pub record Connector : Type 0 where
  pub endpoint : Endpoint
  pub disconnected : Bool

-- `Connector::disconnect`
unfoldable pub disconnect : Connector → Connector
disconnect c = record c { disconnected = true }

-- `struct Nodes`, with the `NodesConfig` that it changes. A null `shared_ptr` is `none`.
pub record Nodes : Type 0 where
  pub config : NodesConfig
  pub connectors : List (ℕ × Option Connector)

-- `Nodes::count`
unfoldable pub count : Nodes → ℕ
count n = length n.connectors

-- `Nodes::add`
unfoldable pub add : ℕ → Endpoint → Nodes → Nodes
add id e n = record {
  config = add_node id e n.config;
  connectors =
      insert_or_assign id (some (record { endpoint = e; disconnected = false })) n.connectors;
}

pub data NodeError : Type 0 where
  absent has_been_disconnected : NodeError

pub data Got : Type 0 where
  connector : Connector → Got
  throws : NodeError → Got

-- `Nodes::get`
unfoldable pub get : ℕ → Nodes → Got
get id n = elim (lookup id n.connectors) [
  | none ↦ throws absent
  | some none ↦ throws has_been_disconnected
  | some (some c) ↦ connector c
]

-- `Nodes::remove` after both lookups
unfoldable pub remove_found : ℕ → Connector → Nodes → Nodes × Bool
remove_found id c n =
    let (config, was) = remove_node id n.config in
    if was
    then (
      record {
        config = config;
        connectors = insert_or_assign id (some (disconnect c)) n.connectors;
      },
      true,
    )
    else (record n { config = config }, false)

-- `Nodes::remove`
unfoldable pub remove : ℕ → Nodes → Nodes × Bool
remove id n = elim (lookup id n.connectors) [
  | none ↦ (n, false)
  | some none ↦ (n, false)
  | some (some c) ↦ remove_found id c n
]

-- `Nodes::cleanup`: each connection is disconnected and dropped.
unfoldable pub drop_all : List (ℕ × Option Connector) → List (ℕ × Option Connector)
drop_all [] = []
drop_all ((k, c) ∷ m) = (k, none) ∷ drop_all m

unfoldable pub cleanup : Nodes → Nodes
cleanup n = record n { connectors = drop_all n.connectors }

-- `broadcast`: the nodes to which a journey each is started that sends the packet.
unfoldable pub broadcast_to : Nodes → List ℕ
broadcast_to n = other_nodes n.config
