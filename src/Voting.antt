-- ===== src/Voting.antt =====
-- `struct Voting` of include/synca/once/replob.h: one step of the replicated log at one node. The
-- methods return the new fields and, in order, what they ask of others: the two broadcasts, the
-- completion of the phantom, the invoked messages and the global cleanup.
pub mod Quorum
pub mod Once
pub mod System
pub mod Tally
pub mod Outcome
pub mod Agreement
mod Examples
use replob_prototype.Prelude.{
  ℕ, zero, suc, ◌*◌, ◌≡◌, ap, Bool, true, false, not, ◌&&◌, ◌==◌, ltb, if◌then◌else◌, Option, none,
  some, List, [], ◌∷◌, ◌++◌, map, length, arith,
}
use replob_prototype.Std.Order.{Order, nat_order}
use replob_prototype.Std.Set.{insert, insert_all, inter, eq_set}
use replob_prototype.Ids.{UniqueId, lt_id, lt_id_irrefl, lt_id_asymm, lt_id_trans, lt_id_eq}

-- `struct CarryMsg2`. `M` is the type of `AnyMsg`, a handler that the client supplies.
pub record CarryMsg2 (M : Type 0) : Type 0 where
  pub msg : M
  pub msg_id : UniqueId

-- `CarryMsg2::operator<`
abbrev pub lt_carry : {M : Type 0} → CarryMsg2 M → CarryMsg2 M → Bool
lt_carry a b = lt_id a.msg_id b.msg_id

pub lt_carry_left :
    {M : Type 0} (a b c : CarryMsg2 M)
    → lt_carry a b ≡ false
    → lt_carry b a ≡ false
    → lt_carry a c ≡ lt_carry b c
lt_carry_left a b c h k = ap (λ i. lt_id i c.msg_id) (lt_id_eq a.msg_id b.msg_id h k)

pub lt_carry_right :
    {M : Type 0} (a b c : CarryMsg2 M)
    → lt_carry a b ≡ false
    → lt_carry b a ≡ false
    → lt_carry c a ≡ lt_carry c b
lt_carry_right a b c h k = ap (λ i. lt_id c.msg_id i) (lt_id_eq a.msg_id b.msg_id h k)

instance abbrev pub carry_order : {M : Type 0} → Order (CarryMsg2 M)
carry_order = record {
  lt = lt_carry;
  lt_irrefl = λ a. lt_id_irrefl a.msg_id;
  lt_asymm = λ a b. lt_id_asymm a.msg_id b.msg_id;
  lt_trans = λ a b c. lt_id_trans a.msg_id b.msg_id c.msg_id;
  lt_left = lt_carry_left;
  lt_right = lt_carry_right;
}

-- `using CarrySet = std::set<CarryMsg2>`
abbrev pub CarrySet : Type 0 → Type 0
CarrySet M = List (CarryMsg2 M)

-- `using NodesSet = std::set<NodeId>`
abbrev pub NodesSet : Type 0
NodesSet = List ℕ

-- `Voting::State`
pub data State : Type 0 where
  initial voted completed : State

abbrev pub is_initial : State → Bool
is_initial initial = true
is_initial voted = false
is_initial completed = false

abbrev pub is_completed : State → Bool
is_completed initial = false
is_completed voted = false
is_completed completed = true

pub record Voting (M : Type 0) : Type 0 where
  pub state : State
  pub nodes : NodesSet
  pub voted_set : NodesSet
  pub carries : CarrySet M
  -- the milliseconds that the armed `timer_` waits
  pub timer : Option ℕ

pub data Action (M : Type 0) : Type 0 where
  send_vote : CarrySet M → ℕ → NodesSet → Action M
  send_commit : CarrySet M → Action M
  complete : Action M
  invoke : M → Action M
  cleanup_all : Action M

abbrev pub fresh : {M : Type 0} → Voting M
fresh = record { state = initial; nodes = []; voted_set = []; carries = []; timer = none }

unfoldable pub is_empty : NodesSet → Bool
is_empty [] = true
is_empty (n ∷ ns) = false

-- `*voted_.begin() == *nodes_.begin()`; `none` where a set is empty, which C++ leaves undefined.
unfoldable pub same_least : NodesSet → NodesSet → Option Bool
same_least [] t = none
same_least (x ∷ xs) [] = none
same_least (x ∷ xs) (y ∷ ys) = some (x == y)

unfoldable pub is_consistent_sets : NodesSet → NodesSet → Option Bool
is_consistent_sets voted_set nodes =
    if ltb (length nodes) (length voted_set * 2)
    then some true
    else if ltb (length voted_set * 2) (length nodes)
    then some false
    else same_least voted_set nodes

module _ {M : Type 0} where
  unfoldable pub commit : CarrySet M → Voting M → Voting M × List (Action M)
  commit cs v =
      if is_completed v.state
      then (v, [])
      else (record v { state = completed; carries = cs }, send_commit cs ∷ complete ∷ [])

  -- `vote`, where it compares `nodes_` with the sender's set.
  unfoldable pub adopt : NodesSet → Voting M → Voting M
  adopt nodes_set v =
      if is_empty v.nodes
      then record v { nodes = nodes_set }
      else if eq_set v.nodes nodes_set
      then v
      else record v { state = initial; nodes = inter v.nodes nodes_set; voted_set = [] }

  -- `vote`, from the comparison of `voted_` with `nodes_` on.
  unfoldable pub decide : ℕ → Voting M → Voting M × List (Action M)
  decide this_node v =
      if eq_set v.voted_set v.nodes
      then commit v.carries v
      else if is_initial v.state
      then (record v { state = voted }, send_vote v.carries this_node v.nodes ∷ [])
      else (v, [])

  -- `voted_ |= srcNode; voted_ |= thisNode()`
  unfoldable pub tally : ℕ → ℕ → Voting M → Voting M
  tally this_node src v = record v { voted_set = insert this_node (insert src v.voted_set) }

  unfoldable pub vote : ℕ → CarrySet M → ℕ → NodesSet → Voting M → Voting M × List (Action M)
  vote this_node cs src nodes_set v =
      if is_completed v.state
      then (v, [])
      else decide this_node
          (tally this_node src (adopt nodes_set (record v { carries = insert_all v.carries cs })))

  -- `start`; `config` is the node set of `NodesConfig`.
  unfoldable pub start : ℕ → NodesSet → CarryMsg2 M → Voting M → Voting M × List (Action M)
  start this_node config c v =
      vote this_node (c ∷ []) this_node config (record v { timer = some 500 })

  -- `onComplete` with `exec`
  unfoldable pub on_complete : Voting M → Voting M × List (Action M)
  on_complete v = (record v { timer = none }, map (λ c. invoke c.msg) v.carries)

  unfoldable pub is_consistent : Voting M → Option Bool
  is_consistent v = is_consistent_sets v.voted_set v.nodes

  -- `fail`
  unfoldable pub fail : Voting M → Voting M × List (Action M)
  fail v = (v, cleanup_all ∷ [])

  -- `timeout`, run when the timer has fired; `none` is the undefined case of `isConsistent`.
  unfoldable pub timeout : ℕ → Voting M → Option (Voting M × List (Action M))
  timeout this_node v = elim (is_consistent v) [
    | none ↦ none
    | some true ↦ some (vote this_node v.carries this_node v.voted_set v)
    | some false ↦ some (fail v)
  ]
