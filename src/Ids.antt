-- ===== src/Ids.antt =====
-- Identifiers: `UniqueId` of include/synca/once/node.h, the `MsgId` of the protocols.
use replob_prototype.Std.Order.{Order}
use replob_prototype.Prelude.{ℕ, ◌≡◌, Bool, true, false, ◌&&◌, ◌||◌, ◌==◌, ltb, arith}

-- `std::pair<NodeId, MessageId>`
pub record UniqueId : Type 0 where
  pub first : ℕ
  pub second : ℕ

-- `operator<` of `std::pair`: lexicographic.
abbrev pub lt_id : UniqueId → UniqueId → Bool
lt_id a b = ltb a.first b.first || (a.first == b.first && ltb a.second b.second)

pub lt_id_irrefl : (a : UniqueId) → lt_id a a ≡ false
lt_id_irrefl a = ground arith

pub lt_id_asymm : (a b : UniqueId) → lt_id a b ≡ true → lt_id b a ≡ false
lt_id_asymm a b h = ground arith

pub lt_id_trans : (a b c : UniqueId) → lt_id a b ≡ true → lt_id b c ≡ true → lt_id a c ≡ true
lt_id_trans a b c h k = ground arith

pub lt_id_eq : (a b : UniqueId) → lt_id a b ≡ false → lt_id b a ≡ false → a ≡ b
lt_id_eq a b h k = ground arith

pub lt_id_left : (a b c : UniqueId) → lt_id a b ≡ false → lt_id b a ≡ false → lt_id a c ≡ lt_id b c
lt_id_left a b c h k = ground arith

pub lt_id_right : (a b c : UniqueId) → lt_id a b ≡ false → lt_id b a ≡ false → lt_id c a ≡ lt_id c b
lt_id_right a b c h k = ground arith

instance abbrev pub id_order : Order UniqueId
id_order = record {
  lt = lt_id;
  lt_irrefl = lt_id_irrefl;
  lt_asymm = lt_id_asymm;
  lt_trans = lt_id_trans;
  lt_left = lt_id_left;
  lt_right = lt_id_right;
}
