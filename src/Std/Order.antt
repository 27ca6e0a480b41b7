-- ===== src/Std/Order.antt =====
-- A strict weak order, which is what `std::set` and `std::map` ask of `operator<`.
use replob_prototype.Prelude.{ℕ, ◌≡◌, Bool, true, false, not, ◌&&◌, ltb, arith}

pub record Order {ℓ} (A : Type ℓ) : Type ℓ where
  pub lt : A → A → Bool
  pub lt_irrefl : (a : A) → lt a a ≡ false
  pub lt_asymm : (a b : A) → lt a b ≡ true → lt b a ≡ false
  pub lt_trans : (a b c : A) → lt a b ≡ true → lt b c ≡ true → lt a c ≡ true
  pub lt_left : (a b c : A) → lt a b ≡ false → lt b a ≡ false → lt a c ≡ lt b c
  pub lt_right : (a b c : A) → lt a b ≡ false → lt b a ≡ false → lt c a ≡ lt c b

-- Neither is less: the container takes the two for one key.
abbrev pub same {ℓ} : {A : Type ℓ} ⦃o : Order A⦄ → A → A → Bool
same ⦃o⦄ a b = not (o.lt a b) && not (o.lt b a)

pub ltb_irrefl : (a : ℕ) → ltb a a ≡ false
ltb_irrefl a = ground arith

pub ltb_asymm : (a b : ℕ) → ltb a b ≡ true → ltb b a ≡ false
ltb_asymm a b h = ground arith

pub ltb_trans : (a b c : ℕ) → ltb a b ≡ true → ltb b c ≡ true → ltb a c ≡ true
ltb_trans a b c h k = ground arith

pub ltb_left : (a b c : ℕ) → ltb a b ≡ false → ltb b a ≡ false → ltb a c ≡ ltb b c
ltb_left a b c h k = ground arith

pub ltb_right : (a b c : ℕ) → ltb a b ≡ false → ltb b a ≡ false → ltb c a ≡ ltb c b
ltb_right a b c h k = ground arith

instance abbrev pub nat_order : Order ℕ
nat_order = record {
  lt = ltb;
  lt_irrefl = ltb_irrefl;
  lt_asymm = ltb_asymm;
  lt_trans = ltb_trans;
  lt_left = ltb_left;
  lt_right = ltb_right;
}
