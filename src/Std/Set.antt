-- ===== src/Std/Set.antt =====
-- `std::set` as a list in rising order, and the set operators of include/synca/once/replob.h.
pub mod Laws
pub mod Count
use replob_prototype.Prelude.{
  ℕ, ◌≡◌, Bool, true, false, ◌&&◌, ◌||◌, ◌==◌, List, [], ◌∷◌, if◌then◌else◌,
}
use replob_prototype.Std.Order.{Order, same}

module _ {ℓ} {A : Type ℓ} ⦃o : Order A⦄ where
  -- `s.insert(a)`: an element with the same key stays.
  unfoldable pub insert : A → List A → List A
  insert a [] = a ∷ []
  insert a (x ∷ xs) =
      let rest = insert a xs in
      if o.lt a x then a ∷ x ∷ xs else if o.lt x a then x ∷ rest else x ∷ xs

  -- `s.count(a) == 1`
  unfoldable pub contains : A → List A → Bool
  contains a [] = false
  contains a (x ∷ xs) = same a x || contains a xs

  -- `s.insert(t.begin(), t.end())`
  unfoldable pub insert_all : List A → List A → List A
  insert_all s [] = s
  insert_all s (t ∷ ts) = insert_all (insert t s) ts

  -- `s1 - s2`
  unfoldable pub difference_onto : List A → List A → List A → List A
  difference_onto res [] s2 = res
  difference_onto res (t ∷ ts) s2 =
      difference_onto (if contains t s2 then res else insert t res) ts s2

  -- the loop of `s &= t`
  unfoldable pub inter_onto : List A → List A → List A → List A
  inter_onto res [] t = res
  inter_onto res (e ∷ s) t = inter_onto (if contains e t then insert e res else res) s t

  -- Each element is less than the next.
  abbrev pub Above : A → List A → Type 0
  Above a [] = Unit
  Above a (x ∷ xs) = (o.lt a x ≡ true) × Above x xs

  abbrev pub IsSorted : List A → Type 0
  IsSorted [] = Unit
  IsSorted (x ∷ xs) = Above x xs

-- `s1 - s2` builds its result in a fresh set.
unfoldable pub difference {ℓ} : {A : Type ℓ} ⦃o : Order A⦄ → List A → List A → List A
difference s1 s2 = difference_onto [] s1 s2

-- `s1 | s2`
unfoldable pub union {ℓ} : {A : Type ℓ} ⦃o : Order A⦄ → List A → List A → List A
union s1 s2 = insert_all s1 s2

-- `s &= t`
unfoldable pub inter {ℓ} : {A : Type ℓ} ⦃o : Order A⦄ → List A → List A → List A
inter s t = inter_onto [] s t

-- `s1 == s2` on sets of numbers
unfoldable pub eq_set : List ℕ → List ℕ → Bool
eq_set [] [] = true
eq_set [] (y ∷ ys) = false
eq_set (x ∷ xs) [] = false
eq_set (x ∷ xs) (y ∷ ys) = x == y && eq_set xs ys
