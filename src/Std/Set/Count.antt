-- ===== src/Std/Set/Count.antt =====
-- How many numbers of a list a test counts, and how large a set can be.
use replob_prototype.Prelude.{
  ℕ, ◌+◌, ◌≤◌, ◌≡◌, Bool, true, false, ◌||◌, ◌==◌, if◌then◌else◌, Bool-cases, List, [], ◌∷◌, length,
  inl, inr, arith,
}
use replob_prototype.Std.Order.{nat_order, same}
use replob_prototype.Std.Set.{contains, IsSorted}
use replob_prototype.Std.Set.Laws.{contains-Above, Above-IsSorted}

abbrev pub count : (ℕ → Bool) → List ℕ → ℕ
count p [] = 0
count p (x ∷ xs) = (if p x then 1 else 0) + count p xs

count-le : (p : ℕ → Bool) (xs : List ℕ) → count p xs ≤ length xs
count-le p [] = omega arith
count-le p (x ∷ xs) = ground (arith, count-le p xs)

pub count-or :
    (p q : ℕ → Bool) (xs : List ℕ)
    → ((j : ℕ) → p j ≡ true → q j ≡ false)
    → count p xs + count q xs ≤ count (λ j. p j || q j) xs
count-or p q [] h = omega arith
count-or p q (x ∷ xs) h = ground (arith, count-or p q xs h, h x)

-- Where all count, each one does.
pub count-all :
    (p : ℕ → Bool) (j : ℕ) (xs : List ℕ)
    → length xs ≤ count p xs
    → contains j xs ≡ true
    → p j ≡ true
unfolding contains
count-all p j [] h c = cc
count-all p j (x ∷ xs) h c = elim (Bool-cases (j == x)) [
  | inl e ↦ ground (arith, h, e, count-le p xs)
  | inr e ↦ count-all p j xs (ground (arith, h, count-le p xs)) (ground (arith, c, e))
]

count-one : (y : ℕ) (xs : List ℕ) → contains y xs ≡ true → 1 ≤ count (λ j. same j y) xs
unfolding contains
count-one y [] c = cc
count-one y (x ∷ xs) c = ground (arith, count-one y xs)

-- A set of members is no larger than the members in it.
pub length-le :
    (config s : List ℕ)
    → IsSorted s
    → ((j : ℕ) → contains j s ≡ true → contains j config ≡ true)
    → length s ≤ count (λ j. contains j s) config
unfolding contains
length-le config [] h m = omega arith
length-le config (y ∷ ys) h m = omega (
  arith,
  count-one y config (m y (ground arith)),
  length-le config ys (Above-IsSorted y ys h) (λ j c. m j (ground (arith, c))),
  count-or (λ j. same j y) (λ j. contains j ys) config
      (λ j e. ground (arith, e, contains-Above y j ys h)),
)
