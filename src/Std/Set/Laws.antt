-- ===== src/Std/Set/Laws.antt =====
-- Membership and order of the sets of `Std.Set`.
use replob_prototype.Prelude.{
  ◌==◌, ==_iff, subst, ℕ, ◌≡◌, refl, sym, Bool, true, false, not, ◌&&◌, ◌||◌, List, [], ◌∷◌, inl,
  inr, arith, All, any, Bool-cases,
}
use replob_prototype.Std.Order.{Order, same, nat_order}
use replob_prototype.Std.Set.{
  insert, contains, insert_all, difference_onto, inter_onto, Above, IsSorted, difference, inter,
  eq_set,
}

module _ {ℓ} {A : Type ℓ} ⦃o : Order A⦄ where
  pub contains-insert :
      (b a : A) (s : List A) → contains b (insert a s) ≡ (same b a || contains b s)
  unfolding contains insert
  contains-insert b a [] = refl
  contains-insert b a (x ∷ xs) =
      ground (arith, contains-insert b a xs, o.lt_left a x b, o.lt_right a x b)

  -- Membership is a matter of the key alone.
  pub contains-same : (b a : A) (s : List A) → same b a ≡ true → contains b s ≡ contains a s
  unfolding contains
  contains-same b a [] h = refl
  contains-same b a (x ∷ xs) h =
      ground (arith, contains-same b a xs, o.lt_left b a x, o.lt_right b a x)

  pub contains-insert_all :
      (b : A) (s t : List A) → contains b (insert_all s t) ≡ (contains b s || contains b t)
  unfolding contains insert_all
  contains-insert_all b s [] = ground arith
  contains-insert_all b s (x ∷ xs) =
      ground (arith, contains-insert_all b (insert x s) xs, contains-insert b x s)

  Above-insert : (l a : A) (s : List A) → o.lt l a ≡ true → Above l s → Above l (insert a s)
  unfolding insert
  Above-insert l a [] h k = (h, tt)
  Above-insert l a (x ∷ xs) h k = ground (arith, Above-insert x a xs)

  pub insert-IsSorted : (a : A) (s : List A) → IsSorted s → IsSorted (insert a s)
  unfolding insert
  insert-IsSorted a [] h = tt
  insert-IsSorted a (x ∷ xs) h = ground (arith, Above-insert x a xs)

  pub insert_all-IsSorted : (s t : List A) → IsSorted s → IsSorted (insert_all s t)
  unfolding insert_all
  insert_all-IsSorted s [] h = h
  insert_all-IsSorted s (x ∷ xs) h = insert_all-IsSorted (insert x s) xs (insert-IsSorted x s h)

  pub All-insert {κ} : (P : A → Type κ) (a : A) (s : List A) → P a → All P s → All P (insert a s)
  unfolding insert
  All-insert P a [] p h = (p, tt)
  All-insert P a (x ∷ xs) p h = ground (arith, All-insert P a xs)

  pub All-insert_all {κ} :
      (P : A → Type κ) (s t : List A) → All P s → All P t → All P (insert_all s t)
  unfolding insert_all
  All-insert_all P s [] p q = p
  All-insert_all P s (x ∷ xs) p q = All-insert_all P (insert x s) xs (All-insert P x s q.0 p) q.1

  pub contains-difference_onto :
      (b : A) (res s t : List A)
      → contains b (difference_onto res s t)
        ≡ (contains b res || (contains b s && not (contains b t)))
  unfolding difference_onto contains
  contains-difference_onto b res [] t = ground arith
  contains-difference_onto b res (x ∷ xs) t = ground (
    arith,
    contains-difference_onto b res xs t,
    contains-difference_onto b (insert x res) xs t,
    contains-insert b x res,
    contains-same b x t,
  )

  pub contains-inter_onto :
      (b : A) (res s t : List A)
      → contains b (inter_onto res s t) ≡ (contains b res || (contains b s && contains b t))
  unfolding inter_onto contains
  contains-inter_onto b res [] t = ground arith
  contains-inter_onto b res (x ∷ xs) t = ground (
    arith,
    contains-inter_onto b res xs t,
    contains-inter_onto b (insert x res) xs t,
    contains-insert b x res,
    contains-same b x t,
  )

  pub inter_onto-IsSorted : (res s t : List A) → IsSorted res → IsSorted (inter_onto res s t)
  unfolding inter_onto
  inter_onto-IsSorted res [] t h = h
  inter_onto-IsSorted res (x ∷ xs) t h = ground (
    arith,
    inter_onto-IsSorted res xs t,
    inter_onto-IsSorted (insert x res) xs t,
    insert-IsSorted x res,
  )

  -- Nothing in a list above `a` has the key of `a`, or a lesser one.
  pub contains-Above : (a b : A) (s : List A) → Above a s → contains b s ≡ true → o.lt a b ≡ true
  unfolding contains
  contains-Above a b [] h c = cc
  contains-Above a b (x ∷ xs) h c =
      ground (arith, contains-Above x b xs, o.lt_trans a x b, o.lt_right x b a)

  -- The head of a rising list has no other list's lesser head with the same keys.
  head_not_lt :
      (x y : A) (xs ys : List A)
      → Above y ys
      → contains x (x ∷ xs) ≡ contains x (y ∷ ys)
      → o.lt x y ≡ false
  unfolding contains
  head_not_lt x y xs ys hy e = elim (Bool-cases (o.lt x y)) [
    | inl lt ↦ ground (arith, o.lt_irrefl x, o.lt_asymm x y, contains-Above y x ys)
    | inr f ↦ f
  ]

  not_contains-Above : (a b : A) (s : List A) → Above a s → same b a ≡ true → contains b s ≡ false
  not_contains-Above a b s h e = ground (arith, contains-Above a b s, o.lt_irrefl a)

  tails_agree :
      (x y : A) (xs ys : List A)
      → Above x xs
      → Above y ys
      → same x y ≡ true
      → (b : A) → contains b (x ∷ xs) ≡ contains b (y ∷ ys)
      → contains b xs ≡ contains b ys
  unfolding contains
  tails_agree x y xs ys hx hy e b h = ground (
    arith,
    not_contains-Above x b xs,
    not_contains-Above y b ys,
    o.lt_left x y b,
    o.lt_right x y b,
  )

  pub Above-IsSorted : (x : A) (xs : List A) → Above x xs → IsSorted xs
  Above-IsSorted x [] h = tt
  Above-IsSorted x (y ∷ ys) h = h.1

  -- Rising lists with the same keys are equal, where equal keys make equal elements.
  pub sorted_ext {κ} :
      (P : A → Type κ)
      → ((a b : A) → P a → P b → o.lt a b ≡ false → o.lt b a ≡ false → a ≡ b)
      → (s t : List A) → IsSorted s
      → IsSorted t
      → All P s
      → All P t
      → ((b : A) → contains b s ≡ contains b t)
      → s ≡ t
  unfolding contains
  sorted_ext P key [] [] hs ht ps pt e = refl
  sorted_ext P key [] (y ∷ ys) hs ht ps pt e = ground (arith, e y, o.lt_irrefl y)
  sorted_ext P key (x ∷ xs) [] hs ht ps pt e = ground (arith, e x, o.lt_irrefl x)
  sorted_ext P key (x ∷ xs) (y ∷ ys) hs ht ps pt e =
      let not_xy = head_not_lt x y xs ys ht (e x) in
      let not_yx = head_not_lt y x ys xs hs (sym (e y)) in
      let rest =
        sorted_ext P key xs ys (Above-IsSorted x xs hs) (Above-IsSorted y ys ht) ps.1 pt.1
          (λ b. tails_agree x y xs ys hs ht (rw (not_xy, not_yx)) b (e b)) in
      cc (key x y ps.0 pt.0 not_xy not_yx, rest)

pub any-insert : (p : ℕ → Bool) (a : ℕ) (s : List ℕ) → any p (insert a s) ≡ (p a || any p s)
unfolding insert
any-insert p a [] = refl
any-insert p a (x ∷ xs) = ground (arith, any-insert p a xs)

pub eq_set_lem : (s t : List ℕ) → eq_set s t ≡ true → s ≡ t
unfolding eq_set
eq_set_lem [] [] h = refl
eq_set_lem [] (y ∷ ys) h = cc
eq_set_lem (x ∷ xs) [] h = cc
eq_set_lem (x ∷ xs) (y ∷ ys) h = ground (arith, eq_set_lem xs ys)

pub eq_set_refl : (s : List ℕ) → eq_set s s ≡ true
unfolding eq_set
eq_set_refl [] = refl
eq_set_refl (x ∷ xs) = ground (arith, eq_set_refl xs)

pub contains-difference :
    {A : Type 0} ⦃o : Order A⦄ (b : A) (s t : List A)
    → contains b (difference s t) ≡ (contains b s && not (contains b t))
unfolding difference contains
contains-difference b s t = contains-difference_onto b [] s t

pub contains-inter :
    {A : Type 0} ⦃o : Order A⦄ (b : A) (s t : List A)
    → contains b (inter s t) ≡ (contains b s && contains b t)
unfolding inter contains
contains-inter b s t = contains-inter_onto b [] s t

pub inter-IsSorted : {A : Type 0} ⦃o : Order A⦄ (s t : List A) → IsSorted (inter s t)
unfolding inter
inter-IsSorted s t = inter_onto-IsSorted [] s t tt

pub All-contains {κ} : (P : ℕ → Type κ) (n : ℕ) (s : List ℕ) → All P s → contains n s ≡ true → P n
unfolding contains
All-contains P n [] h c = cc
All-contains P n (x ∷ xs) h c = elim (Bool-cases (n == x)) [
  | inl e ↦ subst P (sym ((==_iff n x).0 e)) h.0
  | inr e ↦ All-contains P n xs h.1 (ground arith)
]
