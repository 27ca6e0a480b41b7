-- ===== src/Std/Map.antt =====
-- `std::unordered_map` with number keys, as an association list. No code of the program depends on
-- the order of its elements unless it says so.
use replob_prototype.Prelude.{
  true, length, ◌+◌, not, ◌&&◌, ◌||◌, false, Bool, ℕ, ◌≡◌, refl, ◌==◌, Option, none, some, List, [],
  ◌∷◌, if◌then◌else◌, arith,
}

module _ {ℓ} {V : Type ℓ} where
  -- `m.find(k)`
  unfoldable pub lookup : ℕ → List (ℕ × V) → Option V
  lookup k [] = none
  lookup k ((j, v) ∷ m) = if j == k then some v else lookup k m

  -- `m[k] = v`
  unfoldable pub insert_or_assign : ℕ → V → List (ℕ × V) → List (ℕ × V)
  insert_or_assign k v [] = (k, v) ∷ []
  insert_or_assign k v ((j, w) ∷ m) = if j == k then (k, v) ∷ m else (j, w) ∷ insert_or_assign k v m

  -- `m.erase(k)`
  unfoldable pub erase : ℕ → List (ℕ × V) → List (ℕ × V)
  erase k [] = []
  erase k ((j, v) ∷ m) = let rest = erase k m in if j == k then rest else (j, v) ∷ rest

  -- the value at `k`, or what a new entry starts with
  abbrev pub value_or : V → Option V → V
  value_or d none = d
  value_or d (some v) = v

  pub lookup-insert :
      (j k : ℕ) (v : V) (m : List (ℕ × V))
      → lookup j (insert_or_assign k v m) ≡ (if k == j then some v else lookup j m)
  unfolding lookup insert_or_assign
  lookup-insert j k v [] = refl
  lookup-insert j k v ((i, w) ∷ m) = ground (arith, lookup-insert j k v m)

  pub lookup-erase :
      (j k : ℕ) (m : List (ℕ × V)) → lookup j (erase k m) ≡ (if k == j then none else lookup j m)
  unfolding lookup erase
  lookup-erase j k [] = ground arith
  lookup-erase j k ((i, w) ∷ m) = ground (arith, lookup-erase j k m)

  -- `m.insert({k, v})`: an entry with the key stays.
  unfoldable pub insert_new : ℕ → V → List (ℕ × V) → List (ℕ × V)
  insert_new k v [] = (k, v) ∷ []
  insert_new k v ((j, w) ∷ m) = if j == k then (j, w) ∷ m else (j, w) ∷ insert_new k v m

  -- `m.count(k) != 0`
  unfoldable pub has_key : ℕ → List (ℕ × V) → Bool
  has_key k [] = false
  has_key k ((j, v) ∷ m) = j == k || has_key k m

  -- Each key stands once, as in every map that the operations build.
  abbrev pub IsKeyed : List (ℕ × V) → Type 0
  IsKeyed [] = Unit
  IsKeyed ((k, v) ∷ m) = (has_key k m ≡ false) × IsKeyed m

  pub has_key-insert_new :
      (j k : ℕ) (v : V) (m : List (ℕ × V)) → has_key j (insert_new k v m) ≡ (k == j || has_key j m)
  unfolding has_key insert_new
  has_key-insert_new j k v [] = refl
  has_key-insert_new j k v ((i, w) ∷ m) = ground (arith, has_key-insert_new j k v m)

  pub has_key-erase :
      (j k : ℕ) (m : List (ℕ × V)) → has_key j (erase k m) ≡ (not (k == j) && has_key j m)
  unfolding has_key erase
  has_key-erase j k [] = ground arith
  has_key-erase j k ((i, w) ∷ m) = ground (arith, has_key-erase j k m)

  pub insert_new-IsKeyed :
      (k : ℕ) (v : V) (m : List (ℕ × V)) → IsKeyed m → IsKeyed (insert_new k v m)
  unfolding insert_new has_key
  insert_new-IsKeyed k v [] h = (refl, tt)
  insert_new-IsKeyed k v ((i, w) ∷ m) h =
      ground (arith, insert_new-IsKeyed k v m h.1, has_key-insert_new i k v m)

  pub erase-IsKeyed : (k : ℕ) (m : List (ℕ × V)) → IsKeyed m → IsKeyed (erase k m)
  unfolding erase
  erase-IsKeyed k [] h = tt
  erase-IsKeyed k ((i, w) ∷ m) h = ground (arith, erase-IsKeyed k m h.1, has_key-erase i k m)

  length-erase_absent :
      (k : ℕ) (m : List (ℕ × V)) → has_key k m ≡ false → length (erase k m) ≡ length m
  unfolding erase has_key
  length-erase_absent k [] h = refl
  length-erase_absent k ((i, w) ∷ m) h = ground (arith, length-erase_absent k m)

  -- `m.size()` falls by one where the key stood.
  pub length-erase :
      (k : ℕ) (m : List (ℕ × V))
      → IsKeyed m
      → length (erase k m) + (if has_key k m then 1 else 0) ≡ length m
  unfolding erase has_key
  length-erase k [] h = omega arith
  length-erase k ((i, w) ∷ m) h = ground (arith, length-erase k m h.1, length-erase_absent k m)

  pub has_key-insert_or_assign :
      (j k : ℕ) (v : V) (m : List (ℕ × V))
      → has_key j (insert_or_assign k v m) ≡ (k == j || has_key j m)
  unfolding has_key insert_or_assign
  has_key-insert_or_assign j k v [] = refl
  has_key-insert_or_assign j k v ((i, w) ∷ m) = ground (arith, has_key-insert_or_assign j k v m)

  pub insert_or_assign-IsKeyed :
      (k : ℕ) (v : V) (m : List (ℕ × V)) → IsKeyed m → IsKeyed (insert_or_assign k v m)
  unfolding insert_or_assign has_key
  insert_or_assign-IsKeyed k v [] h = (refl, tt)
  insert_or_assign-IsKeyed k v ((i, w) ∷ m) h =
      ground (arith, insert_or_assign-IsKeyed k v m h.1, has_key-insert_or_assign i k v m)

  pub has_key-lookup : (k : ℕ) (v : V) (m : List (ℕ × V)) → lookup k m ≡ some v → has_key k m ≡ true
  unfolding lookup has_key
  has_key-lookup k v [] h = cc
  has_key-lookup k v ((i, w) ∷ m) h = ground (arith, has_key-lookup k v m)

  pub absent-lookup : (k : ℕ) (m : List (ℕ × V)) → lookup k m ≡ none → has_key k m ≡ false
  unfolding lookup has_key
  absent-lookup k [] h = refl
  absent-lookup k ((i, w) ∷ m) h = ground (arith, absent-lookup k m)

  -- The sum of `f` over the values
  abbrev pub total : (V → ℕ) → List (ℕ × V) → ℕ
  total f [] = 0
  total f ((j, v) ∷ m) = f v + total f m

  total-erase_absent :
      (f : V → ℕ) (k : ℕ) (m : List (ℕ × V)) → has_key k m ≡ false → total f (erase k m) ≡ total f m
  unfolding erase has_key
  total-erase_absent f k [] h = refl
  total-erase_absent f k ((i, w) ∷ m) h = ground (arith, total-erase_absent f k m)

  pub total-erase :
      (f : V → ℕ) (k : ℕ) (v : V) (m : List (ℕ × V))
      → IsKeyed m
      → lookup k m ≡ some v
      → total f (erase k m) + f v ≡ total f m
  unfolding erase has_key lookup
  total-erase f k v [] h e = cc
  total-erase f k v ((i, w) ∷ m) h e =
      ground (arith, total-erase f k v m h.1, total-erase_absent f k m)

  pub total-insert_or_assign :
      (f : V → ℕ) (k : ℕ) (v : V) (m : List (ℕ × V))
      → has_key k m ≡ false
      → total f (insert_or_assign k v m) ≡ total f m + f v
  unfolding insert_or_assign has_key
  total-insert_or_assign f k v [] h = omega arith
  total-insert_or_assign f k v ((i, w) ∷ m) h = ground (arith, total-insert_or_assign f k v m)
