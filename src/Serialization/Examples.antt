-- ===== src/Serialization/Examples.antt =====
-- A packet of two words, one of them a pointer, and the theorems at it.
use replob_prototype.Prelude.{ℕ, ◌*◌, ◌≡◌, refl, some, List, [], ◌∷◌, length, arith}
use replob_prototype.Serialization.{
  alloc, serialize, deserialize, deserialize_from, relocate, relocate_word, patch, add_at, ints_of,
  ok, verify_fails, undefined,
}
use replob_prototype.Serialization.Images.{Word, plain, pointer, image}
use replob_prototype.Serialization.RoundTrip.{deserialize-serialize}

abbrev pair : List Word
pair = plain 7 ∷ pointer 0 ∷ []

abbrev copy_pair : ℕ → List ℕ
copy_pair start = image start pair

-- The words 7 and 0, the index 1 of the pointer, and the index 4 of that index
abbrev pair_packet : List ℕ
pair_packet = 7 ∷ 0 ∷ 0 ∷ 0 ∷ 1 ∷ 4 ∷ []

serialize-pair : serialize 4096 copy_pair ≡ some pair_packet
unfolding serialize relocate relocate_word ints_of
serialize-pair = refl

deserialize-pair : deserialize 8192 24 pair_packet ≡ ok (7 ∷ 0 ∷ 8192 ∷ 0 ∷ [])
unfolding deserialize deserialize_from patch add_at
deserialize-pair = refl

-- An index outside of the words is refused, and a negative one is not.
refuses_outside : deserialize 8192 24 (7 ∷ 0 ∷ 0 ∷ 0 ∷ 2 ∷ 4 ∷ []) ≡ verify_fails
unfolding deserialize deserialize_from patch add_at
refuses_outside = refl

accepts_negative : deserialize 8192 24 (7 ∷ 0 ∷ 0 ∷ 0 ∷ 4294967295 ∷ 4 ∷ []) ≡ undefined
unfolding deserialize deserialize_from patch add_at
accepts_negative = refl

deserialize-serialize_example :
    (packet : List ℕ) × (serialize 4096 copy_pair ≡ some packet)
    × (deserialize 8192 (4 * length packet) packet ≡ ok (ints_of (copy_pair 8192)))
deserialize-serialize_example =
    deserialize-serialize 4096 8192 copy_pair pair (λ start. refl) (omega arith) (omega arith)
      (omega arith) (omega arith)

alloc-block : alloc 16 13 ≡ some (16, 32)
unfolding alloc
alloc-block = refl
