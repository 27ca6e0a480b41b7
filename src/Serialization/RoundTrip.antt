-- ===== src/Serialization/RoundTrip.antt =====
-- What is deserialized at any address is the copy that would have been made there.
use replob_prototype.Serialization.Images.{
  serialize-image, IsRelocatable, Word, plain, pointer, image, offsets, pointers, AreWords,
}
use replob_prototype.Prelude.{
  ◌==◌, subst, take, drop, take-append, drop-append, get_elem?-append, ◌-◌, ◌/◌, some, leb, ℕ, zero,
  suc, ◌+◌, ◌*◌, ◌%◌, ◌^◌, ◌<◌, ◌≤◌, ◌≡◌, refl, ap, sym, true, false, ltb, List, [], ◌∷◌, ◌++◌,
  length, length-append, arith,
}
use replob_prototype.Serialization.{
  serialize, deserialize, deserialize_from, buffer_size, word_mod, int_mod, is_negative, ints_of,
  ok, add_at, patch,
}
use mathlib.Core.List.{append_assoc}

abbrev low : ℕ → ℕ
low w = w % int_mod

abbrev high : ℕ → ℕ
high w = w / int_mod

-- The words of an object, one after the other, from the position `i` on
add_at-append :
    (i start lo hi : ℕ) (pre rest : List ℕ)
    → length pre ≡ 2 * i
    → add_at i start (pre ++ lo ∷ hi ∷ rest)
      ≡ pre
        ++ low ((lo + hi * int_mod + start) % word_mod)
          ∷ high ((lo + hi * int_mod + start) % word_mod)
          ∷ rest
unfolding add_at
add_at-append zero start lo hi [] rest h = refl
add_at-append zero start lo hi (a ∷ pre) rest h = absurd (omega (arith, h))
add_at-append (suc i) start lo hi [] rest h = absurd (omega (arith, h))
add_at-append (suc i) start lo hi (a ∷ []) rest h = absurd (omega (arith, h))
add_at-append (suc i) start lo hi (a ∷ b ∷ pre) rest h =
    ap (λ l. a ∷ b ∷ l) (add_at-append i start lo hi pre rest (omega (arith, h)))

length-ints_of : (ws : List ℕ) → length (ints_of ws) ≡ 2 * length ws
unfolding ints_of
length-ints_of [] = omega arith
length-ints_of (w ∷ ws) = omega (arith, length-ints_of ws)

length-offsets : (ws : List Word) → length (offsets ws) ≡ length ws
length-offsets [] = refl
length-offsets (w ∷ ws) = ap suc (length-offsets ws)

-- One word further
module _ (pre : List ℕ) (i w : ℕ) (h : length pre ≡ 2 * i) where
  abbrev further : List ℕ
  further = pre ++ low w ∷ high w ∷ []

  length-further : length further ≡ 2 * (i + 1)
  length-further = omega (arith, length-append pre (low w ∷ high w ∷ []), h)

  further-append : (rest : List ℕ) → pre ++ low w ∷ high w ∷ rest ≡ further ++ rest
  further-append rest = sym (append_assoc pre (low w ∷ high w ∷ []) rest)

patch-image :
    (start count i : ℕ) (pre : List ℕ) (ws : List Word)
    → length pre ≡ 2 * i
    → i + length ws ≤ count
    → count < 2 ^ 31
    → AreWords ws
    → patch start count (pointers i ws) (pre ++ ints_of (offsets ws))
      ≡ ok (pre ++ ints_of (image start ws))
unfolding patch ints_of
patch-image start count i pre [] h l b a = refl
patch-image start count i pre (plain x ∷ ws) h l b a =
    rw
      (
        further-append pre i x h (ints_of (offsets ws)),
        further-append pre i x h (ints_of (image start ws)),
      )
      (patch-image start count (i + 1) (further pre i x h) ws (length-further pre i x h)
        (omega (arith, l)) b a.1)
patch-image start count i pre (pointer o ∷ ws) h l b a =
    let positive : is_negative i ≡ false = ground (arith, l, b) in
    let inside : ltb i count ≡ true = ground (arith, l) in
    let has_word : leb (2 * i + 2) (length (pre ++ ints_of (offsets (pointer o ∷ ws)))) ≡ true =
      ground (arith, h, length-append pre (ints_of (offsets (pointer o ∷ ws)))) in
    let w = (start + o) % word_mod in
    let moved : (low o + high o * int_mod + start) % word_mod ≡ w = omega (arith, a.0) in
    rw
      (
        positive,
        inside,
        has_word,
        add_at-append i start (low o) (high o) pre (ints_of (offsets ws)) h,
        moved,
        further-append pre i w h (ints_of (offsets ws)),
        further-append pre i w h (ints_of (image start ws)),
      )
      (patch-image start count (i + 1) (further pre i w h) ws (length-further pre i w h)
        (omega (arith, l)) b a.1)

module _ (start : ℕ) (ws : List Word) (h : AreWords ws) (b : 16 * length ws ≤ buffer_size) where
  abbrev object : List ℕ
  object = ints_of (offsets ws)

  abbrev packet : List ℕ
  packet = (object ++ pointers 0 ws) ++ 2 * length ws ∷ []

  length-object : length object ≡ 2 * length ws
  length-object = omega (arith, length-ints_of (offsets ws), length-offsets ws)

  deserialize_from-packet :
      deserialize_from start packet (length (object ++ pointers 0 ws)) (2 * length ws)
      ≡ ok (ints_of (image start ws))
  unfolding deserialize_from
  deserialize_from-packet =
      let whole = object ++ pointers 0 ws in
      let last = 2 * length ws ∷ [] in
      let positive : is_negative (2 * length ws) ≡ false = ground (arith, b) in
      let inside : leb (2 * length ws) (length whole) ≡ true =
        ground (arith, length-append object (pointers 0 ws), length-object) in
      let count : 2 * length ws * 4 / 8 ≡ length ws = omega arith in
      let indices : drop (2 * length ws) (take (length whole) packet) ≡ pointers 0 ws =
        rw (take-append whole last, sym length-object) (drop-append object (pointers 0 ws)) in
      let head : take (2 * length ws) packet ≡ object =
        subst (λ n. take n packet ≡ object) length-object
          (rw (append_assoc object (pointers 0 ws) last)
            (take-append object (pointers 0 ws ++ last))) in
      rw (positive, inside, count, indices, head)
        (patch-image start (length ws) 0 [] ws (omega arith) (omega arith) (omega (arith, b)) h)

  deserialize-packet : deserialize start (4 * length packet) packet ≡ ok (ints_of (image start ws))
  unfolding deserialize
  deserialize-packet =
      let whole = object ++ pointers 0 ws in
      let last = length-append whole (2 * length ws ∷ []) in
      let enough : leb 4 (4 * length packet) ≡ true = ground (arith, last) in
      let aligned : (4 * length packet % 4 == 0) ≡ true = ground arith in
      let index : 4 * length packet / 4 - 1 ≡ length whole = omega (arith, last) in
      rw (enough, aligned, index, get_elem?-append whole (2 * length ws) [], index)
        deserialize_from-packet

-- An object is a copy that is the same wherever it is made but for the pointers into itself. If it fits
-- twice into the buffer, `serialize` succeeds, and `deserialize` of the packet in a buffer at any address
-- gives the very copy that the copy constructor would have made at that address.
pub deserialize-serialize :
    (here there : ℕ) (copy : ℕ → List ℕ) (ws : List Word)
    → IsRelocatable copy ws
    → AreWords ws
    → here < word_mod
    → 0 < length ws
    → 16 * length ws ≤ buffer_size
    → (packet : List ℕ) × (serialize here copy ≡ some packet)
      × (deserialize there (4 * length packet) packet ≡ ok (ints_of (copy there)))
deserialize-serialize here there copy ws c h s p b = (
  (ints_of (offsets ws) ++ pointers 0 ws) ++ 2 * length ws ∷ [],
  serialize-image here copy ws c h s p b,
  rw (c there) (deserialize-packet there ws h b),
)
