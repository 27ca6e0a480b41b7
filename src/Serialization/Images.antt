-- ===== src/Serialization/Images.antt =====
-- Objects whose copies differ only in the pointers into themselves, and what `serialize` makes of them.
use replob_prototype.Prelude.{
  ℕ, suc, ◌+◌, ◌-◌, ◌*◌, ◌/◌, ◌%◌, ◌^◌, ◌<◌, ◌≤◌, ◌≡◌, refl, ap, ◌∙◌, true, ◌==◌, leb, some, List,
  [], ◌∷◌, ◌++◌, length, All, arith,
}
use replob_prototype.Serialization.{
  word_mod, int_mod, buffer_size, relocate, relocate_word, serialize, ints_of,
}

-- A word of an object: the same in every copy, or a pointer to an offset of the copy itself
pub data Word : Type 0 where
  plain pointer : ℕ → Word

-- the word in the copy at `start`
abbrev pub placed : ℕ → Word → ℕ
placed start (plain x) = x
placed start (pointer o) = (start + o) % word_mod

abbrev pub image : ℕ → List Word → List ℕ
image start [] = []
image start (w ∷ ws) = placed start w ∷ image start ws

abbrev pub offset : Word → ℕ
offset (plain x) = x
offset (pointer o) = o

abbrev pub offsets : List Word → List ℕ
offsets [] = []
offsets (w ∷ ws) = offset w ∷ offsets ws

-- The indices of the pointers, counted from `i`
abbrev pub pointers : ℕ → List Word → List ℕ
pointers i [] = []
pointers i (plain x ∷ ws) = pointers (i + 1) ws
pointers i (pointer o ∷ ws) = i ∷ pointers (i + 1) ws

abbrev pub AreWords : List Word → Type 0
AreWords ws = All (λ w. offset w < word_mod) ws

-- What `serialize` relies on: a copy is the same wherever it is made, but for the pointers into itself.
abbrev pub IsRelocatable : (ℕ → List ℕ) → List Word → Type 0
IsRelocatable copy ws = (start : ℕ) → copy start ≡ image start ws

pub length-image : (start : ℕ) (ws : List Word) → length (image start ws) ≡ length ws
length-image start [] = refl
length-image start (w ∷ ws) = ap suc (length-image start ws)

relocate_word-plain :
    (start size i x : ℕ) (rest : List ℕ × List ℕ)
    → relocate_word start size i x x rest ≡ some (x ∷ rest.0, rest.1)
unfolding relocate_word
relocate_word-plain start size i x rest =
    let same : (x + word_mod - x) % int_mod ≡ 0 = omega arith in rw same refl

relocate_word-pointer :
    (start size i o : ℕ) (rest : List ℕ × List ℕ)
    → start < word_mod
    → 0 < size
    → size < 2 ^ 31
    → o < word_mod
    → relocate_word start size i ((start + o) % word_mod) ((start + size + o) % word_mod) rest
      ≡ some (o ∷ rest.0, i ∷ rest.1)
unfolding relocate_word
relocate_word-pointer start size i o rest s p q h =
    let shift : ((start + size + o) % word_mod + word_mod - (start + o) % word_mod) % int_mod
        ≡ size =
      omega (arith, q) in
    let back : ((start + o) % word_mod + word_mod - start) % word_mod ≡ o = omega (arith, s, h) in
    rw (shift, back) (ground (arith, p))

pub relocate-image :
    (start size i : ℕ) (ws : List Word)
    → start < word_mod
    → 0 < size
    → size < 2 ^ 31
    → AreWords ws
    → relocate start size i (image start ws) (image (start + size) ws)
      ≡ some (offsets ws, pointers i ws)
unfolding relocate
relocate-image start size i [] s p q h = refl
relocate-image start size i (plain x ∷ ws) s p q h =
    rw (relocate, relocate-image start size (i + 1) ws s p q h.1)
      (relocate_word-plain start size i x (offsets ws, pointers (i + 1) ws))
relocate-image start size i (pointer o ∷ ws) s p q h =
    rw (relocate, relocate-image start size (i + 1) ws s p q h.1)
      (relocate_word-pointer start size i o (offsets ws, pointers (i + 1) ws) s p q h.0)

-- A relocatable object that fits twice into the buffer is serialized to its words with offsets for
-- pointers, the indices of the pointers, and the index of the first index.
pub serialize-image :
    (start : ℕ) (copy : ℕ → List ℕ) (ws : List Word)
    → IsRelocatable copy ws
    → AreWords ws
    → start < word_mod
    → 0 < length ws
    → 16 * length ws ≤ buffer_size
    → serialize start copy ≡ some (ints_of (offsets ws) ++ pointers 0 ws ++ 2 * length ws ∷ [])
unfolding serialize
serialize-image start copy ws c h s p b =
    let n = length ws in
    let first : length (copy start) ≡ n = ap length (c start) ∙ length-image start ws in
    let fits : leb (8 * n + 8 * n) buffer_size ≡ true = ground (arith, b) in
    let twice : (8 * n * 2 == 8 * n + 8 * n) ≡ true = ground arith in
    let ints : 8 * n / 4 ≡ 2 * n = omega arith in
    rw
      (
        first,
        c (start + 8 * n),
        length-image (start + 8 * n) ws,
        fits,
        twice,
        c start,
        relocate-image start (8 * n) 0 ws s (omega (arith, p)) (omega (arith, b)) h,
        first,
        ints,
      )
      refl
