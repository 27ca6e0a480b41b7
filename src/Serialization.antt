-- ===== src/Serialization.antt =====
-- `serialize` and `deserialize` of include/synca/once/serialization.h, with the allocator of
-- src/serialization.cpp. An object is sent as the memory of a copy, in which pointers into the copy are
-- replaced by offsets, followed by the indices of those pointers. Memory is 64-bit words below 2^64, or
-- the `int`s that they consist of, as their two's complement numbers below 2^32.
pub mod Images
pub mod RoundTrip
pub mod Bounds
mod Examples
use replob_prototype.Prelude.{
  ℕ, zero, suc, ◌+◌, ◌-◌, ◌*◌, ◌/◌, ◌%◌, ◌^◌, Bool, ◌==◌, ltb, leb, if◌then◌else◌, Option, none,
  some, List, [], ◌∷◌, ◌++◌, length, take, drop, get_elem?,
}

abbrev pub word_mod : ℕ
word_mod = 2 ^ 64

abbrev pub int_mod : ℕ
int_mod = 2 ^ 32

abbrev pub is_negative : ℕ → Bool
is_negative n = leb (2 ^ 31) n

-- the size of `tlsBuffer`
abbrev pub buffer_size : ℕ
buffer_size = 1024 * 1024 * 10

-- `MemoryAllocator::alloc` at `offset_`: the offset of the block and the new `offset_`, or `none` where
-- the buffer is too small.
unfoldable pub alloc : ℕ → ℕ → Option (ℕ × ℕ)
alloc offset sz =
    let diff = sz % 8 in
    let rounded = if diff == 0 then sz else sz + (8 - diff) in
    if leb (offset + rounded) buffer_size then some (offset, offset + rounded) else none

-- The `int`s of words, the low half first
unfoldable pub ints_of : List ℕ → List ℕ
ints_of [] = []
ints_of (w ∷ ws) = w % int_mod ∷ w / int_mod ∷ ints_of ws

-- A round of the loop of `serialize` at index `i`, before what the later rounds give: the word of the
-- first copy as it is left, and the index where one is written. `none` is a failed `VERIFY`.
unfoldable pub relocate_word : ℕ → ℕ → ℕ → ℕ → ℕ → List ℕ × List ℕ → Option (List ℕ × List ℕ)
relocate_word start size i a b (ws, indices) =
    let diff = (b + word_mod - a) % int_mod in
    if diff == 0
    then some (a ∷ ws, indices)
    else if diff == size
    then some ((a + word_mod - start) % word_mod ∷ ws, i ∷ indices)
    else none

-- The loop of `serialize` over the two copies. The indices overwrite the second copy, half a word for
-- each word that has been read.
unfoldable pub relocate : ℕ → ℕ → ℕ → List ℕ → List ℕ → Option (List ℕ × List ℕ)
relocate start size i [] bs = some ([], [])
relocate start size i (a ∷ first) [] = none
relocate start size i (a ∷ first) (b ∷ second) = elim (relocate start size (i + 1) first second) [
  | none ↦ none
  | some rest ↦ relocate_word start size i a b rest
]

-- `serialize` into the buffer at `start`: the `int`s of the view. `copy` is the copy constructor of the
-- object: the words that `new T{obj}` fills when the allocator stands at an address.
unfoldable pub serialize : ℕ → (ℕ → List ℕ) → Option (List ℕ)
serialize start copy =
    let size = 8 * length (copy start) in
    let second = copy (start + size) in
    if leb (size + 8 * length second) buffer_size
    then (if size * 2 == size + 8 * length second
        then elim (relocate start size 0 (copy start) second) [
          | none ↦ none
          | some (ws, is) ↦ some (ints_of ws ++ is ++ size / 4 ∷ [])
        ]
        else none)
    else none

-- How `deserialize` ends: with the object in place, a failed `VERIFY`, or an access outside the buffer
-- or past the object in it.
pub data Result : Type 0 where
  ok : List ℕ → Result
  verify_fails undefined : Result

-- `data[k] += buf.data()` on the `int`s of an object that has the word `k`
unfoldable pub add_at : ℕ → ℕ → List ℕ → List ℕ
add_at k start [] = []
add_at k start (lo ∷ []) = lo ∷ []
add_at zero start (lo ∷ hi ∷ rest) =
    let w = (lo + hi * int_mod + start) % word_mod in w % int_mod ∷ w / int_mod ∷ rest
add_at (suc k) start (lo ∷ hi ∷ rest) = lo ∷ hi ∷ add_at k start rest

-- The loop of `deserialize`; a word that the object has not is no part of it.
unfoldable pub patch : ℕ → ℕ → List ℕ → List ℕ → Result
patch start data_count [] ints = ok ints
patch start data_count (k ∷ ks) ints =
    let rest = patch start data_count ks (add_at k start ints) in
    if is_negative k
    then undefined
    else if ltb k data_count
    then (if leb (2 * k + 2) (length ints) then rest else undefined)
    else verify_fails

-- `deserialize` with the index of the first index, read at the end of the buffer
unfoldable pub deserialize_from : ℕ → List ℕ → ℕ → ℕ → Result
deserialize_from start ints int_count diff_index =
    if is_negative diff_index
    then undefined
    else if leb diff_index int_count
    then patch start (diff_index * 4 / 8) (drop diff_index (take int_count ints))
        (take diff_index ints)
    else verify_fails

-- `deserialize` of a buffer of `size` bytes at `start`, of which `ints` are the `int`s. The patches stay
-- below the first index, so it is the words before that index that are the object.
unfoldable pub deserialize : ℕ → ℕ → List ℕ → Result
deserialize start size ints =
    if leb 4 size
    then (if size % 4 == 0
        then elim (get_elem? ints (size / 4 - 1)) [
          | none ↦ undefined
          | some diff_index ↦ deserialize_from start ints (size / 4 - 1) diff_index
        ]
        else verify_fails)
    else verify_fails
