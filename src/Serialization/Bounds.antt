-- ===== src/Serialization/Bounds.antt =====
-- The blocks of the allocator, and what `deserialize` touches.
use replob_prototype.Prelude.{ℕ, ◌+◌, ◌%◌, ◌≤◌, ◌≡◌, false, some, length, arith}
use replob_prototype.Serialization.{
  is_negative, buffer_size, alloc, Result, ok, verify_fails, undefined,
}

-- A block lies in the buffer, from an aligned offset to the next one, and has the bytes asked for.
alloc_lem :
    (start sz at next : ℕ)
    → start % 8 ≡ 0
    → alloc start sz ≡ some (at, next)
    → (at % 8 ≡ 0) × (next % 8 ≡ 0) × (start ≤ at) × (at + sz ≤ next) × (next ≤ buffer_size)
unfolding alloc
alloc_lem start sz at next a h = ground (arith, h, a)

abbrev pub IsPositive : ℕ → Type 0
IsPositive n = is_negative n ≡ false

-- No access outside the buffer or past the object, and an object of this many `int`s
abbrev pub IsSound : ℕ → Result → Type 0
IsSound n (ok ints) = length ints ≤ n
IsSound n verify_fails = Unit
IsSound n undefined = ⊥
