-- ===== src/Chronos/Slots.antt =====
-- The slots of the nodes under the operations of a Chronos.
use replob_prototype.Prelude.{
  refl, false, ℕ, ◌≡◌, ◌+◌, ◌≤◌, ◌==◌, if◌then◌else◌, List, [], ◌∷◌, ◌++◌, arith, ◌⊎◌, inl, inr,
}
use replob_prototype.Std.Map.{
  has_key, has_key-insert_or_assign, IsKeyed, insert_or_assign-IsKeyed, total,
  total-insert_or_assign,
}
use replob_prototype.Chronos.{Chronos, remove_element, trigger, execute_handler}
use replob_prototype.Chronos.Runs.{occurrences, busy, sum_of}

pub occurrences-append :
    (i : ℕ) (xs ys : List ℕ) → occurrences i (xs ++ ys) ≡ occurrences i xs + occurrences i ys
occurrences-append i [] ys = omega arith
occurrences-append i (x ∷ xs) ys = ground (arith, occurrences-append i xs ys)

pub occurrences-remove_element :
    (i e : ℕ) (xs : List ℕ)
    → occurrences i (remove_element e xs) ≡ (if e == i then 0 else occurrences i xs)
unfolding remove_element
occurrences-remove_element i e [] = ground arith
occurrences-remove_element i e (x ∷ xs) = ground (arith, occurrences-remove_element i e xs)

module _ {H : Type 0} where
  -- Each node that `available` counts has one slot, or runs one handler.
  abbrev pub IsShared : (ℕ → ℕ) → List ℕ → List (ℕ × H) → Type 0
  IsShared available slots running =
      IsKeyed running
      × ((i : ℕ) → (occurrences i slots + busy i running ≡ available i) × (available i ≤ 1))

  -- A node that has a slot runs no handler.
  slot-free :
      (available : ℕ → ℕ) (id : ℕ) (slots : List ℕ) (running : List (ℕ × H))
      → IsShared available (id ∷ slots) running
      → has_key id running ≡ false
  slot-free available id slots running s = let p = s.1 id in ground (arith, p)

  IsShared-execute :
      (available : ℕ → ℕ) (id : ℕ) (h : H) (slots : List ℕ) (running : List (ℕ × H))
      → IsShared available (id ∷ slots) running
      → IsShared available slots (execute_handler h id running)
  unfolding execute_handler
  IsShared-execute available id h slots running s = (
    insert_or_assign-IsKeyed id h running s.0,
    λ i.
        let p = s.1 i in
        let q = s.1 id in
        let e = has_key-insert_or_assign i id h running in ground (arith, p, q, e),
  )

  pub IsShared-trigger :
      (available : ℕ → ℕ) (this : ℕ) (hs : List H) (ids : List ℕ) (c : Chronos H)
      → IsShared available ids c.running
      → let d = (trigger this hs ids c).0 in
        IsShared available d.slots d.running
        × (d.awaiting ≡ [] ⊎ d.slots ≡ [])
        × (d.available_nodes ≡ c.available_nodes)
        × (d.events ≡ c.events)
  unfolding trigger
  IsShared-trigger available this [] ids c s = (s, inl refl, refl, refl)
  IsShared-trigger available this (h ∷ hs) [] c s = (s, inr refl, refl, refl)
  IsShared-trigger available this (h ∷ hs) (id ∷ ids) c s =
      IsShared-trigger available this hs ids (record c { running = execute_handler h id c.running })
        (IsShared-execute available id h ids c.running s)

  total-execute :
      (w : H → ℕ) (available : ℕ → ℕ) (id : ℕ) (h : H) (slots : List ℕ) (running : List (ℕ × H))
      → IsShared available (id ∷ slots) running
      → total w (execute_handler h id running) ≡ total w running + w h
  unfolding execute_handler
  total-execute w available id h slots running s =
      total-insert_or_assign w id h running (slot-free available id slots running s)

  -- No handler is lost or made.
  pub sum-trigger :
      (w : H → ℕ) (available : ℕ → ℕ) (this : ℕ) (hs : List H) (ids : List ℕ) (c : Chronos H)
      → IsShared available ids c.running
      → let d = (trigger this hs ids c).0 in
        sum_of w d.awaiting + total w d.running ≡ sum_of w hs + total w c.running
  unfolding trigger
  sum-trigger w available this [] ids c s = refl
  sum-trigger w available this (h ∷ hs) [] c s = refl
  sum-trigger w available this (h ∷ hs) (id ∷ ids) c s = omega (
    arith,
    sum-trigger w available this hs ids (record c { running = execute_handler h id c.running })
        (IsShared-execute available id h ids c.running s),
    total-execute w available id h ids c.running s,
  )
