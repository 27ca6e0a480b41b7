-- ===== src/Voting/Quorum.antt =====
-- The answer of `isConsistent` where all votes come from the node set: of two disjoint parts of it at most one
-- goes on after a timeout.
use replob_prototype.Voting.{
  fail, Voting, is_consistent, timeout, cleanup_all, NodesSet, is_consistent_sets, same_least,
}
use replob_prototype.Prelude.{
  false, ◌≢◌, refl, ℕ, ◌+◌, ◌≤◌, ◌≡◌, true, ◌==◌, some, [], ◌∷◌, length, arith, if◌then◌else◌,
}
use replob_prototype.Std.Order.{nat_order}
use replob_prototype.Std.Set.{contains, Above, IsSorted}
use replob_prototype.Std.Set.Laws.{contains-Above, Above-IsSorted}

abbrev pub IsSubset : NodesSet → NodesSet → Type 0
IsSubset s t = (n : ℕ) → contains n s ≡ true → contains n t ≡ true

abbrev pub AreDisjoint : NodesSet → NodesSet → Type 0
AreDisjoint s t = (n : ℕ) → contains n s ≡ true → contains n t ≡ true → ⊥

-- `s` without its first element, if that is `y`
strip : ℕ → NodesSet → NodesSet
strip y [] = []
strip y (x ∷ xs) = if x == y then xs else x ∷ xs

strip-IsSorted : (y : ℕ) (s : NodesSet) → IsSorted s → IsSorted (strip y s)
unfolding strip
strip-IsSorted y [] h = tt
strip-IsSorted y (x ∷ []) h = ground arith
strip-IsSorted y (x ∷ z ∷ zs) h = ground arith

contains-strip : (y n : ℕ) (s : NodesSet) → contains n (strip y s) ≡ true → contains n s ≡ true
unfolding strip contains
contains-strip y n [] h = h
contains-strip y n (x ∷ xs) h = ground arith

length-strip :
    (y : ℕ) (s : NodesSet) → length s ≤ length (strip y s) + (if contains y s then 1 else 0)
unfolding strip contains
length-strip y [] = omega arith
length-strip y (x ∷ xs) = ground arith

strip-IsSubset :
    (y : ℕ) (s ys : NodesSet)
    → IsSorted s
    → Above y ys
    → IsSubset s (y ∷ ys)
    → IsSubset (strip y s) ys
unfolding strip contains
strip-IsSubset y [] ys hs hy sub n h = cc
strip-IsSubset y (x ∷ xs) ys hs hy sub n h =
    ground (arith, sub n, sub x, contains-Above x n xs hs, contains-Above y x ys hy)

-- Two disjoint parts of a set have together at most its size.
length-disjoint :
    (u s t : NodesSet)
    → IsSorted u
    → IsSorted s
    → IsSorted t
    → IsSubset s u
    → IsSubset t u
    → AreDisjoint s t
    → length s + length t ≤ length u
unfolding contains
length-disjoint [] [] [] hu hs ht ss st d = omega arith
length-disjoint [] (x ∷ xs) t hu hs ht ss st d = ground (arith, ss x)
length-disjoint [] [] (x ∷ xs) hu hs ht ss st d = ground (arith, st x)
length-disjoint (y ∷ ys) s t hu hs ht ss st d = ground (
  arith,
  length-strip y s,
  length-strip y t,
  d y,
  length-disjoint ys (strip y s) (strip y t) (Above-IsSorted y ys hu) (strip-IsSorted y s hs)
      (strip-IsSorted y t ht) (strip-IsSubset y s ys hs hu ss) (strip-IsSubset y t ys ht hu st)
      (λ n a b. d n (contains-strip y n s a) (contains-strip y n t b)),
)

same_least-shares :
    (s t u : NodesSet)
    → same_least s u ≡ some true
    → same_least t u ≡ some true
    → (n : ℕ) × (contains n s ≡ true) × (contains n t ≡ true)
unfolding same_least contains
same_least-shares [] t u hs ht = cc
same_least-shares (x ∷ xs) [] u hs ht = cc
same_least-shares (x ∷ xs) (y ∷ ys) [] hs ht = cc
same_least-shares (x ∷ xs) (y ∷ ys) (z ∷ zs) hs ht = (x, ground arith, ground arith)

is_consistent_sets-disjoint :
    (u s t : NodesSet)
    → IsSorted u
    → IsSorted s
    → IsSorted t
    → IsSubset s u
    → IsSubset t u
    → AreDisjoint s t
    → is_consistent_sets s u ≡ some true
    → ¬ (is_consistent_sets t u ≡ some true)
unfolding is_consistent_sets
is_consistent_sets-disjoint u s t hu hs ht ss st d cs ct = ground (
  arith,
  length-disjoint u s t hu hs ht ss st d,
  λ (a : same_least s u ≡ some true) (b : same_least t u ≡ some true).
      let (n, in_s, in_t) = same_least-shares s t u a b in d n in_s in_t,
)

is_consistent_sets-defined :
    (t u : NodesSet)
    → IsSubset t u
    → t ≢ []
    → ¬ (is_consistent_sets t u ≡ some true)
    → is_consistent_sets t u ≡ some false
unfolding is_consistent_sets same_least contains
is_consistent_sets-defined [] u st ne h = absurd (ne refl)
is_consistent_sets-defined (x ∷ xs) [] st ne h = ground (arith, st x)
is_consistent_sets-defined (x ∷ xs) (y ∷ ys) st ne h = ground arith

-- The sets of a step at one node: rising, with at least one vote, and every vote from a node of the
-- node set. The code does not keep the last: `vote` takes a vote from whatever node.
pub record IsPolled {M : Type 0} (v : Voting M) : Type 0 where
  pub nodes_sorted : IsSorted v.nodes
  pub voted_sorted : IsSorted v.voted_set
  pub voters : IsSubset v.voted_set v.nodes
  pub voted_some : v.voted_set ≢ []

-- No split brain among the voters of the node set: where two nodes agree on the node set of a step, each has at
-- least one vote and only votes from nodes of that set, no node has voted at both, and a timeout lets the first go
-- on, then a timeout makes the second fail: it changes nothing of the step and asks for the global cleanup.
pub no_split_brain :
    {M : Type 0} (v w : Voting M) (this_node : ℕ)
    → v.nodes ≡ w.nodes
    → IsPolled v
    → IsPolled w
    → AreDisjoint v.voted_set w.voted_set
    → is_consistent v ≡ some true
    → timeout this_node w ≡ some (w, cleanup_all ∷ [])
unfolding is_consistent timeout fail
no_split_brain v w this_node e pv pw d c = rw (refused, timeout)
  where
    refused : is_consistent_sets w.voted_set w.nodes ≡ some false
    refused = is_consistent_sets-defined w.voted_set w.nodes pw.voters pw.voted_some (
        is_consistent_sets-disjoint w.nodes v.voted_set w.voted_set pw.nodes_sorted pv.voted_sorted
          pw.voted_sorted (rw e at pv.voters) pw.voters d (rw e at c))
