-- ===== src/Chronos/Detector/Silence.antt =====
-- Which nodes a check of the detector asks to remove.
use replob_prototype.Chronos.Detector.{
  broadcast_update, Detector, Request, apply_removal, to_remove, request_removal, request_removals,
  check,
}
use replob_prototype.Prelude.{
  ◌==◌, none, Option, ◌≢◌, ◌&&◌, ◌||◌, any, Bool, ℕ, ◌≡◌, ◌+◌, ◌*◌, ◌^◌, ◌<◌, ◌↔◌, inl, inr, List,
  [], ◌∷◌, ◌++◌, arith, some, true, false, Bool-cases, refl, ltb, ◌-◌,
}
use replob_prototype.Std.Map.{lookup, has_key, IsKeyed, has_key-lookup}

-- A node that was heard of last more than three seconds before `now`.
abbrev pub IsSilent : ℕ → ℕ → List (ℕ × ℕ) → Type 0
IsSilent now id m = (ts : ℕ) × (lookup id m ≡ some ts) × (ts + 3 * 10 ^ 9 < now)

abbrev pub asks_for : ℕ → Request → Bool
asks_for id (broadcast_update n) = false
asks_for id (apply_removal n) = n == id

abbrev has : ℕ → List ℕ → Bool
has id ns = any (λ n. n == id) ns

abbrev is_late : ℕ → Option ℕ → Bool
is_late now none = false
is_late now (some ts) = ltb (3 * 10 ^ 9) (now - ts)

to_remove-absent :
    (now id : ℕ) (m : List (ℕ × ℕ)) → has_key id m ≡ false → has id (to_remove now m) ≡ false
unfolding to_remove has_key
to_remove-absent now id [] h = refl
to_remove-absent now id ((j, ts) ∷ m) h = ground (arith, to_remove-absent now id m)

to_remove_lem :
    (now id : ℕ) (m : List (ℕ × ℕ))
    → IsKeyed m
    → has id (to_remove now m) ≡ is_late now (lookup id m)
unfolding to_remove lookup
to_remove_lem now id [] k = refl
to_remove_lem now id ((j, ts) ∷ m) k =
    ground (arith, k.0, to_remove_lem now id m k.1, to_remove-absent now j m)

asks-append :
    (id : ℕ) (xs ys : List Request)
    → any (asks_for id) (xs ++ ys) ≡ (any (asks_for id) xs || any (asks_for id) ys)
asks-append id [] ys = refl
asks-append id (x ∷ xs) ys = ground (arith, asks-append id xs ys)

asks-request_removal :
    (id n : ℕ) (d : Detector)
    → any (asks_for id) (request_removal n d) ≡ (n == id && has_key id d.nodes_ts)
unfolding request_removal
asks-request_removal id n d = elim (Bool-cases (n == id)) [
  | inl e ↦ ground arith
  | inr e ↦ ground arith
]

asks-request_removals :
    (id : ℕ) (ns : List ℕ) (d : Detector)
    → any (asks_for id) (request_removals ns d) ≡ (has id ns && has_key id d.nodes_ts)
unfolding request_removals
asks-request_removals id [] d = refl
asks-request_removals id (n ∷ ns) d = ground (
  arith,
  asks-append id (request_removal n d) (request_removals ns d),
  asks-request_removal id n d,
  asks-request_removals id ns d,
)

some-none : {A : Type 0} (a : A) → none ≢ some a
some-none a h = cc

-- The requests to remove a node, when its last time is `o`
late-silent :
    (now : ℕ) (o : Option ℕ)
    → (is_late now o ≡ true) ↔ ((ts : ℕ) × (o ≡ some ts) × (ts + 3 * 10 ^ 9 < now))
late-silent now none = (λ h. cc, λ h. absurd (some-none h.0 h.1))
late-silent now (some ts) = (λ h. (ts, refl, ground arith), λ h. ground (arith, h))

-- A check asks to remove exactly the nodes that were heard of last more than three seconds ago.
check_lem :
    (now id : ℕ) (d : Detector)
    → IsKeyed d.nodes_ts
    → (any (asks_for id) (check now d) ≡ true) ↔ IsSilent now id d.nodes_ts
unfolding check
check_lem now id d k =
    let l = late-silent now (lookup id d.nodes_ts) in
    let e = to_remove_lem now id d.nodes_ts k in
    let r = asks-request_removals id (to_remove now d.nodes_ts) d in
    (
      λ h. l.0 (ground (arith, h, e, r)),
      λ h.
          let q = l.1 h in
          let f = has_key-lookup id h.0 d.nodes_ts h.1 in ground (arith, q, e, r, f),
    )
