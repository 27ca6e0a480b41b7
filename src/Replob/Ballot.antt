-- ===== src/Replob/Ballot.antt =====
-- The votes for one step that a node has heard of, and what they tell when they are as many as the nodes.
use replob_prototype.Prelude.{
  ℕ, ◌≤◌, ◌≡◌, refl, sym, ap, ◌∙◌, subst, Bool, true, false, ◌||◌, ◌==◌, Bool-cases, Option, some,
  List, [], ◌∷◌, All, map, length, inl, inr, arith,
}
use replob_prototype.Std.Order.{nat_order, same}
use replob_prototype.Std.Set.{insert, contains, IsSorted}
use replob_prototype.Std.Set.Laws.{contains-insert, insert-IsSorted, contains-Above, Above-IsSorted}
use replob_prototype.Std.Set.Count.{count, count-or, count-all, length-le}
use replob_prototype.Ids.{UniqueId, lt_id, lt_id_eq, lt_id_irrefl, id_order}
use replob_prototype.Replob.{CarryMsg, MsgData, with_msg, votes_count, carries}

-- The message for which a node has voted in a step
abbrev pub Said : Type 0
Said = ℕ → ℕ → Option UniqueId

-- Whatever has been said stays said.
abbrev pub Extends : Said → Said → Type 0
Extends said said' = (j s : ℕ) (k : UniqueId) → said j s ≡ some k → said' j s ≡ some k

some-eq : (k l : UniqueId) → some k ≡ some l → k ≡ l
some-eq k l h = cc

module _ {M : Type 0} where
  abbrev pub keys : List (UniqueId × MsgData M) → List UniqueId
  keys [] = []
  keys ((k, e) ∷ rest) = k ∷ keys rest

  -- some entry has the vote of `j`
  abbrev heard : ℕ → List (UniqueId × MsgData M) → Bool
  heard j [] = false
  heard j ((k, e) ∷ rest) = contains j e.voted_set || heard j rest

module _ {M : Type 0} (payload : UniqueId → M) (config : List ℕ) (id : ℕ) where
  -- A set of votes for `k`
  abbrev pub IsVotes : Said → UniqueId → List ℕ → Type 0
  IsVotes said k s =
      IsSorted s
      × ((j : ℕ) → contains j s ≡ true → (said j id ≡ some k) × (contains j config ≡ true))

  abbrev pub IsEntry : Said → UniqueId × MsgData M → Type 0
  IsEntry said (k, e) =
      (e.msg ≡ payload k) × IsVotes said k e.voted_set × ((j : ℕ) × (contains j e.voted_set ≡ true))

  abbrev pub IsBallot : Said → List (UniqueId × MsgData M) → Type 0
  IsBallot said l = IsSorted (keys l) × All (IsEntry said) l

  pub IsVotes-insert :
      (said : Said) (k : UniqueId) (j : ℕ) (s : List ℕ)
      → said j id ≡ some k
      → contains j config ≡ true
      → IsVotes said k s
      → IsVotes said k (insert j s)
  IsVotes-insert said k j s e m (h, v) = (
    insert-IsSorted j s h,
    λ i c. elim (Bool-cases (i == j)) [
      | inl y ↦ let z : i ≡ j = ground arith in rw z (e, m)
      | inr n ↦ v i (ground (arith, c, contains-insert i j s, n))
    ],
  )

  keys-with_msg :
      (f : List ℕ → List ℕ) (m : CarryMsg M) (l : List (UniqueId × MsgData M))
      → keys (with_msg f m l) ≡ insert m.msg_id (keys l)
  unfolding with_msg insert
  keys-with_msg f m [] = refl
  keys-with_msg f m ((k, e) ∷ l) = elim (Bool-cases (lt_id m.msg_id k)) [
    | inl x ↦ rw x refl
    | inr x ↦ elim (Bool-cases (lt_id k m.msg_id)) [
      | inl y ↦ rw (x, y) (ap (λ r. k ∷ r) (keys-with_msg f m l))
      | inr y ↦ rw (x, y) refl
    ]
  ]

  module _ (said : Said) (f : List ℕ → List ℕ) (m : CarryMsg M) (own : m.msg ≡ payload m.msg_id)
      (adds : (s : List ℕ)
        → IsVotes said m.msg_id s
        → IsVotes said m.msg_id (f s) × ((j : ℕ) × (contains j (f s) ≡ true))) where
    first-IsEntry : IsEntry said (m.msg_id, record { voted_set = f []; msg = m.msg })
    unfolding contains
    first-IsEntry = let (v, j) = adds [] (tt, λ j c. cc) in (own, v, j)

    with_msg-IsEntry :
        (l : List (UniqueId × MsgData M))
        → All (IsEntry said) l
        → All (IsEntry said) (with_msg f m l)
    unfolding with_msg
    with_msg-IsEntry [] h = (first-IsEntry, tt)
    with_msg-IsEntry ((k, e) ∷ l) h = elim (Bool-cases (lt_id m.msg_id k)) [
      | inl x ↦ rw x (first-IsEntry, h)
      | inr x ↦ elim (Bool-cases (lt_id k m.msg_id)) [
        | inl y ↦ rw (x, y) (h.0, with_msg-IsEntry l h.1)
        | inr y ↦
            let z : m.msg_id ≡ k = lt_id_eq m.msg_id k x y in
            rw (x, y)
              (
                (
                  h.0.0,
                  subst (λ i. IsVotes said i (f e.voted_set)) z
                      (adds e.voted_set (subst (λ i. IsVotes said i e.voted_set) (sym z) h.0.1)).0,
                  (adds e.voted_set (subst (λ i. IsVotes said i e.voted_set) (sym z) h.0.1)).1,
                ),
                h.1,
              )
      ]
    ]

    pub IsBallot-with_msg :
        (l : List (UniqueId × MsgData M)) → IsBallot said l → IsBallot said (with_msg f m l)
    IsBallot-with_msg l (s, h) = (
      subst IsSorted (sym (keys-with_msg f m l)) (insert-IsSorted m.msg_id (keys l) s),
      with_msg-IsEntry l h,
    )

  module _ (said : Said) where
    -- Who is heard has said one of the keys.
    heard-said :
        (j : ℕ) (l : List (UniqueId × MsgData M))
        → All (IsEntry said) l
        → heard j l ≡ true
        → (k : UniqueId) × (said j id ≡ some k) × (contains k (keys l) ≡ true)
    unfolding contains
    heard-said j [] h c = cc
    heard-said j ((k, e) ∷ l) h c = elim (Bool-cases (contains j e.voted_set)) [
      | inl y ↦ (k, (h.0.1.1 j y).0, ground (arith, lt_id_irrefl k))
      | inr n ↦
          let (i, a, b) = heard-said j l h.1 (ground (arith, c, n)) in (i, a, ground (arith, b))
    ]

    -- A node votes once.
    heard_once :
        (k : UniqueId) (e : MsgData M) (l : List (UniqueId × MsgData M))
        → IsBallot said ((k, e) ∷ l)
        → (j : ℕ) → contains j e.voted_set ≡ true
        → heard j l ≡ false
    heard_once k e l (s, h) j c = elim (Bool-cases (heard j l)) [
      | inr n ↦ n
      | inl y ↦
          let (i, a, b) = heard-said j l h.1 y in
          let same : i ≡ k = some-eq i k (sym a ∙ (h.0.1.1 j c).0) in
          let above : lt_id k i ≡ true = contains-Above k i (keys l) s b in
          ground (arith, lt_id_irrefl k, subst (λ x. lt_id k x ≡ true) same above)
    ]

    votes_count-le :
        (l : List (UniqueId × MsgData M))
        → IsBallot said l
        → votes_count l ≤ count (λ j. heard j l) config
    unfolding votes_count
    votes_count-le [] h = omega arith
    votes_count-le ((k, e) ∷ l) (s, h) = omega (
      arith,
      length-le config e.voted_set h.0.1.0 (λ j c. (h.0.1.1 j c).1),
      votes_count-le l (Above-IsSorted k (keys l) s, h.1),
      count-or (λ j. contains j e.voted_set) (λ j. heard j l) config (heard_once k e l (s, h)),
    )

    -- Where the votes are as many as the nodes, each node has said one of the keys.
    pub all_said :
        (l : List (UniqueId × MsgData M))
        → IsBallot said l
        → votes_count l ≡ length config
        → (j : ℕ) → contains j config ≡ true
        → (k : UniqueId) × (said j id ≡ some k) × (contains k (keys l) ≡ true)
    all_said l h v j m =
        heard-said j l h.1
          (count-all (λ i. heard i l) j config (omega (arith, v, votes_count-le l h)) m)

    -- Each of the keys has been said.
    pub key-said :
        (k : UniqueId) (l : List (UniqueId × MsgData M))
        → All (IsEntry said) l
        → contains k (keys l) ≡ true
        → (j : ℕ) × (said j id ≡ some k) × (contains j config ≡ true)
    unfolding contains
    key-said k [] h c = cc
    key-said k ((i, e) ∷ l) h c = elim (Bool-cases (same k i)) [
      | inl y ↦
          let z : i ≡ k = lt_id_eq i k (ground arith) (ground arith) in
          let (j, b) = h.0.2 in let (w, m) = h.0.1.1 j b in (j, w ∙ ap (λ x. some x) z, m)
      | inr n ↦ key-said k l h.1 (ground (arith, c, n))
    ]

  -- The carry of a key
  abbrev pub carry_of : UniqueId → CarryMsg M
  carry_of k = record { msg = payload k; step_id = id; msg_id = k }

  pub carries-keys :
      (said : Said) (l : List (UniqueId × MsgData M))
      → All (IsEntry said) l
      → carries id l ≡ map carry_of (keys l)
  unfolding carries
  carries-keys said [] h = refl
  carries-keys said ((k, e) ∷ l) h = cc (h.0.0, carries-keys said l h.1)

  pub IsBallot-Extends :
      (said said' : Said) (l : List (UniqueId × MsgData M))
      → Extends said said'
      → IsBallot said l
      → IsBallot said' l
  IsBallot-Extends said said' [] x h = h
  IsBallot-Extends said said' ((k, e) ∷ l) x (s, h) = (
    s,
    (
      (h.0.0, (h.0.1.0, λ j c. let (a, b) = h.0.1.1 j c in (x j id k a, b)), h.0.2),
      (IsBallot-Extends said said' l x (Above-IsSorted k (keys l) s, h.1)).1,
    ),
  )
