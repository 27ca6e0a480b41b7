-- ===== src/Replob/Agreed.antt =====
-- What a step is committed with.
use replob_prototype.Prelude.{
  ℕ, ◌≡◌, sym, ap, ◌∙◌, subst, true, Bool-ext, some, List, [], ◌∷◌, All, map, length,
}
use replob_prototype.Std.Order.{nat_order}
use replob_prototype.Std.Set.{contains, IsSorted}
use replob_prototype.Std.Set.Laws.{sorted_ext}
use replob_prototype.Ids.{UniqueId, lt_id_eq, id_order}
use replob_prototype.Replob.{CarryMsg, MsgData, votes_count, carries}
use replob_prototype.Replob.Ballot.{
  Said, Extends, keys, IsBallot, carry_of, carries-keys, all_said, key-said,
}

some-eq : (k l : UniqueId) → some k ≡ some l → k ≡ l
some-eq k l h = cc

All-Unit : (l : List UniqueId) → All (λ k. Unit {0}) l
All-Unit [] = tt
All-Unit (k ∷ l) = (tt, All-Unit l)

module _ {M : Type 0} (payload : UniqueId → M) (config : List ℕ) where
  -- All nodes have voted in the step, and `ks` are the messages that they have voted for.
  pub record IsAgreed (said : Said) (id : ℕ) (ks : List UniqueId) : Type 0 where
    pub rising : IsSorted ks
    pub all_voted :
        (j : ℕ)
        → contains j config ≡ true
        → (k : UniqueId) × (said j id ≡ some k) × (contains k ks ≡ true)
    pub voted_for :
        (k : UniqueId)
        → contains k ks ≡ true
        → (j : ℕ) × (said j id ≡ some k) × (contains j config ≡ true)

  abbrev pub IsCommit : Said → ℕ → List (CarryMsg M) → Type 0
  IsCommit said id msgs =
      (ks : List UniqueId) × IsAgreed said id ks × (msgs ≡ map (carry_of payload config id) ks)

  pub IsAgreed-Extends :
      (said said' : Said) (id : ℕ) (ks : List UniqueId)
      → Extends said said'
      → IsAgreed said id ks
      → IsAgreed said' id ks
  IsAgreed-Extends said said' id ks x a = record {
    rising = a.rising;
    all_voted = λ j m. let (k, e, c) = a.all_voted j m in (k, x j id k e, c);
    voted_for = λ k c. let (j, e, m) = a.voted_for k c in (j, x j id k e, m);
  }

  agreed-le :
      (said : Said) (id : ℕ) (ks ls : List UniqueId)
      → IsAgreed said id ks
      → IsAgreed said id ls
      → (k : UniqueId) → contains k ks ≡ true
      → contains k ls ≡ true
  agreed-le said id ks ls a b k c =
      let (j, e, m) = a.voted_for k c in
      let (l, f, d) = b.all_voted j m in
      subst (λ x. contains x ls ≡ true) (some-eq l k (sym f ∙ e)) d

  -- The nodes agree on one set of messages.
  pub agreed_once :
      (said : Said) (id : ℕ) (ks ls : List UniqueId)
      → IsAgreed said id ks
      → IsAgreed said id ls
      → ks ≡ ls
  agreed_once said id ks ls a b =
      sorted_ext (λ k. Unit {0}) (λ k l _ _. lt_id_eq k l) ks ls a.rising b.rising (All-Unit ks)
        (All-Unit ls)
        (λ k.
          Bool-ext (contains k ks) (contains k ls) (agreed-le said id ks ls a b k)
            (agreed-le said id ls ks b a k))

  pub commit_once :
      (said : Said) (id : ℕ) (l m : List (CarryMsg M))
      → IsCommit said id l
      → IsCommit said id m
      → l ≡ m
  commit_once said id l m (ks, a, e) (ls, b, f) =
      e ∙ ap (map (carry_of payload config id)) (agreed_once said id ks ls a b) ∙ sym f

  -- A step in which the votes are as many as the nodes is committed with what they agree on.
  pub carries-IsCommit :
      (said : Said) (id : ℕ) (l : List (UniqueId × MsgData M))
      → IsBallot payload config id said l
      → votes_count l ≡ length config
      → IsCommit said id (carries id l)
  carries-IsCommit said id l h v = (
    keys l,
    record {
      rising = h.0;
      all_voted = all_said payload config id said l h v;
      voted_for = λ k c. key-said payload config id said k l h.1 c;
    },
    carries-keys payload config id said l h.1,
  )
