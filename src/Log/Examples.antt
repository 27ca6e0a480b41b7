-- ===== src/Log/Examples.antt =====
-- A step of the log at two nodes, and the theorems there.
use replob_prototype.Prelude.{
  ℕ, ◌≡◌, refl, sym, ◌∙◌, ap, ◌≤◌, In, true, false, update, some, List, [], ◌∷◌, ◌++◌, length, take,
  arith, inl, inr,
}
use replob_prototype.Std.Order.{nat_order}
use replob_prototype.Std.Set.{insert, insert_all, contains, inter, eq_set}
use replob_prototype.Std.Map.{lookup, insert_or_assign, erase}
use replob_prototype.Phantom.{
  WithPhantom, Phantom, Log, complete, get_ptr, touch, create, try_complete,
}
use replob_prototype.Phantom.Window.{IsValid}
use replob_prototype.Voting.{
  CarryMsg2, CarrySet, Voting, fresh, vote, commit, start, decide, tally, adopt, on_complete,
  is_empty,
}
use replob_prototype.Voting.System.{vote_packet, commit_packet, packets}
use replob_prototype.Log.{
  method, call_at, call_phantom, apply, run_step, run_current, invoked, Cluster, created_cluster,
  went_on, applies, receives, rounds, Reach, here, next,
}
use replob_prototype.Log.Order.{IsProposed, one_log}
use replob_prototype.Prelude.{◌≢◌}
use replob_prototype.Log.Window.{marked_at}
use replob_prototype.Log.Loop.{run_rounds, marked, complete_rounds}

abbrev both : List ℕ
both = 1 ∷ 2 ∷ []

abbrev greeting : CarryMsg2 ℕ
greeting = record { msg = 7; msg_id = record { first = 1; second = 0 } }

abbrev IsGreeting : ℕ → CarryMsg2 ℕ → Type 0
IsGreeting k c = c ≡ greeting

abbrev unique :
    (k : ℕ) (a b : CarryMsg2 ℕ) → IsGreeting k a → IsGreeting k b → a.msg_id ≡ b.msg_id → a ≡ b
unique k a b p q e = p ∙ sym q

-- Node 1 proposes; node 2 hears its vote, commits and runs the step; node 1 hears the commit and runs it.
abbrev first_applied : Cluster ℕ
first_applied =
    let r = apply 1 both greeting (created_cluster.replicas 1).window in
    went_on created_cluster 1 0 r.0 r.1

abbrev second_voted : Cluster ℕ
second_voted =
    let r =
      call_phantom 0 (method 2 (vote_packet (greeting ∷ []) 1 both))
        (first_applied.replicas 2).window in
    went_on first_applied 2 0 r.0 r.1

abbrev round_at : ℕ → Cluster ℕ → Cluster ℕ
round_at i s = record s { replicas = update s.replicas i (run_current (s.replicas i)) }

abbrev first_committed : Cluster ℕ
first_committed =
    let r =
      call_phantom 0 (method 1 (commit_packet (greeting ∷ [])))
        ((round_at 2 second_voted).replicas 1).window in
    went_on (round_at 2 second_voted) 1 0 r.0 r.1

abbrev both_ran : Cluster ℕ
both_ran = round_at 1 first_committed

ran :
    ((both_ran.replicas 1).log ≡ (greeting ∷ []) ∷ [])
    × ((both_ran.replicas 2).log ≡ (greeting ∷ []) ∷ [])
unfolding apply create get_ptr touch call_at call_phantom start vote decide tally adopt commit
    packets on_complete run_step run_current try_complete lookup insert_or_assign erase insert
    insert_all inter eq_set is_empty
ran = (refl, refl)

second_heard : In (0, vote_packet (greeting ∷ []) 1 both) first_applied.sent
unfolding apply create get_ptr touch call_at start vote decide tally adopt commit packets lookup
    insert_or_assign insert insert_all inter eq_set is_empty
second_heard = inl refl

first_heard : In (0, commit_packet (greeting ∷ [])) (round_at 2 second_voted).sent
unfolding apply create get_ptr touch call_at call_phantom start vote decide tally adopt commit
    packets lookup insert_or_assign insert insert_all inter eq_set is_empty
first_heard = inr (inl refl)

made_first : (apply 1 both greeting (created_cluster.replicas 1).window).2 ≡ some 0
unfolding apply create get_ptr touch lookup
made_first = refl

both-Reach : Reach both IsGreeting both_ran
unfolding contains
both-Reach =
    next
      (next
        (next
          (next (next here (applies 1 0 greeting _ _ refl refl (omega arith) made)) (
            receives 2 0 (vote_packet (greeting ∷ []) 1 both) _ _ refl second_heard (omega arith)
              refl))
          (rounds 2))
        (receives 1 0 (commit_packet (greeting ∷ [])) _ _ refl first_heard (omega arith) refl))
      (rounds 1)
  where
    made : apply 1 both greeting (created_cluster.replicas 1).window ≡ (
      (apply 1 both greeting (created_cluster.replicas 1).window).0,
      (apply 1 both greeting (created_cluster.replicas 1).window).1,
      some 0,
    )
    made =
        ap
          (λ o. (
            (apply 1 both greeting (created_cluster.replicas 1).window).0,
            (apply 1 both greeting (created_cluster.replicas 1).window).1,
            o,
          ))
          made_first

same_length : length (both_ran.replicas 1).log ≤ length (both_ran.replicas 2).log
same_length = omega (arith, ap length ran.0, ap length ran.1)

one_log_example :
    (take (length (both_ran.replicas 1).log) (both_ran.replicas 2).log ≡ (both_ran.replicas 1).log)
    × IsProposed IsGreeting 0 (both_ran.replicas 1).log
one_log_example = one_log both IsGreeting unique both-Reach 1 2 same_length

abbrev first_step : WithPhantom (Voting ℕ)
first_step = record {
  base = record fresh { carries = greeting ∷ [] };
  step_id = 0;
  completed = false;
}

-- Step 0 is about to be completed, step 1 is, and step 2 is under way.
abbrev full : Phantom (Voting ℕ)
full = record {
  next_step_id = 3;
  current_step_id = 0;
  steps =
      (0, first_step)
      ∷ (1, record { base = fresh; step_id = 1; completed = true })
      ∷ (2, record { base = fresh; step_id = 2; completed = false })
      ∷ [];
}

full-IsValid : IsValid full
unfolding lookup
full-IsValid = record {
  ordered = omega arith;
  small = omega arith;
  window = λ k w e. ground (arith, e);
}

complete_rounds_example :
    (q : Phantom (Voting ℕ)) × (l : Log (CarrySet ℕ)) × (complete run_step 4 0 full ≡ some (q, l))
    × (n : ℕ) × (run_rounds n (record { window = marked 0 first_step full; log = [] })
        ≡ record { window = q; log = [] ++ invoked l })
    × (◌≡◌ {A = ℕ} 0 full.current_step_id → marked_at q.current_step_id q ≡ false)
    × (◌≢◌ {A = ℕ} 0 full.current_step_id → (q ≡ marked 0 first_step full) × (l ≡ []))
unfolding lookup
complete_rounds_example = complete_rounds 4 0 full first_step [] full-IsValid refl (omega arith)
