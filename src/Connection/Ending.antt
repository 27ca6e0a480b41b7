-- ===== src/Connection/Ending.antt =====
-- The fuel that a write through a connection needs.
use replob_prototype.Prelude.{
  subst, ℕ, zero, suc, ◌≡◌, ◌≢◌, ◌<◌, ◌≤◌, refl, sym, Bool-cases, inl, inr, arith,
}
use replob_prototype.Connection.{
  network_error, connector_error, other_error, Ended, returned, threw, out_of_fuel, after_on_retry,
  after_action, network_retry, Link, try_connect, reconnect, perform_op, write,
}
use replob_prototype.Connection.Attempts.{try_connect-wanted}

module _ {W : Type 0} (failures : W → ℕ) where
  -- Calls that end: a network error takes off one of the failures that are still to come, and a return
  -- adds none.
  abbrev pub IsEnding : (W → W × Ended) → Type 0
  IsEnding f =
      (w : W)
      → ((f w).1 ≢ out_of_fuel)
        × ((f w).1 ≡ threw network_error → failures (f w).0 < failures w)
        × ((f w).1 ≡ returned → failures (f w).0 ≤ failures w)

  -- The calls end that start with fewer failures to come than `n`.
  abbrev EndsBelow : ℕ → (W → W × Ended) → Type 0
  EndsBelow n f =
      (w : W)
      → failures w < n
      → ((f w).1 ≢ out_of_fuel) × ((f w).1 ≡ returned → failures (f w).0 ≤ failures w)

  after_on_retry-EndsBelow :
      (n b : ℕ) (next_round : W → W × Ended)
      → EndsBelow n next_round
      → b < n
      → (r : W × Ended) → r.1 ≢ out_of_fuel
      → (r.1 ≡ returned → failures r.0 ≤ b)
      → ((after_on_retry next_round r).1 ≢ out_of_fuel)
        × ((after_on_retry next_round r).1 ≡ returned
            → failures (after_on_retry next_round r).0 ≤ b)
  unfolding after_on_retry
  after_on_retry-EndsBelow n b next_round q h (v, returned) o c =
      let p = c refl in let r = q v (omega (arith, h, p)) in (r.0, λ e. omega (arith, p, r.1 e))
  after_on_retry-EndsBelow n b next_round q h (v, threw x) o c = (o, c)
  after_on_retry-EndsBelow n b next_round q h (v, out_of_fuel) o c = (o, c)

  after_action-EndsBelow :
      (n b : ℕ) (next_round on_retry : W → W × Ended)
      → EndsBelow n next_round
      → EndsBelow n on_retry
      → b ≤ n
      → (r : W × Ended) → r.1 ≢ out_of_fuel
      → (r.1 ≡ threw network_error → failures r.0 < b)
      → (r.1 ≡ returned → failures r.0 ≤ b)
      → ((after_action next_round on_retry r).1 ≢ out_of_fuel)
        × ((after_action next_round on_retry r).1 ≡ returned
            → failures (after_action next_round on_retry r).0 ≤ b)
  unfolding after_action
  after_action-EndsBelow n b next_round on_retry q t h (v, returned) o f c = (o, c)
  after_action-EndsBelow n b next_round on_retry q t h (v, threw network_error) o f c =
      let p = f refl in
      let r = t v (omega (arith, p, h)) in
      let u =
        after_on_retry-EndsBelow n (failures v) next_round q (omega (arith, p, h)) (on_retry v) r.0
          r.1 in
      (u.0, λ e. omega (arith, p, u.1 e))
  after_action-EndsBelow n b next_round on_retry q t h (v, threw connector_error) o f c = (o, c)
  after_action-EndsBelow n b next_round on_retry q t h (v, threw other_error) o f c = (o, c)
  after_action-EndsBelow n b next_round on_retry q t h (v, out_of_fuel) o f c = (o, c)

  network_retry-EndsBelow :
      (action on_retry : W → W × Ended)
      → IsEnding action
      → (n m : ℕ) → n ≤ m
      → EndsBelow m on_retry
      → EndsBelow n (network_retry n action on_retry)
  unfolding network_retry
  network_retry-EndsBelow action on_retry a zero m l t w h = absurd (omega (arith, h))
  network_retry-EndsBelow action on_retry a (suc n) m l t w h =
      let p = a w in
      after_action-EndsBelow n (failures w) (network_retry n action on_retry) on_retry
        (network_retry-EndsBelow action on_retry a n m (omega (arith, l)) t)
        (λ v g. t v (omega (arith, g, l))) (omega (arith, h)) (action w) p.0 p.1 p.2

  try_connect-IsEnding : (l : Link W) → IsEnding l.socket_connect → IsEnding (try_connect l)
  unfolding try_connect
  try_connect-IsEnding l c w = elim (Bool-cases (l.is_disconnected w)) [
    | inl d ↦ rw d (λ e. cc, λ e. cc, λ e. cc)
    | inr d ↦
        subst
          (λ r.
            (r.1 ≢ out_of_fuel)
            × (r.1 ≡ threw network_error → failures r.0 < failures w)
            × (r.1 ≡ returned → failures r.0 ≤ failures w))
          (sym (try_connect-wanted l w d)) (c w)
  ]

-- Where each network error of the socket takes off one of finitely many failures that are still to come,
-- and a call that returns adds none, more fuel than failures is enough for a write to end.
pub write-ends :
    {W : Type 0} (failures : W → ℕ) (l : Link W)
    → IsEnding failures l.socket_connect
    → IsEnding failures l.socket_write
    → (n : ℕ) (w : W) → failures w < n
    → (write l n w).1 ≢ out_of_fuel
unfolding write perform_op reconnect
write-ends failures l c a n w h =
    (network_retry-EndsBelow failures l.socket_write (λ v. reconnect l n v) a n n (omega arith)
      (network_retry-EndsBelow failures (try_connect l) (λ v. (v, returned))
        (try_connect-IsEnding failures l c) n n (omega arith) (λ v g. (λ e. cc, λ e. omega arith)))
      w h).0
