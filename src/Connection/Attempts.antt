-- ===== src/Connection/Attempts.antt =====
-- How a write through a connection ends.
use replob_prototype.Prelude.{
  sym, ℕ, zero, suc, ◌≡◌, ◌≢◌, refl, ap, ◌∙◌, Bool-cases, true, false, inl, inr,
}
use replob_prototype.Connection.{
  network_error, connector_error, other_error, Ended, returned, threw, out_of_fuel, after_on_retry,
  after_action, network_retry, Link, try_connect, reconnect, perform_op, write,
}

module _ {W : Type 0} (Q : W × Ended → Type 0) where
  -- What holds of each way in which a call can end holds of how its retries end.
  pub after_on_retry-ends :
      (next_round : W → W × Ended)
      → ((w : W) → Q (next_round w))
      → (r : W × Ended) → (r.1 ≢ returned → Q r)
      → Q (after_on_retry next_round r)
  unfolding after_on_retry
  after_on_retry-ends next_round q (v, returned) h = q v
  after_on_retry-ends next_round q (v, threw x) h = h (λ e. cc)
  after_on_retry-ends next_round q (v, out_of_fuel) h = h (λ e. cc)

  after_action-ends :
      (next_round on_retry : W → W × Ended)
      → ((w : W) → Q (after_on_retry next_round (on_retry w)))
      → (r : W × Ended) → (r.1 ≢ threw network_error → Q r)
      → Q (after_action next_round on_retry r)
  unfolding after_action
  after_action-ends next_round on_retry q (v, returned) h = h (λ e. cc)
  after_action-ends next_round on_retry q (v, threw network_error) h = q v
  after_action-ends next_round on_retry q (v, threw connector_error) h = h (λ e. cc)
  after_action-ends next_round on_retry q (v, threw other_error) h = h (λ e. cc)
  after_action-ends next_round on_retry q (v, out_of_fuel) h = h (λ e. cc)

  network_retry-ends :
      (action on_retry : W → W × Ended)
      → ((w : W) → (action w).1 ≢ threw network_error → Q (action w))
      → ((w : W) → (on_retry w).1 ≢ returned → Q (on_retry w))
      → ((w : W) → Q (w, out_of_fuel))
      → (n : ℕ) (w : W) → Q (network_retry n action on_retry w)
  unfolding network_retry
  network_retry-ends action on_retry a o z zero w = z w
  network_retry-ends action on_retry a o z (suc n) w =
      let next_round = network_retry n action on_retry in
      after_action-ends next_round on_retry
        (λ v.
          after_on_retry-ends next_round (network_retry-ends action on_retry a o z n) (on_retry v)
            (o v))
        (action w) (a w)

module _ {W : Type 0} (l : Link W) where
  -- The socket throws no ConnectorError, which is an exception of this code only.
  abbrev pub IsSocket : Type 0
  IsSocket =
      (w : W)
      → ((l.socket_connect w).1 ≢ threw connector_error)
        × ((l.socket_write w).1 ≢ threw connector_error)

  abbrev IsThrown : W × Ended → Type 0
  IsThrown r =
      (r.1 ≡ threw connector_error → l.is_disconnected r.0 ≡ true) × (r.1 ≢ threw network_error)

  abbrev IsWritten : W × Ended → Type 0
  IsWritten r = (r.1 ≡ returned → (w : W) × (l.socket_write w ≡ (r.0, returned))) × IsThrown r

  pub try_connect-wanted :
      (w : W) → l.is_disconnected w ≡ false → try_connect l w ≡ l.socket_connect w
  unfolding try_connect
  try_connect-wanted w d = rw (try_connect, d) refl

  try_connect-IsThrown :
      IsSocket → (w : W) → (try_connect l w).1 ≢ threw network_error → IsThrown (try_connect l w)
  unfolding try_connect
  try_connect-IsThrown s w h = elim (Bool-cases (l.is_disconnected w)) [
    | inl d ↦ (λ e. rw d d, h)
    | inr d ↦ (λ e. absurd ((s w).0 (sym (ap (λ r. r.1) (try_connect-wanted w d)) ∙ e)), h)
  ]

  reconnect-IsThrown : IsSocket → (n : ℕ) (w : W) → IsThrown (reconnect l n w)
  unfolding reconnect
  reconnect-IsThrown s n w =
      network_retry-ends IsThrown (try_connect l) (λ v. (v, returned)) (try_connect-IsThrown s)
        (λ v h. absurd (h refl)) (λ v. (λ e. cc, λ e. cc)) n w

-- A write through a connection returns only when a write of the socket has returned. It throws a
-- ConnectorError only when the connection has been disconnected, and it never throws a network error.
pub write_lem :
    {W : Type 0} (l : Link W)
    → IsSocket l
    → (n : ℕ) (w : W)
    → let r = write l n w in
      (r.1 ≡ returned → (u : W) × (l.socket_write u ≡ (r.0, returned)))
      × (r.1 ≡ threw connector_error → l.is_disconnected r.0 ≡ true)
      × (r.1 ≢ threw network_error)
unfolding write perform_op
write_lem l s n w =
    let t =
      network_retry-ends (IsWritten l) l.socket_write (λ v. reconnect l n v)
        (λ v h. (λ e. (v, ap (λ x. ((l.socket_write v).0, x)) e), (λ e. absurd ((s v).1 e), h)))
        (λ v h. (λ e. absurd (h e), reconnect-IsThrown l s n v))
        (λ v. (λ e. cc, (λ e. cc, λ e. cc))) n w in
    (t.0, t.1.0, t.1.1)
