-- ===== src/Connection.antt =====
-- The retries of include/synca/once/connector.h and src/connector.cpp. `W` is everything that the calls of
-- the socket change, what others do to the connection meanwhile included; `connect` and `write` of the
-- socket are parameters. A loop takes fuel, one for each round.
pub mod Attempts
pub mod Ending
mod Examples
use replob_prototype.Prelude.{ℕ, zero, suc, Bool, true, false, if◌then◌else◌}

-- An exception is a NetworkError, the ConnectorError of `reconnect`, or another, as a cancellation.
pub data Error : Type 0 where
  network_error connector_error other_error : Error

-- How a call ends. Only loops run out.
pub data Ended : Type 0 where
  returned : Ended
  threw : Error → Ended
  out_of_fuel : Ended

module _ {W : Type 0} where
  -- What follows `onRetry`, where `next_round` is the next round
  unfoldable pub after_on_retry : (W → W × Ended) → W × Ended → W × Ended
  after_on_retry next_round (w, returned) = next_round w
  after_on_retry next_round (w, threw x) = (w, threw x)
  after_on_retry next_round (w, out_of_fuel) = (w, out_of_fuel)

  -- What follows `action`
  unfoldable pub after_action : (W → W × Ended) → (W → W × Ended) → W × Ended → W × Ended
  after_action next_round on_retry (w, returned) = (w, returned)
  after_action next_round on_retry (w, threw network_error) = after_on_retry next_round (on_retry w)
  after_action next_round on_retry (w, threw connector_error) = (w, threw connector_error)
  after_action next_round on_retry (w, threw other_error) = (w, threw other_error)
  after_action next_round on_retry (w, out_of_fuel) = (w, out_of_fuel)

  -- `networkRetry`, which is `retry<NetworkError>`
  unfoldable pub network_retry : ℕ → (W → W × Ended) → (W → W × Ended) → W → W × Ended
  network_retry zero action on_retry w = (w, out_of_fuel)
  network_retry (suc n) action on_retry w =
      after_action (network_retry n action on_retry) on_retry (action w)

-- The socket and the flag `disconnected_`
pub record Link (W : Type 0) : Type 0 where
  pub is_disconnected : W → Bool
  pub socket_connect : W → W × Ended
  pub socket_write : W → W × Ended

module _ {W : Type 0} (l : Link W) where
  -- the action of `reconnect`
  unfoldable pub try_connect : W → W × Ended
  try_connect w = if l.is_disconnected w then (w, threw connector_error) else l.socket_connect w

  unfoldable pub reconnect : ℕ → W → W × Ended
  reconnect n w = network_retry n try_connect (λ v. (v, returned)) w

  -- `performOp`
  unfoldable pub perform_op : ℕ → (W → W × Ended) → W → W × Ended
  perform_op n f w = network_retry n f (λ v. reconnect n v) w

  -- `write` after its lock
  unfoldable pub write : ℕ → W → W × Ended
  write n w = perform_op n l.socket_write w
