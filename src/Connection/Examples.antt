-- ===== src/Connection/Examples.antt =====
-- Tests of a write over a socket that fails some times, and the theorems there.
use replob_prototype.Prelude.{ℕ, zero, suc, ◌≡◌, ◌≢◌, refl, true, false, arith, Bool}
use replob_prototype.Connection.{
  network_error, connector_error, Ended, returned, threw, out_of_fuel, after_on_retry, after_action,
  network_retry, Link, try_connect, reconnect, perform_op, write,
}
use replob_prototype.Connection.Attempts.{write_lem}
use replob_prototype.Connection.Ending.{IsEnding, write-ends}

-- A socket that fails as often as the number says, connects and writes alike.
abbrev fails : ℕ → ℕ × Ended
fails zero = (zero, returned)
fails (suc n) = (n, threw network_error)

abbrev link : Bool → Link ℕ
link b = record { is_disconnected = λ w. b; socket_connect = fails; socket_write = fails }

fails-else : (w : ℕ) → (fails w).1 ≢ threw connector_error
fails-else zero e = cc
fails-else (suc n) e = cc

fails-IsEnding : IsEnding (λ w. w) fails
fails-IsEnding zero = (λ e. cc, λ e. cc, λ e. omega arith)
fails-IsEnding (suc n) = (λ e. cc, λ e. omega arith, λ e. cc)

connected_again : write (link false) 4 3 ≡ (0, returned)
unfolding write perform_op reconnect try_connect network_retry after_on_retry after_action
connected_again = refl

disconnected_meanwhile : write (link true) 4 3 ≡ (2, threw connector_error)
unfolding write perform_op reconnect try_connect network_retry after_on_retry after_action
disconnected_meanwhile = refl

write_lem_example :
    let r = write (link true) 4 3 in
    (r.1 ≡ returned → (u : ℕ) × (fails u ≡ (r.0, returned)))
    × (r.1 ≡ threw connector_error → true ≡ true)
    × (r.1 ≢ threw network_error)
write_lem_example = write_lem (link true) (λ w. (fails-else w, fails-else w)) 4 3

write-ends_example : (write (link false) 4 3).1 ≢ out_of_fuel
write-ends_example =
    write-ends (λ w. w) (link false) fails-IsEnding fails-IsEnding 4 3 (omega arith)
