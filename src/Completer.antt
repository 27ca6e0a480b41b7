-- ===== src/Completer.antt =====
-- `Completer2` of include/synca/once/core.h and src/core.cpp: the counter on which `Awaiter2` waits for
-- the journeys that it has started. The two `int` fields are their two's complement numbers below 2^32.
pub mod Jobs
pub mod WakeUp
mod Examples
use replob_prototype.Prelude.{ℕ, ◌+◌, ◌-◌, ◌%◌, ◌^◌, Bool, true, false, ◌==◌, leb, if◌then◌else◌}

abbrev pub int_mod : ℕ
int_mod = 2 ^ 32

abbrev pub is_negative : ℕ → Bool
is_negative n = leb (2 ^ 31) n

pub record Completer2 : Type 0 where
  pub jobs : ℕ
  pub counter : ℕ

abbrev pub constructed : Completer2
constructed = record { jobs = 0; counter = 0 }

-- `start`, `-- jobs_`
unfoldable pub start : Completer2 → Completer2
start c = record c { jobs = (c.jobs + (int_mod - 1)) % int_mod }

unfoldable pub add : ℕ → Completer2 → Completer2 × Bool
add v c = (record c { counter = (c.counter + v) % int_mod }, (c.counter + v) % int_mod == 0)

-- `done`, with whether it calls `doer_.done()`
unfoldable pub done : Completer2 → Completer2 × Bool
done c = add (int_mod - 1) c

-- `wait0` up to `waitForDone`, with whether it returns before that
unfoldable pub wait0 : Completer2 → Completer2 × Bool
wait0 c =
    if is_negative c.jobs
    then add ((int_mod - c.jobs) % int_mod) (record c { jobs = (int_mod - c.jobs) % int_mod })
    else (c, c.counter == 0)

-- the end of `wait`, after `wait0`
unfoldable pub finish_wait : Completer2 → Completer2
finish_wait c = record c { jobs = 0 }

-- `wait`, with whether it returns; otherwise it has come to `waitForDone`, and `finish_wait` follows
-- where that does not throw.
unfoldable pub wait : Completer2 → Completer2 × Bool
wait c =
    if c.jobs == 0
    then (c, true)
    else (if (wait0 c).1 then (finish_wait (wait0 c).0, true) else ((wait0 c).0, false))
