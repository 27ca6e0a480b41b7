-- ===== src/Completer/WakeUp.antt =====
-- A wait for jobs goes on exactly when all of them are done, where FlagDone is not left over from other jobs.
use replob_prototype.Prelude.{◌+◌, ◌%◌, ◌^◌, ◌≡◌, ◌≤◌, ◌<◌, true, false, ◌==◌, if◌then◌else◌}
use replob_prototype.Completer.{int_mod}
use replob_prototype.Completer.Jobs.{
  Phase, starting, launching, waiting, interrupted, returned, System,
}

abbrev IsCounting : System → Type 0
IsCounting s =
    ((s.completer.counter + s.finished) % int_mod ≡ 0)
    × ((s.completer.jobs + s.started) % int_mod ≡ 0)
    × (s.wakes ≡ 0)
    × (s.flag ≡ false)

-- A job is launched, and `start` is still to come.
abbrev IsLaunching : System → Type 0
IsLaunching s =
    ((s.completer.counter + s.finished) % int_mod ≡ 0)
    × ((s.completer.jobs + s.started) % int_mod ≡ 1)
    × (s.wakes ≡ 0)
    × (s.flag ≡ false)

abbrev IsWaiting : System → Type 0
IsWaiting s =
    (s.completer.counter + s.finished ≡ s.started)
    × (s.completer.jobs ≡ s.started)
    × (0 < s.started)
    × (s.wakes ≡ (if s.finished == s.started then 1 else 0))
    × ((s.finished == s.started) ≡ false → s.flag ≡ false)

abbrev IsReturned : System → Type 0
IsReturned s = (s.completer.counter ≡ 0) × (s.completer.jobs ≡ 0) × (s.finished ≡ s.started)

abbrev FitsPhase : Phase → System → Type 0
FitsPhase starting s = IsCounting s
FitsPhase launching s = IsLaunching s
FitsPhase waiting s = IsWaiting s × ((s.finished == s.started) ≡ true → s.flag ≡ true)
FitsPhase interrupted s = IsWaiting s
FitsPhase returned s = IsReturned s

abbrev Fits : System → Type 0
Fits s =
    (s.finished ≤ s.started)
    × (s.started < 2 ^ 31)
    × (s.completer.counter < int_mod)
    × (s.completer.jobs < int_mod)
    × FitsPhase s.phase s
