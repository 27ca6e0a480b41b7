-- ===== src/Completer/Jobs.antt =====
-- The owner of a completer and the jobs that it waits for, one operation of `Completer2` a step.
use replob_prototype.Prelude.{ℕ, ◌+◌, ◌^◌, ◌≡◌, ◌<◌, Bool, true, false, if◌then◌else◌}
use replob_prototype.Completer.{Completer2, constructed, start, done, wait, finish_wait}

-- Where the owner of the completer stands: it starts jobs, it has launched one for which `start` follows, it is
-- in `waitForDone`, that has thrown an event, or a `wait` has returned.
pub data Phase : Type 0 where
  starting launching waiting interrupted returned : Phase

-- `started` counts the jobs launched and `finished` those ended since the last `wait` that returned, and `wakes`
-- the calls of `doer_.done()`; `flag` is FlagDone of the owner's word.
pub record System : Type 0 where
  pub completer : Completer2
  pub phase : Phase
  pub started : ℕ
  pub finished : ℕ
  pub wakes : ℕ
  pub flag : Bool

abbrev pub idle : System
idle = record {
  completer = constructed;
  phase = starting;
  started = 0;
  finished = 0;
  wakes = 0;
  flag = false;
}

-- `Awaiter2::go` launches the job, and then calls `start`.
abbrev pub launched : System → System
launched s = record s { phase = launching; started = s.started + 1 }

abbrev pub one_started : System → System
one_started s = record s { completer = start s.completer; phase = starting }

abbrev pub one_finished : System → System
one_finished s = record s {
  completer = (done s.completer).0;
  finished = s.finished + 1;
  wakes = s.wakes + (if (done s.completer).1 then 1 else 0);
  flag = if (done s.completer).1 then true else s.flag;
}

abbrev pub waited_by : System → Completer2 × Bool → System
waited_by s r = record s { completer = r.0; phase = if r.1 then returned else waiting }

abbrev pub waited : System → System
waited s = waited_by s (wait s.completer)

-- `waitForDone` has found FlagDone, and `handleEvents` resets it, whether it throws an event or not.
abbrev pub resumed : System → System
resumed s = record s { completer = finish_wait s.completer; phase = returned; flag = false }

abbrev pub thrown : System → System
thrown s = record s { phase = interrupted; flag = false }

-- The next jobs; FlagDone stays as it is.
abbrev pub restarted : System → System
restarted s = record s { phase = starting; started = 0; finished = 0; wakes = 0 }

-- A job finishes once, at any time after its launch. There are fewer than 2^31 jobs. Where `clean` is true, the
-- owner starts no further jobs while FlagDone is left over from the last ones.
pub data Step (clean : Bool) (s : System) : System → Type 0 where
  launches : s.phase ≡ starting → s.started + 1 < 2 ^ 31 → Step clean s (launched s)
  starts : s.phase ≡ launching → Step clean s (one_started s)
  finishes : s.finished < s.started → Step clean s (one_finished s)
  waits : s.phase ≡ starting → Step clean s (waited s)
  resumes : s.phase ≡ waiting → s.flag ≡ true → Step clean s (resumed s)
  interrupts : s.phase ≡ waiting → Step clean s (thrown s)
  waits_again : s.phase ≡ interrupted → Step clean s (waited s)
  restarts : s.phase ≡ returned → (clean ≡ true → s.flag ≡ false) → Step clean s (restarted s)

pub data Reach (clean : Bool) : System → Type 0 where
  here : Reach clean idle
  next : {s t : System} → Reach clean s → Step clean s t → Reach clean t
