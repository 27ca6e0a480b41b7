-- ===== src/Completer/Examples.antt =====
-- Runs of a completer: one with two jobs, and one where FlagDone is left over.
use replob_prototype.Prelude.{◌≡◌, refl, arith, false}
use replob_prototype.Completer.{start, add, done, wait0, wait, finish_wait}
use replob_prototype.Completer.Jobs.{
  waiting, returned, System, idle, launched, one_started, one_finished, waited, resumed, thrown,
  restarted, launches, starts, finishes, waits, resumes, interrupts, waits_again, restarts, Reach,
  here, next,
}

-- Two jobs are started, one is done, the owner waits, and the other is done.
abbrev one_job : System → System
one_job s = one_started (launched s)

abbrev half_done : System
half_done = one_finished (one_job (one_job idle))

abbrev owner_waits : System
owner_waits = waited half_done

abbrev all_done : System
all_done = one_finished owner_waits

waits_first : owner_waits.phase ≡ waiting
unfolding start add done wait wait0
waits_first = refl

woken_once : all_done.wakes ≡ 1
unfolding start add done wait wait0
woken_once = refl

-- The owner waits for a job, an event ends the wait, and the job ends after that: the second wait returns for
-- its counter, and FlagDone stays.
abbrev left_over : System
left_over = waited (one_finished (thrown (waited (one_job idle))))

-- The owner launches the next job, and waits for it.
abbrev stale : System
stale = waited (one_job (restarted left_over))

left_over-Reach : Reach false left_over
unfolding start add done wait wait0
left_over-Reach =
    next
      (next
        (next (next (next (next here (launches refl (omega arith))) (starts refl)) (waits refl))
          (interrupts refl))
        (finishes (omega arith)))
      (waits_again refl)

-- That wait returns while the job still runs.
returns_early :
    Reach false (resumed stale)
    × ((resumed stale).phase ≡ returned)
    × ((resumed stale).finished ≡ 0)
    × ((resumed stale).started ≡ 1)
unfolding start add done wait wait0 finish_wait
returns_early = (
  next
      (next
        (next (next (next left_over-Reach (restarts refl (λ h. cc))) (launches refl (omega arith)))
          (starts refl))
        (waits refl))
      (resumes refl refl),
  refl,
  refl,
  refl,
)
