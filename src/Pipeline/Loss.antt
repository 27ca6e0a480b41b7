-- ===== src/Pipeline/Loss.antt =====
-- A pipeline of two journeys that closes its target too early.
use replob_prototype.Prelude.{◌≡◌, refl, sym, ap, true, List, [], ◌∷◌}
use replob_prototype.Journey.{constructed}
use replob_prototype.Oers.{Journeys}
use replob_prototype.Channel.{put, close}
use replob_prototype.Pipeline.{
  Pipes, putting, piped, got, put_next, end, feed, feeds, closes, gets, puts, ends, Reach, here,
  next,
}

abbrev nowhere : Journeys
nowhere = λ j. constructed

module _ {T U : Type 0} (body : T → List U) (v : T) where
  -- Journey 0 has taken the only value when journey 1 finds that the source has ended.
  abbrev fed_once : Pipes T U
  fed_once = record (feed v (piped 2)) { source_closed = true }

  abbrev both_took : Pipes T U
  both_took = got body 0 v [] fed_once

  abbrev closed_early : Pipes T U
  closed_early = end nowhere 1 both_took

  closed_early-Reach : Reach body 2 closed_early
  unfolding piped feed got
  closed_early-Reach =
      next (next (next (next here (feeds v refl)) closes) (gets 0 v [] refl refl refl))
        (ends nowhere 1 refl refl refl refl)

  -- Of two journeys one can end, and so close the target, while the other still has something to put: in a run
  -- where one value has been put into the source, and the source has been closed after it, all that the
  -- handler makes of that value is lost, and nothing has come to the target.
  pub two_pipes_lose :
      (u : U) (us : List U)
      → body v ≡ u ∷ us
      → (s : Pipes T U) × Reach body 2 s
        × (s.fed ≡ v ∷ [])
        × (s.lost ≡ body v)
        × (s.given ≡ [])
        × (s.target.queue ≡ [])
        × (s.target.closed ≡ true)
  unfolding put_next put end close piped feed got
  two_pipes_lose u us e = (
    put_next nowhere 0 u us closed_early,
    next closed_early-Reach (puts nowhere 0 u us (ap putting e)),
    refl,
    sym e,
    refl,
    refl,
    refl,
  )
