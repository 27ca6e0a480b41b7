-- ===== src/Pipeline/Examples.antt =====
-- Tests of a pipeline that squares numbers, and the theorems there.
use replob_prototype.Prelude.{
  ◌≤◌, false, length, ℕ, ◌*◌, ◌≡◌, refl, true, none, some, List, [], ◌∷◌, ◌++◌,
}
use replob_prototype.Journey.{constructed}
use replob_prototype.Oers.{Journeys}
use replob_prototype.Channel.{put, hand_first}
use replob_prototype.Pipeline.{
  values_of, one_to_one, one_to_zero_or_one, Pipes, piped, got, put_next, put_all, feed, feeds,
  gets, puts, goes_on, Reach, here, next,
}
use replob_prototype.Pipeline.Fits.{outputs, left, is_ended}
use replob_prototype.Pipeline.Single.{single_pipe}
use replob_prototype.Pipeline.Loss.{two_pipes_lose}

abbrev square : ℕ → List ℕ
square = one_to_one (λ v. some (v * v))

skipped : one_to_zero_or_one {T = ℕ} {U = ℕ} (λ v. some none) 3 ≡ []
unfolding one_to_zero_or_one
skipped = refl

abbrev parked : Journeys
parked = λ j. constructed

-- 3 and 4 are put, and the first of them has been squared.
abbrev half_way : Pipes ℕ ℕ
half_way = put_all 0 (put_next parked 0 9 [] (got square 0 3 (4 ∷ []) (feed 4 (feed 3 (piped 1)))))

half_way-Reach : Reach square 1 half_way
unfolding piped feed got put_next put_all put hand_first one_to_one
half_way-Reach =
    next
      (next
        (next (next (next here (feeds 3 refl)) (feeds 4 refl)) (gets 0 3 (4 ∷ []) refl refl refl))
        (puts parked 0 9 [] refl))
      (goes_on 0 refl)

squared : half_way.given ≡ 9 ∷ []
unfolding piped feed got put_next put_all put hand_first one_to_one
squared = refl

single_pipe_example :
    (half_way.given ++ left (half_way.journeys 0) ≡ outputs square half_way.taken)
    × (half_way.taken ++ half_way.dropped ++ values_of (half_way.handed 0) ++ half_way.source
        ≡ half_way.fed)
    × (is_ended (half_way.journeys 0) ≡ false → half_way.dropped ≡ [])
    × (length half_way.dropped ≤ 1)
    × (half_way.lost ≡ [])
    × (half_way.target.closed ≡ is_ended (half_way.journeys 0))
single_pipe_example = single_pipe square half_way-Reach

two_pipes_lose_example :
    (s : Pipes ℕ ℕ) × Reach square 2 s
    × (s.fed ≡ 3 ∷ [])
    × (s.lost ≡ square 3)
    × (s.given ≡ [])
    × (s.target.queue ≡ [])
    × (s.target.closed ≡ true)
unfolding one_to_one
two_pipes_lose_example = two_pipes_lose square 3 9 [] refl
