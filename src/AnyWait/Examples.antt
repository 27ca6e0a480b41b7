-- ===== src/AnyWait/Examples.antt =====
-- Tests of two handlers, and the theorem there.
use replob_prototype.Prelude.{◌≡◌, refl, arith, [], ◌∷◌}
use replob_prototype.AnyWait.{
  AnyWait, begun, count_up, proceed, throw, Reach, counts, proceeds, throws, here, next,
}
use replob_prototype.AnyWait.First.{IsTold, any_wait_lem}

-- Of three handlers the first throws, the third is the first to end, and the second ends before the caller
-- is told.
abbrev told : AnyWait
told = proceed 2 (count_up 1 (count_up 2 (throw 0 (begun 3))))

told_third : (told.index ≡ 2) × (told.proceeds ≡ 1) × (told.finished ≡ 2 ∷ 1 ∷ [])
unfolding begun count_up proceed throw
told_third = (refl, refl, refl)

-- Where every handler throws, nothing lets the caller go on.
never_told : (throw 1 (throw 0 (begun 2))).proceeds ≡ 0
unfolding begun throw
never_told = refl

told-Reach : Reach 3 told
unfolding begun count_up proceed throw
told-Reach =
    next
      (next (next (next here (throws 0 refl)) (counts 2 refl (omega arith)))
        (counts 1 refl (omega arith)))
      (proceeds 2 refl)

any_wait_lem_example : IsTold 3 told told.finished
any_wait_lem_example = any_wait_lem told-Reach
