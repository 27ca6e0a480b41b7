-- ===== src/AnyResult/Examples.antt =====
-- Tests of three handlers, and the theorems there.
use replob_prototype.Prelude.{ℕ, ◌≡◌, refl, arith, some}
use replob_prototype.AnyResult.{
  AnyResult, any_started, give, give_none, proceed_with, all_started, destroy, Step, gives,
  gives_none, proceeds, starts_all, destroys, Reach, here, next,
}
use replob_prototype.AnyResult.Answer.{IsAnswered, any_result_lem, any_result-returns}

-- Of three handlers the first throws, the second gives 5 and the third 6 before the caller is told.
abbrev two_given : AnyResult ℕ
two_given = give 6 (give 5 (give_none (any_started 3)))

two_given-Reach : Reach 3 two_given
unfolding any_started give_none give
two_given-Reach =
    next (next (next (here (omega arith)) (gives_none (omega arith))) (gives 5 (omega arith)))
      (gives 6 (omega arith))

any_result_lem_example : IsAnswered two_given two_given.first
any_result_lem_example = any_result_lem two_given-Reach

-- The caller has been told, and the counter is gone.
abbrev over : AnyResult ℕ
over = destroy (all_started (proceed_with 5 two_given))

told_five : (over.result ≡ some 5) × (over.proceeds ≡ 1)
unfolding any_started give_none give proceed_with all_started destroy
told_five = (refl, refl)

over-Reach : Reach 3 over
unfolding any_started give_none give proceed_with all_started destroy
over-Reach =
    next (next (next two_given-Reach (proceeds 5 refl)) (starts_all refl))
      (destroys refl refl refl refl)

over-stuck : (t : AnyResult ℕ) → Step over t → ⊥
unfolding any_started give_none give proceed_with all_started destroy
over-stuck t (gives r h) = omega (arith, h)
over-stuck t (gives_none h) = omega (arith, h)
over-stuck t (proceeds r h) = cc
over-stuck t (starts_all h) = cc
over-stuck t (destroys z w st d) = cc

any_result-returns_example : (over.proceeds ≡ 1) × (over.result ≡ over.first)
any_result-returns_example = any_result-returns over-Reach over-stuck
