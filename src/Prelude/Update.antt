-- ===== src/Prelude/Update.antt =====
-- A family indexed by numbers, changed at one index.
use Prim.Native.Nat.{ℕ}
use mathlib.Core.Path.{◌≡◌, subst}
use mathlib.Core.Logic.{◌≢◌, inl, inr}
use native.Mathlib.Omega.{arith}
use replob_prototype.Prelude.Tests.{◌==◌, ==_iff, Bool-cases, if◌then◌else◌}

abbrev pub update {ℓ} : {A : Type ℓ} → (ℕ → A) → ℕ → A → ℕ → A
update f i a j = if i == j then a else f j

pub update_self {ℓ} : {A : Type ℓ} (f : ℕ → A) (i : ℕ) (a : A) → update f i a i ≡ a
update_self f i a = ground arith

pub update_ne {ℓ} : {A : Type ℓ} (f : ℕ → A) (i j : ℕ) (a : A) → i ≢ j → update f i a j ≡ f j
update_ne f i j a h = ground arith

-- What holds of the new value and of the old family elsewhere holds of the changed family.
pub update_all {ℓ κ} :
    {A : Type ℓ} (P : ℕ → A → Type κ) (f : ℕ → A) (i : ℕ) (a : A)
    → P i a
    → ((j : ℕ) → i ≢ j → P j (f j))
    → (j : ℕ) → P j (update f i a j)
update_all P f i a here there j = elim (Bool-cases (i == j)) [
  | inl e ↦ rw e (subst (λ k. P k a) ((==_iff i j).0 e) here)
  | inr e ↦ rw e (there j (ground arith))
]

-- Two families, changed at the same index
pub update_both {ℓ μ κ} :
    {A : Type ℓ} {B : Type μ} (P : ℕ → A → B → Type κ) (f : ℕ → A) (g : ℕ → B) (i : ℕ) (a : A)
    (b : B)
    → P i a b
    → ((j : ℕ) → i ≢ j → P j (f j) (g j))
    → (j : ℕ) → P j (update f i a j) (update g i b j)
update_both P f g i a b here there j = elim (Bool-cases (i == j)) [
  | inl e ↦ rw e (subst (λ k. P k a b) ((==_iff i j).0 e) here)
  | inr e ↦ rw e (there j (ground arith))
]
