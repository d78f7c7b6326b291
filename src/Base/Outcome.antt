-- ===== src/Base/Outcome.antt =====
-- The outcome of kernel code that may end in `panic` (src/kernel.cpp).
use mathlib.Core.Path.{◌≡◌, refl}
use mathlib.Core.Logic.{◌⊎◌, inl, inr}

pub data Result {ℓ} (A : Type ℓ) : Type ℓ where
  ok : A → Result A
  panic : Result A

pub Result-cases {ℓ} : {A : Type ℓ} (r : Result A) → ((a : A) × (r ≡ ok a)) ⊎ (r ≡ panic)
Result-cases (ok a) = inl (a, refl)
Result-cases panic = inr refl
