-- ===== src/Prelude/Family.antt =====
-- Families over ℕ: a change at one index, and the sum over the first indices.
use Prim.Native.Nat.{ℕ, zero, suc, ◌+◌, ◌<◌, ◌≤◌}
use mathlib.Core.Path.{◌≡◌, refl}
use native.Mathlib.Decide.{dec_lt}
use native.Mathlib.Omega.{arith}
use kubeadapt_k8s_pulse.Prelude.Tests.{◌==◌, if◌then◌else◌}

-- a[i] = v
abbrev pub set_at {ℓ} : {A : Type ℓ} → ℕ → A → (ℕ → A) → ℕ → A
set_at i v f j = if i == j then v else f j

module _ {ℓ} {A : Type ℓ} (size : A → ℕ) where
  -- The sum of the sizes of the first n members.
  unfoldable pub sum_below : ℕ → (ℕ → A) → ℕ
  sum_below zero f = 0
  sum_below (suc n) f = sum_below n f + size (f n)

  sum_below-set_at_beyond :
      (n : ℕ) (f : ℕ → A) (i : ℕ) (v : A) → n ≤ i → sum_below n (set_at i v f) ≡ sum_below n f
  unfolding sum_below
  sum_below-set_at_beyond zero f i v h = refl
  sum_below-set_at_beyond (suc n) f i v h = ground (arith, sum_below-set_at_beyond n f i v)

  pub sum_below-set_at :
      (n : ℕ) (f : ℕ → A) (i : ℕ) (v : A)
      → i < n
      → sum_below n (set_at i v f) + size (f i) ≡ sum_below n f + size v
  unfolding sum_below
  sum_below-set_at zero f i v h = elim h [ ]
  sum_below-set_at (suc n) f i v h = elim (dec_lt i n) [
    | yes below ↦ ground (arith, sum_below-set_at n f i v)
    | no last ↦ ground (arith, sum_below-set_at_beyond n f i v)
  ]
