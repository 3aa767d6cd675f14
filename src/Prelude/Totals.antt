-- ===== src/Prelude/Totals.antt =====
-- Deletion from an association list, and sums over the entries whose keys pass a test.
use kubeadapt_k8s_pulse.Prelude.Tests.{Bool-cases, if◌then◌else◌}
use kubeadapt_k8s_pulse.Prelude.Lists.{length}
use kubeadapt_k8s_pulse.Prelude.Eq.{Eq}
use kubeadapt_k8s_pulse.Prelude.GoMap.{lookup, put, beq_sym, beq_swap, IsMap}
use Prim.Native.Nat.{ℕ, ◌+◌}
use mathlib.Core.Path.{◌≡◌, ap}
use mathlib.Core.Bool.{Bool, true}
use mathlib.Core.Logic.{inl, inr}
use mathlib.Core.Option.{Option, none, some}
use mathlib.Core.List.{List, [], ◌∷◌}
use native.Mathlib.Omega.{arith}

-- The measure of what stands under a key.
abbrev pub measured {κ} : {V : Type κ} → (V → ℕ) → Option V → ℕ
measured size none = 0
measured size (some v) = size v

-- 1 for a key that is new.
abbrev pub growth {κ} : {V : Type κ} → Option V → ℕ
growth none = 1
growth (some v) = 0

module _ {ℓ κ} {K : Type ℓ} {V : Type κ} ⦃e : Eq K⦄ where
  -- delete(m, k), where the key stands once
  unfoldable pub remove : K → List (K × V) → List (K × V)
  remove k [] = []
  remove k ((j, v) ∷ m) = if e.beq j k then m else (j, v) ∷ remove k m

  -- The sum of a measure of the values, over the keys that pass the test.
  unfoldable pub total : (K → Bool) → (V → ℕ) → List (K × V) → ℕ
  total w size [] = 0
  total w size ((k, v) ∷ m) = (if w k then size v else 0) + total w size m

module _ {ℓ κ} {K : Type ℓ} {V : Type κ} ⦃e : Eq K⦄ (w : K → Bool) (size : V → ℕ) where
  same_test : (j k : K) → e.beq j k ≡ true → w j ≡ w k
  same_test j k h = ap w ((e.beq_iff j k).0 h)

  pub total-put :
      (k : K) (v : V) (m : List (K × V))
      → total w size (put k v m) + (if w k then measured size (lookup k m) else 0)
        ≡ total w size m + (if w k then size v else 0)
  unfolding total put lookup
  total-put k v [] = ground arith
  total-put k v ((j, u) ∷ m) = elim (Bool-cases (e.beq j k)) [
    | inl t ↦ ground (arith, same_test j k t)
    | inr f ↦ ground (arith, total-put k v m)
  ]

  pub total-remove :
      (k : K) (m : List (K × V))
      → total w size m ≡ total w size (remove k m) + (if w k then measured size (lookup k m) else 0)
  unfolding total remove lookup
  total-remove k [] = ground arith
  total-remove k ((j, u) ∷ m) = elim (Bool-cases (e.beq j k)) [
    | inl t ↦ ground (arith, same_test j k t)
    | inr f ↦ ground (arith, total-remove k m)
  ]

module _ {ℓ κ} {K : Type ℓ} {V : Type κ} ⦃e : Eq K⦄ where
  pub length-put :
      (k : K) (v : V) (m : List (K × V)) → length (put k v m) ≡ length m + growth (lookup k m)
  unfolding put lookup
  length-put k v [] = omega arith
  length-put k v ((j, u) ∷ m) = elim (Bool-cases (e.beq j k)) [
    | inl t ↦ rw t (omega arith)
    | inr f ↦ rw f (omega (arith, length-put k v m))
  ]

  pub lookup-remove :
      (k j : K) (m : List (K × V))
      → IsMap m
      → lookup j (remove k m) ≡ (if e.beq k j then none else lookup j m)
  unfolding remove lookup
  lookup-remove k j [] h = ground arith
  lookup-remove k j ((i, u) ∷ m) h = elim (Bool-cases (e.beq i k)) [
    | inl t ↦ elim (Bool-cases (e.beq i j)) [
      | inl s ↦
          let gone : lookup j m ≡ none = rw ((e.beq_iff i j).0 s) at h.0 in
          ground (arith, beq_swap i k j t, gone)
      | inr s ↦ ground (arith, beq_swap i k j t)
    ]
    | inr f ↦ elim (Bool-cases (e.beq i j)) [
      | inl s ↦ ground (arith, beq_swap i j k s, beq_sym j k, lookup-remove k j m h.1)
      | inr s ↦ ground (arith, lookup-remove k j m h.1)
    ]
  ]

  pub remove-IsMap : (k : K) (m : List (K × V)) → IsMap m → IsMap (remove k m)
  unfolding remove
  remove-IsMap k [] h = tt
  remove-IsMap k ((i, u) ∷ m) h = elim (Bool-cases (e.beq i k)) [
    | inl t ↦ rw t h.1
    | inr f ↦ rw f (rw (lookup-remove k i m h.1) (rw (beq_sym i k f) h.0), remove-IsMap k m h.1)
  ]
