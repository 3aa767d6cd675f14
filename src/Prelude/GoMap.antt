-- ===== src/Prelude/GoMap.antt =====
-- Go's `map[K]V` as an association list, and `range` over it in an order that Go does not fix.
use mathlib.Core.List.{Permᴰ}
use Prim.Native.Nat.{◌≤◌}
use mathlib.Core.Path.{◌≡◌, refl, ap, ◌∙◌}
use mathlib.Core.Bool.{true, false}
use mathlib.Core.Logic.{inl, inr}
use mathlib.Core.Option.{Option, none, some}
use mathlib.Core.List.{List, [], ◌∷◌}
use native.Mathlib.Omega.{arith}
use kubeadapt_k8s_pulse.Prelude.Tests.{if◌then◌else◌, Bool-cases}
use kubeadapt_k8s_pulse.Prelude.Lists.{length}
use kubeadapt_k8s_pulse.Prelude.Eq.{Eq}

abbrev pub or_else {ℓ} : {V : Type ℓ} → Option V → V → V
or_else none d = d
or_else (some v) d = v

abbrev pub to_list {ℓ} : {V : Type ℓ} → Option V → List V
to_list none = []
to_list (some v) = v ∷ []

module _ {ℓ κ} {K : Type ℓ} {V : Type κ} ⦃e : Eq K⦄ where
  -- v, ok := m[k]
  unfoldable pub lookup : K → List (K × V) → Option V
  lookup k [] = none
  lookup k ((j, v) ∷ m) = if e.beq j k then some v else lookup k m

  -- m[k] = v
  unfoldable pub put : K → V → List (K × V) → List (K × V)
  put k v [] = (k, v) ∷ []
  put k v ((j, w) ∷ m) = if e.beq j k then (j, v) ∷ m else (j, w) ∷ put k v m

  -- All values that stand under a key.
  unfoldable pub values : K → List (K × V) → List V
  values k [] = []
  values k ((j, v) ∷ m) = if e.beq j k then v ∷ values k m else values k m

  -- No key stands twice.
  abbrev pub IsMap : List (K × V) → Type κ
  IsMap [] = Unit
  IsMap ((k, v) ∷ m) = (lookup k m ≡ none) × IsMap m

module _ {ℓ} {K : Type ℓ} ⦃e : Eq K⦄ where
  pub beq_self : (k : K) → e.beq k k ≡ true
  beq_self k = (e.beq_iff k k).1 refl

  -- Equal keys give the same answer to every test.
  pub beq_swap : (i j k : K) → e.beq i j ≡ true → e.beq i k ≡ e.beq j k
  beq_swap i j k h = ap (λ x. e.beq x k) ((e.beq_iff i j).0 h)

  pub beq_sym : (i j : K) → e.beq i j ≡ false → e.beq j i ≡ false
  beq_sym i j h = elim (Bool-cases (e.beq j i)) [
    | inl t ↦ cc (h, t, (e.beq_iff j i).0 t, beq_self i)
    | inr f ↦ f
  ]

module _ {ℓ κ} {K : Type ℓ} {V : Type κ} ⦃e : Eq K⦄ where
  pub lookup-put :
      (k j : K) (v : V) (m : List (K × V))
      → lookup j (put k v m) ≡ (if e.beq k j then some v else lookup j m)
  unfolding lookup put
  lookup-put k j v [] = refl
  lookup-put k j v ((i, w) ∷ m) = elim (Bool-cases (e.beq i k)) [
    | inl h ↦ ground (arith, beq_swap i k j h)
    | inr h ↦ elim (Bool-cases (e.beq i j)) [
      | inl t ↦ ground (arith, beq_swap i j k t, beq_sym j k, lookup-put k j v m)
      | inr f ↦ ground (arith, lookup-put k j v m)
    ]
  ]

  pub put-IsMap : (k : K) (v : V) (m : List (K × V)) → IsMap m → IsMap (put k v m)
  unfolding lookup put
  put-IsMap k v [] h = (refl, tt)
  put-IsMap k v ((i, w) ∷ m) h = elim (Bool-cases (e.beq i k)) [
    | inl t ↦ rw t h
    | inr f ↦ rw f (rw (lookup-put k i v m) (rw (beq_sym i k f) h.0), put-IsMap k v m h.1)
  ]

  values_missing : (k : K) (m : List (K × V)) → lookup k m ≡ none → values k m ≡ []
  unfolding lookup values
  values_missing k [] h = refl
  values_missing k ((i, w) ∷ m) h = ground (arith, values_missing k m)

  -- A map has at most one value under a key.
  pub values-lookup : (k : K) (m : List (K × V)) → IsMap m → values k m ≡ to_list (lookup k m)
  unfolding lookup values
  values-lookup k [] h = refl
  values-lookup k ((i, w) ∷ m) h = elim (Bool-cases (e.beq i k)) [
    | inl t ↦ rw t (ap (λ l. w ∷ l) (values_missing k m (rw ((e.beq_iff i k).0 t) at h.0)))
    | inr f ↦ rw f (values-lookup k m h.1)
  ]

  -- In whatever order a map is ranged over, a key that stands once is met with its own value.
  pub values-perm_at_most_one :
      {l m : List (K × V)} (k : K) → Permᴰ l m → length (values k m) ≤ 1 → values k l ≡ values k m
  unfolding values
  values-perm_at_most_one k Permᴰ.nil h = refl
  values-perm_at_most_one k (Permᴰ.cons p q) h =
      ground (arith, p, values-perm_at_most_one k q (ground arith))
  values-perm_at_most_one k (Permᴰ.swap p q) h = ground (arith, p, q)
  values-perm_at_most_one k (Permᴰ.trans p q) h =
      let after = values-perm_at_most_one k q h in
      values-perm_at_most_one k p (ground (arith, after)) ∙ after
