-- ===== src/Prelude/Each.antt =====
-- What holds of every element of a list, through the operations on lists and on association lists.
use mathlib.Core.List.{Permᴰ}
use Prim.Native.Nat.{ℕ, zero, suc}
use mathlib.Core.Path.{sym}
use mathlib.Core.Path.{subst}
use mathlib.Core.Logic.{inl, inr}
use mathlib.Core.List.{List, [], ◌∷◌, ◌++◌}
use kubeadapt_k8s_pulse.Prelude.Tests.{Bool-cases}
use kubeadapt_k8s_pulse.Prelude.Lists.{All, take, drop}
use kubeadapt_k8s_pulse.Prelude.Eq.{Eq}
use kubeadapt_k8s_pulse.Prelude.GoMap.{put}

module _ {ℓ κ} {A : Type ℓ} (P : A → Type κ) where
  pub All-append : (xs ys : List A) → All P xs → All P ys → All P (xs ++ ys)
  All-append [] ys hx hy = hy
  All-append (x ∷ xs) ys hx hy = (hx.0, All-append xs ys hx.1 hy)

  pub All-take : (n : ℕ) (xs : List A) → All P xs → All P (take n xs)
  All-take zero xs h = tt
  All-take (suc n) [] h = tt
  All-take (suc n) (x ∷ xs) h = (h.0, All-take n xs h.1)

  pub All-drop : (n : ℕ) (xs : List A) → All P xs → All P (drop n xs)
  All-drop zero xs h = h
  All-drop (suc n) [] h = tt
  All-drop (suc n) (x ∷ xs) h = All-drop n xs h.1

  -- The predicate of a rearranged list.
  pub All-perm : {xs ys : List A} → Permᴰ xs ys → All P ys → All P xs
  All-perm Permᴰ.nil h = h
  All-perm (Permᴰ.cons p q) h = (subst P (sym p) h.0, All-perm q h.1)
  All-perm (Permᴰ.swap p q) h = (subst P (sym p) h.1.0, (subst P (sym q) h.0, h.1.1))
  All-perm (Permᴰ.trans p q) h = All-perm p (All-perm q h)

module _ {ℓ κ μ} {K : Type ℓ} {V : Type κ} (P : K → Type μ) ⦃e : Eq K⦄ where
  -- A key that is put into a map is the only new one.
  pub All-put :
      (k : K) (v : V) (m : List (K × V))
      → P k
      → All (λ (a : K × V). P a.0) m
      → All (λ (a : K × V). P a.0) (put k v m)
  unfolding put
  All-put k v [] p h = (p, tt)
  All-put k v ((j, w) ∷ m) p h = elim (Bool-cases (e.beq j k)) [
    | inl t ↦ rw t h
    | inr f ↦ rw f (h.0, All-put k v m p h.1)
  ]
