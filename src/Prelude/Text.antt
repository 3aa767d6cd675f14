-- ===== src/Prelude/Text.antt =====
-- A Go string is a sequence of bytes: its equality, prefixes, and the literals of the source.
use Prim.Native.Char.{code}
use Prim.Native.String.{String}
use kubeadapt_k8s_pulse.Prelude.Tests.{◌==◌}
use Prim.Native.Nat.{ℕ}
use mathlib.Core.Path.{◌≡◌, refl}
use mathlib.Core.Logic.{◌↔◌}
use mathlib.Core.Bool.{Bool, true, false, ◌&&◌}
use mathlib.Core.List.{List, [], ◌∷◌, ◌++◌}
use native.Mathlib.Omega.{arith}

abbrev pub Text : Type 0
Text = List ℕ

-- The bytes of a literal (all literals of the source that are compared are ASCII).
abbrev pub codes : String → Text
codes String.[] = []
codes (String.◌∷◌ c s) = code c ∷ codes s

unfoldable pub text_eq : Text → Text → Bool
text_eq [] [] = true
text_eq [] (y ∷ ys) = false
text_eq (x ∷ xs) [] = false
text_eq (x ∷ xs) (y ∷ ys) = x == y && text_eq xs ys

pub text_eq_refl : (s : Text) → text_eq s s ≡ true
unfolding text_eq
text_eq_refl [] = refl
text_eq_refl (x ∷ xs) = ground (arith, text_eq_refl xs)

pub text_eq→≡ : (s t : Text) → text_eq s t ≡ true → s ≡ t
unfolding text_eq
text_eq→≡ [] [] h = refl
text_eq→≡ [] (y ∷ ys) h = cc
text_eq→≡ (x ∷ xs) [] h = cc
text_eq→≡ (x ∷ xs) (y ∷ ys) h = ground (arith, text_eq→≡ xs ys)

pub text_eq_iff : (s t : Text) → (text_eq s t ≡ true) ↔ (s ≡ t)
text_eq_iff s t = (text_eq→≡ s t, λ e. cc (e, text_eq_refl s))

-- strings.HasPrefix s p
unfoldable pub has_prefix : Text → Text → Bool
has_prefix s [] = true
has_prefix [] (p ∷ ps) = false
has_prefix (c ∷ s) (p ∷ ps) = c == p && has_prefix s ps

-- A text has a prefix exactly when it continues it.
pub has_prefix-append : (p s : Text) → has_prefix (p ++ s) p ≡ true
unfolding has_prefix
has_prefix-append [] s = refl
has_prefix-append (c ∷ p) s = ground (arith, has_prefix-append p s)

pub has_prefix→append : (s p : Text) → has_prefix s p ≡ true → (rest : Text) × (s ≡ p ++ rest)
unfolding has_prefix
has_prefix→append s [] h = (s, refl)
has_prefix→append [] (c ∷ p) h = cc
has_prefix→append (d ∷ s) (c ∷ p) h =
    let (rest, e) = has_prefix→append s p (ground arith) in (rest, ground (arith, e))
