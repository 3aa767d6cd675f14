-- ===== src/Go/Strings.antt =====
-- strings.Split by one byte, and strings.IndexByte followed by a cut.
use kubeadapt_k8s_pulse.Prelude.{
  All, List, [], arith, false, if◌then◌else◌, refl, ℕ, ◌++◌, ◌==◌, ◌∷◌, ◌≡◌,
}
use kubeadapt_k8s_pulse.Prelude.Text.{Text, codes}

-- The head of the pieces takes one more byte in front.
abbrev push_head : ℕ → List Text → List Text
push_head c [] = (c ∷ []) ∷ []
push_head c (p ∷ ps) = (c ∷ p) ∷ ps

-- strings.Split(s, sep) for a separator of one byte: at least one piece, maybe empty ones.
unfoldable pub split : ℕ → Text → List Text
split sep [] = [] ∷ []
split sep (c ∷ s) = let rest = split sep s in if c == sep then [] ∷ rest else push_head c rest

-- if idx := strings.IndexByte(s, b); idx != -1 { s = s[:idx] }
unfoldable pub cut_at : ℕ → Text → Text
cut_at b [] = []
cut_at b (c ∷ s) = let rest = cut_at b s in if c == b then [] else c ∷ rest

abbrev pub Lacks : ℕ → Text → Type 0
Lacks b = All (λ c. (c == b) ≡ false)

-- A piece without the separator comes out whole.
pub split-append : (sep : ℕ) (p s : Text) → Lacks sep p → split sep (p ++ sep ∷ s) ≡ p ∷ split sep s
unfolding split
split-append sep [] s h = ground arith
split-append sep (c ∷ p) s h = ground (arith, split-append sep p s h.1)

pub split_whole : (sep : ℕ) (p : Text) → Lacks sep p → split sep p ≡ p ∷ []
unfolding split
split_whole sep [] h = refl
split_whole sep (c ∷ p) h = ground (arith, split_whole sep p h.1)

pub cut_at-append : (b : ℕ) (p s : Text) → Lacks b p → cut_at b (p ++ b ∷ s) ≡ p
unfolding cut_at
cut_at-append b [] s h = ground arith
cut_at-append b (c ∷ p) s h = ground (arith, cut_at-append b p s h.1)

split_example : split b'.' (codes "5.15.0") ≡ codes "5" ∷ codes "15" ∷ codes "0" ∷ []
unfolding split
split_example = refl

pub cut_at-over : (b : ℕ) (p s : Text) → Lacks b p → cut_at b (p ++ s) ≡ p ++ cut_at b s
unfolding cut_at
cut_at-over b [] s h = refl
cut_at-over b (c ∷ p) s h = ground (arith, cut_at-over b p s h.1)

pub Lacks-append : (b : ℕ) (p s : Text) → Lacks b p → Lacks b s → Lacks b (p ++ s)
Lacks-append b [] s hp hs = hs
Lacks-append b (c ∷ p) s hp hs = (hp.0, Lacks-append b p s hp.1 hs)
