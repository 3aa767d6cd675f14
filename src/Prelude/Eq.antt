-- ===== src/Prelude/Eq.antt =====
-- Decidable equality as an interface: the test that a Go map uses on its keys.
use mathlib.Core.Path.{◌≡◌}
use mathlib.Core.Logic.{◌↔◌}
use mathlib.Core.Bool.{Bool, true}
use kubeadapt_k8s_pulse.Prelude.Text.{Text, text_eq, text_eq_iff}

pub record Eq {ℓ} (K : Type ℓ) : Type ℓ where
  pub beq : K → K → Bool
  pub beq_iff : (a b : K) → (beq a b ≡ true) ↔ (a ≡ b)

instance abbrev pub text_keys : Eq Text
text_keys = record { beq = text_eq; beq_iff = text_eq_iff }
