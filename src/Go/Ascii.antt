-- ===== src/Go/Ascii.antt =====
-- Texts of bytes below 128, which UTF-8 leaves as they are.
use kubeadapt_k8s_pulse.Prelude.{All, ℕ, ◌++◌, ◌<◌}
use kubeadapt_k8s_pulse.Prelude.Each.{All-append}
use kubeadapt_k8s_pulse.Prelude.Text.{Text}

abbrev pub IsAscii : Text → Type 0
IsAscii = All (λ (c : ℕ). c < 128)

pub IsAscii-append : (s t : Text) → IsAscii s → IsAscii t → IsAscii (s ++ t)
IsAscii-append s t = All-append (λ (c : ℕ). c < 128) s t
