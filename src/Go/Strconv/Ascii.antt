-- ===== src/Go/Strconv/Ascii.antt =====
-- What %d prints is ASCII.
use kubeadapt_k8s_pulse.Prelude.{
  Bool-cases, [], arith, inl, inr, ltb, suc, zero, ℕ, ◌%◌, ◌+◌, ◌/◌, ◌∷◌,
}
use kubeadapt_k8s_pulse.Prelude.Text.{Text}
use kubeadapt_k8s_pulse.Go.Ascii.{IsAscii}
use kubeadapt_k8s_pulse.Go.Strconv.{decimal, decimal_onto}

decimal_onto-IsAscii : (f n : ℕ) (rest : Text) → IsAscii rest → IsAscii (decimal_onto f n rest)
unfolding decimal_onto
decimal_onto-IsAscii zero n rest h = h
decimal_onto-IsAscii (suc f) n rest h = elim (Bool-cases (ltb n 10)) [
  | inl small ↦ rw small (ground (arith, small), h)
  | inr large ↦ rw large (decimal_onto-IsAscii f (n / 10) ((48 + n % 10) ∷ rest) (omega arith, h))
]

pub decimal-IsAscii : (n : ℕ) → IsAscii (decimal n)
unfolding decimal
decimal-IsAscii n = decimal_onto-IsAscii (suc n) n [] tt
