-- ===== src/System/Kernel/Order.antt =====
-- The comparison of versions.
use kubeadapt_k8s_pulse.Prelude.{arith, true, ℤ, ◌↔◌, ◌≡◌, ◌⊎◌}
use kubeadapt_k8s_pulse.Prelude.Int.{◌<ℤ◌, ◌≤ℤ◌}
use kubeadapt_k8s_pulse.System.Kernel.{KernelVersion, is_at_least}

-- IsAtLeast is the lexicographic order on the first two numbers of the version.
pub is_at_least_iff :
    (kv : KernelVersion) (major minor : ℤ)
    → (is_at_least kv major minor ≡ true)
      ↔ ((major <ℤ kv.major) ⊎ ((kv.major ≡ major) × (minor ≤ℤ kv.minor)))
unfolding is_at_least
is_at_least_iff kv major minor = ground arith
