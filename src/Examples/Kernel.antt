-- ===== src/Examples/Kernel.antt =====
-- The theorems on kernel versions at concrete releases.
use kubeadapt_k8s_pulse.Prelude.{[], arith, pos, some, ◌++◌, ◌∷◌, ◌≡◌}
use kubeadapt_k8s_pulse.Prelude.Text.{codes}
use kubeadapt_k8s_pulse.Bpf.Version.{kernel_version_code, kernel_version_code_spills}
use kubeadapt_k8s_pulse.System.Kernel.{KernelVersion, detect_kernel_version, ok, version_string}
use kubeadapt_k8s_pulse.System.Kernel.RoundTrip.{detect-version_string}

abbrev v5_15_0 : KernelVersion
v5_15_0 = record { major = pos 5; minor = pos 15; patch = pos 0 }

detect-version_string_example :
    detect_kernel_version (some (version_string v5_15_0 ++ b'-' ∷ (codes "generic" ++ 0 ∷ [])))
    ≡ ok v5_15_0
detect-version_string_example =
    detect-version_string 5 15 0 (codes "generic") [] (omega arith, omega arith, omega arith)
      (ground arith)

kernel_version_code_spills_example :
    kernel_version_code (record { major = pos 4; minor = pos 8; patch = pos 256 })
    ≡ kernel_version_code (record { major = pos 4; minor = pos 9; patch = pos 0 })
kernel_version_code_spills_example =
    kernel_version_code_spills 4 4 0 (omega arith) (omega arith) (omega arith)
