-- ===== src/Bpf/Platform.antt =====
-- internal/bpf/loader_stub.go against internal/bpf/loader_linux.go: which of the two is built, by the
-- system, and what NewManager comes to there. On other systems it always fails, so that the further
-- operations of the stub are never reached.
use kubeadapt_k8s_pulse.Prelude.{
  Bool, Option, [], false, if◌then◌else◌, none, refl, some, true, ◌≡◌,
}
use kubeadapt_k8s_pulse.Prelude.Text.{Text, codes}
use kubeadapt_k8s_pulse.Bpf.Manager.{Manager, new_manager}

pub data Platform : Type 0 where
  linux other : Platform

-- The text of the stub's errors.
abbrev pub not_supported : Text
not_supported = codes "eBPF is only supported on Linux"

-- NewManager of the file that is built.
unfoldable pub open_manager : Platform → Bool → Option Manager
open_manager linux memlock_failed = new_manager memlock_failed
open_manager other memlock_failed = none

-- The text of its error.
unfoldable pub manager_error : Platform → Text → Text
manager_error linux memlock_message = memlock_message
manager_error other memlock_message = not_supported

-- Whether NewManager fails.
abbrev pub lacks_manager : Platform → Bool → Bool
lacks_manager linux memlock_failed = memlock_failed
lacks_manager other memlock_failed = true

-- The Manager of a new start.
abbrev pub new : Manager
new = record {
  has_collection = false;
  links = [];
  tc_filters = [];
  connection_flows = false;
  overflow_ringbuf = false;
  global_counters = false;
}

pub open_manager_lem :
    (p : Platform) (memlock_failed : Bool)
    → open_manager p memlock_failed ≡ (if lacks_manager p memlock_failed then none else some new)
unfolding open_manager new_manager
open_manager_lem linux true = refl
open_manager_lem linux false = refl
open_manager_lem other memlock_failed = refl
