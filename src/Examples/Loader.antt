-- ===== src/Examples/Loader.antt =====
-- The theorems on the loader at a node with one pod.
use kubeadapt_k8s_pulse.Prelude.{[], if◌then◌else◌, map, none, refl, some, true, ◌∷◌, ◌≡◌}
use kubeadapt_k8s_pulse.Bpf.Manager.{
  attach_tc_hooks, is_empty, load_and_attach, new_manager, no_filter,
}
use kubeadapt_k8s_pulse.Bpf.Manager.Attach.{attach_tc_hooks-exact, attachable, ingress_filter}
use kubeadapt_k8s_pulse.Bpf.Manager.Lifecycle.{
  attached_interfaces, load_and_attach-exact, load_error,
}
use kubeadapt_k8s_pulse.Examples.Data.{eth, loading, manager, netlink, veth}

attach_tc_hooks-exact_example :
    let (e, m') = attach_tc_hooks true (some (eth ∷ veth ∷ [])) netlink manager in
    (m' ≡ record manager { tc_filters = map ingress_filter (attachable netlink (eth ∷ veth ∷ [])) })
    × (e ≡ (if is_empty (attachable netlink (eth ∷ veth ∷ [])) then some no_filter else none))
attach_tc_hooks-exact_example = attach_tc_hooks-exact netlink (eth ∷ veth ∷ []) manager refl

load_and_attach-exact_example :
    ((load_and_attach loading manager).0 ≡ load_error loading)
    × ((load_and_attach loading manager).1.tc_filters
        ≡ map ingress_filter (attached_interfaces loading))
    × ((load_and_attach loading manager).1.has_collection ≡ true)
unfolding new_manager
load_and_attach-exact_example = load_and_attach-exact loading manager refl
