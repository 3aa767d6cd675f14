-- ===== src/Bpf/Manager/Attach.antt =====
-- Which interfaces get a filter.
use kubeadapt_k8s_pulse.Prelude.{
  Bool, Bool-cases, List, [], ap, arith, false, if◌then◌else◌, inl, inr, map, none, refl, some, sym,
  true, ◌&&◌, ◌++◌, ◌∙◌, ◌∷◌, ◌≡◌,
}
use kubeadapt_k8s_pulse.Prelude.GoMap.{to_list}
use kubeadapt_k8s_pulse.Prelude.Text.{Text, codes, text_eq, text_eq→≡}
use kubeadapt_k8s_pulse.Bpf.Manager.{
  Manager, Netlink, TcFilter, attach_loop, attach_one, attach_tc_hooks, attached,
  is_container_interface, is_empty, no_filter,
}
use kubeadapt_k8s_pulse.System.Network.{
  NetworkInterface, get_network_interfaces, is_up, up_interfaces,
}
use mathlib.Core.List.{append-nil, append_assoc}

-- An interface that is up, is the host's end of a pod's pair, and takes all three netlink calls.
unfoldable pub is_attachable : Netlink → NetworkInterface → Bool
is_attachable net i =
    is_up i.flags
    && (is_container_interface i.name
        && (net.link_found i && (net.qdisc_replaced i && net.filter_replaced i)))

unfoldable pub attachable : Netlink → List NetworkInterface → List NetworkInterface
attachable net [] = []
attachable net (i ∷ is) =
    let rest = attachable net is in if is_attachable net i then i ∷ rest else rest

-- The filter of an interface: ETH_P_ALL, direct action, under the parent of ingress filters.
abbrev pub ingress_filter : NetworkInterface → TcFilter
ingress_filter i = record {
  link = i;
  filter = record {
    link_index = i.index;
    parent = 0xFFFFFFF2;
    handle = 1;
    protocol = 3;
    priority = 1;
    name = codes "tc_ingress";
    direct_action = true;
  };
  is_ingress = true;
}

-- The loopback interface has none of the prefixes.
lo-not_container :
    (name : Text) → text_eq name (codes "lo") ≡ true → is_container_interface name ≡ false
unfolding is_container_interface
lo-not_container name h = rw (text_eq→≡ name (codes "lo") h)

attach_one-up :
    (net : Netlink) (i : NetworkInterface)
    → is_up i.flags ≡ true
    → attach_one net i ≡ (if is_attachable net i then some (ingress_filter i) else none)
unfolding attach_one is_attachable
attach_one-up net i up = ground (arith, lo-not_container i.name)

attach_one-attachable :
    (net : Netlink) (i : NetworkInterface)
    → is_up i.flags ≡ true
    → is_attachable net i ≡ true
    → attach_one net i ≡ some (ingress_filter i)
attach_one-attachable net i up t = rw (attach_one-up net i up, t)

attach_one-unattachable :
    (net : Netlink) (i : NetworkInterface)
    → is_up i.flags ≡ true
    → is_attachable net i ≡ false
    → attach_one net i ≡ none
attach_one-unattachable net i up f = rw (attach_one-up net i up, f)

down-unattachable :
    (net : Netlink) (i : NetworkInterface) → is_up i.flags ≡ false → is_attachable net i ≡ false
unfolding is_attachable
down-unattachable net i down = ground arith

attach_loop-append :
    (net : Netlink) (is : List NetworkInterface) (filters : List TcFilter)
    → attach_loop net (up_interfaces is) filters ≡ filters ++ map ingress_filter (attachable net is)
unfolding attach_loop attachable up_interfaces
attach_loop-append net [] filters = sym (append-nil filters)
attach_loop-append net (i ∷ is) filters = elim (Bool-cases (is_up i.flags)) [
  | inl up ↦ rw up (elim (Bool-cases (is_attachable net i)) [
    | inl t ↦ rw t (
        ap (λ o. attach_loop net (up_interfaces is) (filters ++ to_list o))
          (attach_one-attachable net i up t)
        ∙ (attach_loop-append net is (filters ++ ingress_filter i ∷ []) ∙ rw append_assoc))
    | inr f ↦ rw f (
        ap (λ o. attach_loop net (up_interfaces is) (filters ++ to_list o))
          (attach_one-unattachable net i up f)
        ∙ rw append-nil (attach_loop-append net is filters))
  ])
  | inr down ↦ rw down (rw (down-unattachable net i down) (attach_loop-append net is filters))
]

-- Attachment on a fresh manager, with the program in the collection and the interfaces listed: the
-- filters are the ingress filters of exactly the interfaces that are up, carry a container prefix and
-- take all three netlink calls, in the order of the listing. It fails exactly if there is none, and
-- touches nothing else of the manager.
pub attach_tc_hooks-exact :
    (net : Netlink) (ifaces : List NetworkInterface) (m : Manager)
    → m.tc_filters ≡ []
    → let (e, m') = attach_tc_hooks true (some ifaces) net m in
      (m' ≡ record m { tc_filters = map ingress_filter (attachable net ifaces) })
      × (e ≡ (if is_empty (attachable net ifaces) then some no_filter else none))
unfolding attach_tc_hooks get_network_interfaces
attach_tc_hooks-exact net ifaces m fresh =
    simp (fresh, attach_loop-append net ifaces []) (outcome (attachable net ifaces))
  where
    outcome :
        (is : List NetworkInterface)
        → let (e, m') = attached (record m { tc_filters = map ingress_filter is }) in
          (m' ≡ record m { tc_filters = map ingress_filter is })
          × (e ≡ (if is_empty is then some no_filter else none))
    outcome [] = (refl, refl)
    outcome (i ∷ is) = (refl, refl)
