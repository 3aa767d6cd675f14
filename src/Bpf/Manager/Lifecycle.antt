-- ===== src/Bpf/Manager/Lifecycle.antt =====
-- What Close releases after loading, whatever became of it, and what the dump lists.
use kubeadapt_k8s_pulse.Prelude.{
  Bool, Bool-cases, List, Option, [], ap, arith, false, if◌then◌else◌, inl, inr, leb, length, map,
  none, not, refl, some, suc, take, true, zero, ℕ, ◌&&◌, ◌++◌, ◌+◌, ◌∙◌, ◌∷◌, ◌≡◌, ◌≤◌,
}
use kubeadapt_k8s_pulse.Bpf.Manager.{
  DumpedConnection, LoadError, Loading, Manager, MapInfo, Netlink, attach_tc_hooks, close,
  collection_close, creating_collection, dump_loop, dump_maps, dumped, filter_del,
  get_connection_map, get_global_counters, get_overflow_ringbuf, getting_interfaces, is_empty,
  link_close, load_and_attach, loaded, loading_spec, new_manager, no_filter, program_not_found,
}
use kubeadapt_k8s_pulse.Bpf.Manager.Attach.{attach_tc_hooks-exact, attachable, ingress_filter}
use kubeadapt_k8s_pulse.Bpf.Types.{ConnectionKey, ConnectionStats}
use kubeadapt_k8s_pulse.System.Network.{NetworkInterface, get_network_interfaces}
use mathlib.Core.List.{append-nil, append_assoc}

abbrev listed : Netlink → Option (List NetworkInterface) → List NetworkInterface
listed net none = []
listed net (some is) = attachable net is

abbrev listing_error : Netlink → Option (List NetworkInterface) → Option LoadError
listing_error net none = some getting_interfaces
listing_error net (some is) = if is_empty (attachable net is) then some no_filter else none

-- The interfaces on which loading leaves a filter in the kernel.
abbrev pub attached_interfaces : Loading → List NetworkInterface
attached_interfaces l =
    if l.spec_loads && (l.collection_loads && l.has_tc_ingress)
    then listed l.netlink l.interfaces
    else []

-- The error that loading ends with: the first of the five that applies.
abbrev pub load_error : Loading → Option LoadError
load_error l =
    if not l.spec_loads
    then some loading_spec
    else if not l.collection_loads
    then some creating_collection
    else if not l.has_tc_ingress
    then some program_not_found
    else listing_error l.netlink l.interfaces

attach_tc_hooks-all :
    (p : Bool) (o : Option (List NetworkInterface)) (net : Netlink) (m : Manager)
    → m.tc_filters ≡ []
    → ((attach_tc_hooks p o net m).0
        ≡ (if not p then some program_not_found else listing_error net o))
      × ((attach_tc_hooks p o net m).1.tc_filters
          ≡ map ingress_filter (if p then listed net o else []))
      × ((attach_tc_hooks p o net m).1.has_collection ≡ m.has_collection)
unfolding attach_tc_hooks get_network_interfaces
attach_tc_hooks-all false o net m e = (refl, e, refl)
attach_tc_hooks-all true none net m e = (refl, e, refl)
attach_tc_hooks-all true (some is) net m e =
    let (state, outcome) = attach_tc_hooks-exact net is m e in
    (
      outcome,
      ap (λ (m : Manager). m.tc_filters) state,
      ap (λ (m : Manager). m.has_collection) state,
    )

attach_tc_hooks-maps :
    (p : Bool) (o : Option (List NetworkInterface)) (net : Netlink) (m : Manager)
    → m.tc_filters ≡ []
    → let m' = (attach_tc_hooks p o net m).1 in
      (get_connection_map m' ≡ get_connection_map m)
      × (get_overflow_ringbuf m' ≡ get_overflow_ringbuf m)
      × (get_global_counters m' ≡ get_global_counters m)
unfolding attach_tc_hooks get_network_interfaces get_connection_map get_overflow_ringbuf
    get_global_counters
attach_tc_hooks-maps false o net m e = (refl, refl, refl)
attach_tc_hooks-maps true none net m e = (refl, refl, refl)
attach_tc_hooks-maps true (some is) net m e =
    let (state, outcome) = attach_tc_hooks-exact net is m e in
    (ap get_connection_map state, ap get_overflow_ringbuf state, ap get_global_counters state)

-- Loading on a new manager, on every path: its error is the first that applies, its filters are
-- those of the attachable interfaces, and the collection is held from its creation on, also when
-- the attachment then fails.
pub load_and_attach-exact :
    (l : Loading) (m : Manager)
    → new_manager false ≡ some m
    → ((load_and_attach l m).0 ≡ load_error l)
      × ((load_and_attach l m).1.tc_filters ≡ map ingress_filter (attached_interfaces l))
      × ((load_and_attach l m).1.has_collection ≡ (l.spec_loads && l.collection_loads))
unfolding new_manager load_and_attach
load_and_attach-exact l m h =
    let empty : m.tc_filters ≡ [] = ground (arith, h) in
    let none_held : m.has_collection ≡ false = ground (arith, h) in
    let hooks = attach_tc_hooks-all l.has_tc_ingress l.interfaces l.netlink (loaded l m) empty in
    elim (Bool-cases l.spec_loads) [
      | inr f ↦ rw f (refl, empty, none_held)
      | inl t ↦ elim (Bool-cases l.collection_loads) [
        | inr f ↦ rw (t, f) (refl, empty, none_held)
        | inl u ↦ rw (t, u) hooks
      ]
    ]

-- The maps that the manager hands out after loading are those of the collection, also when the
-- attachment then fails; there is none before the collection exists.
pub load_and_attach-maps :
    (l : Loading) (m : Manager)
    → new_manager false ≡ some m
    → let m' = (load_and_attach l m).1 in
      let held = l.spec_loads && l.collection_loads in
      (get_connection_map m' ≡ (held && l.has_connection_flows))
      × (get_overflow_ringbuf m' ≡ (held && l.has_overflow_events))
      × (get_global_counters m' ≡ (held && l.has_global_counters))
unfolding new_manager load_and_attach get_connection_map get_overflow_ringbuf get_global_counters
load_and_attach-maps l m h =
    let kept =
      attach_tc_hooks-maps l.has_tc_ingress l.interfaces l.netlink (loaded l m)
        (ground (arith, h)) in
    elim (Bool-cases l.spec_loads) [
      | inr f ↦ rw f (ground (arith, h), ground (arith, h), ground (arith, h))
      | inl t ↦ elim (Bool-cases l.collection_loads) [
        | inr f ↦ rw (t, f) (ground (arith, h), ground (arith, h), ground (arith, h))
        | inl u ↦ rw (t, u) kept
      ]
    ]

-- Close deletes each filter once and in order, then closes the links and the collection if one is
-- held; closing again does nothing.
pub close_idempotent :
    (m : Manager)
    → ((close m).1
        ≡ map filter_del m.tc_filters
          ++ (map link_close m.links ++ (if m.has_collection then collection_close ∷ [] else [])))
      × ((close (close m).0).1 ≡ [])
      × ((close (close m).0).0 ≡ (close m).0)
unfolding close
close_idempotent m = ground arith

-- From the eleventh entry on nothing is listed.
dump_loop-full :
    (es : List (ConnectionKey × ConnectionStats)) (connections : List DumpedConnection) (n : ℕ)
    → 10 ≤ n
    → dump_loop es connections n ≡ (connections, n + length es)
unfolding dump_loop
dump_loop-full [] connections n h = ap (λ k. (connections, k)) (omega arith)
dump_loop-full (e ∷ es) connections n h =
    let full : leb (n + 1) 10 ≡ false = ground arith in
    rw full (
      dump_loop-full es connections (n + 1) (omega arith)
      ∙ ap (λ k. (connections, k)) (omega arith))

-- With room for k entries the next k are listed, in order.
dump_loop-take :
    (k : ℕ) (es : List (ConnectionKey × ConnectionStats)) (connections : List DumpedConnection)
    (n : ℕ)
    → n + k ≡ 10
    → dump_loop es connections n ≡ (connections ++ map dumped (take k es), n + length es)
unfolding dump_loop
dump_loop-take zero es connections n h =
    dump_loop-full es connections n (omega arith) ∙ rw append-nil refl
dump_loop-take (suc k) [] connections n h = rw append-nil (ap (λ k. (connections, k)) (omega arith))
dump_loop-take (suc k) (e ∷ es) connections n h =
    let room : leb (n + 1) 10 ≡ true = ground arith in
    rw room (
      dump_loop-take k es (connections ++ dumped e ∷ []) (n + 1) (omega arith)
      ∙ rw append_assoc
          (ap (λ j. (connections ++ dumped e ∷ map dumped (take k es), j)) (omega arith)))

-- The dump of a loaded manager describes the map as Info does, lists its first ten entries, in its
-- order, and counts all.
pub dump_maps-first_ten :
    (m : Manager) (info : Option MapInfo) (es : List (ConnectionKey × ConnectionStats))
    → get_connection_map m ≡ true
    → dump_maps m info es
      ≡ some (record { info = info; entries = map dumped (take 10 es); count = length es })
unfolding dump_maps get_connection_map
dump_maps-first_ten m info es h =
    rw (h, dump_loop-take 10 es [] 0 refl)
      (ap (λ k. some (record { info = info; entries = map dumped (take 10 es); count = k }))
        (omega arith))
