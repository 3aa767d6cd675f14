-- ===== src/Bpf/Manager.antt =====
-- Manager of internal/bpf/loader_linux.go: loading, attachment to interfaces, the map dump, Close.
-- netlink and the eBPF library are not modelled: what they answer is part of each operation's input.
pub mod Attach
pub mod Lifecycle
use kubeadapt_k8s_pulse.Prelude.{
  Bool, List, Option, [], false, if◌then◌else◌, leb, map, none, not, some, true, ℕ, ◌++◌, ◌+◌, ◌||◌,
  ◌∷◌,
}
use kubeadapt_k8s_pulse.Prelude.GoMap.{to_list}
use kubeadapt_k8s_pulse.Prelude.Text.{Text, codes, has_prefix, text_eq}
use kubeadapt_k8s_pulse.Bpf.Types.{ConnectionKey, ConnectionStats}
use kubeadapt_k8s_pulse.System.Network.{NetworkInterface, get_network_interfaces}

-- netlink.BpfFilter; its program is the collection's tc_ingress.
pub record BpfFilter : Type 0 where
  pub link_index : ℕ
  pub parent : ℕ
  pub handle : ℕ
  pub protocol : ℕ
  pub priority : ℕ
  pub name : Text
  pub direct_action : Bool

-- netlink.HANDLE_MIN_INGRESS
abbrev pub handle_min_ingress : ℕ
handle_min_ingress = 0xFFFFFFF2

-- The kernel objects of one attached filter: struct tcFilter, by the interface that it is on.
pub record TcFilter : Type 0 where
  pub link : NetworkInterface
  pub filter : BpfFilter
  pub is_ingress : Bool

-- The manager's state. The maps of the collection are known by whether they are there.
pub record Manager : Type 0 where
  pub has_collection : Bool
  pub links : List ℕ
  pub tc_filters : List TcFilter
  pub connection_flows : Bool
  pub overflow_ringbuf : Bool
  pub global_counters : Bool

-- NewManager: `none` is a failure to remove the memory lock limit.
unfoldable pub new_manager : Bool → Option Manager
new_manager memlock_failed =
    if memlock_failed
    then none
    else some (record {
      has_collection = false;
      links = [];
      tc_filters = [];
      connection_flows = false;
      overflow_ringbuf = false;
      global_counters = false;
    })

-- What netlink answers at one interface: whether each of the three calls succeeds.
pub record Netlink : Type 0 where
  pub link_found : NetworkInterface → Bool
  pub qdisc_replaced : NetworkInterface → Bool
  pub filter_replaced : NetworkInterface → Bool

-- "veth", "lxc" or "eni" in front: the host's end of a pod's interface.
unfoldable pub is_container_interface : Text → Bool
unfolding has_prefix
is_container_interface name =
    has_prefix name (codes "veth")
    || (has_prefix name (codes "lxc") || has_prefix name (codes "eni"))

-- The body of the loop of attachTCHooks: the filter that it appends, if it does not `continue`.
unfoldable pub attach_one : Netlink → NetworkInterface → Option TcFilter
attach_one net iface =
    if text_eq iface.name (codes "lo")
    then none
    else if not (is_container_interface iface.name)
    then none
    else if not (net.link_found iface)
    then none
    else if not (net.qdisc_replaced iface)
    then none
    else if not (net.filter_replaced iface)
    then none
    else some (record {
      link = iface;
      filter = record {
        link_index = iface.index;
        parent = handle_min_ingress;
        handle = 1;
        protocol = 3;
        priority = 1;
        name = codes "tc_ingress";
        direct_action = true;
      };
      is_ingress = true;
    })

unfoldable pub attach_loop : Netlink → List NetworkInterface → List TcFilter → List TcFilter
attach_loop net [] filters = filters
attach_loop net (i ∷ is) filters = attach_loop net is (filters ++ to_list (attach_one net i))

-- The errors of LoadAndAttach.
pub data LoadError : Type 0 where
  loading_spec creating_collection program_not_found getting_interfaces no_filter : LoadError

abbrev pub is_empty : {A : Type 0} → List A → Bool
is_empty [] = true
is_empty (x ∷ xs) = false

abbrev pub attached : Manager → Option LoadError × Manager
attached m = if is_empty m.tc_filters then (some no_filter, m) else (none, m)

-- (m *Manager) attachTCHooks. The program is in the collection or not; `ifaces` is the answer of
-- net.Interfaces.
unfoldable pub attach_tc_hooks :
    Bool → Option (List NetworkInterface) → Netlink → Manager → Option LoadError × Manager
attach_tc_hooks false ifaces net m = (some program_not_found, m)
attach_tc_hooks true ifaces net m = elim (get_network_interfaces ifaces) [
  | none ↦ (some getting_interfaces, m)
  | some up ↦ attached (record m { tc_filters = attach_loop net up m.tc_filters })
]

-- What loading meets: the embedded specification, the kernel's answer, and the parts of the
-- collection. The version that is set on the programs only changes what the kernel is told.
pub record Loading : Type 0 where
  pub spec_loads : Bool
  pub collection_loads : Bool
  pub has_tc_ingress : Bool
  pub has_connection_flows : Bool
  pub has_overflow_events : Bool
  pub has_global_counters : Bool
  pub interfaces : Option (List NetworkInterface)
  pub netlink : Netlink

abbrev pub loaded : Loading → Manager → Manager
loaded l m = record m {
  has_collection = true;
  connection_flows = l.has_connection_flows;
  overflow_ringbuf = l.has_overflow_events;
  global_counters = l.has_global_counters;
}

-- (m *Manager) LoadAndAttach
unfoldable pub load_and_attach : Loading → Manager → Option LoadError × Manager
load_and_attach l m =
    if not l.spec_loads
    then (some loading_spec, m)
    else if not l.collection_loads
    then (some creating_collection, m)
    else attach_tc_hooks l.has_tc_ingress l.interfaces l.netlink (loaded l m)

-- What Close does to the kernel, in order.
pub data Cleanup : Type 0 where
  filter_del : TcFilter → Cleanup
  link_close : ℕ → Cleanup
  collection_close : Cleanup

abbrev close_collection : Bool → List Cleanup
close_collection true = collection_close ∷ []
close_collection false = []

-- (m *Manager) Close: errors of the single steps are logged, and never stop it.
unfoldable pub close : Manager → Manager × List Cleanup
close m = (
  record m { tc_filters = []; links = []; has_collection = false },
  map filter_del m.tc_filters ++ (map link_close m.links ++ close_collection m.has_collection),
)

-- One entry of the dump of connection_flows.
pub record DumpedConnection : Type 0 where
  pub src_port : ℕ
  pub dst_port : ℕ
  pub protocol : ℕ
  pub family : ℕ
  pub bytes : ℕ
  pub packets : ℕ
  pub cgroup_id : ℕ

unfoldable pub dumped : ConnectionKey × ConnectionStats → DumpedConnection
dumped (key, stats) = record {
  src_port = key.src_port;
  dst_port = key.dst_port;
  protocol = key.protocol;
  family = key.family;
  bytes = stats.bytes;
  packets = stats.packets;
  cgroup_id = stats.cgroup_id;
}

-- The iteration of DumpMaps: all entries are counted, the first ten are listed.
unfoldable pub dump_loop :
    List (ConnectionKey × ConnectionStats) → List DumpedConnection → ℕ → List DumpedConnection × ℕ
dump_loop [] connections count = (connections, count)
dump_loop (e ∷ es) connections count =
    dump_loop es (if leb (count + 1) 10 then connections ++ dumped e ∷ [] else connections)
      (count + 1)

-- What Info tells of the map: its type as a text, and its sizes.
pub record MapInfo : Type 0 where
  pub map_type : Text
  pub max_entries : ℕ
  pub key_size : ℕ
  pub value_size : ℕ

-- The result of DumpMaps on a map: connection_flows_info, connection_flows_entries and
-- connection_flows_count.
pub record MapDump : Type 0 where
  pub info : Option MapInfo
  pub entries : List DumpedConnection
  pub count : ℕ

-- (m *Manager) DumpMaps: nothing without a map; the description is left out if Info gives none.
unfoldable pub dump_maps :
    Manager → Option MapInfo → List (ConnectionKey × ConnectionStats) → Option MapDump
dump_maps m info es =
    if m.connection_flows
    then (let (entries, count) = dump_loop es [] 0 in
        some (record { info = info; entries = entries; count = count }))
    else none

-- (m *Manager) GetConnectionMap, GetOverflowRingbuf and GetGlobalCounters: whether the map is there.
unfoldable pub get_connection_map : Manager → Bool
get_connection_map m = m.connection_flows

unfoldable pub get_overflow_ringbuf : Manager → Bool
get_overflow_ringbuf m = m.overflow_ringbuf

unfoldable pub get_global_counters : Manager → Bool
get_global_counters m = m.global_counters
