-- ===== src/Examples/Data.antt =====
-- The inputs of the examples: two pods of a node, the map entries of their connections, a cycle
-- that reads them, and an agent that knows its pod or does not.
use kubeadapt_k8s_pulse.Prelude.{List, [], false, pos, some, true, ℕ, ◌*◌, ◌/◌, ◌∷◌}
use kubeadapt_k8s_pulse.Prelude.Text.{Text, codes, text_eq}
use kubeadapt_k8s_pulse.Bpf.Manager.{Loading, Manager, Netlink}
use kubeadapt_k8s_pulse.Bpf.Types.{ConnectionKey, ConnectionStats, Words}
use kubeadapt_k8s_pulse.Collector.Cycle.{
  ConnectionCollector, CycleEnv, MapView, new_connection_collector,
}
use kubeadapt_k8s_pulse.Collector.Cycle.Reading.{Visit, deleted, failed, not_found}
use kubeadapt_k8s_pulse.Collector.Metrics.{FloatOps}
use kubeadapt_k8s_pulse.Collector.Schedule.Runs.{Round}
use kubeadapt_k8s_pulse.Config.{Libraries}
use kubeadapt_k8s_pulse.System.Network.{NetworkInterface}
use mathlib.Core.List.Permᴰ

abbrev pub words : ℕ → Words
words n = record { w0 = n; w1 = 0; w2 = 0; w3 = 0 }

-- 10.0.0.1 and 10.0.0.2, least significant byte first.
abbrev pub web : ℕ
web = 0x0100000a

abbrev pub api : ℕ
api = 0x0200000a

abbrev pub connection : ℕ → ℕ → ConnectionKey
connection src_port protocol = record {
  src_addr = words web;
  dst_addr = words api;
  src_port = src_port;
  dst_port = 443;
  protocol = protocol;
  family = 2;
  pad = 0;
}

abbrev pub traffic : ℕ → ℕ → ConnectionStats
traffic bytes packets = record {
  bytes = bytes;
  packets = packets;
  last_seen_ns = 0;
  cgroup_id = 0;
  if_index_first_seen = 3;
  padding = 0;
}

-- Two TCP connections and one UDP flow between the two pods.
abbrev pub visits : List Visit
visits =
    record { key = connection 40000 6; stats = traffic 100 2; deletion = deleted }
    ∷ record { key = connection 40001 6; stats = traffic 250 3; deletion = not_found }
    ∷ record { key = connection 40002 17; stats = traffic 60 1; deletion = failed }
    ∷ []

abbrev pub view : MapView
view = record {
  info_failed = false;
  max_entries = some 1000;
  visits = visits;
  iteration_failed = false;
}

-- float64 by whole numbers, which is exact on these inputs.
abbrev pub whole : FloatOps ℕ
whole = record { of_ℕ = λ n. n; div = λ a b. a / b; mul = λ a b. a * b }

abbrev pub environment : Text → CycleEnv ℕ
environment uid = record {
  float = whole;
  pod_uid = uid;
  node_name = codes "node-1";
  milliseconds = 4;
  seconds = 0;
  range_aggregated = λ l. l;
  range_counts = λ l. l;
}

abbrev pub named : CycleEnv ℕ
named = environment (codes "uid-1")

abbrev pub anonymous : CycleEnv ℕ
anonymous = environment []

abbrev pub fresh : ConnectionCollector
fresh = new_connection_collector true

abbrev pub round : Round ℕ
round = record {
  view = view;
  milliseconds = 4;
  seconds = 0;
  range_aggregated = λ l. l;
  range_counts = λ l. l;
  aggregated-perm = λ l. Permᴰ.refl l;
}

abbrev pub eth : NetworkInterface
eth = record { index = 2; name = codes "eth0"; flags = 1 }

abbrev pub veth : NetworkInterface
veth = record { index = 7; name = codes "veth12ab"; flags = 1 }

abbrev pub netlink : Netlink
netlink = record { link_found = λ i. true; qdisc_replaced = λ i. true; filter_replaced = λ i. true }

abbrev pub loading : Loading
loading = record {
  spec_loads = true;
  collection_loads = true;
  has_tc_ingress = true;
  has_connection_flows = true;
  has_overflow_events = true;
  has_global_counters = true;
  interfaces = some (eth ∷ veth ∷ []);
  netlink = netlink;
}

abbrev pub manager : Manager
manager = record {
  has_collection = false;
  links = [];
  tc_filters = [];
  connection_flows = false;
  overflow_ringbuf = false;
  global_counters = false;
}

-- Libraries that take every duration as a minute, know the level "info" and ignore the file.
abbrev pub libraries : Libraries
libraries = record {
  parse_duration = λ v. some (pos 60_000_000_000);
  parses_level = λ level. text_eq level (codes "info");
  duration_string = λ d. codes "1m0s";
  unmarshal = λ file c. some c;
}

abbrev pub no_variables : Text → Text
no_variables name = []
