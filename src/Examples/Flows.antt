-- ===== src/Examples/Flows.antt =====
-- A kernel with room for many flows, one with room for a single flow, and packets.
use kubeadapt_k8s_pulse.Prelude.{
  Bool, Option, [], ap, false, length, ltb, none, refl, some, true, ℕ, ◌∙◌,
}
use kubeadapt_k8s_pulse.Prelude.GoMap.{lookup}
use kubeadapt_k8s_pulse.Bpf.Types.{ConnectionStats}
use kubeadapt_k8s_pulse.Examples.Data.{connection}
use kubeadapt_k8s_pulse.Monitor.Flows.{
  Arrival, InsertResult, Kernel, Monitor, connection_keys, exists, inserted, refused,
}
use kubeadapt_k8s_pulse.Monitor.Flows.Room.{IsRoomy}

-- The answer of an insertion, by whether the map has room and by what stands under the key.
abbrev pub insertion : Bool → Option ConnectionStats → InsertResult
insertion room (some stats) = exists
insertion true none = inserted
insertion false none = refused

-- A kernel whose map has room for BPF_MAP_SIZE flows.
abbrev pub kernel : Kernel
kernel = record {
  insert = λ key m. insertion (ltb (length m) 100_000) (lookup key m);
  reserved = true;
  before_insert = λ m. m;
  before_retry = λ m. m;
}

pub kernel-IsRoomy : IsRoomy 100_000 kernel
kernel-IsRoomy = record {
  before_insert-id = λ m. refl;
  insert-room = λ key m absent room.
      ap (insertion (ltb (length m) 100_000)) absent ∙ ap (λ (b : Bool). insertion b none) room;
}

-- A kernel whose map has room for one flow.
abbrev pub small_kernel : Kernel
small_kernel = record kernel { insert = λ key m. insertion (ltb (length m) 1) (lookup key m) }

abbrev pub start : Monitor
start = record {
  flows = [];
  events = [];
  overflow_events = 0;
  race_conditions = 0;
  parse_errors = 0;
  ipv4_fragments = 0;
  ipv6_fragments = 0;
}

abbrev pub packet : ℕ → ℕ → ℕ → Arrival
packet src_port protocol bytes = record {
  key = connection src_port protocol;
  bytes = bytes;
  cgroup_id = 8;
  if_index = 3;
  now = 1;
  later = 2;
}
