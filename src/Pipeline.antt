-- ===== src/Pipeline.antt =====
-- The way of the traffic from the packets to the counters: the reading loop of collect in
-- internal/collector/connection_collector.go, interleaved with the packets that bpf/network_monitor_tc.c
-- counts meanwhile. The iterator and the deletion are the kernel's: which keys it yields is an input.
pub mod Arrivals
pub mod Conservation
pub mod Delivery
pub mod Events
pub mod Leaks
pub mod Lossless
pub mod Overlap
pub mod Room
pub mod Runs
use kubeadapt_k8s_pulse.Prelude.{Bool, List, [], if◌then◌else◌, none, some, ℕ, ◌++◌, ◌∷◌}
use kubeadapt_k8s_pulse.Prelude.GoMap.{lookup}
use kubeadapt_k8s_pulse.Prelude.Totals.{remove}
use kubeadapt_k8s_pulse.Bpf.Types.{ConnectionKey}
use kubeadapt_k8s_pulse.Collector.Cycle.Reading.{Deletion, Visit, deleted, failed}
use kubeadapt_k8s_pulse.Monitor.Flows.{
  Arrival, Flows, Kernel, Monitor, connection_keys, receive_all,
}

-- One round of the loop as the kernel sees it: the packets up to the reading of the key, those between
-- the reading and the deletion, and whether the deletion fails.
pub record Turn : Type 0 where
  pub key : ConnectionKey
  pub before : List Arrival
  pub during : List Arrival
  pub delete_fails : Bool

-- connectionMap.Delete(&key)
unfoldable pub delete_key : Turn → Flows → Flows
delete_key t m = if t.delete_fails then m else remove t.key m

abbrev pub answer : Bool → Deletion
answer delete_fails = if delete_fails then failed else deleted

-- The state after a round.
unfoldable pub after_turn : Kernel → Turn → Monitor → Monitor
after_turn k t s =
    let read = receive_all k t.before s in
    let meanwhile = receive_all k t.during read in
    elim (lookup t.key read.flows) [
      | none ↦ meanwhile
      | some stats ↦ record meanwhile { flows = delete_key t meanwhile.flows }
    ]

-- What the round hands to the collector; a key that is gone is not yielded.
unfoldable pub yielded : Kernel → Turn → Monitor → List Visit
yielded k t s = elim (lookup t.key (receive_all k t.before s).flows) [
  | none ↦ []
  | some stats ↦ record { key = t.key; stats = stats; deletion = answer t.delete_fails } ∷ []
]

-- A whole loop: what the collector has read, and what is left in the kernel.
unfoldable pub harvest : Kernel → List Turn → Monitor → List Visit × Monitor
harvest k [] s = ([], s)
harvest k (t ∷ ts) s =
    let (visits, left) = harvest k ts (after_turn k t s) in (yielded k t s ++ visits, left)
