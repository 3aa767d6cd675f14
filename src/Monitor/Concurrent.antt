-- ===== src/Monitor/Concurrent.antt =====
-- update_stats of bpf/network_monitor_tc.c on several processors at once, and the loop of collect in
-- internal/collector/connection_collector.go beside them, one access to the shared maps at a time. The
-- pointer that bpf_map_lookup_elem returns stays with the processor when the key is deleted.
pub mod Advance
pub mod Balance
pub mod Calm
pub mod Deletions
pub mod Elements
pub mod Insertion
pub mod Ledger
pub mod Lossless
pub mod Progress
pub mod Refinement
pub mod Solo
pub mod Sound
pub mod Steps
pub mod View
use kubeadapt_k8s_pulse.Prelude.{
  Bool, List, Option, [], if◌then◌else◌, none, not, some, ℕ, ◌++◌, ◌+◌, ◌==◌, ◌||◌, ◌∷◌,
}
use kubeadapt_k8s_pulse.Prelude.Family.{set_at}
use kubeadapt_k8s_pulse.Prelude.GoMap.{lookup, put}
use kubeadapt_k8s_pulse.Prelude.Totals.{remove}
use kubeadapt_k8s_pulse.Bpf.Types.{ConnectionKey, ConnectionStats, FlowRecord}
use kubeadapt_k8s_pulse.Collector.Cycle.Reading.{Deletion, Visit, deleted, failed, not_found}
use kubeadapt_k8s_pulse.Collector.Keys.{u64}
use kubeadapt_k8s_pulse.Monitor.Flows.{
  Arrival, connection_keys, event, late, new_stats, overflow_reason_map_full,
  overflow_reason_race_condition,
}

-- The maps, with the element of connection_flows that stands under each key.
pub record Memory : Type 0 where
  pub elements : List (ConnectionKey × ℕ)
  pub stats : ℕ → ConnectionStats
  pub events : List FlowRecord
  pub overflow_events : ℕ
  pub race_conditions : ℕ

-- Where a processor stands in update_stats, with the local variables that are live there.
pub data Processor : Type 0 where
  idle : Processor
  found : (p : Arrival) (element : ℕ) → Processor  -- before the comparison of the interfaces
  missing : (p : Arrival) → Processor  -- before bpf_map_update_elem
  add_bytes : (p : Arrival) (element : ℕ) → Processor
  add_packet : (p : Arrival) (element : ℕ) → Processor
  stamp : (p : Arrival) (element : ℕ) → Processor  -- before last_seen_ns is written
  look_again : (p : Arrival) → Processor  -- after -EEXIST
  report : (reason : ℕ) (p : Arrival) → Processor  -- before bpf_ringbuf_reserve

-- What the kernel answers: a free element for an insertion, if it has one, and room in the buffer.
pub record Answer : Type 0 where
  pub element : Option ℕ
  pub reserved : Bool

-- Whether an element stands under some key.
unfoldable pub is_used : ℕ → List (ConnectionKey × ℕ) → Bool
is_used e [] = Bool.false
is_used e ((k, i) ∷ m) = (i == e) || is_used e m

unfoldable pub store : ℕ → ConnectionStats → Memory → Memory
store e s m = record m { stats = set_at e s m.stats }

-- __sync_fetch_and_add(&stats->bytes, bytes)
unfoldable pub bytes_added : Arrival → ConnectionStats → ConnectionStats
bytes_added p s = record s { bytes = u64 (s.bytes + p.bytes) }

-- __sync_fetch_and_add(&stats->packets, 1)
unfoldable pub packet_added : ConnectionStats → ConnectionStats
packet_added s = record s { packets = u64 (s.packets + 1) }

-- stats->last_seen_ns = bpf_ktime_get_ns()
unfoldable pub stamped : Arrival → ConnectionStats → ConnectionStats
stamped p s = record s { last_seen_ns = p.now }

-- The first bpf_map_lookup_elem.
unfoldable pub first_lookup : Arrival → Memory → Processor
first_lookup p m = elim (lookup p.key m.elements) [ none ↦ missing p | some e ↦ found p e ]

unfoldable pub compare_interface : Arrival → ℕ → Memory → Processor
compare_interface p e m =
    if (m.stats e).if_index_first_seen == p.if_index
    then add_bytes p e
    else if not (p.if_index == 0)
    then stamp p e
    else idle

-- bpf_map_update_elem with BPF_NOEXIST: an error if it has no element, -EEXIST if the key is there. An
-- element in use is never handed out: such an answer changes nothing.
unfoldable pub insert_element : Option ℕ → Arrival → Memory → Memory × Processor
insert_element none p m = (m, report overflow_reason_map_full p)
insert_element (some e) p m = elim (lookup p.key m.elements) [
  | some other ↦ (m, look_again p)
  | none ↦ if is_used e m.elements then (m, missing p) else (
    record m { elements = put p.key e m.elements; stats = set_at e (new_stats p) m.stats },
    idle,
  )
]

unfoldable pub second_lookup : Arrival → Memory → Processor
second_lookup p m = elim (lookup p.key m.elements) [
  | none ↦ report overflow_reason_race_condition p
  | some e ↦ add_bytes (late p) e
]

-- The event is submitted and its counter raised if the buffer has room; the packet is lost if not.
unfoldable pub submit : Bool → ℕ → Arrival → Memory → Memory
submit reserved reason p m =
    if reserved
    then if reason == overflow_reason_map_full
      then record m {
        events = m.events ++ event reason p ∷ [];
        overflow_events = u64 (m.overflow_events + 1);
      }
      else record m {
        events = m.events ++ event reason p ∷ [];
        race_conditions = u64 (m.race_conditions + 1);
      }
    else m

-- The next access of a processor to the maps.
unfoldable pub take_step : Answer → Processor → Memory → Memory × Processor
take_step a idle m = (m, idle)
take_step a (found p e) m = (m, compare_interface p e m)
take_step a (missing p) m = insert_element a.element p m
take_step a (add_bytes p e) m = (store e (bytes_added p (m.stats e)) m, add_packet p e)
take_step a (add_packet p e) m = (store e (packet_added (m.stats e)) m, stamp p e)
take_step a (stamp p e) m = (store e (stamped p (m.stats e)) m, idle)
take_step a (look_again p) m = (m, second_lookup p m)
take_step a (report reason p) m = (submit a.reserved reason p m, idle)

-- The loop of collect: before iter.Next, or with the entry that it has read and not yet deleted.
pub data Collecting : Type 0 where
  reading : Collecting
  deleting : (key : ConnectionKey) (stats : ConnectionStats) → Collecting

pub record World : Type 0 where
  pub memory : Memory
  pub processors : ℕ → Processor
  pub collecting : Collecting
  pub visits : List Visit

-- One step of one of them: a packet comes in, its processor goes on, iter.Next yields a key, Delete
-- answers.
pub data Move : Type 0 where
  arrive : (cpu : ℕ) (p : Arrival) → Move
  go_on : (cpu : ℕ) (a : Answer) → Move
  read : (key : ConnectionKey) → Move
  delete : (fails : Bool) → Move

-- A packet starts a call of update_stats if the processor is free.
unfoldable pub arrive_on : ℕ → Arrival → Processor → World → World
arrive_on cpu p idle w = record w { processors = set_at cpu (first_lookup p w.memory) w.processors }
arrive_on cpu p _ w = w

unfoldable pub go_on_with : ℕ → Answer → World → World
go_on_with cpu a w =
    let (m, next) = take_step a (w.processors cpu) w.memory in
    record w { memory = m; processors = set_at cpu next w.processors }

-- iter.Next(&key, &stats): a key that is gone is not yielded.
unfoldable pub read_entry : ConnectionKey → Collecting → World → World
read_entry key reading w = elim (lookup key w.memory.elements) [
  | none ↦ w
  | some e ↦ record w { collecting = deleting key (w.memory.stats e) }
]
read_entry key (deleting _ _) w = w

-- What connectionMap.Delete(&key) answers.
unfoldable pub deletion_of : Bool → ConnectionKey → Memory → Deletion
deletion_of fails key m = elim (lookup key m.elements) [
  | none ↦ not_found
  | some e ↦ if fails then failed else deleted
]

unfoldable pub delete_element : Bool → ConnectionKey → Memory → Memory
delete_element fails key m = if fails then m else record m { elements = remove key m.elements }

unfoldable pub delete_entry : Bool → Collecting → World → World
delete_entry fails reading w = w
delete_entry fails (deleting key stats) w = record w {
  memory = delete_element fails key w.memory;
  collecting = reading;
  visits =
      w.visits
      ++ record { key = key; stats = stats; deletion = deletion_of fails key w.memory } ∷ [];
}

unfoldable pub step : Move → World → World
step (arrive cpu p) w = arrive_on cpu p (w.processors cpu) w
step (go_on cpu a) w = go_on_with cpu a w
step (read key) w = read_entry key w.collecting w
step (delete fails) w = delete_entry fails w.collecting w

-- Any interleaving.
unfoldable pub run_moves : List Move → World → World
run_moves [] w = w
run_moves (v ∷ vs) w = run_moves vs (step v w)
