-- ===== src/Examples/Concurrent.antt =====
-- Two processors that meet a new flow at once, and a collector that deletes it while a packet comes in.
use kubeadapt_k8s_pulse.Prelude.{
  All, List, [], arith, false, if◌then◌else◌, refl, some, true, ℕ, ◌++◌, ◌+◌, ◌==◌, ◌||◌, ◌∷◌, ◌≡◌,
}
use kubeadapt_k8s_pulse.Prelude.Family.{sum_below}
use kubeadapt_k8s_pulse.Prelude.GoMap.{lookup, put}
use kubeadapt_k8s_pulse.Prelude.Text.{codes, text_eq}
use kubeadapt_k8s_pulse.Prelude.Totals.{remove, total}
use kubeadapt_k8s_pulse.Collector.Cycle.{MapView, collect, traffic_values}
use kubeadapt_k8s_pulse.Collector.Cycle.Reading.{agg_key}
use kubeadapt_k8s_pulse.Collector.Cycle.Totals.{is_seen}
use kubeadapt_k8s_pulse.Collector.Keys.{AggKey, u64}
use kubeadapt_k8s_pulse.Collector.Metrics.{add, connection_traffic_bytes}
use kubeadapt_k8s_pulse.Collector.Series.{series}
use kubeadapt_k8s_pulse.Examples.Data.{connection, fresh, named, traffic, view}
use kubeadapt_k8s_pulse.Examples.Flows.{start}
use kubeadapt_k8s_pulse.Monitor.Concurrent.{
  Answer, Move, World, arrive, arrive_on, bytes_added, compare_interface, delete, delete_element,
  delete_entry, deletion_of, first_lookup, go_on, go_on_with, idle, insert_element, is_used,
  packet_added, read, read_entry, reading, run_moves, second_lookup, stamped, step, store, submit,
  take_step,
}
use kubeadapt_k8s_pulse.Monitor.Concurrent.Deletions.{WasThere, run_moves-WasThere}
use kubeadapt_k8s_pulse.Monitor.Concurrent.Ledger.{
  along, brought, byte_amount, bytes, held, in_flight, is_used_for, measure, packet_amount, packets,
  stale, stale_by, visited,
}
use kubeadapt_k8s_pulse.Monitor.Concurrent.Lossless.{run_moves-lossless}
use kubeadapt_k8s_pulse.Monitor.Concurrent.Progress.{run_moves-ends, steps_of}
use kubeadapt_k8s_pulse.Monitor.Concurrent.Refinement.{whole_call, whole_call-update_stats}
use kubeadapt_k8s_pulse.Monitor.Concurrent.Solo.{alone}
use kubeadapt_k8s_pulse.Monitor.Concurrent.Sound.{IsSound}
use kubeadapt_k8s_pulse.Monitor.Concurrent.Steps.{IsCalm}
use kubeadapt_k8s_pulse.Monitor.Concurrent.View.{as_monitor}
use kubeadapt_k8s_pulse.Monitor.Flows.{Arrival, connection_key_eq, new_stats, update_stats}
use kubeadapt_k8s_pulse.Pipeline.Arrivals.{weight}
use kubeadapt_k8s_pulse.Pipeline.Overlap.{gains, in_kernel, leaks, overlap-exports}
use mathlib.Core.List.Permᴰ

abbrev packet : ℕ → Arrival
packet size = record {
  key = connection 40000 6;
  bytes = size;
  cgroup_id = 0;
  if_index = 3;
  now = 17;
  later = 19;
}

abbrev nothing : World
nothing = record {
  memory = record {
    elements = [];
    stats = λ _. traffic 0 0;
    events = [];
    overflow_events = 0;
    race_conditions = 0;
  };
  processors = λ _. idle;
  collecting = reading;
  visits = [];
}

-- The kernel has element e free.
abbrev free : ℕ → Answer
free e = record { element = some e; reserved = true }

-- Both processors miss the flow, the first inserts it, and the second finds it there.
abbrev race : List Move
race =
    arrive 0 (packet 100)
    ∷ arrive 1 (packet 40)
    ∷ go_on 0 (free 7)
    ∷ go_on 1 (free 8)
    ∷ go_on 1 (free 8)
    ∷ go_on 1 (free 8)
    ∷ go_on 1 (free 8)
    ∷ go_on 1 (free 8)
    ∷ []

-- The collector reads and deletes the flow while a packet of 60 bytes has found it and not yet counted.
abbrev sweep : List Move
sweep =
    race
    ++ read (connection 40000 6)
      ∷ arrive 0 (packet 60)
      ∷ go_on 0 (free 8)
      ∷ delete false
      ∷ go_on 0 (free 8)
      ∷ go_on 0 (free 8)
      ∷ []

nothing-IsSound : IsSound nothing
nothing-IsSound = record { keys-IsMap = tt; elements-AreDistinct = tt; collecting-IsBound = tt }

nothing-IsCalm : IsCalm (λ _. 3) nothing
unfolding lookup
nothing-IsCalm = record { counting = record { own = λ key e h. cc }; settled = λ cpu. tt }

race_counted :
    (held (λ key. true) bytes (run_moves race nothing).memory ≡ 140)
    × (held (λ key. true) packets (run_moves race nothing).memory ≡ 2)
unfolding held total run_moves step go_on_with take_step arrive_on first_lookup lookup
    insert_element is_used put connection_key_eq second_lookup store measure stamped packet_added
    bytes_added compare_interface delete_element delete_entry deletion_of read_entry submit
    new_stats remove
race_counted = (refl, refl)

sweep_loses : along (stale (λ key. true) bytes) sweep nothing ≡ 60
unfolding along stale stale_by is_used_for byte_amount packet_amount run_moves step go_on_with
    take_step arrive_on first_lookup lookup insert_element is_used put connection_key_eq
    second_lookup store measure stamped packet_added bytes_added compare_interface delete_element
    delete_entry deletion_of read_entry submit new_stats remove
sweep_loses = refl

-- The aggregation key of the flow.
abbrev pair : AggKey
pair = agg_key (connection 40000 6)

-- What the collector reads in this sweep.
abbrev swept : MapView
swept = record view { visits = (run_moves sweep nothing).visits }

overlap-exports_example :
    (series connection_traffic_bytes
        (traffic_values pair (codes "uid-1") (codes "node-1"))
        (collect named (some swept) fresh).1
      ≡ (if is_seen pair swept.visits
          then add (u64 (visited (weight pair) bytes swept.visits)) ∷ []
          else []))
    × ((is_seen pair swept.visits || (visited (weight pair) bytes swept.visits == 0)) ≡ true)
    × (u64 (
          visited (weight pair) bytes swept.visits
          + in_kernel pair bytes 2 (run_moves sweep nothing)
          + leaks pair bytes sweep nothing)
        ≡ u64 (in_kernel pair bytes 2 nothing + gains pair bytes sweep nothing))
unfolding text_eq
overlap-exports_example =
    overlap-exports named fresh swept pair refl (λ agg. Permᴰ.refl agg) bytes 2 sweep nothing
      (omega arith) nothing-IsSound refl refl

run_moves-lossless_example :
    (u64 (
        held (λ key. true) packets (run_moves race nothing).memory
        + sum_below (in_flight (λ key. true) packets) 2 (run_moves race nothing).processors)
      ≡ u64 (
          held (λ key. true) packets nothing.memory
          + sum_below (in_flight (λ key. true) packets) 2 nothing.processors
          + along (brought (λ key. true) packets) race nothing))
    × ((run_moves race nothing).memory.events ≡ [])
    × ((run_moves race nothing).visits ≡ [])
run_moves-lossless_example =
    run_moves-lossless (λ _. 3) (λ key. true) packets 2 race nothing (omega arith)
      (refl, (refl, (cc, (cc, (cc, (cc, (cc, (cc, tt)))))))) nothing-IsSound nothing-IsCalm

run_moves-WasThere_example : All WasThere (run_moves sweep nothing).visits
run_moves-WasThere_example = run_moves-WasThere sweep nothing nothing-IsSound tt

whole_call-update_stats_example :
    (as_monitor start (run_moves (whole_call 0 (free 7) (packet 100)) nothing).memory
      ≡ update_stats (alone (free 7)) (packet 100) (as_monitor start nothing.memory))
    × ((run_moves (whole_call 0 (free 7) (packet 100)) nothing).processors 0 ≡ idle)
    × ((run_moves (whole_call 0 (free 7) (packet 100)) nothing).visits ≡ [])
unfolding is_used
whole_call-update_stats_example =
    whole_call-update_stats start 0 (free 7) (packet 100) nothing nothing-IsSound refl refl

-- From the state in which both processors have missed the flow.
abbrev both_missed : World
both_missed = run_moves (arrive 0 (packet 100) ∷ arrive 1 (packet 40) ∷ []) nothing

abbrev overtaken : List Move
overtaken =
    go_on 0 (free 7)
    ∷ go_on 1 (free 8)
    ∷ go_on 1 (free 8)
    ∷ read (connection 40000 6)
    ∷ go_on 1 (free 8)
    ∷ delete false
    ∷ go_on 1 (free 8)
    ∷ go_on 1 (free 8)
    ∷ []

run_moves-ends_example : (run_moves overtaken both_missed).processors 1 ≡ idle
unfolding steps_of run_moves step go_on_with take_step arrive_on first_lookup lookup insert_element
    is_used put connection_key_eq second_lookup store stamped packet_added bytes_added
    compare_interface delete_element delete_entry read_entry remove
run_moves-ends_example =
    run_moves-ends 1 overtaken both_missed
      (
        (λ h. refl),
        ((λ h. refl), ((λ h. refl), (tt, ((λ h. refl), (tt, ((λ h. refl), ((λ h. refl), tt))))))),
      )
      (omega arith)
