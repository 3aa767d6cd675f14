-- ===== src/Pipeline/Overlap.antt =====
-- From the packets to the traffic counters when calls of update_stats overlap, with one another and with
-- the loop of collect.
use kubeadapt_k8s_pulse.Prelude.{
  All, Bool-cases, List, [], ap, arith, false, if◌then◌else◌, inl, inr, refl, some, true, ℕ, ◌+◌,
  ◌==◌, ◌||◌, ◌∷◌, ◌≡◌,
}
use kubeadapt_k8s_pulse.Prelude.Family.{sum_below}
use kubeadapt_k8s_pulse.Prelude.Text.{text_eq}
use kubeadapt_k8s_pulse.Collector.Cycle.{
  ConnectionCollector, CycleEnv, MapView, collect, traffic_values,
}
use kubeadapt_k8s_pulse.Collector.Cycle.Exports.{collect-exports_totals}
use kubeadapt_k8s_pulse.Collector.Cycle.Reading.{Visit}
use kubeadapt_k8s_pulse.Collector.Cycle.Totals.{flow_bytes, flow_packets, is_seen, unseen}
use kubeadapt_k8s_pulse.Collector.Keys.{AggKey, AggStats, u64}
use kubeadapt_k8s_pulse.Collector.Metrics.{
  Metric, add, connection_traffic_bytes, connection_traffic_packets,
}
use kubeadapt_k8s_pulse.Collector.Series.{series}
use kubeadapt_k8s_pulse.Monitor.Concurrent.{Move, World, run_moves}
use kubeadapt_k8s_pulse.Monitor.Concurrent.Balance.{IsAmong, run_moves-balance}
use kubeadapt_k8s_pulse.Monitor.Concurrent.Ledger.{
  Counted, alien, along, assets, brought, bytes, dropped, held, in_flight, measure, packets,
  repeated, reported, skipped, stale, unread, visited,
}
use kubeadapt_k8s_pulse.Monitor.Concurrent.Sound.{IsSound}
use kubeadapt_k8s_pulse.Pipeline.Arrivals.{weight}
use mathlib.Core.List.{Permᴰ}

abbrev pub counter : Counted → Metric
counter bytes = connection_traffic_bytes
counter packets = connection_traffic_packets

-- What is on the kernel's side: in the map, on the processors and in the ring buffer.
abbrev pub in_kernel : AggKey → Counted → ℕ → World → ℕ
in_kernel a c n w =
    held (weight a) c w.memory
    + sum_below (in_flight (weight a) c) n w.processors
    + reported (weight a) c w.memory.events

-- What an interleaving brings in: the packets, what is read again, and what other traffic adds.
abbrev pub gains : AggKey → Counted → List Move → World → ℕ
gains a c vs w =
    along (brought (weight a) c) vs w
    + along (repeated (weight a) c) vs w
    + along (alien (weight a) c) vs w

-- What it loses.
abbrev pub leaks : AggKey → Counted → List Move → World → ℕ
leaks a c vs w =
    along (skipped (weight a) c) vs w
    + along (dropped (weight a) c) vs w
    + along (stale (weight a) c) vs w
    + along (unread (weight a) c) vs w

visited-flow_bytes : (a : AggKey) (vs : List Visit) → visited (weight a) bytes vs ≡ flow_bytes a vs
unfolding visited flow_bytes measure
visited-flow_bytes a [] = refl
visited-flow_bytes a (v ∷ vs) = omega (arith, visited-flow_bytes a vs)

visited-flow_packets :
    (a : AggKey) (vs : List Visit) → visited (weight a) packets vs ≡ flow_packets a vs
unfolding visited flow_packets measure
visited-flow_packets a [] = refl
visited-flow_packets a (v ∷ vs) = omega (arith, visited-flow_packets a vs)

visited-none : (a : AggKey) (c : Counted) → visited (weight a) c [] ≡ 0
unfolding visited
visited-none a c = refl

module _ {F : Type 0} (env : CycleEnv F) (col : ConnectionCollector) (m : MapView) (a : AggKey)
    (named : text_eq env.pod_uid [] ≡ false)
    (ranges : (agg : List (AggKey × AggStats)) → Permᴰ (env.range_aggregated agg) agg) where
  exports :
      (c : Counted)
      → series (counter c) (traffic_values a env.pod_uid env.node_name) (collect env (some m) col).1
        ≡ (if is_seen a m.visits
            then add (env.float.of_ℕ (u64 (visited (weight a) c m.visits))) ∷ []
            else [])
  exports bytes =
      rw (visited-flow_bytes a m.visits) (collect-exports_totals env col m a named ranges).0
  exports packets =
      rw (visited-flow_packets a m.visits) (collect-exports_totals env col m a named ranges).1

  unseen-visited :
      (c : Counted) → (is_seen a m.visits || (visited (weight a) c m.visits == 0)) ≡ true
  unseen-visited bytes =
      rw (visited-flow_bytes a m.visits) (elim (Bool-cases (is_seen a m.visits)) [
        | inl t ↦ rw t refl
        | inr f ↦ ground (arith, f, (unseen a m.visits f).0)
      ])
  unseen-visited packets =
      rw (visited-flow_packets a m.visits) (elim (Bool-cases (is_seen a m.visits)) [
        | inl t ↦ rw t refl
        | inr f ↦ ground (arith, f, (unseen a m.visits f).1)
      ])

  -- Calls of update_stats on n processors and the collector's reads and deletions, in any order, from a
  -- state in which the collector has deleted nothing yet, each key and each element stands once, and an
  -- entry that the collector has already read is in the map; and, for an agent that knows its pod and in
  -- whatever order Go ranges over its map, the cycle that reads what the loop has read. The byte counter
  -- and the packet counter of each source, destination and protocol grow, once, by what was read of it,
  -- wrapped to uint64, if it was seen, and are not touched otherwise, when nothing was read of it. And
  -- this, with what is left on the kernel's side and the leaks, is what was there and the gains, modulo
  -- 2 ^ 64. The leaks: packets skipped on another interface or dropped for want of room in the ring
  -- buffer, additions to an element that was deleted or handed out to other traffic since its lookup,
  -- and additions between the reading and the deletion. The gains: the packets, what is read though its
  -- deletion fails, and additions of other traffic to an element that was handed out to this one.
  pub overlap-exports :
      (c : Counted) (n : ℕ) (vs : List Move) (w : World)
      → All (IsAmong n) vs
      → IsSound w
      → w.visits ≡ []
      → m.visits ≡ (run_moves vs w).visits
      → (series
            (counter c)
            (traffic_values a env.pod_uid env.node_name)
            (collect env (some m) col).1
          ≡ (if is_seen a m.visits
              then add (env.float.of_ℕ (u64 (visited (weight a) c m.visits))) ∷ []
              else []))
        × ((is_seen a m.visits || (visited (weight a) c m.visits == 0)) ≡ true)
        × (u64 (visited (weight a) c m.visits + in_kernel a c n (run_moves vs w) + leaks a c vs w)
            ≡ u64 (in_kernel a c n w + gains a c vs w))
  unfolding assets
  overlap-exports c n vs w among sound unread_yet reads = (
    exports c,
    unseen-visited c,
    omega (
      arith,
      run_moves-balance (weight a) c n vs w among sound,
      ap (visited (weight a) c) unread_yet,
      visited-none a c,
      ap (visited (weight a) c) reads,
    ),
  )
