-- ===== src/Pipeline/Delivery.antt =====
-- From the packets to the byte counters of one cycle.
use kubeadapt_k8s_pulse.Prelude.{
  All, Bool-cases, List, [], ap, arith, false, if◌then◌else◌, inl, inr, refl, some, sym, true, ℕ,
  ◌+◌, ◌==◌, ◌||◌, ◌∷◌, ◌≡◌,
}
use kubeadapt_k8s_pulse.Prelude.GoMap.{lookup}
use kubeadapt_k8s_pulse.Prelude.Text.{text_eq}
use kubeadapt_k8s_pulse.Prelude.Totals.{total}
use kubeadapt_k8s_pulse.Bpf.Types.{ConnectionKey}
use kubeadapt_k8s_pulse.Collector.Cycle.{
  ConnectionCollector, CycleEnv, MapView, collect, traffic_values,
}
use kubeadapt_k8s_pulse.Collector.Cycle.Exports.{collect-exports_totals}
use kubeadapt_k8s_pulse.Collector.Cycle.Totals.{flow_bytes, is_seen, unseen}
use kubeadapt_k8s_pulse.Collector.Keys.{AggKey, AggStats, u64}
use kubeadapt_k8s_pulse.Collector.Metrics.{add, connection_traffic_bytes}
use kubeadapt_k8s_pulse.Collector.Series.{series}
use kubeadapt_k8s_pulse.Monitor.Flows.{Kernel, Monitor, connection_keys}
use kubeadapt_k8s_pulse.Monitor.Flows.Summary.{IsQuiet}
use kubeadapt_k8s_pulse.Pipeline.{Turn, harvest}
use kubeadapt_k8s_pulse.Pipeline.Arrivals.{IsArrival, IsOwned, sent, waiting}
use kubeadapt_k8s_pulse.Pipeline.Conservation.{harvest-balance}
use kubeadapt_k8s_pulse.Pipeline.Leaks.{arrivals, lost, repeated}
use mathlib.Core.List.{Permᴰ}
use mathlib.Core.Option.{none-ne-some}
use mathlib.Core.Path.{subst}

pub empty-IsOwned : (iface : ConnectionKey → ℕ) → IsOwned iface []
unfolding lookup
empty-IsOwned iface = record {
  keys-IsMap = tt;
  lookup-IsEntry = λ key e h. absurd (none-ne-some _ h);
}

-- From an empty map, when calls do not overlap, the map has room and each flow comes in on one
-- interface, and for an agent that knows its pod: the cycle that reads what the loop yields adds to the
-- byte counter of each source, destination and protocol the bytes that it read, wrapped to uint64, which
-- are none for a key that is not seen; and these bytes, with what is left in the map and what deletions
-- take along unread, are all that the packets have sent and what is read twice, modulo 2 ^ 64.
pub collect-balance :
    {F : Type 0} (env : CycleEnv F) (c : ConnectionCollector) (m : MapView) (a : AggKey)
    (iface : ConnectionKey → ℕ) (k : Kernel) (ts : List Turn) (s : Monitor)
    → IsQuiet k
    → s.flows ≡ []
    → All (IsArrival iface) (arrivals ts)
    → m.visits ≡ (harvest k ts s).0
    → text_eq env.pod_uid [] ≡ false
    → ((agg : List (AggKey × AggStats)) → Permᴰ (env.range_aggregated agg) agg)
    → (series connection_traffic_bytes
          (traffic_values a env.pod_uid env.node_name)
          (collect env (some m) c).1
        ≡ (if is_seen a m.visits
            then add (env.float.of_ℕ (u64 (flow_bytes a m.visits))) ∷ []
            else []))
      × ((is_seen a m.visits || (flow_bytes a m.visits == 0)) ≡ true)
      × (u64 (flow_bytes a m.visits + waiting a (harvest k ts s).1.flows + lost a k ts s)
          ≡ u64 (sent a (arrivals ts) + repeated a k ts s))
unfolding total
collect-balance env c m a iface k ts s quiet empty on read named ranges =
    let owned = subst (IsOwned iface) (sym empty) (empty-IsOwned iface) in
    let balance = harvest-balance iface k quiet a ts s owned on in
    let nothing = ap (waiting a) empty in
    (
      (collect-exports_totals env c m a named ranges).0,
      elim (Bool-cases (is_seen a m.visits)) [
        | inl t ↦ rw t refl
        | inr f ↦ ground (arith, f, (unseen a m.visits f).0)
      ],
      omega (arith, balance, nothing, ap (flow_bytes a) read),
    )
