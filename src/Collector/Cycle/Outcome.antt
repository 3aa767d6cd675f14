-- ===== src/Collector/Cycle/Outcome.antt =====
-- The collector's own state after a cycle, and the cycle of an agent that does not know its pod.
use kubeadapt_k8s_pulse.Prelude.{
  Bool, List, [], arith, false, length, map, some, true, ◌+◌, ◌∷◌, ◌≡◌,
}
use kubeadapt_k8s_pulse.Prelude.Text.{Text, text_eq}
use kubeadapt_k8s_pulse.Collector.Cycle.{ConnectionCollector, CycleEnv, MapView, collect, publish}
use kubeadapt_k8s_pulse.Collector.Cycle.Deletes.{collect-deletes}
use kubeadapt_k8s_pulse.Collector.Cycle.Exports.{
  dump-quiet, monitor-quiet, observe-quiet, read_loop-quiet, traffic, when-quiet,
}
use kubeadapt_k8s_pulse.Collector.Cycle.Reading.{Acc, Visit, empty_acc, read_loop, read_visit}
use kubeadapt_k8s_pulse.Collector.Keys.{u64}
use kubeadapt_k8s_pulse.Collector.Metrics.{connection_traffic_bytes, connection_traffic_packets}
use kubeadapt_k8s_pulse.Collector.Series.{deletions, series, series-append}

read_loop-counts :
    (F : Type 0) (vs : List Visit) (acc : Acc)
    → ((read_loop {F = F} vs acc).0.flow_count ≡ acc.flow_count + length vs)
      × ((read_loop {F = F} vs acc).0.current_entries ≡ acc.current_entries + length vs)
unfolding read_loop
read_loop-counts F [] acc = (omega arith, omega arith)
read_loop-counts F (v ∷ vs) acc = omega (arith, read_loop-counts F vs (read_visit v acc))

-- After a cycle of an agent that knows its pod, the number of active connections is the number of
-- entries read, and the connections seen in total have grown by it, modulo 2 ^ 64; nothing else of
-- the collector has changed.
pub collect-counts :
    {F : Type 0} (env : CycleEnv F) (c : ConnectionCollector) (m : MapView)
    → text_eq env.pod_uid [] ≡ false
    → (collect env (some m) c).0 ≡ record c {
      total_connections_seen = u64 (c.total_connections_seen + length m.visits);
      active_connection_count = length m.visits;
    }
unfolding collect publish empty_acc
collect-counts {F} env c m named = ground (arith, (read_loop-counts F m.visits empty_acc).0)

publish-anonymous :
    {F : Type 0} (env : CycleEnv F) (b : Bool) (l : List Text) (acc : Acc) (c : ConnectionCollector)
    → text_eq env.pod_uid [] ≡ true
    → series (traffic b) l (publish env acc c).1 ≡ []
unfolding publish series
publish-anonymous env b l acc c h = rw h (ground arith)

collect-anonymous :
    {F : Type 0} (env : CycleEnv F) (b : Bool) (l : List Text) (c : ConnectionCollector)
    (m : MapView)
    → text_eq env.pod_uid [] ≡ true
    → series (traffic b) l (collect env (some m) c).1 ≡ []
unfolding collect
collect-anonymous {F} env b l c m h = simp (
  series-append,
  when-quiet,
  dump-quiet,
  observe-quiet,
  read_loop-quiet,
  monitor-quiet,
  publish-anonymous env b l (read_loop {F = F} m.visits empty_acc).0 c h,
)

-- Without DAEMONSET_POD_UID a cycle increments no traffic counter of any series and leaves the
-- collector as it was, and yet it deletes every entry that it read: that traffic is lost.
pub collect_anonymous_loses :
    {F : Type 0} (env : CycleEnv F) (c : ConnectionCollector) (m : MapView)
    → text_eq env.pod_uid [] ≡ true
    → ((collect env (some m) c).0 ≡ c)
      × ((l : List Text) → series connection_traffic_bytes l (collect env (some m) c).1 ≡ [])
      × ((l : List Text) → series connection_traffic_packets l (collect env (some m) c).1 ≡ [])
      × (deletions (collect env (some m) c).1 ≡ map (λ (v : Visit). v.key) m.visits)
unfolding collect publish
collect_anonymous_loses env c m h = (
  rw h,
  λ l. collect-anonymous env true l c m h,
  λ l. collect-anonymous env false l c m h,
  collect-deletes env c m,
)
