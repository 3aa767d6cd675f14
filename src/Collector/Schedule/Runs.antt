-- ===== src/Collector/Schedule/Runs.antt =====
-- What a whole run of the collection loop exports, deletes and counts.
use kubeadapt_k8s_pulse.Prelude.{
  List, [], ap, arith, false, if◌then◌else◌, length, length-append, map, refl, some, ℕ, ◌++◌, ◌+◌,
  ◌<◌, ◌^◌, ◌∙◌, ◌∷◌, ◌≡◌,
}
use kubeadapt_k8s_pulse.Prelude.Text.{Text, text_eq}
use kubeadapt_k8s_pulse.Collector.Cycle.{
  ConnectionCollector, CycleEnv, MapView, collect, traffic_values,
}
use kubeadapt_k8s_pulse.Collector.Cycle.Deletes.{collect-deletes}
use kubeadapt_k8s_pulse.Collector.Cycle.Exports.{collect-exports_totals}
use kubeadapt_k8s_pulse.Collector.Cycle.Outcome.{collect-counts}
use kubeadapt_k8s_pulse.Collector.Cycle.Reading.{Visit}
use kubeadapt_k8s_pulse.Collector.Cycle.Totals.{flow_bytes, is_seen}
use kubeadapt_k8s_pulse.Collector.Keys.{AggKey, AggStats, u64}
use kubeadapt_k8s_pulse.Collector.Metrics.{FloatOps, Update, add, connection_traffic_bytes}
use kubeadapt_k8s_pulse.Collector.Schedule.{Event, collection_loop, tick}
use kubeadapt_k8s_pulse.Collector.Series.{deletions, deletions-append, series, series-append}
use mathlib.Core.List.{Permᴰ, map-append}

-- A cycle whose environment differs only in its clock and in the orders of its maps.
pub record Round (F : Type 0) : Type 0 where
  pub view : MapView
  pub milliseconds : F
  pub seconds : F
  pub range_aggregated : List (AggKey × AggStats) → List (AggKey × AggStats)
  pub range_counts : List (Text × ℕ) → List (Text × ℕ)
  pub aggregated-perm : (agg : List (AggKey × AggStats)) → Permᴰ (range_aggregated agg) agg

-- A run of one agent: its float64, and the two environment variables.
module _ {F : Type 0} (float : FloatOps F) (uid node : Text) where
  abbrev pub round_env : Round F → CycleEnv F
  round_env r = record {
    float = float;
    pod_uid = uid;
    node_name = node;
    milliseconds = r.milliseconds;
    seconds = r.seconds;
    range_aggregated = r.range_aggregated;
    range_counts = r.range_counts;
  }

  unfoldable pub ticks : List (Round F) → List (Event F)
  ticks [] = []
  ticks (r ∷ rs) = tick (round_env r) (some r.view) ∷ ticks rs

  -- One increment for each round in which the key is seen, by the round's own sum.
  unfoldable pub increments : AggKey → List (Round F) → List (Update F)
  increments k [] = []
  increments k (r ∷ rs) =
      (if is_seen k r.view.visits
        then add (float.of_ℕ (u64 (flow_bytes k r.view.visits))) ∷ []
        else [])
      ++ increments k rs

-- All entries read in a run.
unfoldable pub all_visits : {F : Type 0} → List (Round F) → List Visit
all_visits [] = []
all_visits (r ∷ rs) = r.view.visits ++ all_visits rs

module _ {F : Type 0} (float : FloatOps F) (uid node : Text) where
  -- Over a whole run of an agent that knows its pod, the increments of the byte counter of a
  -- source, destination and protocol are those of its rounds, in order: no traffic of one round is
  -- counted in another, whatever the orders in which Go ranges over the maps.
  pub collection_loop-increments :
      (k : AggKey) (rounds : List (Round F)) (c : ConnectionCollector)
      → text_eq uid [] ≡ false
      → series connection_traffic_bytes
          (traffic_values k uid node)
          (collection_loop (ticks float uid node rounds) c).1
        ≡ increments float uid node k rounds
  unfolding collection_loop ticks increments series
  collection_loop-increments k [] c named = refl
  collection_loop-increments k (r ∷ rs) c named =
      let env = round_env float uid node r in
      rw (
        series-append,
        (collect-exports_totals env c r.view k named r.aggregated-perm).0,
        collection_loop-increments k rs (collect env (some r.view) c).0 named,
      )

  -- A run of an agent that knows its pod, from a total below 2 ^ 64, deletes exactly the keys that
  -- it read, in the order of reading, counts them modulo 2 ^ 64 on top of that total, and leaves
  -- the configuration alone.
  pub collection_loop-counts :
      (rounds : List (Round F)) (c : ConnectionCollector)
      → text_eq uid [] ≡ false
      → c.total_connections_seen < 2 ^ 64
      → let (c', calls) = collection_loop (ticks float uid node rounds) c in
        (deletions calls ≡ map (λ (v : Visit). v.key) (all_visits rounds))
        × (c'.total_connections_seen ≡ u64 (c.total_connections_seen + length (all_visits rounds)))
        × (c'.aggregation_interval ≡ c.aggregation_interval)
        × (c'.dump_bpf_maps ≡ c.dump_bpf_maps)
  unfolding collection_loop ticks all_visits deletions
  collection_loop-counts [] c named h = (refl, omega arith, refl, refl)
  collection_loop-counts (r ∷ rs) c named h =
      let env = round_env float uid node r in
      let c' = (collect env (some r.view) c).0 in
      let after = collect-counts env c r.view named in
      let seen : c'.total_connections_seen ≡ u64 (c.total_connections_seen + length r.view.visits) =
        ap (λ (s : ConnectionCollector). s.total_connections_seen) after in
      let (deletes, total, interval, dump) = collection_loop-counts rs c' named (omega arith) in
      (
        rw (deletions-append, collect-deletes env c r.view, deletes) (rw map-append),
        rw (total, seen, length-append) (omega arith),
        interval ∙ ap (λ (s : ConnectionCollector). s.aggregation_interval) after,
        dump ∙ ap (λ (s : ConnectionCollector). s.dump_bpf_maps) after,
      )
