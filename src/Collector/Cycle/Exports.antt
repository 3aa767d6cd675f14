-- ===== src/Collector/Cycle/Exports.antt =====
-- The traffic counters that one cycle of collect increments, and the keys that it deletes.
use kubeadapt_k8s_pulse.Prelude.{
  Bool, Bool-cases, List, Option, [], ap, arith, false, if◌then◌else◌, inl, inr, length, map, none,
  refl, some, true, ℕ, ◌∙◌, ◌∷◌, ◌≡◌, ◌≤◌,
}
use kubeadapt_k8s_pulse.Prelude.GoMap.{
  IsMap, lookup, to_list, values, values-lookup, values-perm_at_most_one,
}
use kubeadapt_k8s_pulse.Prelude.Text.{Text, codes, text_eq, text_eq_refl}
use kubeadapt_k8s_pulse.Collector.Cycle.{
  ConnectionCollector, CycleEnv, MapView, active_loop, collect, export_loop, monitor,
  observe_duration, publish, tracking_info, traffic_values, when,
}
use kubeadapt_k8s_pulse.Collector.Cycle.Reading.{Acc, Visit, empty_acc, read_loop, read_visit}
use kubeadapt_k8s_pulse.Collector.Cycle.Totals.{
  flow_bytes, flow_packets, is_seen, lookup-read_all, read_loop-IsMap,
}
use kubeadapt_k8s_pulse.Collector.Keys.{AggKey, AggStats, agg_key_eq, agg_keys, u64}
use kubeadapt_k8s_pulse.Collector.Metrics.{
  Metric, add, connection_traffic_bytes, connection_traffic_packets, count_error, dump_maps,
}
use kubeadapt_k8s_pulse.Collector.Series.{series, series-append, texts_eq}
use mathlib.Core.List.{Permᴰ, append-nil}

-- Two series of one agent have the same labels exactly when their keys are equal.
traffic_values_eq :
    (j k : AggKey) (uid node : Text)
    → texts_eq (traffic_values j uid node) (traffic_values k uid node) ≡ agg_key_eq j k
unfolding texts_eq agg_key_eq
traffic_values_eq j k uid node = ground (arith, text_eq_refl uid, text_eq_refl node)

-- The two traffic counters, and what of the totals each of them takes.
abbrev pub traffic : Bool → Metric
traffic true = connection_traffic_bytes
traffic false = connection_traffic_packets

abbrev amount : Bool → AggStats → ℕ
amount true s = s.bytes
amount false s = s.packets

pub map-to_list_if {ℓ κ} :
    {A : Type ℓ} {B : Type κ} (f : A → B) (b : Bool) (a : A)
    → map f (to_list (if b then some a else none)) ≡ (if b then f a ∷ [] else [])
map-to_list_if f true a = refl
map-to_list_if f false a = refl

pub to_list-le-one {ℓ} : {A : Type ℓ} (o : Option A) → length (to_list o) ≤ 1
to_list-le-one none = omega arith
to_list-le-one (some a) = omega arith

module _ {F : Type 0} where
  pub when-quiet :
      (b c : Bool) (l : List Text) (error_type : Text)
      → series {F = F} (traffic b) l (when c (count_error error_type)) ≡ []
  unfolding series
  when-quiet b c l error_type = ground arith

  pub dump-quiet :
      (b c : Bool) (l : List Text) → series {F = F} (traffic b) l (when c dump_maps) ≡ []
  unfolding series
  dump-quiet b true l = refl
  dump-quiet b false l = refl

  pub read_loop-quiet :
      (b : Bool) (l : List Text) (vs : List Visit) (acc : Acc)
      → series {F = F} (traffic b) l (read_loop vs acc).1 ≡ []
  unfolding series read_loop
  read_loop-quiet b l [] acc = refl
  read_loop-quiet b l (v ∷ vs) acc = ground (arith, read_loop-quiet b l vs (read_visit v acc))

module _ {F : Type 0} (env : CycleEnv F) where
  open env use {float, pod_uid, node_name}

  export_loop-series :
      (b : Bool) (k : AggKey) (m : List (AggKey × AggStats))
      → series (traffic b) (traffic_values k pod_uid node_name) (export_loop env m)
        ≡ map (λ (s : AggStats). add (float.of_ℕ (amount b s))) (values k m)
  unfolding series export_loop values
  export_loop-series true k [] = refl
  export_loop-series false k [] = refl
  export_loop-series true k ((j, s) ∷ m) =
      rw (traffic_values_eq j k pod_uid node_name) (elim (Bool-cases (agg_key_eq j k)) [
        | inl t ↦ rw t (ap (λ us. add (float.of_ℕ s.bytes) ∷ us) (export_loop-series true k m))
        | inr f ↦ rw f (export_loop-series true k m)
      ])
  export_loop-series false k ((j, s) ∷ m) =
      rw (traffic_values_eq j k pod_uid node_name) (elim (Bool-cases (agg_key_eq j k)) [
        | inl t ↦ rw t (ap (λ us. add (float.of_ℕ s.packets) ∷ us) (export_loop-series false k m))
        | inr f ↦ rw f (export_loop-series false k m)
      ])

  active_loop-quiet :
      (b : Bool) (l : List Text) (m : List (Text × ℕ))
      → series (traffic b) l (active_loop env m) ≡ []
  unfolding series active_loop
  active_loop-quiet b l [] = refl
  active_loop-quiet b l ((p, n) ∷ m) = ground (arith, active_loop-quiet b l m)

  infos-quiet :
      (b : Bool) (l : List Text) (x y : F)
      → series (traffic b) l (
          tracking_info env (codes "total_connections_seen") x
          ∷ tracking_info env (codes "active_connections") y
          ∷ tracking_info env (codes "collection_duration_ms") env.milliseconds
          ∷ [])
        ≡ []
  unfolding series
  infos-quiet true l x y = refl
  infos-quiet false l x y = refl

  pub observe-quiet :
      (b : Bool) (l : List Text) → series (traffic b) l (observe_duration env ∷ []) ≡ []
  unfolding series
  observe-quiet true l = refl
  observe-quiet false l = refl

  pub monitor-quiet :
      (b : Bool) (l : List Text) (m : MapView) (acc : Acc)
      → series (traffic b) l (monitor env m acc) ≡ []
  unfolding series monitor
  monitor-quiet b l m acc = ground arith

  publish-traffic :
      (b : Bool) (k : AggKey) (acc : Acc) (c : ConnectionCollector)
      → text_eq pod_uid [] ≡ false
      → Permᴰ (env.range_aggregated acc.aggregated) acc.aggregated
      → IsMap acc.aggregated
      → series (traffic b) (traffic_values k pod_uid node_name) (publish env acc c).1
        ≡ map (λ (s : AggStats). add (float.of_ℕ (amount b s))) (to_list (lookup k acc.aggregated))
  unfolding publish
  publish-traffic b k acc c named p distinct =
      rw (named, series-append, export_loop-series, once, values-lookup k _ distinct)
        (simp (series-append, active_loop-quiet)
          (rw (infos-quiet b (traffic_values k pod_uid node_name)) (append-nil _)))
    where
      once : values k (env.range_aggregated acc.aggregated) ≡ values k acc.aggregated
      once =
          values-perm_at_most_one k p
            (rw (values-lookup k _ distinct) (to_list-le-one (lookup k acc.aggregated)))

  collect-traffic :
      (b : Bool) (k : AggKey) (c : ConnectionCollector) (m : MapView)
      → text_eq pod_uid [] ≡ false
      → ((agg : List (AggKey × AggStats)) → Permᴰ (env.range_aggregated agg) agg)
      → series (traffic b) (traffic_values k pod_uid node_name) (collect env (some m) c).1
        ≡ map
            (λ (s : AggStats). add (float.of_ℕ (amount b s)))
            (to_list (lookup k (read_loop {F = F} m.visits empty_acc).0.aggregated))
  unfolding collect
  collect-traffic b k c m named ranges =
      simp
        (
          series-append, when-quiet, dump-quiet, observe-quiet, read_loop-quiet, monitor-quiet,
          append-nil,
        )
        (publish-traffic b k (read_loop {F = F} m.visits empty_acc).0 c named (ranges _)
          (read_loop-IsMap F m.visits empty_acc (unfold empty_acc in tt)))

-- In a cycle that reads the map and knows its pod, and in whatever order Go ranges over the
-- aggregated map: the byte counter and the packet counter of each source, destination and protocol
-- are incremented exactly once, by the sums over all entries read with those addresses and that
-- protocol, wrapped to uint64, if there is such an entry, and are not touched otherwise.
pub collect-exports_totals :
    {F : Type 0} (env : CycleEnv F) (c : ConnectionCollector) (m : MapView) (k : AggKey)
    → text_eq env.pod_uid [] ≡ false
    → ((agg : List (AggKey × AggStats)) → Permᴰ (env.range_aggregated agg) agg)
    → (series connection_traffic_bytes
          (traffic_values k env.pod_uid env.node_name)
          (collect env (some m) c).1
        ≡ (if is_seen k m.visits
            then add (env.float.of_ℕ (u64 (flow_bytes k m.visits))) ∷ []
            else []))
      × (series connection_traffic_packets
            (traffic_values k env.pod_uid env.node_name)
            (collect env (some m) c).1
          ≡ (if is_seen k m.visits
              then add (env.float.of_ℕ (u64 (flow_packets k m.visits))) ∷ []
              else []))
collect-exports_totals {F} env c m k named ranges = (
  collect-traffic env true k c m named ranges
      ∙ rw (lookup-read_all F k m.visits) (map-to_list_if _ (is_seen k m.visits) _),
  collect-traffic env false k c m named ranges
      ∙ rw (lookup-read_all F k m.visits) (map-to_list_if _ (is_seen k m.visits) _),
)
