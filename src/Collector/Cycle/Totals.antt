-- ===== src/Collector/Cycle/Totals.antt =====
-- What the reading loop of collect leaves in the aggregated map, against plain sums over the entries.
use kubeadapt_k8s_pulse.Prelude.{
  Bool, Bool-cases, List, Option, [], ap, arith, false, if◌then◌else◌, inl, inr, none, refl, some,
  ℕ, ◌+◌, ◌||◌, ◌∙◌, ◌∷◌, ◌≡◌,
}
use kubeadapt_k8s_pulse.Prelude.GoMap.{IsMap, lookup, lookup-put, or_else, put-IsMap}
use kubeadapt_k8s_pulse.Bpf.Types.{ConnectionKey, ConnectionStats}
use kubeadapt_k8s_pulse.Collector.Cycle.Reading.{
  Acc, Visit, accumulate, agg_key, empty_acc, read_loop, read_visit, zero_stats,
}
use kubeadapt_k8s_pulse.Collector.Keys.{AggKey, AggStats, agg_key_eq, agg_key_eq_iff, agg_keys, u64}
use native.Mathlib.Nat.{zero-add}

-- The bytes of all entries with a given aggregation key, unbounded.
unfoldable pub flow_bytes : AggKey → List Visit → ℕ
flow_bytes k [] = 0
flow_bytes k (v ∷ vs) =
    (if agg_key_eq (agg_key v.key) k then v.stats.bytes else 0) + flow_bytes k vs

unfoldable pub flow_packets : AggKey → List Visit → ℕ
flow_packets k [] = 0
flow_packets k (v ∷ vs) =
    (if agg_key_eq (agg_key v.key) k then v.stats.packets else 0) + flow_packets k vs

-- Whether some entry has the aggregation key.
unfoldable pub is_seen : AggKey → List Visit → Bool
is_seen k [] = false
is_seen k (v ∷ vs) = agg_key_eq (agg_key v.key) k || is_seen k vs

-- The totals of a key, wrapped to uint64, on top of what was there.
abbrev pub totals_onto : AggStats → AggKey → List Visit → AggStats
totals_onto agg k vs = record {
  bytes = u64 (agg.bytes + flow_bytes k vs);
  packets = u64 (agg.packets + flow_packets k vs);
}

-- The stats of an entry on top of what was there.
abbrev onto : AggStats → ConnectionStats → AggStats
onto agg stats = record {
  bytes = u64 (agg.bytes + stats.bytes);
  packets = u64 (agg.packets + stats.packets);
}

lookup-accumulate :
    (k : AggKey) (key : ConnectionKey) (stats : ConnectionStats) (m : List (AggKey × AggStats))
    → lookup k (accumulate key stats m) ≡ (
        if agg_key_eq (agg_key key) k
        then some (onto (or_else (lookup k m) zero_stats) stats)
        else lookup k m)
unfolding accumulate
lookup-accumulate k key stats m =
    lookup-put (agg_key key) k _ m ∙ elim (Bool-cases (agg_key_eq (agg_key key) k)) [
      | inl t ↦ rw t (
          ap (λ j. some (onto (or_else (lookup j m) zero_stats) stats))
            ((agg_key_eq_iff (agg_key key) k).0 t))
      | inr f ↦ rw f
    ]

-- A key that is not seen has no traffic.
pub unseen :
    (k : AggKey) (vs : List Visit)
    → is_seen k vs ≡ false
    → (flow_bytes k vs ≡ 0) × (flow_packets k vs ≡ 0)
unfolding flow_bytes flow_packets is_seen
unseen k [] h = (refl, refl)
unseen k (v ∷ vs) h = ground (arith, unseen k vs)

accumulate-onto :
    (k : AggKey) (v : Visit) (vs : List Visit) (o : Option AggStats)
    → let now =
        if agg_key_eq (agg_key v.key) k then some (onto (or_else o zero_stats) v.stats) else o in
      (if is_seen k vs then some (totals_onto (or_else now zero_stats) k vs) else now)
      ≡ (if is_seen k (v ∷ vs) then some (totals_onto (or_else o zero_stats) k (v ∷ vs)) else o)
unfolding flow_bytes flow_packets is_seen
accumulate-onto k v vs o = elim (Bool-cases (agg_key_eq (agg_key v.key) k)) [
  | inl t ↦ elim (Bool-cases (is_seen k vs)) [
    | inl u ↦ rw (t, u) (ground arith)
    | inr u ↦ rw (t, u) (ground (arith, unseen k vs u))
  ]
  | inr f ↦ elim (Bool-cases (is_seen k vs)) [
    | inl u ↦ rw (f, u) (ground arith)
    | inr u ↦ rw (f, u)
  ]
]

pub lookup-read_loop :
    (F : Type 0) (k : AggKey) (vs : List Visit) (acc : Acc)
    → lookup k (read_loop {F = F} vs acc).0.aggregated ≡ (
        if is_seen k vs
        then some (totals_onto (or_else (lookup k acc.aggregated) zero_stats) k vs)
        else lookup k acc.aggregated)
unfolding read_loop read_visit is_seen
lookup-read_loop F k [] acc = refl
lookup-read_loop F k (v ∷ vs) acc =
    lookup-read_loop F k vs (read_visit v acc)
    ∙ rw (lookup-accumulate k v.key v.stats acc.aggregated)
        (accumulate-onto k v vs (lookup k acc.aggregated))

pub read_loop-IsMap :
    (F : Type 0) (vs : List Visit) (acc : Acc)
    → IsMap acc.aggregated
    → IsMap (read_loop {F = F} vs acc).0.aggregated
unfolding read_loop read_visit
read_loop-IsMap F [] acc h = h
read_loop-IsMap F (v ∷ vs) acc h = read_loop-IsMap F vs (read_visit v acc) (put-IsMap _ _ _ h)

-- What a whole iteration leaves under a key.
pub lookup-read_all :
    (F : Type 0) (k : AggKey) (vs : List Visit)
    → lookup k (read_loop {F = F} vs empty_acc).0.aggregated ≡ (
        if is_seen k vs
        then some (record { bytes = u64 (flow_bytes k vs); packets = u64 (flow_packets k vs) })
        else none)
unfolding empty_acc lookup
lookup-read_all F k vs =
    lookup-read_loop F k vs empty_acc
    ∙ rw (zero-add (flow_bytes k vs), zero-add (flow_packets k vs))
