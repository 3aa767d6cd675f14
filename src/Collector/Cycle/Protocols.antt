-- ===== src/Collector/Cycle/Protocols.antt =====
-- The gauge of active connections, one series for each protocol.
use kubeadapt_k8s_pulse.Prelude.{
  Bool, Bool-cases, List, Option, [], ap, arith, false, if◌then◌else◌, inl, inr, map, none, refl,
  some, true, ℕ, ◌+◌, ◌||◌, ◌∙◌, ◌∷◌, ◌≡◌,
}
use kubeadapt_k8s_pulse.Prelude.Eq.{text_keys}
use kubeadapt_k8s_pulse.Prelude.GoMap.{
  IsMap, lookup, lookup-put, or_else, put-IsMap, to_list, values, values-lookup,
  values-perm_at_most_one,
}
use kubeadapt_k8s_pulse.Prelude.Text.{Text, codes, text_eq, text_eq_iff}
use kubeadapt_k8s_pulse.Collector.Cycle.{
  ConnectionCollector, CycleEnv, MapView, active_loop, collect, export_loop, monitor,
  observe_duration, publish, tracking_info, when,
}
use kubeadapt_k8s_pulse.Collector.Cycle.Exports.{map-to_list_if, to_list-le-one}
use kubeadapt_k8s_pulse.Collector.Cycle.Reading.{
  Acc, Visit, count_protocol, empty_acc, read_loop, read_visit,
}
use kubeadapt_k8s_pulse.Collector.Keys.{AggKey, AggStats, protocol_to_string}
use kubeadapt_k8s_pulse.Collector.Metrics.{active_connections, count_error, dump_maps, set}
use kubeadapt_k8s_pulse.Collector.Series.{series, series-append, texts_eq}
use mathlib.Core.List.{Permᴰ, append-nil}
use native.Mathlib.Nat.{zero-add}

-- The number of entries with a given protocol.
unfoldable pub protocol_flows : Text → List Visit → ℕ
protocol_flows p [] = 0
protocol_flows p (v ∷ vs) =
    (if text_eq (protocol_to_string v.key.protocol) p then 1 else 0) + protocol_flows p vs

unfoldable pub has_protocol : Text → List Visit → Bool
has_protocol p [] = false
has_protocol p (v ∷ vs) = text_eq (protocol_to_string v.key.protocol) p || has_protocol p vs

lookup-count_protocol :
    (p q : Text) (m : List (Text × ℕ))
    → lookup p (count_protocol q m)
      ≡ (if text_eq q p then some (or_else (lookup p m) 0 + 1) else lookup p m)
unfolding count_protocol
lookup-count_protocol p q m = lookup-put q p _ m ∙ elim (Bool-cases (text_eq q p)) [
  | inl t ↦ rw t (ap (λ j. some (or_else (lookup j m) 0 + 1)) ((text_eq_iff q p).0 t))
  | inr f ↦ rw f
]

no_flows : (p : Text) (vs : List Visit) → has_protocol p vs ≡ false → protocol_flows p vs ≡ 0
unfolding has_protocol protocol_flows
no_flows p [] h = refl
no_flows p (v ∷ vs) h = ground (arith, no_flows p vs)

-- One more entry in front: `a` says whether it has the protocol, `b` whether a later one has.
counted :
    (a b : Bool) (o : Option ℕ) (n : ℕ)
    → (b ≡ false → n ≡ 0)
    → (if b
        then some (or_else (if a then some (or_else o 0 + 1) else o) 0 + n)
        else (if a then some (or_else o 0 + 1) else o))
      ≡ (if a || b then some (or_else o 0 + ((if a then 1 else 0) + n)) else o)
counted true true o n h = ground arith
counted true false o n h = ground (arith, h refl)
counted false true o n h = ground arith
counted false false o n h = refl

lookup-protocol_counts :
    (F : Type 0) (p : Text) (vs : List Visit) (acc : Acc)
    → lookup p (read_loop {F = F} vs acc).0.protocol_counts ≡ (
        if has_protocol p vs
        then some (or_else (lookup p acc.protocol_counts) 0 + protocol_flows p vs)
        else lookup p acc.protocol_counts)
unfolding read_loop read_visit has_protocol protocol_flows
lookup-protocol_counts F p [] acc = refl
lookup-protocol_counts F p (v ∷ vs) acc =
    lookup-protocol_counts F p vs (read_visit v acc)
    ∙ rw (lookup-count_protocol p (protocol_to_string v.key.protocol) acc.protocol_counts) (
        counted (text_eq (protocol_to_string v.key.protocol) p) (has_protocol p vs)
          (lookup p acc.protocol_counts) (protocol_flows p vs) (no_flows p vs))

protocol_counts-IsMap :
    (F : Type 0) (vs : List Visit) (acc : Acc)
    → IsMap acc.protocol_counts
    → IsMap (read_loop {F = F} vs acc).0.protocol_counts
unfolding read_loop read_visit
protocol_counts-IsMap F [] acc h = h
protocol_counts-IsMap F (v ∷ vs) acc h =
    protocol_counts-IsMap F vs (read_visit v acc) (put-IsMap _ _ _ h)

lookup-all_counts :
    (F : Type 0) (p : Text) (vs : List Visit)
    → lookup p (read_loop {F = F} vs empty_acc).0.protocol_counts
      ≡ (if has_protocol p vs then some (protocol_flows p vs) else none)
unfolding empty_acc lookup
lookup-all_counts F p vs = lookup-protocol_counts F p vs empty_acc ∙ rw zero-add

-- The update of `active_connections` in the series of a protocol: `bool` is a label of one text.
texts_eq_single : (s t : Text) → texts_eq (s ∷ []) (t ∷ []) ≡ text_eq s t
unfolding texts_eq
texts_eq_single s t = ground arith

module _ {F : Type 0} where
  when-still :
      (c : Bool) (p : Text) (error_type : Text)
      → series {F = F} active_connections (p ∷ []) (when c (count_error error_type)) ≡ []
  unfolding series
  when-still c p error_type = ground arith

  dump-still :
      (c : Bool) (p : Text) → series {F = F} active_connections (p ∷ []) (when c dump_maps) ≡ []
  unfolding series
  dump-still true p = refl
  dump-still false p = refl

  read_loop-still :
      (p : Text) (vs : List Visit) (acc : Acc)
      → series {F = F} active_connections (p ∷ []) (read_loop vs acc).1 ≡ []
  unfolding series read_loop
  read_loop-still p [] acc = refl
  read_loop-still p (v ∷ vs) acc = ground (arith, read_loop-still p vs (read_visit v acc))

module _ {F : Type 0} (env : CycleEnv F) where
  open env use {float}

  active_loop-series :
      (p : Text) (m : List (Text × ℕ))
      → series active_connections (p ∷ []) (active_loop env m)
        ≡ map (λ n. set (float.of_ℕ n)) (values p m)
  unfolding series active_loop values
  active_loop-series p [] = refl
  active_loop-series p ((q, n) ∷ m) = rw (texts_eq_single q p) (elim (Bool-cases (text_eq q p)) [
    | inl t ↦ rw t (ap (λ us. set (float.of_ℕ n) ∷ us) (active_loop-series p m))
    | inr f ↦ rw f (active_loop-series p m)
  ])

  export_loop-still :
      (p : Text) (m : List (AggKey × AggStats))
      → series active_connections (p ∷ []) (export_loop env m) ≡ []
  unfolding series export_loop
  export_loop-still p [] = refl
  export_loop-still p (a ∷ m) = export_loop-still p m

  infos-still :
      (p : Text) (x y : F)
      → series active_connections (p ∷ []) (
          tracking_info env (codes "total_connections_seen") x
          ∷ tracking_info env (codes "active_connections") y
          ∷ tracking_info env (codes "collection_duration_ms") env.milliseconds
          ∷ [])
        ≡ []
  unfolding series
  infos-still p x y = refl

  observe-still : (p : Text) → series active_connections (p ∷ []) (observe_duration env ∷ []) ≡ []
  unfolding series
  observe-still p = refl

  monitor-still :
      (p : Text) (m : MapView) (acc : Acc)
      → series active_connections (p ∷ []) (monitor env m acc) ≡ []
  unfolding series monitor
  monitor-still p m acc = ground arith

  publish-active :
      (p : Text) (acc : Acc) (c : ConnectionCollector)
      → text_eq env.pod_uid [] ≡ false
      → Permᴰ (env.range_counts acc.protocol_counts) acc.protocol_counts
      → IsMap acc.protocol_counts
      → series active_connections (p ∷ []) (publish env acc c).1
        ≡ map (λ n. set (float.of_ℕ n)) (to_list (lookup p acc.protocol_counts))
  unfolding publish
  publish-active p acc c named perm distinct =
      rw
        (
          named,
          series-append,
          export_loop-still,
          series-append,
          active_loop-series,
          once,
          values-lookup p _ distinct,
          infos-still,
        )
        (append-nil _)
    where
      once : values p (env.range_counts acc.protocol_counts) ≡ values p acc.protocol_counts
      once =
          values-perm_at_most_one p perm
            (rw (values-lookup p _ distinct) (to_list-le-one (lookup p acc.protocol_counts)))

-- In a cycle that reads the map and knows its pod, the gauge of a protocol is set exactly once, to
-- the number of entries read with that protocol, if there is one; a protocol with no entry is not
-- touched, so its gauge keeps the number of an earlier cycle.
pub collect-active_connections :
    {F : Type 0} (env : CycleEnv F) (c : ConnectionCollector) (m : MapView) (p : Text)
    → text_eq env.pod_uid [] ≡ false
    → ((counts : List (Text × ℕ)) → Permᴰ (env.range_counts counts) counts)
    → series active_connections (p ∷ []) (collect env (some m) c).1 ≡ (
        if has_protocol p m.visits
        then set (env.float.of_ℕ (protocol_flows p m.visits)) ∷ []
        else [])
unfolding collect
collect-active_connections {F} env c m p named ranges =
    simp
      (
        series-append, when-still, dump-still, observe-still, read_loop-still, monitor-still,
        append-nil,
      )
      (publish-active env p (read_loop {F = F} m.visits empty_acc).0 c named (ranges _)
          (protocol_counts-IsMap F m.visits empty_acc (unfold empty_acc in tt))
        ∙ rw (lookup-all_counts F p m.visits)
            (map-to_list_if (λ n. set (env.float.of_ℕ n)) (has_protocol p m.visits) _))
