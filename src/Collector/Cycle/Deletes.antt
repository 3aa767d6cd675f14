-- ===== src/Collector/Cycle/Deletes.antt =====
-- Read-then-delete: which keys one cycle of collect deletes, and what it counts of the outcomes.
use kubeadapt_k8s_pulse.Prelude.{
  Bool, Bool-cases, List, [], arith, inl, inr, map, refl, some, ℕ, ◌∷◌, ◌≡◌,
}
use kubeadapt_k8s_pulse.Prelude.Text.{Text, text_eq}
use kubeadapt_k8s_pulse.Collector.Cycle.{
  ConnectionCollector, CycleEnv, MapView, active_loop, collect, export_loop, monitor,
  observe_duration, publish, when,
}
use kubeadapt_k8s_pulse.Collector.Cycle.Reading.{Acc, Visit, read_loop, read_visit}
use kubeadapt_k8s_pulse.Collector.Keys.{AggKey, AggStats}
use kubeadapt_k8s_pulse.Collector.Metrics.{count_error, dump_maps}
use kubeadapt_k8s_pulse.Collector.Series.{deletions, deletions-append}
use mathlib.Core.List.{append-nil}

module _ (F : Type 0) where
  read_loop-deletions :
      (vs : List Visit) (acc : Acc)
      → deletions {F = F} (read_loop vs acc).1 ≡ map (λ (v : Visit). v.key) vs
  unfolding deletions read_loop
  read_loop-deletions [] acc = refl
  read_loop-deletions (v ∷ vs) acc = ground (arith, read_loop-deletions vs (read_visit v acc))

  when-deletions :
      (b : Bool) (error_type : Text) → deletions {F = F} (when b (count_error error_type)) ≡ []
  unfolding deletions
  when-deletions b error_type = ground arith

  dump-deletions : (b : Bool) → deletions {F = F} (when b dump_maps) ≡ []
  unfolding deletions
  dump-deletions b = ground arith

module _ {F : Type 0} (env : CycleEnv F) where
  export_loop-deletions : (agg : List (AggKey × AggStats)) → deletions (export_loop env agg) ≡ []
  unfolding deletions export_loop
  export_loop-deletions [] = refl
  export_loop-deletions (a ∷ agg) = export_loop-deletions agg

  active_loop-deletions : (m : List (Text × ℕ)) → deletions (active_loop env m) ≡ []
  unfolding deletions active_loop
  active_loop-deletions [] = refl
  active_loop-deletions (a ∷ m) = active_loop-deletions m

  publish-deletions : (acc : Acc) (c : ConnectionCollector) → deletions (publish env acc c).1 ≡ []
  unfolding publish deletions
  publish-deletions acc c = elim (Bool-cases (text_eq env.pod_uid [])) [
    | inl anonymous ↦ rw anonymous
    | inr named ↦ rw named (simp (deletions-append, export_loop-deletions, active_loop-deletions))
  ]

  observe-deletions : deletions (observe_duration env ∷ []) ≡ []
  unfolding deletions
  observe-deletions = refl

  monitor-deletions : (m : MapView) (acc : Acc) → deletions (monitor env m acc) ≡ []
  unfolding monitor deletions
  monitor-deletions m acc = ground arith

-- A cycle deletes every key that it read, once each and in the order of reading, and no other key,
-- whether or not it exports anything afterwards.
pub collect-deletes :
    {F : Type 0} (env : CycleEnv F) (c : ConnectionCollector) (m : MapView)
    → deletions (collect env (some m) c).1 ≡ map (λ (v : Visit). v.key) m.visits
unfolding collect
collect-deletes {F} env c m = simp (
  deletions-append,
  when-deletions F,
  dump-deletions F,
  read_loop-deletions F,
  monitor-deletions,
  publish-deletions,
  observe-deletions,
  append-nil,
)
