-- ===== src/Collector/Cycle/Labels.antt =====
-- The client library panics when WithLabelValues is given another number of values than the metric
-- was registered with, and a metric has only the methods of its kind. What collect calls, against
-- what initMetrics registers; Labels/Valid adds what the library asks of the values themselves.
pub mod Valid
use kubeadapt_k8s_pulse.Prelude.{
  All, Bool, Bool-cases, List, Option, [], false, inl, inr, length, ltb, none, refl, some, true, ℕ,
  ◌&&◌, ◌++◌, ◌==◌, ◌||◌, ◌∷◌, ◌≡◌,
}
use kubeadapt_k8s_pulse.Prelude.Text.{Text, text_eq}
use kubeadapt_k8s_pulse.Collector.Cycle.{
  ConnectionCollector, CycleEnv, MapView, active_loop, batch_level, collect, export_loop,
  log_batch_size, monitor, publish, utilization, when,
}
use kubeadapt_k8s_pulse.Collector.Cycle.Reading.{
  Acc, Deletion, Visit, deleted, deletion_errors, empty_acc, failed, not_found, read_loop,
  read_visit,
}
use kubeadapt_k8s_pulse.Collector.Keys.{AggKey, AggStats}
use kubeadapt_k8s_pulse.Collector.Metrics.{
  Call, Kind, Level, Metric, Registration, Update, add, counter, delete, dump_maps, gauge,
  histogram, inc, init_metrics, log_batch, observe, set, update,
}
use kubeadapt_k8s_pulse.Collector.Series.{metric_eq}

-- The methods of each kind of metric.
abbrev kind_takes : {F : Type 0} → Kind → Update F → Bool
kind_takes counter inc = true
kind_takes counter (add x) = true
kind_takes counter (set x) = false
kind_takes counter (observe x) = false
kind_takes gauge inc = true
kind_takes gauge (add x) = true
kind_takes gauge (set x) = true
kind_takes gauge (observe x) = false
kind_takes histogram inc = false
kind_takes histogram (add x) = false
kind_takes histogram (set x) = false
kind_takes histogram (observe x) = true

-- Whether some registration has the metric, this number of labels, and the method.
unfoldable pub is_registered : {F : Type 0} → Metric → ℕ → Update F → List Registration → Bool
is_registered m n u [] = false
is_registered m n u (r ∷ rs) =
    metric_eq r.metric m && (length r.labels == n && kind_takes r.kind u) || is_registered m n u rs

unfoldable pub is_accepted : {F : Type 0} → Call F → Bool
unfolding is_registered init_metrics
is_accepted (update m l u) = is_registered m (length l) u init_metrics
is_accepted (delete key) = true
is_accepted dump_maps = true
is_accepted (log_batch level) = true

abbrev pub AllAccepted : {F : Type 0} → List (Call F) → Type 0
AllAccepted = All (λ call. is_accepted call ≡ true)

module _ {F : Type 0} where
  pub AllAccepted-append :
      (xs ys : List (Call F)) → AllAccepted xs → AllAccepted ys → AllAccepted (xs ++ ys)
  AllAccepted-append [] ys hx hy = hy
  AllAccepted-append (x ∷ xs) ys hx hy = (hx.0, AllAccepted-append xs ys hx.1 hy)

  AllAccepted-when :
      (b : Bool) (call : Call F) → is_accepted call ≡ true → AllAccepted (when b call)
  AllAccepted-when true call h = (h, tt)
  AllAccepted-when false call h = tt

module _ (F : Type 0) where
  read_loop-AllAccepted : (vs : List Visit) (acc : Acc) → AllAccepted {F = F} (read_loop vs acc).1
  unfolding read_loop is_accepted
  read_loop-AllAccepted [] acc = tt
  read_loop-AllAccepted (v ∷ vs) acc = (
    refl,
    AllAccepted-append _ _ (errors v.deletion) (read_loop-AllAccepted vs (read_visit v acc)),
  )
    where
      errors : (d : Deletion) → AllAccepted {F = F} (deletion_errors d)
      errors failed = (refl, tt)
      errors deleted = tt
      errors not_found = tt

module _ {F : Type 0} (env : CycleEnv F) where
  export_loop-AllAccepted : (m : List (AggKey × AggStats)) → AllAccepted (export_loop env m)
  unfolding export_loop is_accepted
  export_loop-AllAccepted [] = tt
  export_loop-AllAccepted (a ∷ m) = (refl, (refl, export_loop-AllAccepted m))

  active_loop-AllAccepted : (m : List (Text × ℕ)) → AllAccepted (active_loop env m)
  unfolding active_loop is_accepted
  active_loop-AllAccepted [] = tt
  active_loop-AllAccepted (a ∷ m) = (refl, active_loop-AllAccepted m)

  utilization-AllAccepted : (o : Option ℕ) (n : ℕ) → AllAccepted (utilization env o n)
  unfolding utilization is_accepted
  utilization-AllAccepted none n = tt
  utilization-AllAccepted (some max) n = AllAccepted-when (ltb 0 max) _ refl

  log-AllAccepted : (o : Option Level) → AllAccepted (log_batch_size env o)
  unfolding is_accepted
  log-AllAccepted none = tt
  log-AllAccepted (some level) = (refl, tt)

  monitor-AllAccepted : (m : MapView) (acc : Acc) → AllAccepted (monitor env m acc)
  unfolding monitor is_accepted
  monitor-AllAccepted m acc = AllAccepted-append _ _ (AllAccepted-when _ _ refl) (
      AllAccepted-append _ _ (utilization-AllAccepted m.max_entries acc.current_entries)
        (refl, log-AllAccepted (batch_level (length acc.aggregated))))

  publish-AllAccepted : (acc : Acc) (c : ConnectionCollector) → AllAccepted (publish env acc c).1
  unfolding publish is_accepted
  publish-AllAccepted acc c = elim (Bool-cases (text_eq env.pod_uid [])) [
    | inl anonymous ↦ rw anonymous (refl, tt)
    | inr named ↦ rw named (
        AllAccepted-append _ _ (export_loop-AllAccepted (env.range_aggregated acc.aggregated)) (
          AllAccepted-append _ _ (active_loop-AllAccepted (env.range_counts acc.protocol_counts))
            (refl, (refl, (refl, tt)))))
  ]

-- Each metric that is updated is one that initMetrics registers, with as many label values as it was
-- registered with and by a method of its kind.
pub collect-AllAccepted :
    {F : Type 0} (env : CycleEnv F) (m : Option MapView) (c : ConnectionCollector)
    → AllAccepted (collect env m c).1
unfolding collect is_accepted
collect-AllAccepted env none c = (refl, (refl, tt))
collect-AllAccepted {F} env (some m) c =
    AllAccepted-append _ _
      (AllAccepted-append _ _ (AllAccepted-when m.info_failed _ refl) (
        AllAccepted-append _ _ (AllAccepted-when c.dump_bpf_maps _ refl) (
          AllAccepted-append _ _ (read_loop-AllAccepted F m.visits empty_acc) (
            AllAccepted-append _ _
              (monitor-AllAccepted env m (read_loop {F = F} m.visits empty_acc).0)
              (publish-AllAccepted env (read_loop {F = F} m.visits empty_acc).0 c)))))
      (refl, tt)
