-- ===== src/Collector/Schedule.antt =====
-- Start of connection_collector.go: the collection loop over a schedule of ticks and cancellation.
pub mod Runs
use kubeadapt_k8s_pulse.Prelude.{
  Bool, List, Option, [], false, if◌then◌else◌, none, pos, some, true, ℕ, ◌++◌, ◌∷◌,
}
use kubeadapt_k8s_pulse.Prelude.Int.{ltb_ℤ}
use kubeadapt_k8s_pulse.Collector.Cycle.{ConnectionCollector, CycleEnv, MapView, collect}
use kubeadapt_k8s_pulse.Collector.Metrics.{Call}

-- What one round of the select receives: a tick, with all that its cycle meets, or ctx.Done().
pub data Event (F : Type 0) : Type 0 where
  tick : CycleEnv F → Option MapView → Event F
  done : Event F

unfoldable pub collection_loop :
    {F : Type 0} → List (Event F) → ConnectionCollector → ConnectionCollector × List (Call F)
collection_loop [] c = (c, [])
collection_loop (done ∷ events) c = (c, [])
collection_loop (tick env m ∷ events) c =
    let (c', calls) = collect env m c in
    let (c'', rest) = collection_loop events c' in (c'', calls ++ rest)

-- `none` is the panic of time.NewTicker on an interval that is not positive.
unfoldable pub start :
    {F : Type 0}
    → List (Event F)
    → ConnectionCollector
    → Option (ConnectionCollector × List (Call F))
start events c =
    if ltb_ℤ (pos 0) c.aggregation_interval then some (collection_loop events c) else none
