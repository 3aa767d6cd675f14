-- ===== src/Agent/Tracking.antt =====
-- The collector that main starts.
use kubeadapt_k8s_pulse.Prelude.{
  Bool-cases, List, Option, [], ap, arith, if◌then◌else◌, inl, inr, none, refl, some, ◌&&◌, ◌++◌,
  ◌∙◌, ◌∷◌, ◌≡◌,
}
use kubeadapt_k8s_pulse.Agent.{
  Action, Outcome, Startup, collect_connections, configured_collector, run, run_loaded, run_manager,
  serving_errors, start_fails,
}
use kubeadapt_k8s_pulse.Agent.Paths.{
  Passes, is_none, loads, run-Passes, run_manager-loaded, run_manager-refused, served,
}
use kubeadapt_k8s_pulse.Bpf.Manager.{LoadError, Manager}
use kubeadapt_k8s_pulse.Bpf.Manager.Lifecycle.{load_error}
use kubeadapt_k8s_pulse.Bpf.Platform.{lacks_manager}
use kubeadapt_k8s_pulse.Collector.Cycle.{
  ConnectionCollector, new_connection_collector, set_aggregation_interval,
}
use kubeadapt_k8s_pulse.Collector.Schedule.{Event, collection_loop, start}
use kubeadapt_k8s_pulse.Config.{Config, get_dump_bpf_maps}
use kubeadapt_k8s_pulse.Config.Validity.{load-IsValid, load-start, positive_interval}
use kubeadapt_k8s_pulse.Server.{
  ServeResult, Server, no_error, serve_failed, server_closed, start_fails,
}

-- The collectors that are started.
unfoldable pub collectors : List Action → List ConnectionCollector
collectors [] = []
collectors (collect_connections c ∷ more) = c ∷ collectors more
collectors (_ ∷ more) = collectors more

run_loaded-collectors :
    (s : Startup) (cfg : Config) (server : Server) (e : Option LoadError) (m : Manager)
    → collectors (run_loaded s cfg server e m)
      ≡ (if is_none e && cfg.connection_tracking then configured_collector cfg ∷ [] else [])
unfolding run_loaded collectors
run_loaded-collectors s cfg server (some e) m = refl
run_loaded-collectors s cfg server none m = ground arith

run_manager-collectors :
    (s : Startup) (cfg : Config) (server : Server)
    → collectors (run_manager s cfg server)
      ≡ (if loads s && cfg.connection_tracking then configured_collector cfg ∷ [] else [])
unfolding collectors
run_manager-collectors s cfg server = elim (Bool-cases (lacks_manager s.platform s.memlock_fails)) [
  | inl f ↦ ap (λ l. collectors l) (run_manager-refused s cfg server f) ∙ rw f refl
  | inr g ↦
      ap (λ l. collectors l) (run_manager-loaded s cfg server g)
      ∙ (run_loaded-collectors s cfg server (load_error s.loading) _ ∙ rw g refl)
]

configured-set :
    (s : Startup) (cfg : Config)
    → Passes s cfg
    → configured_collector cfg
      ≡ set_aggregation_interval cfg.collection_interval
          (new_connection_collector (get_dump_bpf_maps cfg))
unfolding configured_collector
configured-set s cfg h =
    let (version, config, logger, bpf) = h in
    let (port, interval, level, profiling) =
      load-IsValid s.libraries s.config_file s.getenv cfg config in
    rw (positive_interval cfg.collection_interval interval) refl

serving_errors-collectors :
    (r : ServeResult) (more : List Action) → collectors (serving_errors r ++ more) ≡ collectors more
unfolding collectors start_fails
serving_errors-collectors no_error more = refl
serving_errors-collectors server_closed more = refl
serving_errors-collectors serve_failed more = refl

-- A run that gets past the configuration, the logger and the kernel check starts the collector
-- exactly if the eBPF programs are loaded and tracking is on, once, with the configured interval,
-- and that collector's loop runs on any schedule of ticks without the panic of time.NewTicker.
pub run-collectors :
    {F : Type 0} (s : Startup) (cfg : Config) (events : List (Event F))
    → Passes s cfg
    → (collectors (run s).trace
        ≡ (if loads s && cfg.connection_tracking then configured_collector cfg ∷ [] else []))
      × ((configured_collector cfg).aggregation_interval ≡ cfg.collection_interval)
      × (start events (configured_collector cfg)
          ≡ some (collection_loop events (configured_collector cfg)))
unfolding collectors set_aggregation_interval
run-collectors s cfg events h =
    let (version, config, logger, bpf) = h in
    (
      ap (λ (o : Outcome). collectors o.trace) (run-Passes s cfg h)
          ∙ (serving_errors-collectors s.serve_result _
              ∙ run_manager-collectors s cfg (served s cfg)),
      ap (λ (c : ConnectionCollector). c.aggregation_interval) (configured-set s cfg h),
      rw (configured-set s cfg h) (load-start s.libraries s.config_file s.getenv cfg config events),
    )
