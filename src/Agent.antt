-- ===== src/Agent.antt =====
-- cmd/agent/main.go: the phases of main, each with the paths that leave it, as the sequence of what
-- main does. Flags, the clock and the answers of the system are inputs; the goroutines that main
-- starts appear as the action of starting them.
pub mod Paths
pub mod Tracking
pub mod CleanUp
use kubeadapt_k8s_pulse.Prelude.{
  Bool, Bool-cases, List, Option, [], false, if◌then◌else◌, inl, inr, none, pos, refl, some, true,
  ℕ, ℤ, ◌++◌, ◌∷◌, ◌⊎◌,
}
use kubeadapt_k8s_pulse.Prelude.Int.{ltb_ℤ}
use kubeadapt_k8s_pulse.Prelude.Text.{Text, codes}
use kubeadapt_k8s_pulse.Bpf.Manager.{Cleanup, LoadError, Loading, Manager, close, load_and_attach}
use kubeadapt_k8s_pulse.Bpf.Platform.{Platform, manager_error, open_manager}
use kubeadapt_k8s_pulse.Collector.Cycle.{
  ConnectionCollector, new_connection_collector, set_aggregation_interval,
}
use kubeadapt_k8s_pulse.Config.{Config, ConfigError, File, Libraries, get_dump_bpf_maps, load}
use kubeadapt_k8s_pulse.Config.Logging.{Logger, LoggerError, build_logger}
use kubeadapt_k8s_pulse.Server.{
  ServeResult, Server, new_server, report_bpf_load_failure, report_bpf_load_success, shutdown,
  start_fails, start_server,
}
use kubeadapt_k8s_pulse.System.Kernel.{Detection, err, ok}

-- What a run of the agent meets.
pub record Startup : Type 0 where
  pub version_flag : Bool
  pub libraries : Libraries
  pub config_file : Option File
  pub getenv : Text → Text
  -- whether zapcore.ParseLevel reads a text as the debug level, and whether zap fails to build
  pub is_debug : Text → Bool
  pub logger_fails : Bool
  pub kernel : Detection
  pub bpf_filesystem_missing : Bool
  pub tracing_missing : Bool
  -- the system that the agent is built for
  pub platform : Platform
  -- whether rlimit.RemoveMemlock fails, and the text of NewManager's error then
  pub memlock_fails : Bool
  pub memlock_message : Text
  -- what http.Server.ListenAndServe of the metrics server comes back with
  pub serve_result : ServeResult
  pub loading : Loading
  -- the text of a loading error
  pub load_message : LoadError → Text
  pub load_duration : ℕ
  pub started_at : ℕ
  pub loaded_at : ℕ

-- The warnings of checkKernelCompatibility.
pub data Warning : Type 0 where
  kernel_unknown tracing_not_available : Warning

abbrev kernel_warnings : Detection → List Warning
kernel_warnings (ok kv) = []
kernel_warnings (err e) = kernel_unknown ∷ []

-- checkKernelCompatibility: whether it returns an error, and what it warns of before.
unfoldable pub check_kernel_compatibility : Detection → Bool → Bool → Bool × List Warning
check_kernel_compatibility kernel bpf_missing tracing_missing =
    if bpf_missing then (true, kernel_warnings kernel) else (
      false,
      kernel_warnings kernel ++ (if tracing_missing then tracing_not_available ∷ [] else []),
    )

-- What main does, in order. The message of a metrics server that fails to listen comes from its own
-- goroutine and stands where that begins; main waits for 100 ms and goes on. A report carries the server's state after it, a wait for a signal the
-- state during it.
pub data Action : Type 0 where
  print_version incompatible : Action
  logger_refused : LoggerError → Action
  config_refused : ConfigError → Action
  serve : Server → Action
  server_error : Action
  report : Server → Action
  profile : ℤ → Action
  collect_connections : ConnectionCollector → Action
  handle_overflow : Action
  wait_for_signal : Server → Action
  stop_serving : Server → Action
  clean_up : List Cleanup → Action

pub record Outcome : Type 0 where
  pub exit_code : ℕ
  pub trace : List Action

-- The profiling server, if it is enabled.
abbrev profiling : Config → List Action
profiling cfg = if cfg.enable_profiling then profile cfg.profiling_port ∷ [] else []

-- The collector as main configures it: the interval is set if it is positive.
unfoldable pub configured_collector : Config → ConnectionCollector
configured_collector cfg =
    let c = new_connection_collector (get_dump_bpf_maps cfg) in
    if ltb_ℤ (pos 0) cfg.collection_interval
    then set_aggregation_interval cfg.collection_interval c
    else c

abbrev tracking : Config → List Action
tracking cfg =
    if cfg.connection_tracking
    then collect_connections (configured_collector cfg) ∷ handle_overflow ∷ []
    else []

-- From the outcome of LoadAndAttach on: the deferred Close comes last on both paths.
unfoldable pub run_loaded : Startup → Config → Server → Option LoadError → Manager → List Action
run_loaded s cfg server (some e) m =
    let failed = report_bpf_load_failure (s.load_message e) s.load_duration s.loaded_at server in
    report failed ∷ wait_for_signal failed ∷ clean_up (close m).1 ∷ []
run_loaded s cfg server none m =
    let ready = report_bpf_load_success s.load_duration s.loaded_at server in
    report ready
    ∷ (profiling cfg
        ++ (tracking cfg
            ++ (wait_for_signal ready
                ∷ stop_serving (shutdown ready).0
                ∷ clean_up (close m).1
                ∷ [])))

-- From NewManager on.
unfoldable pub run_manager : Startup → Config → Server → List Action
run_manager s cfg server = elim (open_manager s.platform s.memlock_fails) [
  | none ↦
      let failed =
        report_bpf_load_failure (manager_error s.platform s.memlock_message) 0 s.loaded_at server in
      report failed ∷ wait_for_signal failed ∷ []
  | some m ↦ run_loaded s cfg server (load_and_attach s.loading m).0 (load_and_attach s.loading m).1
]

-- The goroutine of the metrics server: an error of Start is logged, and nothing else follows from it.
abbrev pub serving_errors : ServeResult → List Action
serving_errors r = if start_fails r then server_error ∷ [] else []

-- From BuildLogger on; a kernel that is not compatible ends main by logger.Fatal.
unfoldable pub run_logged : Startup → Config → LoggerError ⊎ Logger → Outcome
run_logged s cfg (inl e) = record { exit_code = 1; trace = logger_refused e ∷ [] }
run_logged s cfg (inr logger) =
    if (check_kernel_compatibility s.kernel s.bpf_filesystem_missing s.tracing_missing).0
    then record { exit_code = 1; trace = incompatible ∷ [] }
    else let server = start_server (new_server cfg.metrics_port s.started_at) in
      record {
        exit_code = 0;
        trace = serve server ∷ (serving_errors s.serve_result ++ run_manager s cfg server);
      }

-- From a valid configuration on.
unfoldable pub run_configured : Startup → Config → Outcome
run_configured s cfg = run_logged s cfg (build_logger s.libraries s.is_debug s.logger_fails cfg)

-- main
unfoldable pub run : Startup → Outcome
run s =
    if s.version_flag
    then record { exit_code = 0; trace = print_version ∷ [] }
    else elim (load s.libraries s.config_file s.getenv) [
      | inl e ↦ record { exit_code = 1; trace = config_refused e ∷ [] }
      | inr cfg ↦ run_configured s cfg
    ]
