-- ===== src/Agent/Paths.antt =====
-- What the paths through main have in common.
use kubeadapt_k8s_pulse.Prelude.{
  Bool, Bool-cases, List, Option, [], ap, arith, false, if◌then◌else◌, inl, inr, map, none, not,
  refl, some, take, true, ℕ, ◌&&◌, ◌++◌, ◌∙◌, ◌∷◌, ◌≡◌,
}
use kubeadapt_k8s_pulse.Agent.{
  Action, Outcome, ServeResult, Startup, check_kernel_compatibility, report, run, run_configured,
  run_loaded, run_logged, run_manager, serve, server_error, serving_errors, start_fails,
  stop_serving, wait_for_signal,
}
use kubeadapt_k8s_pulse.Bpf.Manager.{LoadError, Loading, Manager, load_and_attach, new_manager}
use kubeadapt_k8s_pulse.Bpf.Manager.Attach.{ingress_filter}
use kubeadapt_k8s_pulse.Bpf.Manager.Lifecycle.{
  attached_interfaces, load_and_attach-exact, load_error,
}
use kubeadapt_k8s_pulse.Bpf.Platform.{
  lacks_manager, manager_error, new, open_manager, open_manager_lem,
}
use kubeadapt_k8s_pulse.Config.{Config, load}
use kubeadapt_k8s_pulse.Config.Logging.{Logger, configured_logger, load-build_logger}
use kubeadapt_k8s_pulse.Server.{
  Clock, ServeResult, Server, handle_health, new_server, no_error, report_bpf_load_failure,
  report_bpf_load_success, serve_failed, server_closed, set_ready, start_fails, start_server,
}

abbrev pub is_none : {A : Type 0} → Option A → Bool
is_none none = true
is_none (some x) = false

-- Whether the system is Linux, the memory lock limit is lifted and loading succeeds, in terms of what the
-- system answers.
abbrev pub loads : Startup → Bool
loads s = not (lacks_manager s.platform s.memlock_fails) && is_none (load_error s.loading)

-- Whether the metrics server could listen: it comes back because of Shutdown, or with no error.
abbrev pub listens : ServeResult → Bool
listens no_error = true
listens server_closed = true
listens serve_failed = false

-- The answers to requests for the combined health endpoint, one during each wait for a signal: the
-- status where the server listens, and no answer where it does not.
unfoldable pub health_while_waiting : Clock → Bool → List Action → List (Option ℕ)
health_while_waiting clock listening [] = []
health_while_waiting clock listening (serve server ∷ more) = health_while_waiting clock true more
health_while_waiting clock listening (server_error ∷ more) = health_while_waiting clock false more
health_while_waiting clock listening (stop_serving server ∷ more) =
    health_while_waiting clock false more
health_while_waiting clock listening (wait_for_signal server ∷ more) =
    (if listening then some (handle_health clock server).status else none)
    ∷ health_while_waiting clock listening more
health_while_waiting clock listening (_ ∷ more) = health_while_waiting clock listening more

run_loaded-health :
    (clock : Clock) (b : Bool) (s : Startup) (cfg : Config) (server : Server) (e : Option LoadError)
    (m : Manager)
    → server.is_live ≡ true
    → health_while_waiting clock b (run_loaded s cfg server e m)
      ≡ (if b then some (if is_none e then 200 else 503) else none) ∷ []
unfolding run_loaded health_while_waiting handle_health report_bpf_load_success
    report_bpf_load_failure set_ready
run_loaded-health clock b s cfg server (some e) m live = rw live refl
run_loaded-health clock b s cfg server none m live = elim (Bool-cases cfg.enable_profiling) [
  | inl p ↦ elim (Bool-cases cfg.connection_tracking) [
    | inl t ↦ rw (p, t, live) refl
    | inr t ↦ rw (p, t, live) refl
  ]
  | inr p ↦ elim (Bool-cases cfg.connection_tracking) [
    | inl t ↦ rw (p, t, live) refl
    | inr t ↦ rw (p, t, live) refl
  ]
]

pub new_manager-loading :
    (l : Loading)
    → ((load_and_attach l new).0 ≡ load_error l)
      × ((load_and_attach l new).1.tc_filters ≡ map ingress_filter (attached_interfaces l))
      × ((load_and_attach l new).1.has_collection ≡ (l.spec_loads && l.collection_loads))
unfolding new_manager
new_manager-loading l = load_and_attach-exact l new refl

-- What the server is told when NewManager fails.
abbrev pub refused : Startup → Server → Server
refused s server =
    report_bpf_load_failure (manager_error s.platform s.memlock_message) 0 s.loaded_at server

pub run_manager-refused :
    (s : Startup) (cfg : Config) (server : Server)
    → lacks_manager s.platform s.memlock_fails ≡ true
    → run_manager s cfg server ≡ report (refused s server) ∷ wait_for_signal (refused s server) ∷ []
unfolding run_manager
run_manager-refused s cfg server h =
    let opened : open_manager s.platform s.memlock_fails ≡ none =
      open_manager_lem s.platform s.memlock_fails ∙ rw h refl in
    rw (opened, run_manager) refl

-- Past NewManager main goes on with the error that loading comes to.
pub run_manager-loaded :
    (s : Startup) (cfg : Config) (server : Server)
    → lacks_manager s.platform s.memlock_fails ≡ false
    → run_manager s cfg server
      ≡ run_loaded s cfg server (load_error s.loading) (load_and_attach s.loading new).1
unfolding run_manager
run_manager-loaded s cfg server h =
    let opened : open_manager s.platform s.memlock_fails ≡ some new =
      open_manager_lem s.platform s.memlock_fails ∙ rw h refl in
    rw (opened, run_manager)
      (ap (λ e. run_loaded s cfg server e (load_and_attach s.loading new).1)
        (new_manager-loading s.loading).0)

refused-health :
    (clock : Clock) (s : Startup) (server : Server)
    → (handle_health clock (refused s server)).status ≡ 503
unfolding handle_health report_bpf_load_failure set_ready
refused-health clock s server = ground arith

run_manager-health :
    (clock : Clock) (b : Bool) (s : Startup) (cfg : Config) (server : Server)
    → server.is_live ≡ true
    → health_while_waiting clock b (run_manager s cfg server)
      ≡ (if b then some (if loads s then 200 else 503) else none) ∷ []
unfolding health_while_waiting
run_manager-health clock b s cfg server live =
    elim (Bool-cases (lacks_manager s.platform s.memlock_fails)) [
      | inl f ↦
          ap (λ l. health_while_waiting clock b l) (run_manager-refused s cfg server f)
          ∙ (ap (λ n. (if b then some n else none) ∷ []) (refused-health clock s server)
              ∙ rw f refl)
      | inr g ↦
          ap (λ l. health_while_waiting clock b l) (run_manager-loaded s cfg server g)
          ∙ (run_loaded-health clock b s cfg server (load_error s.loading) _ live ∙ rw g refl)
    ]

-- What main must get past before it serves: the version flag, the configuration, the logger and the
-- check of the kernel.
abbrev pub Passes : Startup → Config → Type 0
Passes s cfg =
    (s.version_flag ≡ false)
    × (load s.libraries s.config_file s.getenv ≡ inr cfg)
    × (s.logger_fails ≡ false)
    × (s.bpf_filesystem_missing ≡ false)

abbrev pub served : Startup → Config → Server
served s cfg = start_server (new_server cfg.metrics_port s.started_at)

-- What a run does that gets that far.
abbrev pub served_outcome : Startup → Config → Outcome
served_outcome s cfg = record {
  exit_code = 0;
  trace =
      serve (served s cfg) ∷ (serving_errors s.serve_result ++ run_manager s cfg (served s cfg));
}

run-configured :
    (s : Startup) (cfg : Config)
    → s.version_flag ≡ false
    → load s.libraries s.config_file s.getenv ≡ inr cfg
    → run s ≡ run_configured s cfg
unfolding run run_configured run_logged run_manager run_loaded
run-configured s cfg version config = rw (version, config) refl

run_logged-served :
    (s : Startup) (cfg : Config) (logger : Logger)
    → s.bpf_filesystem_missing ≡ false
    → run_logged s cfg (inr logger) ≡ served_outcome s cfg
unfolding run_logged check_kernel_compatibility
run_logged-served s cfg logger bpf = rw bpf refl

pub run-Passes : (s : Startup) (cfg : Config) → Passes s cfg → run s ≡ served_outcome s cfg
unfolding run_configured
run-Passes s cfg (version, config, logger, bpf) =
    let built =
      load-build_logger s.libraries s.is_debug s.logger_fails s.config_file s.getenv cfg config
      ∙ rw logger refl in
    run-configured s cfg version config
    ∙ ap (run_logged s cfg) built
    ∙ run_logged-served s cfg (configured_logger s.is_debug cfg) bpf

served-is_live : (s : Startup) (cfg : Config) → (served s cfg).is_live ≡ true
unfolding start_server new_server
served-is_live s cfg = refl

served-health :
    (clock : Clock) (s : Startup) (cfg : Config)
    → health_while_waiting clock false (served_outcome s cfg).trace
      ≡ (if listens s.serve_result then some (if loads s then 200 else 503) else none) ∷ []
unfolding health_while_waiting start_fails
served-health clock s cfg = go s.serve_result
  where
    go :
        (r : ServeResult)
        → health_while_waiting clock true (serving_errors r ++ run_manager s cfg (served s cfg))
          ≡ (if listens r then some (if loads s then 200 else 503) else none) ∷ []
    go no_error = run_manager-health clock true s cfg (served s cfg) (served-is_live s cfg)
    go server_closed = run_manager-health clock true s cfg (served s cfg) (served-is_live s cfg)
    go serve_failed = run_manager-health clock false s cfg (served s cfg) (served-is_live s cfg)

-- A run that gets past the configuration, the logger and the kernel check starts the metrics server
-- before anything else and exits with 0. It waits for a signal exactly once. A request for the health
-- endpoint during the wait is answered by 200 if the eBPF programs were loaded and attached, and by 503
-- otherwise, as long as the server can listen on its port; if it cannot, main goes on all the same and
-- nothing answers.
pub run-health :
    (clock : Clock) (s : Startup) (cfg : Config)
    → Passes s cfg
    → ((run s).exit_code ≡ 0)
      × (take 1 (run s).trace ≡ serve (served s cfg) ∷ [])
      × (health_while_waiting clock false (run s).trace
          ≡ (if listens s.serve_result then some (if loads s then 200 else 503) else none) ∷ [])
run-health clock s cfg h = (
  ap (λ (o : Outcome). o.exit_code) (run-Passes s cfg h),
  ap (λ (o : Outcome). take 1 o.trace) (run-Passes s cfg h),
  ap (λ (o : Outcome). health_while_waiting clock false o.trace) (run-Passes s cfg h)
      ∙ served-health clock s cfg,
)
