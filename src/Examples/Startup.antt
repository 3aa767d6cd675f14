-- ===== src/Examples/Startup.antt =====
-- The theorems on main and on the overflow handler at a node where all goes well.
use kubeadapt_k8s_pulse.Prelude.{
  List, [], false, if◌then◌else◌, map, none, refl, some, take, true, ℕ, ◌&&◌, ◌∷◌, ◌≡◌,
}
use kubeadapt_k8s_pulse.Prelude.Text.{codes, text_eq}
use kubeadapt_k8s_pulse.Agent.{Startup, configured_collector, run, serve}
use kubeadapt_k8s_pulse.Agent.CleanUp.{removed_filters, run-filters}
use kubeadapt_k8s_pulse.Agent.Paths.{Passes, health_while_waiting, loads, run-health, served}
use kubeadapt_k8s_pulse.Agent.Tracking.{collectors, run-collectors}
use kubeadapt_k8s_pulse.Bpf.Manager.Attach.{ingress_filter}
use kubeadapt_k8s_pulse.Bpf.Manager.Lifecycle.{attached_interfaces}
use kubeadapt_k8s_pulse.Bpf.Platform.{linux}
use kubeadapt_k8s_pulse.Collector.Schedule.{Event, collection_loop, done, start}
use kubeadapt_k8s_pulse.Config.{
  Config, env_or, load, load_env, load_from_env, set_defaults, validate, zero_config,
}
use kubeadapt_k8s_pulse.Examples.Data.{libraries, loading, no_variables}
use kubeadapt_k8s_pulse.Server.{Clock, server_closed}
use kubeadapt_k8s_pulse.System.Kernel.{err, uname_failed}

abbrev startup : Startup
startup = record {
  version_flag = false;
  libraries = libraries;
  config_file = none;
  getenv = no_variables;
  is_debug = λ level. false;
  logger_fails = false;
  kernel = err uname_failed;
  bpf_filesystem_missing = false;
  tracing_missing = true;
  platform = linux;
  memlock_fails = false;
  memlock_message = [];
  serve_result = server_closed;
  loading = loading;
  load_message = λ e. codes "failed";
  load_duration = 12;
  started_at = 1;
  loaded_at = 13;
}

abbrev defaults : Config
defaults = set_defaults zero_config

startup-Passes : Passes startup defaults
unfolding load load_env load_from_env env_or validate set_defaults text_eq
startup-Passes = (refl, refl, refl, refl)

abbrev clock : Clock
clock = record { uptime = codes "1"; started_at = codes "t" }

run-health_example :
    ((run startup).exit_code ≡ 0)
    × (take 1 (run startup).trace ≡ serve (served startup defaults) ∷ [])
    × (health_while_waiting clock false (run startup).trace
        ≡ some (if loads startup then 200 else 503) ∷ [])
run-health_example = run-health clock startup defaults startup-Passes

abbrev cancelled_only : List (Event ℕ)
cancelled_only = done ∷ []

run-collectors_example :
    (collectors (run startup).trace ≡ (
      if loads startup && defaults.connection_tracking
      then configured_collector defaults ∷ []
      else []))
    × ((configured_collector defaults).aggregation_interval ≡ defaults.collection_interval)
    × (start cancelled_only (configured_collector defaults)
        ≡ some (collection_loop cancelled_only (configured_collector defaults)))
run-collectors_example = run-collectors startup defaults cancelled_only startup-Passes

run-filters_example :
    removed_filters (run startup).trace ≡ map ingress_filter (attached_interfaces loading)
run-filters_example = run-filters startup defaults startup-Passes
