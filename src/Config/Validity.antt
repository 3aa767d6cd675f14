-- ===== src/Config/Validity.antt =====
-- What a configuration that passes Load guarantees to the parts that it is handed to.
use kubeadapt_k8s_pulse.Prelude.{
  Bool, List, Option, arith, false, inl, inr, negsuc, none, pos, refl, some, true, ℤ, ◌&&◌, ◌↔◌,
  ◌≡◌, ◌⊎◌,
}
use kubeadapt_k8s_pulse.Prelude.Int.{ltb_ℤ, ◌≤ℤ◌}
use kubeadapt_k8s_pulse.Prelude.Text.{Text}
use kubeadapt_k8s_pulse.Collector.Cycle.{new_connection_collector, set_aggregation_interval}
use kubeadapt_k8s_pulse.Collector.Schedule.{Event, collection_loop, start}
use kubeadapt_k8s_pulse.Config.{
  Config, ConfigError, File, Libraries, get_dump_bpf_maps, is_bad_port, load, load_env,
  load_from_env, load_from_file, second, set_defaults, validate, zero_config,
}

abbrev pub IsPort : ℤ → Type 0
IsPort p = (pos 1 ≤ℤ p) × (p ≤ℤ pos 65535)

-- Each port that is used is a TCP port, the collection interval is at least a second and the log
-- level is known.
abbrev pub IsValid : Libraries → Config → Type 0
IsValid libs c =
    IsPort c.metrics_port
    × (second ≤ℤ c.collection_interval)
    × (libs.parses_level c.log_level ≡ true)
    × ((c.enable_profiling ≡ false) ⊎ IsPort c.profiling_port)

IsPort-checked : (p : ℤ) → (is_bad_port p ≡ false) ↔ IsPort p
IsPort-checked (pos n) = ground arith
IsPort-checked (negsuc n) = ground arith

interval-checked : (d : ℤ) → (ltb_ℤ d second ≡ false) ↔ (second ≤ℤ d)
interval-checked (pos n) = ground arith
interval-checked (negsuc n) = ground arith

pub positive_interval : (d : ℤ) → second ≤ℤ d → ltb_ℤ (pos 0) d ≡ true
positive_interval (pos n) h = ground arith
positive_interval (negsuc n) h = ground arith

-- The four tests of validate, each of which must have passed.
validate-passes :
    (libs : Libraries) (c : Config)
    → validate libs c ≡ none
    → (is_bad_port c.metrics_port ≡ false)
      × (ltb_ℤ c.collection_interval second ≡ false)
      × (libs.parses_level c.log_level ≡ true)
      × ((c.enable_profiling && is_bad_port c.profiling_port) ≡ false)
unfolding validate
validate-passes libs c h = ground (arith, h)

validate-accepts :
    (libs : Libraries) (c : Config)
    → is_bad_port c.metrics_port ≡ false
    → ltb_ℤ c.collection_interval second ≡ false
    → libs.parses_level c.log_level ≡ true
    → (c.enable_profiling && is_bad_port c.profiling_port) ≡ false
    → validate libs c ≡ none
unfolding validate
validate-accepts libs c port interval level profiling = rw (port, interval, level, profiling) refl

profiling-checked :
    (on : Bool) (p : ℤ) → ((on && is_bad_port p) ≡ false) ↔ ((on ≡ false) ⊎ IsPort p)
profiling-checked true p = (
  λ h. inr ((IsPort-checked p).0 h),
  λ valid. elim valid [ inl e ↦ ground (arith, e) | inr port ↦ (IsPort-checked p).1 port ],
)
profiling-checked false p = (λ h. inl refl, λ valid. refl)

-- validate accepts exactly the valid configurations.
pub validate_iff : (libs : Libraries) (c : Config) → (validate libs c ≡ none) ↔ IsValid libs c
validate_iff libs c = (
  λ h.
      let (port, interval, level, profiling) = validate-passes libs c h in
      (
        (IsPort-checked c.metrics_port).0 port,
        (interval-checked c.collection_interval).0 interval,
        level,
        (profiling-checked c.enable_profiling c.profiling_port).0 profiling,
      ),
  λ (port, interval, level, profiling).
      validate-accepts libs c ((IsPort-checked c.metrics_port).1 port)
        ((interval-checked c.collection_interval).1 interval) level
        ((profiling-checked c.enable_profiling c.profiling_port).1 profiling),
)

load_env-accepted :
    (libs : Libraries) (getenv : Text → Text) (d c : Config)
    → load_env libs getenv d ≡ inr c
    → validate libs c ≡ none
unfolding load_env
load_env-accepted libs getenv d c h = go (validate libs (load_from_env libs getenv d)) refl h
  where
    go :
        (r : Option ConfigError)
        → validate libs (load_from_env libs getenv d) ≡ r
        → (elim r as (λ _. ConfigError ⊎ Config) [
          | none ↦ inr (load_from_env libs getenv d)
          | some e ↦ inl e
        ])
          ≡ inr c
        → validate libs c ≡ none
    go none e h' = ground (arith, e, h')
    go (some x) e h' = ground (arith, h')

load-accepted :
    (libs : Libraries) (file : Option File) (getenv : Text → Text) (c : Config)
    → load libs file getenv ≡ inr c
    → validate libs c ≡ none
unfolding load
load-accepted libs none getenv c h = load_env-accepted libs getenv (set_defaults zero_config) c h
load-accepted libs (some file) getenv c h =
    go (load_from_file libs file (set_defaults zero_config)) h
  where
    go :
        (r : ConfigError ⊎ Config)
        → (elim r as (λ _. ConfigError ⊎ Config) [ inl e ↦ inl e | inr d ↦ load_env libs getenv d ])
          ≡ inr c
        → validate libs c ≡ none
    go (inl e) h' = ground (arith, h')
    go (inr d) h' = load_env-accepted libs getenv d c h'

-- A configuration that Load returns is valid, whatever the file and the environment hold.
pub load-IsValid :
    (libs : Libraries) (file : Option File) (getenv : Text → Text) (c : Config)
    → load libs file getenv ≡ inr c
    → IsValid libs c
load-IsValid libs file getenv c h = (validate_iff libs c).0 (load-accepted libs file getenv c h)

-- The loop of the collector never panics on a configuration that Load returned: main sets the
-- configured interval on a new collector, and time.NewTicker takes it.
pub load-start :
    {F : Type 0} (libs : Libraries) (file : Option File) (getenv : Text → Text) (c : Config)
    → load libs file getenv ≡ inr c
    → (events : List (Event F))
    → start events (
        set_aggregation_interval c.collection_interval
          (new_connection_collector (get_dump_bpf_maps c)))
      ≡ some (
          collection_loop events (
            set_aggregation_interval c.collection_interval
              (new_connection_collector (get_dump_bpf_maps c))))
unfolding start set_aggregation_interval
load-start libs file getenv c h events =
    let (port, interval, level, profiling) = load-IsValid libs file getenv c h in
    let positive : ltb_ℤ (pos 0) c.collection_interval ≡ true =
      positive_interval c.collection_interval interval in
    rw positive refl
