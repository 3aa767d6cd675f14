-- ===== src/Config.antt =====
-- internal/config: the configuration, its defaults, its sources and its validation.
-- Of the packages that it calls, yaml.Unmarshal, time.ParseDuration, zapcore.ParseLevel and
-- Duration.String are parameters (Libraries).
pub mod Logging
pub mod Sources
pub mod Validity
use kubeadapt_k8s_pulse.Prelude.{
  Bool, Option, [], false, if◌then◌else◌, inl, inr, none, not, pos, some, true, ℕ, ℤ, ◌&&◌, ◌*◌,
  ◌++◌, ◌||◌, ◌∷◌, ◌⊎◌,
}
use kubeadapt_k8s_pulse.Prelude.Int.{ltb_ℤ}
use kubeadapt_k8s_pulse.Prelude.Text.{Text, codes, text_eq}
use kubeadapt_k8s_pulse.Go.Strconv.{atoi, itoa}

pub record Config : Type 0 where
  pub metrics_port : ℤ
  pub collection_interval : ℤ  -- time.Duration, in nanoseconds
  pub proc_path : Text
  pub connection_tracking : Bool
  pub log_level : Text
  pub log_format : Text
  pub node_name : Text
  pub enable_profiling : Bool
  pub profiling_port : ℤ
  pub dump_bpf_maps : Bool

-- What the configuration asks of other packages; `none` is an error.
pub record Libraries : Type 0 where
  pub parse_duration : Text → Option ℤ
  -- whether zapcore.ParseLevel takes the text
  pub parses_level : Text → Bool
  pub duration_string : ℤ → Text
  -- yaml.Unmarshal(data, c)
  pub unmarshal : Text → Config → Option Config

-- 1_000_000_000 ns
abbrev pub second : ℤ
second = pos 1_000_000_000

-- &Config{}
abbrev pub zero_config : Config
zero_config = record {
  metrics_port = pos 0;
  collection_interval = pos 0;
  proc_path = [];
  connection_tracking = false;
  log_level = [];
  log_format = [];
  node_name = [];
  enable_profiling = false;
  profiling_port = pos 0;
  dump_bpf_maps = false;
}

abbrev pub default_metrics_port : ℤ
default_metrics_port = pos 9090

abbrev pub default_profiling_port : ℤ
default_profiling_port = pos 6060

abbrev pub default_collection_interval : ℤ
default_collection_interval = pos (25 * 1_000_000_000)

abbrev pub default_proc_path : Text
default_proc_path = codes "/host/proc"

abbrev pub log_format_json : Text
log_format_json = codes "json"

-- (c *Config) setDefaults
unfoldable pub set_defaults : Config → Config
set_defaults c = record c {
  metrics_port = default_metrics_port;
  collection_interval = default_collection_interval;
  proc_path = default_proc_path;
  connection_tracking = true;
  log_level = codes "info";
  log_format = log_format_json;
  profiling_port = default_profiling_port;
}

-- The answer of os.ReadFile.
pub data File : Type 0 where
  absent unreadable : File
  contents : Text → File

pub data ConfigError : Type 0 where
  reading_file unmarshaling_yaml : ConfigError
  invalid_metrics_port : ℤ → ConfigError
  collection_interval_too_short : ℤ → ConfigError
  invalid_log_level : Text → ConfigError
  invalid_profiling_port : ℤ → ConfigError

-- (c *Config) loadFromFile: a missing file is no error.
unfoldable pub load_from_file : Libraries → File → Config → ConfigError ⊎ Config
load_from_file libs absent c = inr c
load_from_file libs unreadable c = inl reading_file
load_from_file libs (contents data_) c = elim (libs.unmarshal data_ c) [
  | none ↦ inl unmarshaling_yaml
  | some c' ↦ inr c'
]

-- v == BoolStringTrue || v == BoolStringOne
unfoldable pub parse_bool : Text → Bool
parse_bool v = text_eq v (codes "true") || text_eq v (codes "1")

-- An integer that Atoi takes without error.
unfoldable pub int_of : Text → Option ℤ
int_of v = let (n, e) = atoi v in elim e [ none ↦ some n | some e ↦ none ]

-- `if v := os.Getenv(name); v != ""` over a reading that may fail: the old value stays then.
unfoldable pub env_or : {A : Type 0} → (Text → Option A) → Text → A → A
env_or read [] old = old
env_or read (b ∷ v) old = elim (read (b ∷ v)) [ none ↦ old | some x ↦ x ]

-- (c *Config) loadFromEnv, with os.Getenv as a function.
unfoldable pub load_from_env : Libraries → (Text → Text) → Config → Config
load_from_env libs getenv c = record {
  metrics_port = env_or int_of (getenv (codes "EBPF_METRICS_PORT")) c.metrics_port;
  collection_interval =
      env_or libs.parse_duration (getenv (codes "EBPF_COLLECTION_INTERVAL")) c.collection_interval;
  proc_path = env_or some (getenv (codes "EBPF_PROC_PATH")) c.proc_path;
  connection_tracking =
      env_or (λ v. some (parse_bool v)) (getenv (codes "EBPF_CONNECTION_TRACKING"))
        c.connection_tracking;
  log_level = env_or some (getenv (codes "EBPF_LOG_LEVEL")) c.log_level;
  log_format = env_or some (getenv (codes "EBPF_LOG_FORMAT")) c.log_format;
  node_name = env_or some (getenv (codes "NODE_NAME")) c.node_name;
  enable_profiling =
      env_or (λ v. some (parse_bool v)) (getenv (codes "EBPF_ENABLE_PROFILING")) c.enable_profiling;
  profiling_port = env_or int_of (getenv (codes "EBPF_PROFILING_PORT")) c.profiling_port;
  dump_bpf_maps =
      env_or (λ v. some (parse_bool v)) (getenv (codes "EBPF_DUMP_BPF_MAPS")) c.dump_bpf_maps;
}

-- port < 1 || port > 65535
abbrev pub is_bad_port : ℤ → Bool
is_bad_port p = ltb_ℤ p (pos 1) || ltb_ℤ (pos 65535) p

-- (c *Config) validate
unfoldable pub validate : Libraries → Config → Option ConfigError
validate libs c =
    if is_bad_port c.metrics_port
    then some (invalid_metrics_port c.metrics_port)
    else if ltb_ℤ c.collection_interval second
    then some (collection_interval_too_short c.collection_interval)
    else if not (libs.parses_level c.log_level)
    then some (invalid_log_level c.log_level)
    else if c.enable_profiling && is_bad_port c.profiling_port
    then some (invalid_profiling_port c.profiling_port)
    else none

-- The part of Load after the file.
unfoldable pub load_env : Libraries → (Text → Text) → Config → ConfigError ⊎ Config
load_env libs getenv c = elim (validate libs (load_from_env libs getenv c)) [
  | none ↦ inr (load_from_env libs getenv c)
  | some e ↦ inl e
]

-- Load: `none` is the empty path, for which no file is read.
unfoldable pub load : Libraries → Option File → (Text → Text) → ConfigError ⊎ Config
load libs none getenv = load_env libs getenv (set_defaults zero_config)
load libs (some file) getenv = elim (load_from_file libs file (set_defaults zero_config)) [
  | inl e ↦ inl e
  | inr c ↦ load_env libs getenv c
]

abbrev pub bool_string : Bool → Text
bool_string true = codes "true"
bool_string false = codes "false"

-- One line of the description: a label, a value and the end of the line (byte 10).
abbrev line : Text → Text → Text
line label value = label ++ (value ++ 10 ∷ [])

-- (c *Config) String
unfoldable pub string : Libraries → Config → Text
string libs c =
    line (codes "Configuration:") []
    ++ (line (codes "  Metrics Port: ") (itoa c.metrics_port)
        ++ (line (codes "  Collection Interval: ") (libs.duration_string c.collection_interval)
            ++ (line (codes "  Connection Tracking: ") (bool_string c.connection_tracking)
                ++ (line (codes "  Log Level: ") c.log_level
                    ++ (line (codes "  Log Format: ") c.log_format
                        ++ (line (codes "  Node Name: ") c.node_name
                            ++ ((if c.enable_profiling
                                  then line (codes "  Profiling Enabled: true (port ")
                                      (itoa c.profiling_port ++ codes ")")
                                  else [])
                                ++ (if c.dump_bpf_maps
                                    then line
                                        (codes
                                          "  BPF Map Dumping: enabled (synchronized with collector)")
                                        []
                                    else []))))))))

-- (c *Config) GetDumpBPFMaps
unfoldable pub get_dump_bpf_maps : Config → Bool
get_dump_bpf_maps c = c.dump_bpf_maps
