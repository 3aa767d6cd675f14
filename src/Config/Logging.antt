-- ===== src/Config/Logging.antt =====
-- BuildLogger of internal/config/config.go: which zap logger a configuration asks for. That
-- zapcore.ParseLevel takes a text and that the level is debug are inputs, as is an error of zap's Build.
use kubeadapt_k8s_pulse.Prelude.{Bool, Option, if◌then◌else◌, inl, inr, not, refl, ◌≡◌, ◌⊎◌}
use kubeadapt_k8s_pulse.Config.{
  Config, File, Libraries, Text, codes, load, log_format_json, text_eq,
}
use kubeadapt_k8s_pulse.Config.Validity.{load-IsValid}

-- What BuildLogger sets: the preset, the encoder of the core with its levels, the level, the initial fields,
-- and whether the sampling of the preset is kept.
pub record Logger : Type 0 where
  pub production_preset : Bool
  pub json_encoder : Bool
  pub color_levels : Bool
  pub level : Text
  pub service : Text
  pub node : Text
  pub keeps_sampling : Bool

pub data LoggerError : Type 0 where
  parsing_log_level building_logger : LoggerError

abbrev pub configured_logger : (Text → Bool) → Config → Logger
configured_logger is_debug c = record {
  production_preset = text_eq c.log_format log_format_json;
  json_encoder = text_eq c.log_format log_format_json;
  color_levels = not (text_eq c.log_format log_format_json);
  level = c.log_level;
  service = codes "kubeadapt-k8s-pulse";
  node = c.node_name;
  keeps_sampling = not (is_debug c.log_level);
}

-- (c *Config) BuildLogger; `build_fails` is an error of cfg.Build.
unfoldable pub build_logger : Libraries → (Text → Bool) → Bool → Config → LoggerError ⊎ Logger
build_logger libs is_debug build_fails c =
    if not (libs.parses_level c.log_level)
    then inl parsing_log_level
    else if build_fails
    then inl building_logger
    else inr (configured_logger is_debug c)

-- A configuration that Load gives has a level that BuildLogger can parse: it fails only if zap cannot
-- build the logger, and otherwise the logger has the configured level and node, writes JSON
-- and has no colours exactly for the format json, and keeps the sampling unless the level is debug.
pub load-build_logger :
    (libs : Libraries) (is_debug : Text → Bool) (build_fails : Bool) (file : Option File)
    (getenv : Text → Text) (c : Config)
    → load libs file getenv ≡ inr c
    → build_logger libs is_debug build_fails c
      ≡ (if build_fails then inl building_logger else inr (configured_logger is_debug c))
unfolding build_logger
load-build_logger libs is_debug build_fails file getenv c loaded =
    rw ((load-IsValid libs file getenv c loaded).2) refl
