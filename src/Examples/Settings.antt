-- ===== src/Examples/Settings.antt =====
-- The theorems on the configuration at the defaults.
use kubeadapt_k8s_pulse.Prelude.{List, [], none, refl, ℕ, ◌↔◌, ◌∷◌, ◌≡◌}
use kubeadapt_k8s_pulse.Prelude.Text.{text_eq}
use kubeadapt_k8s_pulse.Collector.Schedule.{Event, done}
use kubeadapt_k8s_pulse.Config.{
  env_or, load, load_env, load_from_env, set_defaults, validate, zero_config,
}
use kubeadapt_k8s_pulse.Config.Validity.{IsValid, load-IsValid, validate_iff}
use kubeadapt_k8s_pulse.Examples.Data.{libraries, no_variables}

abbrev cancelled : List (Event ℕ)
cancelled = done ∷ []

validate_iff_example :
    (validate libraries (set_defaults zero_config) ≡ none)
    ↔ IsValid libraries (set_defaults zero_config)
validate_iff_example = validate_iff libraries (set_defaults zero_config)

load-IsValid_example : IsValid libraries (set_defaults zero_config)
unfolding load load_env load_from_env env_or validate set_defaults text_eq
load-IsValid_example = load-IsValid libraries none no_variables (set_defaults zero_config) refl
