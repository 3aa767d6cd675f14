-- ===== src/Config/Sources.antt =====
-- Which source of the configuration wins.
use kubeadapt_k8s_pulse.Prelude.{Option, [], arith, refl, ◌∷◌, ◌≡◌}
use kubeadapt_k8s_pulse.Prelude.Text.{Text}
use kubeadapt_k8s_pulse.Config.{Config, Libraries, env_or, load_from_env}

env_or-again :
    {A : Type 0} (read : Text → Option A) (v : Text) (old : A)
    → env_or read v (env_or read v old) ≡ env_or read v old
unfolding env_or
env_or-again read [] old = refl
env_or-again read (b ∷ v) old = ground arith

-- Reading the environment a second time changes nothing.
pub load_from_env_idempotent :
    (libs : Libraries) (getenv : Text → Text) (c : Config)
    → load_from_env libs getenv (load_from_env libs getenv c) ≡ load_from_env libs getenv c
unfolding load_from_env
load_from_env_idempotent libs getenv c = simp env_or-again refl
