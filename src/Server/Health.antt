-- ===== src/Server/Health.antt =====
-- How the answers of the endpoints fit together.
use kubeadapt_k8s_pulse.Prelude.{
  Bool-cases, arith, if◌then◌else◌, inl, inr, refl, ◌&&◌, ◌==◌, ◌↔◌, ◌≡◌,
}
use kubeadapt_k8s_pulse.Prelude.Text.{codes}
use kubeadapt_k8s_pulse.Server.{
  Clock, Server, get_status_class, get_status_text, handle_health, handle_liveness,
  handle_readiness,
}

-- The combined endpoint answers 200 exactly if both probes do, and 503 otherwise, and the status
-- page agrees with it in its class and its text.
pub handle_health-probes :
    (clock : Clock) (s : Server)
    → ((handle_health clock s).status ≡ (
        if ((handle_liveness s).status == 200) && ((handle_readiness s).status == 200)
        then 200
        else 503))
      × (((handle_health clock s).status ≡ 200) ↔ (get_status_class s ≡ codes "ready"))
      × (((handle_health clock s).status ≡ 200) ↔ (get_status_text s ≡ codes "HEALTHY"))
unfolding handle_health handle_liveness handle_readiness get_status_class get_status_text
handle_health-probes clock s = elim (Bool-cases s.is_live) [
  | inl live ↦ elim (Bool-cases s.is_ready) [
    | inl ready ↦ rw (live, ready) (refl, (λ _. refl, λ _. refl), (λ _. refl, λ _. refl))
    | inr not_ready ↦
        rw (live, not_ready)
          (
            refl,
            (λ e. ground (arith, e), λ e. ground (arith, e)),
            (λ e. ground (arith, e), λ e. ground (arith, e)),
          )
  ]
  | inr dead ↦ elim (Bool-cases s.is_ready) [
    | inl ready ↦
        rw (dead, ready)
          (
            refl,
            (λ e. ground (arith, e), λ e. ground (arith, e)),
            (λ e. ground (arith, e), λ e. ground (arith, e)),
          )
    | inr not_ready ↦
        rw (dead, not_ready)
          (
            refl,
            (λ e. ground (arith, e), λ e. ground (arith, e)),
            (λ e. ground (arith, e), λ e. ground (arith, e)),
          )
  ]
]
