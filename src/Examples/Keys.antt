-- ===== src/Examples/Keys.antt =====
-- The theorems on addresses and aggregation keys at concrete connections.
use kubeadapt_k8s_pulse.Prelude.{arith, refl, ◌↔◌, ◌≡◌}
use kubeadapt_k8s_pulse.Collector.Cycle.Reading.{agg_key}
use kubeadapt_k8s_pulse.Collector.Keys.{proto_tcp}
use kubeadapt_k8s_pulse.Collector.Keys.Injective.{agg_key_iff}
use kubeadapt_k8s_pulse.Examples.Data.{api, connection, web}

agg_key_iff_example :
    (agg_key (connection 40000 6) ≡ agg_key (connection 40001 6))
    ↔ ((web ≡ web) × (api ≡ api) × (proto_tcp ≡ 6))
agg_key_iff_example =
    agg_key_iff (connection 40000 6) (connection 40001 6) (refl, refl)
      (omega arith, omega arith, omega arith) (omega arith, omega arith, omega arith)
