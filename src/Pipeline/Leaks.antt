-- ===== src/Pipeline/Leaks.antt =====
-- What the loop of collect loses of the packets' bytes, and what it reads twice.
use kubeadapt_k8s_pulse.Prelude.{List, [], if◌then◌else◌, none, some, ℕ, ◌&&◌, ◌++◌, ◌+◌, ◌∷◌}
use kubeadapt_k8s_pulse.Prelude.GoMap.{lookup}
use kubeadapt_k8s_pulse.Collector.Keys.{AggKey}
use kubeadapt_k8s_pulse.Monitor.Flows.{Arrival, Kernel, Monitor, connection_keys, receive_all}
use kubeadapt_k8s_pulse.Monitor.Flows.Summary.{of_flow}
use kubeadapt_k8s_pulse.Pipeline.{Turn, after_turn}
use kubeadapt_k8s_pulse.Pipeline.Arrivals.{sent, weight}

-- All packets of a loop.
unfoldable pub arrivals : List Turn → List Arrival
arrivals [] = []
arrivals (t ∷ ts) = t.before ++ (t.during ++ arrivals ts)

-- The bytes of the flow's packets between its reading and its deletion: the deletion takes them along.
unfoldable pub lost_turn : AggKey → Kernel → Turn → Monitor → ℕ
lost_turn a k t s = elim (lookup t.key (receive_all k t.before s).flows) [
  | none ↦ 0
  | some stats ↦ if t.delete_fails then 0 else sent a (of_flow t.key t.during)
]

unfoldable pub lost : AggKey → Kernel → List Turn → Monitor → ℕ
lost a k [] s = 0
lost a k (t ∷ ts) s = lost_turn a k t s + lost a k ts (after_turn k t s)

-- The bytes that were read and stay in the map because the deletion fails: they are read again.
unfoldable pub repeated_turn : AggKey → Kernel → Turn → Monitor → ℕ
repeated_turn a k t s = elim (lookup t.key (receive_all k t.before s).flows) [
  | none ↦ 0
  | some stats ↦ if t.delete_fails && weight a t.key then stats.bytes else 0
]

unfoldable pub repeated : AggKey → Kernel → List Turn → Monitor → ℕ
repeated a k [] s = 0
repeated a k (t ∷ ts) s = repeated_turn a k t s + repeated a k ts (after_turn k t s)
