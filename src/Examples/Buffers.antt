-- ===== src/Examples/Buffers.antt =====
-- Buffers for packets.
use kubeadapt_k8s_pulse.Prelude.{
  List, [], drop, if◌then◌else◌, leb, length, none, some, take, ℕ, ◌+◌, ◌∷◌,
}
use kubeadapt_k8s_pulse.Monitor.Flows.{connection_keys}
use kubeadapt_k8s_pulse.Monitor.Packet.{SkBuff}

-- A buffer that holds a packet, with so many bytes linear.
abbrev pub buffer : ℕ → List ℕ → SkBuff
buffer n bytes = record {
  linear = take n bytes;
  load_bytes = λ off size.
      if leb (off + size) (length bytes) then some (take size (drop off bytes)) else none;
  ifindex = 3;
  cgroup_id = 8;
}

abbrev pub sixteen : List ℕ
sixteen = 0 ∷ 0 ∷ 0 ∷ 0 ∷ 0 ∷ 0 ∷ 0 ∷ 0 ∷ 0 ∷ 0 ∷ 0 ∷ 0 ∷ 0 ∷ 0 ∷ 0 ∷ 0 ∷ []
