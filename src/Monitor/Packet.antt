-- ===== src/Monitor/Packet.antt =====
-- The packet as bpf/network_monitor_tc.c reads it: the linear bytes between data and data_end, and
-- bpf_skb_load_bytes, which is the kernel's and an input here. Fields are read byte by byte: those of
-- the protocols in network order, addresses as a little-endian machine loads them.
use kubeadapt_k8s_pulse.Prelude.{
  List, Option, [], drop, if◌then◌else◌, leb, length, some, take, ℕ, ◌*◌, ◌+◌, ◌∷◌,
}

-- struct __sk_buff, as far as the program uses it.
pub record SkBuff : Type 0 where
  pub linear : List ℕ
  -- bpf_skb_load_bytes at an offset, of a length; `none` is an error
  pub load_bytes : ℕ → ℕ → Option (List ℕ)
  pub ifindex : ℕ
  -- what bpf_skb_cgroup_id answers: 0 for a packet without a socket
  pub cgroup_id : ℕ

abbrev pub get_cgroup_id : SkBuff → ℕ
get_cgroup_id skb = skb.cgroup_id

abbrev pub first_byte : List ℕ → ℕ
first_byte [] = 0
first_byte (b ∷ bs) = b

unfoldable pub byte_at : ℕ → List ℕ → ℕ
byte_at i bytes = first_byte (drop i bytes)

-- bpf_ntohs of two bytes.
unfoldable pub be16 : ℕ → List ℕ → ℕ
be16 i bytes = byte_at i bytes * 256 + byte_at (i + 1) bytes

-- A __u32 that is copied as it stands.
unfoldable pub le32 : ℕ → List ℕ → ℕ
le32 i bytes =
    byte_at i bytes
    + 256 * (byte_at (i + 1) bytes + 256 * (byte_at (i + 2) bytes + 256 * byte_at (i + 3) bytes))

-- A header of a size at an offset: directly if it is linear, and by the helper if not.
unfoldable pub read_header : SkBuff → ℕ → ℕ → Option (List ℕ)
read_header skb off size =
    if leb (off + size) (length skb.linear)
    then some (take size (drop off skb.linear))
    else skb.load_bytes off size
