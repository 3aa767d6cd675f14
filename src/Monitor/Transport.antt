-- ===== src/Monitor/Transport.antt =====
-- The transport headers that bpf/network_monitor_tc.c reads, for parse_ipv4 and parse_ipv6 alike.
use kubeadapt_k8s_pulse.Prelude.{List, Option, none, some, ℕ}
use kubeadapt_k8s_pulse.Bpf.Types.{ConnectionKey}
use kubeadapt_k8s_pulse.Monitor.Packet.{be16, byte_at}

abbrev pub ipproto_tcp : ℕ
ipproto_tcp = 6

abbrev pub ipproto_udp : ℕ
ipproto_udp = 17

abbrev pub ipproto_icmp : ℕ
ipproto_icmp = 1

abbrev pub ipproto_icmpv6 : ℕ
ipproto_icmpv6 = 58

abbrev pub ipproto_hopopts : ℕ
ipproto_hopopts = 0

abbrev pub ipproto_routing : ℕ
ipproto_routing = 43

abbrev pub ipproto_fragment : ℕ
ipproto_fragment = 44

abbrev pub ipproto_ah : ℕ
ipproto_ah = 51

abbrev pub ipproto_none : ℕ
ipproto_none = 59

abbrev pub ipproto_dstopts : ℕ
ipproto_dstopts = 60

-- What a packet is booked under, and the bytes that it is booked with; `none` is PARSE_DISCARD.
abbrev pub Parsed : Type 0
Parsed = Option (ConnectionKey × ℕ)

abbrev pub with_ports : ConnectionKey → ℕ → ℕ → ConnectionKey
with_ports key src dst = record key { src_port = src; dst_port = dst }

-- The ports of TCP and UDP.
abbrev pub ports_of : ConnectionKey → ℕ → Option (List ℕ) → Parsed
ports_of key bytes none = none
ports_of key bytes (some header) = some (with_ports key (be16 0 header) (be16 2 header), bytes)

-- ICMP's type and code in place of ports.
abbrev pub type_and_code : ConnectionKey → ℕ → Option (List ℕ) → Parsed
type_and_code key bytes none = none
type_and_code key bytes (some header) =
    some (with_ports key (byte_at 0 header) (byte_at 1 header), bytes)
