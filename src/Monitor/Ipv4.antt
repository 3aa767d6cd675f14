-- ===== src/Monitor/Ipv4.antt =====
-- parse_ipv4 of bpf/network_monitor_tc.c.
use kubeadapt_k8s_pulse.Prelude.{
  List, if◌then◌else◌, leb, length, none, not, some, ℕ, ◌%◌, ◌*◌, ◌+◌, ◌==◌, ◌^◌,
}
use kubeadapt_k8s_pulse.Bpf.Types.{ConnectionKey, Words}
use kubeadapt_k8s_pulse.Collector.Keys.{u64}
use kubeadapt_k8s_pulse.Monitor.Flows.{Monitor}
use kubeadapt_k8s_pulse.Monitor.Packet.{SkBuff, be16, byte_at, le32, read_header}
use kubeadapt_k8s_pulse.Monitor.Transport.{
  Parsed, ipproto_icmp, ipproto_tcp, ipproto_udp, ports_of, type_and_code,
}

-- increase_counter(COUNTER_IPV4_FRAGMENTS)
abbrev pub count_ipv4_fragment : Monitor → Monitor
count_ipv4_fragment s = record s { ipv4_fragments = u64 (s.ipv4_fragments + 1) }

-- The end of parse_ipv4, at the transport header.
unfoldable pub ipv4_transport : SkBuff → ℕ → ConnectionKey → ℕ → Parsed
ipv4_transport skb l4 key bytes =
    if key.protocol == ipproto_tcp
    then ports_of key bytes (read_header skb l4 20)
    else if key.protocol == ipproto_udp
    then ports_of key bytes (read_header skb l4 8)
    else if key.protocol == ipproto_icmp
    then type_and_code key bytes (read_header skb l4 4)
    else none

abbrev pub ipv4_words : ℕ → Words
ipv4_words n = record { w0 = n; w1 = 0; w2 = 0; w3 = 0 }

-- The key of an IPv4 header that starts at an offset of the linear bytes.
unfoldable pub ipv4_key : ℕ → List ℕ → ConnectionKey
ipv4_key l3 linear = record {
  src_addr = ipv4_words (le32 (l3 + 12) linear);
  dst_addr = ipv4_words (le32 (l3 + 16) linear);
  src_port = 0;
  dst_port = 0;
  protocol = byte_at (l3 + 9) linear;
  family = 2;
  pad = 0;
}

-- parse_ipv4: later fragments have no transport header and are booked without ports.
unfoldable pub parse_ipv4 : SkBuff → ℕ → Monitor → Parsed × Monitor
parse_ipv4 skb l3 s =
    let key = ipv4_key l3 skb.linear in
    let bytes = be16 (l3 + 2) skb.linear in
    let fragment_offset = be16 (l3 + 6) skb.linear % 2 ^ 13 in
    let header_length = byte_at l3 skb.linear % 16 * 4 in
    if not (leb (l3 + 20) (length skb.linear))
    then (none, s)
    else if not (fragment_offset == 0)
    then (some (key, bytes), count_ipv4_fragment s)
    else (ipv4_transport skb (l3 + header_length) key bytes, s)
