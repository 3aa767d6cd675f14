-- ===== src/Monitor/Parse.antt =====
-- parse_packet and tc_ingress of bpf/network_monitor_tc.c.
pub mod Chain
pub mod Frame
pub mod Ipv6
pub mod Linear
pub mod Paths
use kubeadapt_k8s_pulse.Prelude.{
  Bool, List, Option, [], false, if◌then◌else◌, leb, length, none, not, some, suc, true, zero, ℕ,
  ◌%◌, ◌*◌, ◌+◌, ◌/◌, ◌==◌, ◌^◌, ◌||◌, ◌∷◌,
}
use kubeadapt_k8s_pulse.Bpf.Types.{ConnectionKey, Words}
use kubeadapt_k8s_pulse.Collector.Keys.{u64}
use kubeadapt_k8s_pulse.Monitor.Flows.{Kernel, Monitor, Readings, update_stats}
use kubeadapt_k8s_pulse.Monitor.Ipv4.{
  count_ipv4_fragment, ipv4_key, ipv4_transport, ipv4_words, parse_ipv4,
}
use kubeadapt_k8s_pulse.Monitor.Ipv6.{
  Advance, Skipped, advance, count_ipv6_fragment, fragment, ipv6_authlen, ipv6_header, ipv6_key,
  ipv6_max_headers, ipv6_optlen, ipv6_skip_exthdr, ipv6_skipped, ipv6_transport, is_extension,
  later_fragment, malformed, next_header, parse_ipv6, past_fragment, past_header, skip_rest,
  transport, truncated, words_at,
}
use kubeadapt_k8s_pulse.Monitor.Packet.{SkBuff, be16, byte_at, get_cgroup_id, le32, read_header}
use kubeadapt_k8s_pulse.Monitor.Transport.{
  Parsed, ipproto_ah, ipproto_dstopts, ipproto_fragment, ipproto_hopopts, ipproto_icmp,
  ipproto_icmpv6, ipproto_none, ipproto_routing, ipproto_tcp, ipproto_udp, ports_of, type_and_code,
  with_ports,
}

abbrev pub eth_p_ip : ℕ
eth_p_ip = 0x0800

abbrev pub eth_p_ipv6 : ℕ
eth_p_ipv6 = 0x86dd

-- parse_packet: the Ethernet header must be linear; its type chooses the parser.
unfoldable pub parse_packet : SkBuff → Monitor → Parsed × Monitor
parse_packet skb s =
    if not (leb 14 (length skb.linear))
    then (none, s)
    else if be16 12 skb.linear == eth_p_ip
    then parse_ipv4 skb 14 s
    else if be16 12 skb.linear == eth_p_ipv6
    then parse_ipv6 skb 14 s
    else (none, s)

abbrev count_parse_error : Monitor → Monitor
count_parse_error s = record s { parse_errors = u64 (s.parse_errors + 1) }

-- What tc_ingress does with a packet that is parsed, or discarded.
unfoldable pub book : Kernel → SkBuff → Readings → Parsed × Monitor → Monitor
book k skb now (none, s) = count_parse_error s
book k skb now (some (key, bytes), s) =
    update_stats k
      (record {
        key = key;
        bytes = bytes;
        cgroup_id = get_cgroup_id skb;
        if_index = skb.ifindex;
        now = now.at_first;
        later = now.at_second;
      })
      s

-- tc_ingress at a time: the value that it returns, TC_ACT_OK, and the maps after it.
unfoldable pub tc_ingress : Kernel → SkBuff → Readings → Monitor → ℕ × Monitor
tc_ingress k skb now s = (0, book k skb now (parse_packet skb s))
