-- ===== src/Monitor/Ipv6.antt =====
-- parse_ipv6 of bpf/network_monitor_tc.c with ipv6_skip_exthdr.
use kubeadapt_k8s_pulse.Prelude.{
  Bool, List, Option, if◌then◌else◌, none, not, some, suc, zero, ℕ, ◌*◌, ◌+◌, ◌/◌, ◌==◌, ◌||◌,
}
use kubeadapt_k8s_pulse.Bpf.Types.{ConnectionKey, Words}
use kubeadapt_k8s_pulse.Collector.Keys.{u64}
use kubeadapt_k8s_pulse.Monitor.Flows.{Monitor}
use kubeadapt_k8s_pulse.Monitor.Packet.{SkBuff, be16, byte_at, le32}
use kubeadapt_k8s_pulse.Monitor.Transport.{
  Parsed, ipproto_ah, ipproto_dstopts, ipproto_fragment, ipproto_hopopts, ipproto_icmpv6,
  ipproto_none, ipproto_routing, ipproto_tcp, ipproto_udp, ports_of, type_and_code,
}

abbrev pub ipv6_max_headers : ℕ
ipv6_max_headers = 4

-- increase_counter(COUNTER_IPV6_FRAGMENTS)
abbrev pub count_ipv6_fragment : Monitor → Monitor
count_ipv6_fragment s = record s { ipv6_fragments = u64 (s.ipv6_fragments + 1) }

-- Whether a header of IPv6 is one of the extension headers that are skipped.
unfoldable pub is_extension : ℕ → Bool
is_extension nexthdr =
    nexthdr == ipproto_fragment
    || (nexthdr == ipproto_ah
        || (nexthdr == ipproto_hopopts
            || (nexthdr == ipproto_routing || nexthdr == ipproto_dstopts)))

-- One extension header: the next header and its offset, a later fragment, or a header that cannot be
-- read.
pub data Advance : Type 0 where
  next_header : ℕ → ℕ → Advance
  later_fragment truncated : Advance

-- ipv6_authlen and ipv6_optlen of the second byte.
abbrev pub ipv6_authlen : List ℕ → ℕ
ipv6_authlen opthdr = (byte_at 1 opthdr + 2) * 4

abbrev pub ipv6_optlen : List ℕ → ℕ
ipv6_optlen opthdr = (byte_at 1 opthdr + 1) * 8

abbrev pub past_fragment : ℕ → ℕ → Option (List ℕ) → Advance
past_fragment nexthdr off none = truncated
past_fragment nexthdr off (some frag_hdr) =
    if be16 2 frag_hdr / 8 == 0 then next_header nexthdr (off + 8) else later_fragment

abbrev pub past_header : SkBuff → ℕ → ℕ → Option (List ℕ) → Advance
past_header skb nexthdr off none = truncated
past_header skb nexthdr off (some opthdr) =
    if nexthdr == ipproto_fragment
    then past_fragment (byte_at 0 opthdr) off (skb.load_bytes off 8)
    else if nexthdr == ipproto_ah
    then next_header (byte_at 0 opthdr) (off + ipv6_authlen opthdr)
    else next_header (byte_at 0 opthdr) (off + ipv6_optlen opthdr)

-- The body of the loop of ipv6_skip_exthdr at an extension header.
unfoldable pub advance : SkBuff → ℕ → ℕ → Advance
advance skb nexthdr off = past_header skb nexthdr off (skb.load_bytes off 2)

-- The return values 0, 1 and -1 of ipv6_skip_exthdr.
pub data Skipped : Type 0 where
  transport : ℕ → ℕ → Skipped
  fragment malformed : Skipped

-- The end of a round of the loop: the rounds that are left go on behind the extension header.
unfoldable pub skip_rest : (ℕ → ℕ → Skipped) → Advance → Skipped
skip_rest rest (next_header nexthdr off) = rest nexthdr off
skip_rest rest later_fragment = fragment
skip_rest rest truncated = malformed

-- ipv6_skip_exthdr, with the rounds of the loop that are left.
unfoldable pub ipv6_skip_exthdr : SkBuff → ℕ → ℕ → ℕ → Skipped
ipv6_skip_exthdr skb zero nexthdr off = malformed
ipv6_skip_exthdr skb (suc rounds) nexthdr off =
    if nexthdr == ipproto_none
    then malformed
    else if not (is_extension nexthdr)
    then transport nexthdr off
    else skip_rest (ipv6_skip_exthdr skb rounds) (advance skb nexthdr off)

-- The end of parse_ipv6, at the transport header; key->protocol is set before.
unfoldable pub ipv6_transport : SkBuff → ℕ → ConnectionKey → ℕ → Parsed
ipv6_transport skb l4 key bytes =
    if key.protocol == ipproto_tcp
    then ports_of key bytes (skb.load_bytes l4 20)
    else if key.protocol == ipproto_udp
    then ports_of key bytes (skb.load_bytes l4 8)
    else if key.protocol == ipproto_icmpv6
    then type_and_code key bytes (skb.load_bytes l4 4)
    else none

abbrev pub words_at : ℕ → List ℕ → Words
words_at i bytes = record {
  w0 = le32 i bytes;
  w1 = le32 (i + 4) bytes;
  w2 = le32 (i + 8) bytes;
  w3 = le32 (i + 12) bytes;
}

-- The key of a fixed header, under a protocol.
unfoldable pub ipv6_key : List ℕ → ℕ → ConnectionKey
ipv6_key ip6 protocol = record {
  src_addr = words_at 8 ip6;
  dst_addr = words_at 24 ip6;
  src_port = 0;
  dst_port = 0;
  protocol = protocol;
  family = 10;
  pad = 0;
}

-- The rest of parse_ipv6 once the extension headers are skipped. A later fragment is booked without
-- ports, under the next header of the fixed header, which ipv6_skip_exthdr has not changed then.
unfoldable pub ipv6_skipped : SkBuff → List ℕ → Skipped → Monitor → Parsed × Monitor
ipv6_skipped skb ip6 malformed s = (none, s)
ipv6_skipped skb ip6 fragment s =
    (some (ipv6_key ip6 (byte_at 6 ip6), be16 4 ip6 + 40), count_ipv6_fragment s)
ipv6_skipped skb ip6 (transport nexthdr l4) s =
    (ipv6_transport skb l4 (ipv6_key ip6 nexthdr) (be16 4 ip6 + 40), s)

-- parse_ipv6 once its fixed header is read.
unfoldable pub ipv6_header : SkBuff → ℕ → Option (List ℕ) → Monitor → Parsed × Monitor
ipv6_header skb l3 none s = (none, s)
ipv6_header skb l3 (some ip6) s =
    ipv6_skipped skb ip6 (ipv6_skip_exthdr skb ipv6_max_headers (byte_at 6 ip6) (l3 + 40)) s

-- parse_ipv6
unfoldable pub parse_ipv6 : SkBuff → ℕ → Monitor → Parsed × Monitor
parse_ipv6 skb l3 s = ipv6_header skb l3 (skb.load_bytes l3 40) s
