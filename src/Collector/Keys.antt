-- ===== src/Collector/Keys.antt =====
-- internal/collector/types.go, helpers.go and the address helpers of connection_collector.go.
pub mod Injective
pub mod Ascii
use kubeadapt_k8s_pulse.Prelude.{
  Bool, arith, if◌then◌else◌, not, true, ℕ, ◌%◌, ◌&&◌, ◌++◌, ◌+◌, ◌==◌, ◌^◌, ◌||◌, ◌↔◌, ◌≡◌,
}
use kubeadapt_k8s_pulse.Prelude.Eq.{Eq}
use kubeadapt_k8s_pulse.Prelude.Text.{Text, codes, text_eq, text_eq_iff}
use kubeadapt_k8s_pulse.Bpf.Types.{ConnectionKey, Words}
use kubeadapt_k8s_pulse.Go.Net.{ip_string, put_uint32}
use kubeadapt_k8s_pulse.Go.Strconv.{decimal}

-- uint64 arithmetic wraps.
abbrev pub u64 : ℕ → ℕ
u64 n = n % 2 ^ 64

abbrev pub proto_icmp : ℕ
proto_icmp = 1

abbrev pub proto_tcp : ℕ
proto_tcp = 6

abbrev pub proto_udp : ℕ
proto_udp = 17

abbrev pub proto_icmpv6 : ℕ
proto_icmpv6 = 58

unfoldable pub protocol_to_string : ℕ → Text
protocol_to_string protocol =
    if protocol == proto_icmp
    then codes "icmp"
    else if protocol == proto_tcp
    then codes "tcp"
    else if protocol == proto_udp
    then codes "udp"
    else if protocol == proto_icmpv6
    then codes "icmpv6"
    else codes "unknown(" ++ (decimal protocol ++ codes ")")

pub record AggKey : Type 0 where
  pub src_ip : Text
  pub dst_ip : Text
  pub protocol : Text

pub record AggStats : Type 0 where
  pub bytes : ℕ  -- uint64
  pub packets : ℕ  -- uint64

unfoldable pub new_agg_key : Text → Text → Text → AggKey
new_agg_key src_ip dst_ip protocol = record {
  src_ip = src_ip;
  dst_ip = dst_ip;
  protocol = protocol;
}

-- (a *AggStats) Add
unfoldable pub add : AggStats → AggStats → AggStats
add a other = record {
  bytes = u64 (a.bytes + other.bytes);
  packets = u64 (a.packets + other.packets);
}

unfoldable pub agg_key_eq : AggKey → AggKey → Bool
agg_key_eq a b =
    text_eq a.src_ip b.src_ip && (text_eq a.dst_ip b.dst_ip && text_eq a.protocol b.protocol)

pub agg_key_eq_iff : (a b : AggKey) → (agg_key_eq a b ≡ true) ↔ (a ≡ b)
unfolding agg_key_eq
agg_key_eq_iff a b = ground (
  arith,
  text_eq_iff a.src_ip b.src_ip,
  text_eq_iff a.dst_ip b.dst_ip,
  text_eq_iff a.protocol b.protocol,
)

instance abbrev pub agg_keys : Eq AggKey
agg_keys = record { beq = agg_key_eq; beq_iff = agg_key_eq_iff }

unfoldable pub uint32_to_ip_string : ℕ → Text
uint32_to_ip_string ip = ip_string (put_uint32 ip)

unfoldable pub ipv6_to_ip_string : Words → Text
ipv6_to_ip_string ipv6 =
    ip_string
      (put_uint32 ipv6.w0 ++ (put_uint32 ipv6.w1 ++ (put_uint32 ipv6.w2 ++ put_uint32 ipv6.w3)))

abbrev pub af_inet : ℕ
af_inet = 2

abbrev pub af_inet6 : ℕ
af_inet6 = 10

-- Whether a word beyond the first 32 bits of an address is not 0.
abbrev has_high_words : Words → Bool
has_high_words a = not (a.w1 == 0) || (not (a.w2 == 0) || not (a.w3 == 0))

unfoldable pub connection_key_to_ips : ConnectionKey → Text × Text
connection_key_to_ips key =
    if key.family == af_inet
    then (uint32_to_ip_string key.src_addr.w0, uint32_to_ip_string key.dst_addr.w0)
    else if key.family == af_inet6
    then (ipv6_to_ip_string key.src_addr, ipv6_to_ip_string key.dst_addr)
    else if has_high_words key.src_addr || has_high_words key.dst_addr
    then (ipv6_to_ip_string key.src_addr, ipv6_to_ip_string key.dst_addr)
    else if not (key.src_addr.w0 == 0) || not (key.dst_addr.w0 == 0)
    then (uint32_to_ip_string key.src_addr.w0, uint32_to_ip_string key.dst_addr.w0)
    else (codes "0.0.0.0", codes "0.0.0.0")
