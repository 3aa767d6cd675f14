-- ===== src/Collector/Keys/Ascii.antt =====
-- The aggregation keys are ASCII, whatever the connection.
use kubeadapt_k8s_pulse.Prelude.{
  Bool, arith, false, if◌then◌else◌, not, true, ℕ, ◌++◌, ◌<◌, ◌==◌, ◌||◌,
}
use kubeadapt_k8s_pulse.Prelude.Each.{All-append}
use kubeadapt_k8s_pulse.Prelude.Text.{Text, codes}
use kubeadapt_k8s_pulse.Bpf.Types.{ConnectionKey, Words}
use kubeadapt_k8s_pulse.Collector.Cycle.Reading.{agg_key}
use kubeadapt_k8s_pulse.Collector.Keys.{
  AggKey, af_inet, af_inet6, connection_key_to_ips, has_high_words, ipv6_to_ip_string, new_agg_key,
  proto_icmp, proto_icmpv6, proto_tcp, proto_udp, protocol_to_string, uint32_to_ip_string,
}
use kubeadapt_k8s_pulse.Go.Ascii.{IsAscii, IsAscii-append}
use kubeadapt_k8s_pulse.Go.Net.{put_uint32}
use kubeadapt_k8s_pulse.Go.Net.Ascii.{ip_string-IsAscii, put_uint32-AreBytes}
use kubeadapt_k8s_pulse.Go.Strconv.{decimal}
use kubeadapt_k8s_pulse.Go.Strconv.Ascii.{decimal-IsAscii}

if-either : {A : Type 0} (P : A → Type 0) (b : Bool) (x y : A) → P x → P y → P (if b then x else y)
if-either P true x y p q = p
if-either P false x y p q = q

pub protocol_to_string-IsAscii : (protocol : ℕ) → IsAscii (protocol_to_string protocol)
unfolding protocol_to_string
protocol_to_string-IsAscii protocol =
    if-either IsAscii (protocol == proto_icmp) _ _ (ground arith) (
      if-either IsAscii (protocol == proto_tcp) _ _ (ground arith) (
        if-either IsAscii (protocol == proto_udp) _ _ (ground arith) (
          if-either IsAscii (protocol == proto_icmpv6) _ _ (ground arith) (
            IsAscii-append (codes "unknown(") _ (ground arith)
              (IsAscii-append (decimal protocol) _ (decimal-IsAscii protocol) (ground arith))))))

uint32-IsAscii : (ip : ℕ) → IsAscii (uint32_to_ip_string ip)
unfolding uint32_to_ip_string
uint32-IsAscii ip = ip_string-IsAscii (put_uint32 ip) (put_uint32-AreBytes ip)

ipv6-IsAscii : (a : Words) → IsAscii (ipv6_to_ip_string a)
unfolding ipv6_to_ip_string
ipv6-IsAscii a =
    ip_string-IsAscii (put_uint32 a.w0 ++ (put_uint32 a.w1 ++ (put_uint32 a.w2 ++ put_uint32 a.w3)))
      (All-append (λ (b : ℕ). b < 256) (put_uint32 a.w0)
        (put_uint32 a.w1 ++ (put_uint32 a.w2 ++ put_uint32 a.w3)) (put_uint32-AreBytes a.w0)
        (All-append (λ (b : ℕ). b < 256) (put_uint32 a.w1) (put_uint32 a.w2 ++ put_uint32 a.w3)
          (put_uint32-AreBytes a.w1)
          (All-append (λ (b : ℕ). b < 256) (put_uint32 a.w2) (put_uint32 a.w3)
            (put_uint32-AreBytes a.w2) (put_uint32-AreBytes a.w3))))

abbrev AreAscii : Text × Text → Type 0
AreAscii pair = IsAscii pair.0 × IsAscii pair.1

connection_key_to_ips-AreAscii : (key : ConnectionKey) → AreAscii (connection_key_to_ips key)
unfolding connection_key_to_ips
connection_key_to_ips-AreAscii key =
    let v4 : AreAscii (uint32_to_ip_string key.src_addr.w0, uint32_to_ip_string key.dst_addr.w0) =
      (uint32-IsAscii key.src_addr.w0, uint32-IsAscii key.dst_addr.w0) in
    let v6 : AreAscii (ipv6_to_ip_string key.src_addr, ipv6_to_ip_string key.dst_addr) =
      (ipv6-IsAscii key.src_addr, ipv6-IsAscii key.dst_addr) in
    if-either AreAscii (key.family == af_inet) _ _ v4 (
      if-either AreAscii (key.family == af_inet6) _ _ v6 (
        if-either AreAscii (has_high_words key.src_addr || has_high_words key.dst_addr) _ _ v6 (
          if-either AreAscii (not (key.src_addr.w0 == 0) || not (key.dst_addr.w0 == 0)) _ _ v4
            (ground arith, ground arith))))

-- The three label values of a key.
abbrev pub IsAsciiKey : AggKey → Type 0
IsAsciiKey k = IsAscii k.src_ip × IsAscii k.dst_ip × IsAscii k.protocol

pub agg_key-IsAsciiKey : (key : ConnectionKey) → IsAsciiKey (agg_key key)
unfolding agg_key new_agg_key
agg_key-IsAsciiKey key =
    let (src, dst) = connection_key_to_ips-AreAscii key in
    (src, dst, protocol_to_string-IsAscii key.protocol)
