-- ===== src/Collector/Keys/Injective.antt =====
-- Which connections share an aggregation key.
use kubeadapt_k8s_pulse.Prelude.{
  [], ap, arith, inl, refl, sym, ℕ, ◌%◌, ◌++◌, ◌/◌, ◌<◌, ◌^◌, ◌↔◌, ◌∙◌, ◌∷◌, ◌≡◌,
}
use kubeadapt_k8s_pulse.Prelude.Text.{Text, codes}
use kubeadapt_k8s_pulse.Bpf.Types.{ConnectionKey, Words}
use kubeadapt_k8s_pulse.Collector.Cycle.Reading.{agg_key}
use kubeadapt_k8s_pulse.Collector.Keys.{
  AggKey, af_inet, connection_key_to_ips, ipv6_to_ip_string, protocol_to_string,
  uint32_to_ip_string,
}
use kubeadapt_k8s_pulse.Go.Net.{ip_string}
use kubeadapt_k8s_pulse.Go.Strconv.{decimal}
use kubeadapt_k8s_pulse.Go.Strconv.RoundTrip.{decimal-Lacks, decimal_injective}
use kubeadapt_k8s_pulse.Go.Strings.{Lacks, split, split-append, split_whole}

abbrev quad : ℕ → ℕ → ℕ → ℕ → Text
quad a b c d = decimal a ++ b'.' ∷ (decimal b ++ b'.' ∷ (decimal c ++ b'.' ∷ decimal d))

-- Splitting the dotted form at its dots gives the four numbers back.
split-quad :
    (a b c d : ℕ) → split b'.' (quad a b c d) ≡ decimal a ∷ decimal b ∷ decimal c ∷ decimal d ∷ []
split-quad a b c d = rw (
  split-append b'.' (decimal a) _ (no_dot a),
  split-append b'.' (decimal b) _ (no_dot b),
  split-append b'.' (decimal c) _ (no_dot c),
  split_whole b'.' (decimal d) (no_dot d),
)
  where
    no_dot : (n : ℕ) → Lacks b'.' (decimal n)
    no_dot n = decimal-Lacks b'.' n (inl (omega arith))

quad_injective :
    (a b c d a' b' c' d' : ℕ)
    → (a < 256) × (b < 256) × (c < 256) × (d < 256)
    → (a' < 256) × (b' < 256) × (c' < 256) × (d' < 256)
    → quad a b c d ≡ quad a' b' c' d'
    → (a ≡ a') × (b ≡ b') × (c ≡ c') × (d ≡ d')
quad_injective a b c d a' b' c' d' h h' e =
    let same : decimal a ∷ decimal b ∷ decimal c ∷ decimal d ∷ []
        ≡ decimal a' ∷ decimal b' ∷ decimal c' ∷ decimal d' ∷ [] =
      sym (split-quad a b c d) ∙ (ap (split b'.') e ∙ split-quad a' b' c' d') in
    (
      decimal_injective a a' (omega arith) (omega arith) (cc same),
      decimal_injective b b' (omega arith) (omega arith) (cc same),
      decimal_injective c c' (omega arith) (omega arith) (cc same),
      decimal_injective d d' (omega arith) (omega arith) (cc same),
    )

-- Two 32-bit addresses that are printed alike are the same address.
pub uint32_to_ip_string_injective :
    (m n : ℕ) → m < 2 ^ 32 → n < 2 ^ 32 → uint32_to_ip_string m ≡ uint32_to_ip_string n → m ≡ n
unfolding uint32_to_ip_string ip_string
uint32_to_ip_string_injective m n hm hn e =
    let bytes =
      quad_injective (m % 256) (m / 256 % 256) (m / 65536 % 256) (m / 16777216 % 256) (n % 256)
        (n / 256 % 256) (n / 65536 % 256) (n / 16777216 % 256) (omega arith) (omega arith) e in
    omega (arith, bytes)

-- An IPv4-mapped IPv6 address is printed as the IPv4 address in its last word, so that a pod's
-- traffic over both families is aggregated together.
pub ipv6_to_ip_string_mapped :
    (a : Words)
    → a.w0 ≡ 0
    → a.w1 ≡ 0
    → a.w2 ≡ 0xffff0000
    → ipv6_to_ip_string a ≡ uint32_to_ip_string a.w3
unfolding ipv6_to_ip_string uint32_to_ip_string ip_string
ipv6_to_ip_string_mapped a h0 h1 h2 = simp (h0, h1, h2)

unknown_protocol : ℕ → Text
unknown_protocol n = codes "unknown(" ++ (decimal n ++ codes ")")

unknown_protocol_injective :
    (m n : ℕ) → m < 256 → n < 256 → unknown_protocol m ≡ unknown_protocol n → m ≡ n
unfolding unknown_protocol
unknown_protocol_injective m n hm hn e =
    let inner : decimal m ++ b')' ∷ [] ≡ decimal n ++ b')' ∷ [] = cc e in
    let pieces : decimal m ∷ split b')' [] ≡ decimal n ∷ split b')' [] =
      sym (split-append b')' (decimal m) [] (decimal-Lacks b')' m (inl (omega arith))))
      ∙ (ap (split b')') inner
          ∙ split-append b')' (decimal n) [] (decimal-Lacks b')' n (inl (omega arith)))) in
    decimal_injective m n (omega arith) (omega arith) (cc pieces)

-- The name of a protocol determines its number, among the numbers below 256.
pub protocol_to_string_injective :
    (m n : ℕ) → m < 256 → n < 256 → protocol_to_string m ≡ protocol_to_string n → m ≡ n
unfolding protocol_to_string unknown_protocol
protocol_to_string_injective m n hm hn e = ground (arith, e, unknown_protocol_injective m n hm hn)

abbrev inet_key : ConnectionKey → AggKey
inet_key a = record {
  src_ip = uint32_to_ip_string a.src_addr.w0;
  dst_ip = uint32_to_ip_string a.dst_addr.w0;
  protocol = protocol_to_string a.protocol;
}

agg_key-inet : (a : ConnectionKey) → a.family ≡ af_inet → agg_key a ≡ inet_key a
unfolding agg_key connection_key_to_ips
agg_key-inet a h = simp h

-- Two IPv4 connections, with addresses of 32 bits and protocols below 256, are aggregated together
-- exactly when their addresses and their protocol agree, whatever their ports.
pub agg_key_iff :
    (a b : ConnectionKey)
    → (a.family ≡ af_inet) × (b.family ≡ af_inet)
    → (a.src_addr.w0 < 2 ^ 32) × (a.dst_addr.w0 < 2 ^ 32) × (a.protocol < 256)
    → (b.src_addr.w0 < 2 ^ 32) × (b.dst_addr.w0 < 2 ^ 32) × (b.protocol < 256)
    → (agg_key a ≡ agg_key b) ↔ (
        (a.src_addr.w0 ≡ b.src_addr.w0)
        × (a.dst_addr.w0 ≡ b.dst_addr.w0)
        × (a.protocol ≡ b.protocol))
agg_key_iff a b (fa, fb) (sa, da, pa) (sb, db, pb) = (
  λ e.
      let same : inet_key a ≡ inet_key b = sym (agg_key-inet a fa) ∙ (e ∙ agg_key-inet b fb) in
      (
        uint32_to_ip_string_injective _ _ sa sb (ap (λ (k : AggKey). k.src_ip) same),
        uint32_to_ip_string_injective _ _ da db (ap (λ (k : AggKey). k.dst_ip) same),
        protocol_to_string_injective _ _ pa pb (ap (λ (k : AggKey). k.protocol) same),
      ),
  λ e. agg_key-inet a fa ∙ (simp (e.0, e.1, e.2) refl ∙ sym (agg_key-inet b fb)),
)
