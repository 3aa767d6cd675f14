-- ===== src/Monitor/Parse/Paths.antt =====
-- The direct and the helper's reads of parse_ipv4 and parse_ipv6 of bpf/network_monitor_tc.c compared.
use kubeadapt_k8s_pulse.Prelude.{
  List, Option, ap, arith, if◌then◌else◌, leb, length, none, refl, some, suc, sym, true, zero, ℕ,
  ◌%◌, ◌*◌, ◌+◌, ◌<◌, ◌==◌, ◌∙◌, ◌≡◌, ◌≤◌,
}
use kubeadapt_k8s_pulse.Bpf.Types.{ConnectionKey}
use kubeadapt_k8s_pulse.Monitor.Flows.{Kernel, Monitor, Readings}
use kubeadapt_k8s_pulse.Monitor.Ipv4.{ipv4_key, ipv4_transport, parse_ipv4}
use kubeadapt_k8s_pulse.Monitor.Ipv6.{
  Advance, Skipped, advance, fragment, ipv6_authlen, ipv6_header, ipv6_key, ipv6_max_headers,
  ipv6_optlen, ipv6_skip_exthdr, ipv6_skipped, ipv6_transport, later_fragment, malformed,
  next_header, parse_ipv6, past_fragment, skip_rest, transport, truncated,
}
use kubeadapt_k8s_pulse.Monitor.Packet.{SkBuff, be16, byte_at, le32, read_header}
use kubeadapt_k8s_pulse.Monitor.Parse.{book, parse_packet, tc_ingress}
use kubeadapt_k8s_pulse.Monitor.Parse.Linear.{
  Holds, be16-linear, byte_at-linear, le32-linear, read_header-packet,
}
use kubeadapt_k8s_pulse.Monitor.Transport.{Parsed, ipproto_ah, ipproto_fragment}

skip_rest-same :
    {rest rest' : ℕ → ℕ → Skipped}
    → ((nexthdr off : ℕ) → rest nexthdr off ≡ rest' nexthdr off)
    → (a : Advance) → skip_rest rest a ≡ skip_rest rest' a
unfolding skip_rest
skip_rest-same same (next_header nexthdr off) = same nexthdr off
skip_rest-same same later_fragment = refl
skip_rest-same same truncated = refl

module _ {packet : List ℕ} {skb skb' : SkBuff} (holds : Holds packet skb)
    (holds' : Holds packet skb') where
  load_bytes-same : (off size : ℕ) → skb.load_bytes off size ≡ skb'.load_bytes off size
  load_bytes-same off size =
      holds.load_bytes-reads off size ∙ sym (holds'.load_bytes-reads off size)

  read_header-same : (off size : ℕ) → read_header skb off size ≡ read_header skb' off size
  read_header-same off size =
      read_header-packet holds off size ∙ sym (read_header-packet holds' off size)

  ipv4_transport-same :
      (l4 : ℕ) (key : ConnectionKey) (bytes : ℕ)
      → ipv4_transport skb l4 key bytes ≡ ipv4_transport skb' l4 key bytes
  unfolding ipv4_transport
  ipv4_transport-same l4 key bytes =
      rw (read_header-same l4 20, read_header-same l4 8, read_header-same l4 4) refl

  ipv6_transport-same :
      (l4 : ℕ) (key : ConnectionKey) (bytes : ℕ)
      → ipv6_transport skb l4 key bytes ≡ ipv6_transport skb' l4 key bytes
  unfolding ipv6_transport
  ipv6_transport-same l4 key bytes =
      rw (load_bytes-same l4 20, load_bytes-same l4 8, load_bytes-same l4 4) refl

  advance-same : (nexthdr off : ℕ) → advance skb nexthdr off ≡ advance skb' nexthdr off
  unfolding advance
  advance-same nexthdr off = rw (load_bytes-same off 2) (
      ap
        (λ (read : Option (List ℕ)). elim (skb'.load_bytes off 2) [
          | none ↦ truncated
          | some opthdr ↦
              if nexthdr == ipproto_fragment
              then past_fragment (byte_at 0 opthdr) off read
              else if nexthdr == ipproto_ah
              then next_header (byte_at 0 opthdr) (off + ipv6_authlen opthdr)
              else next_header (byte_at 0 opthdr) (off + ipv6_optlen opthdr)
        ])
        (load_bytes-same off 8))

  ipv6_skip_exthdr-same :
      (rounds nexthdr off : ℕ)
      → ipv6_skip_exthdr skb rounds nexthdr off ≡ ipv6_skip_exthdr skb' rounds nexthdr off
  unfolding ipv6_skip_exthdr
  ipv6_skip_exthdr-same zero nexthdr off = refl
  ipv6_skip_exthdr-same (suc rounds) nexthdr off =
      rw
        (
          ipv6_skip_exthdr,
          advance-same nexthdr off,
          skip_rest-same (ipv6_skip_exthdr-same rounds) (advance skb' nexthdr off),
        )
        refl

  ipv6_skipped-same :
      (ip6 : List ℕ) (skipped : Skipped) (s : Monitor)
      → ipv6_skipped skb ip6 skipped s ≡ ipv6_skipped skb' ip6 skipped s
  unfolding ipv6_skipped
  ipv6_skipped-same ip6 malformed s = refl
  ipv6_skipped-same ip6 fragment s = refl
  ipv6_skipped-same ip6 (transport nexthdr l4) s =
      rw (ipv6_transport-same l4 (ipv6_key ip6 nexthdr) (be16 4 ip6 + 40)) refl

  ipv6_header-same :
      (l3 : ℕ) (header : Option (List ℕ)) (s : Monitor)
      → ipv6_header skb l3 header s ≡ ipv6_header skb' l3 header s
  unfolding ipv6_header
  ipv6_header-same l3 none s = refl
  ipv6_header-same l3 (some ip6) s =
      rw (ipv6_skip_exthdr-same ipv6_max_headers (byte_at 6 ip6) (l3 + 40))
        (ipv6_skipped-same ip6 _ s)

  parse_ipv6-same : (l3 : ℕ) (s : Monitor) → parse_ipv6 skb l3 s ≡ parse_ipv6 skb' l3 s
  unfolding parse_ipv6
  parse_ipv6-same l3 s = rw (load_bytes-same l3 40) (ipv6_header-same l3 (skb'.load_bytes l3 40) s)

  module _ (linear : 34 ≤ length skb.linear) (linear' : 34 ≤ length skb'.linear) where
    be16-same : (i : ℕ) → i < 33 → be16 i skb.linear ≡ be16 i skb'.linear
    be16-same i h = be16-linear holds i (omega arith) ∙ sym (be16-linear holds' i (omega arith))

    byte_at-same : (i : ℕ) → i < 34 → byte_at i skb.linear ≡ byte_at i skb'.linear
    byte_at-same i h =
        byte_at-linear holds i (omega arith) ∙ sym (byte_at-linear holds' i (omega arith))

    le32-same : (i : ℕ) → i < 31 → le32 i skb.linear ≡ le32 i skb'.linear
    le32-same i h = le32-linear holds i (omega arith) ∙ sym (le32-linear holds' i (omega arith))

    ipv4_key-same : ipv4_key 14 skb.linear ≡ ipv4_key 14 skb'.linear
    unfolding ipv4_key
    ipv4_key-same =
        rw (le32-same 26 (omega arith), le32-same 30 (omega arith), byte_at-same 23 (omega arith))
          refl

    parse_ipv4-same : (s : Monitor) → parse_ipv4 skb 14 s ≡ parse_ipv4 skb' 14 s
    unfolding parse_ipv4
    parse_ipv4-same s =
        let enough : leb 34 (length skb.linear) ≡ true = ground arith in
        let enough' : leb 34 (length skb'.linear) ≡ true = ground arith in
        rw
          (
            enough,
            enough',
            be16-same 20 (omega arith),
            be16-same 16 (omega arith),
            byte_at-same 14 (omega arith),
            ipv4_key-same,
            ipv4_transport-same (14 + byte_at 14 skb'.linear % 16 * 4) (ipv4_key 14 skb'.linear)
                (be16 16 skb'.linear),
          )
          refl

    parse_packet-same : (s : Monitor) → parse_packet skb s ≡ parse_packet skb' s
    unfolding parse_packet
    parse_packet-same s =
        let enough : leb 14 (length skb.linear) ≡ true = ground arith in
        let enough' : leb 14 (length skb'.linear) ≡ true = ground arith in
        rw (enough, enough', be16-same 12 (omega arith), parse_ipv4-same s, parse_ipv6-same 14 s)
          refl

    book-same :
        (k : Kernel) (now : Readings)
        → skb.ifindex ≡ skb'.ifindex
        → skb.cgroup_id ≡ skb'.cgroup_id
        → (parsed : Parsed × Monitor) → book k skb now parsed ≡ book k skb' now parsed
    unfolding book
    book-same k now if_index cgroup_id (none, s) = refl
    book-same k now if_index cgroup_id (some (key, bytes), s) = rw (if_index, cgroup_id) refl

    -- Two buffers that hold the same packet, are of the same interface and cgroup, and have at least
    -- the Ethernet header and 20 bytes behind it linear are counted alike by tc_ingress: it does not matter
    -- which of the other headers are read directly and which by the helper.
    pub tc_ingress-linear :
        (k : Kernel) (now : Readings) (s : Monitor)
        → skb.ifindex ≡ skb'.ifindex
        → skb.cgroup_id ≡ skb'.cgroup_id
        → tc_ingress k skb now s ≡ tc_ingress k skb' now s
    unfolding tc_ingress
    tc_ingress-linear k now s if_index cgroup_id =
        rw (parse_packet-same s)
          (ap (λ s'. (0, s')) (book-same k now if_index cgroup_id (parse_packet skb' s)))
