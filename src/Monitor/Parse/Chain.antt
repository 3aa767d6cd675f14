-- ===== src/Monitor/Parse/Chain.antt =====
-- ipv6_skip_exthdr of bpf/network_monitor_tc.c on a chain of extension headers.
use kubeadapt_k8s_pulse.Prelude.{
  Bool-cases, List, ap, arith, false, if◌then◌else◌, inl, inr, ltb, none, refl, some, suc, true,
  zero, ℕ, ◌+◌, ◌-◌, ◌<◌, ◌==◌, ◌≡◌, ◌≤◌,
}
use kubeadapt_k8s_pulse.Monitor.Flows.{Monitor}
use kubeadapt_k8s_pulse.Monitor.Ipv6.{
  advance, count_ipv6_fragment, ipv6_header, ipv6_key, ipv6_max_headers, ipv6_skip_exthdr,
  ipv6_skipped, ipv6_transport, is_extension, later_fragment, malformed, next_header, parse_ipv6,
  skip_rest,
}
use kubeadapt_k8s_pulse.Monitor.Packet.{SkBuff, be16, byte_at}
use kubeadapt_k8s_pulse.Monitor.Transport.{ipproto_fragment, ipproto_none}

-- A number of extension headers that follow each other in a packet, from a header and its offset to
-- another header and its offset.
pub data Chain (skb : SkBuff) : ℕ → ℕ → ℕ → ℕ → ℕ → Type 0 where
  at_end : {nexthdr off : ℕ} → Chain skb 0 nexthdr off nexthdr off
  behind :
      {n nexthdr off nexthdr' off' last end : ℕ}
      → is_extension nexthdr ≡ true
      → advance skb nexthdr off ≡ next_header nexthdr' off'
      → Chain skb n nexthdr' off' last end
      → Chain skb (suc n) nexthdr off last end

-- A header that is neither an extension header nor the mark that no header follows.
abbrev pub IsTransport : ℕ → Type 0
IsTransport nexthdr = (is_extension nexthdr ≡ false) × (nexthdr == ipproto_none) ≡ false

is_extension-not_none :
    (nexthdr : ℕ) → is_extension nexthdr ≡ true → (nexthdr == ipproto_none) ≡ false
unfolding is_extension
is_extension-not_none nexthdr extension = ground arith

-- A chain to an extension header starts at one.
Chain-is_extension :
    {skb : SkBuff} {n nexthdr off last end : ℕ}
    → Chain skb n nexthdr off last end
    → is_extension last ≡ true
    → is_extension nexthdr ≡ true
Chain-is_extension at_end extension = extension
Chain-is_extension (behind first advances chain) extension = first

module _ {skb : SkBuff} where
  -- The rounds go on behind a chain.
  ipv6_skip_exthdr-Chain :
      {n nexthdr off last end : ℕ}
      → Chain skb n nexthdr off last end
      → (total rounds : ℕ) → total ≡ n + rounds
      → ipv6_skip_exthdr skb total nexthdr off ≡ ipv6_skip_exthdr skb rounds last end
  unfolding ipv6_skip_exthdr skip_rest
  ipv6_skip_exthdr-Chain (at_end {nexthdr} {off}) total rounds split =
      ap (λ left. ipv6_skip_exthdr skb left nexthdr off) (omega (arith, split))
  ipv6_skip_exthdr-Chain (behind extension advances chain) zero rounds split = absurd (omega arith)
  ipv6_skip_exthdr-Chain (behind {n} {nexthdr} extension advances chain) (suc total) rounds split =
      rw (is_extension-not_none nexthdr extension, extension, advances)
        (ipv6_skip_exthdr-Chain chain total rounds (omega arith))

  -- A chain that is as long as the rounds uses them up.
  ipv6_skip_exthdr-long :
      {n nexthdr off last end : ℕ}
      → Chain skb n nexthdr off last end
      → (rounds : ℕ) → rounds ≤ n
      → ipv6_skip_exthdr skb rounds nexthdr off ≡ malformed
  unfolding ipv6_skip_exthdr skip_rest
  ipv6_skip_exthdr-long chain zero short = refl
  ipv6_skip_exthdr-long at_end (suc rounds) short = absurd (omega arith)
  ipv6_skip_exthdr-long (behind {n} {nexthdr} extension advances chain) (suc rounds) short =
      rw (is_extension-not_none nexthdr extension, extension, advances)
        (ipv6_skip_exthdr-long chain rounds (omega arith))

  module _ {n nexthdr off last end : ℕ} (chain : Chain skb n nexthdr off last end) where
    skip-long :
        ltb n ipv6_max_headers ≡ false
        → ipv6_skip_exthdr skb ipv6_max_headers nexthdr off ≡ malformed
    skip-long long = ipv6_skip_exthdr-long chain ipv6_max_headers (ground arith)

    skip-short :
        (short : ltb n ipv6_max_headers ≡ true)
        → ipv6_skip_exthdr skb ipv6_max_headers nexthdr off
          ≡ ipv6_skip_exthdr skb (suc (3 - n)) last end
    skip-short short = ipv6_skip_exthdr-Chain chain ipv6_max_headers (suc (3 - n)) (ground arith)

  -- parse_ipv6 of a packet whose fixed header is followed by a chain of extension headers and then by
  -- a transport header: it is parsed at that header if the chain has fewer than four, and
  -- discarded otherwise.
  pub parse_ipv6-Chain :
      {ip6 : List ℕ} {n last end : ℕ} (l3 : ℕ) (s : Monitor)
      → skb.load_bytes l3 40 ≡ some ip6
      → Chain skb n (byte_at 6 ip6) (l3 + 40) last end
      → IsTransport last
      → parse_ipv6 skb l3 s ≡ (
        (if ltb n ipv6_max_headers
            then ipv6_transport skb end (ipv6_key ip6 last) (be16 4 ip6 + 40)
            else none),
        s,
      )
  unfolding parse_ipv6 ipv6_header ipv6_skip_exthdr ipv6_skipped
  parse_ipv6-Chain {n} l3 s loaded chain (proper, not_none) =
      elim (Bool-cases (ltb n ipv6_max_headers)) [
        | inl short ↦ rw (loaded, skip-short chain short, short, not_none, proper) refl
        | inr long ↦ rw (loaded, skip-long chain long, long) refl
      ]

  -- parse_ipv6 of a later fragment behind fewer than four extension headers: it is
  -- counted as a fragment and booked without ports under the next header of the fixed header, which is an
  -- extension header's number and so never the transport protocol that its first fragment is booked under.
  pub parse_ipv6-later_fragment :
      {ip6 : List ℕ} {n end : ℕ} (l3 : ℕ) (s : Monitor)
      → skb.load_bytes l3 40 ≡ some ip6
      → Chain skb n (byte_at 6 ip6) (l3 + 40) ipproto_fragment end
      → advance skb ipproto_fragment end ≡ later_fragment
      → n < ipv6_max_headers
      → (parse_ipv6 skb l3 s
          ≡ (some (ipv6_key ip6 (byte_at 6 ip6), be16 4 ip6 + 40), count_ipv6_fragment s))
        × is_extension (byte_at 6 ip6) ≡ true
  unfolding parse_ipv6 ipv6_header ipv6_skip_exthdr ipv6_skipped is_extension skip_rest
  parse_ipv6-later_fragment {n} l3 s loaded chain later bound =
      let short : ltb n ipv6_max_headers ≡ true = ground arith in
      (rw (loaded, skip-short chain short, later) refl, Chain-is_extension chain refl)
