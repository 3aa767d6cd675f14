-- ===== src/Monitor/Parse/Ipv6/RoundTrip.antt =====
-- parse_packet of bpf/network_monitor_tc.c on the bytes of an IPv6 frame.
use kubeadapt_k8s_pulse.Prelude.{
  List, [], ap, arith, drop, if◌then◌else◌, inl, inr, leb, length, ltb, none, refl, some, true, ℕ,
  ◌%◌, ◌*◌, ◌+◌, ◌/◌, ◌∙◌, ◌∷◌, ◌≡◌, ◌≤◌,
}
use kubeadapt_k8s_pulse.Bpf.Ringbuf.Layout.{bytes_le}
use kubeadapt_k8s_pulse.Monitor.Ipv6.{
  ipv6_key, ipv6_max_headers, ipv6_transport, is_extension, parse_ipv6,
}
use kubeadapt_k8s_pulse.Monitor.Packet.{SkBuff, be16, byte_at, first_byte, le32}
use kubeadapt_k8s_pulse.Monitor.Parse.{Monitor, parse_packet}
use kubeadapt_k8s_pulse.Monitor.Parse.Chain.{IsTransport, parse_ipv6-Chain}
use kubeadapt_k8s_pulse.Monitor.Parse.Frame.{drop-append}
use kubeadapt_k8s_pulse.Monitor.Parse.Ipv6.{
  IsPacket6, Packet6, extension_bytes, extension_size, extensions-Chain, fixed_bytes, frame6,
  key6_of, little_quad, load_bytes-at, transport_bytes,
}
use kubeadapt_k8s_pulse.Monitor.Parse.Linear.{Holds, be16-linear}

module _ {d : Packet6} {skb : SkBuff} (packet : IsPacket6 d) (holds : Holds (frame6 d) skb) where
  abbrev ip6 : List ℕ
  ip6 = fixed_bytes d []

  abbrev ethernet_rest : List ℕ
  ethernet_rest =
      134 ∷ 221 ∷ fixed_bytes d (extension_bytes d.extensions d.protocol (transport_bytes d))

  behind_ethernet :
      drop 14 (frame6 d)
      ≡ fixed_bytes d (extension_bytes d.extensions d.protocol (transport_bytes d))
  unfolding frame6
  behind_ethernet = drop-append d.mac_addresses _ 14 2 (omega (arith, packet.mac_addresses-length))

  fixed-loaded : skb.load_bytes 14 40 ≡ some ip6
  unfolding fixed_bytes bytes_le
  fixed-loaded = load_bytes-at holds 14 40 _ _ behind_ethernet (omega arith)

  behind_fixed : drop 54 (frame6 d) ≡ extension_bytes d.extensions d.protocol (transport_bytes d)
  unfolding frame6 fixed_bytes bytes_le
  behind_fixed = drop-append d.mac_addresses _ 54 42 (omega (arith, packet.mac_addresses-length))

  key_field : ipv6_key ip6 d.protocol ≡ record (key6_of d) { src_port = 0; dst_port = 0 }
  unfolding ipv6_key fixed_bytes bytes_le le32 byte_at
  key_field =
      rw
        (
          little_quad packet.source-IsWords.w0-bound,
          little_quad packet.source-IsWords.w1-bound,
          little_quad packet.source-IsWords.w2-bound,
          little_quad packet.source-IsWords.w3-bound,
          little_quad packet.destination-IsWords.w0-bound,
          little_quad packet.destination-IsWords.w1-bound,
          little_quad packet.destination-IsWords.w2-bound,
          little_quad packet.destination-IsWords.w3-bound,
        )
        refl

  length_field : be16 4 ip6 ≡ d.payload_length
  unfolding be16 byte_at fixed_bytes
  length_field = omega (arith, packet.payload_length-bound)

  protocol-IsTransport : IsTransport d.protocol
  unfolding is_extension
  protocol-IsTransport = elim packet.rest-transport [
    | inl (tcp, long) ↦ rw tcp (refl, refl)
    | inr (udp, long) ↦ rw udp (refl, refl)
  ]

  ports_field :
      (l4 : ℕ) (bytes : ℕ)
      → drop l4 (frame6 d) ≡ transport_bytes d
      → ipv6_transport skb l4 (record (key6_of d) { src_port = 0; dst_port = 0 }) bytes
        ≡ some (key6_of d, bytes)
  unfolding ipv6_transport be16 byte_at
  ports_field l4 bytes there =
      let src : d.src_port / 256 * 256 + d.src_port % 256 ≡ d.src_port = omega arith in
      let dst : d.dst_port / 256 * 256 + d.dst_port % 256 ≡ d.dst_port = omega arith in
      elim packet.rest-transport [
        | inl (tcp, long) ↦
            rw (tcp, load_bytes-at holds l4 20 _ _ there (omega (arith, long)), src, dst) refl
        | inr (udp, long) ↦
            rw (udp, load_bytes-at holds l4 8 _ _ there (omega (arith, long)), src, dst) refl
      ]

  ether_type : 14 ≤ length skb.linear → be16 12 skb.linear ≡ 34525
  unfolding frame6 be16 byte_at
  ether_type linear =
      let at_twelve =
        drop-append d.mac_addresses ethernet_rest 12 0
          (omega (arith, packet.mac_addresses-length)) in
      let at_thirteen =
        drop-append d.mac_addresses ethernet_rest 13 1
          (omega (arith, packet.mac_addresses-length)) in
      be16-linear holds 12 (omega arith)
      ∙ omega (arith, ap first_byte at_twelve, ap first_byte at_thirteen)

  parse_ipv6-extensions :
      (s : Monitor)
      → parse_ipv6 skb 14 s ≡ (
        (if ltb (length d.extensions) ipv6_max_headers
            then ipv6_transport skb
                (54 + extension_size d.extensions)
                (ipv6_key ip6 d.protocol)
                (be16 4 ip6 + 40)
            else none),
        s,
      )
  unfolding byte_at fixed_bytes
  parse_ipv6-extensions s =
      let (chain, there) =
        extensions-Chain holds d.extensions 54 d.protocol (transport_bytes d)
          packet.extensions-IsExtension behind_fixed in
      parse_ipv6-Chain {ip6 = ip6} 14 s fixed-loaded chain protocol-IsTransport

  -- parse_packet of a well-formed frame with an IPv6 packet of TCP or UDP behind any number of
  -- hop-by-hop options, routing headers and destination options of any length, whose Ethernet header is
  -- linear: with fewer than four such headers it recovers the addresses, the protocol, the ports and the
  -- length with the fixed header, and with four or more the packet is discarded.
  pub parse_packet-frame6 :
      (s : Monitor)
      → 14 ≤ length skb.linear
      → parse_packet skb s ≡ (
        (if ltb (length d.extensions) ipv6_max_headers
            then some (key6_of d, d.payload_length + 40)
            else none),
        s,
      )
  unfolding parse_packet
  parse_packet-frame6 s linear =
      let ethernet : leb 14 (length skb.linear) ≡ true = ground arith in
      let there =
        (extensions-Chain holds d.extensions 54 d.protocol (transport_bytes d)
          packet.extensions-IsExtension behind_fixed).1 in
      rw
        (
          ethernet,
          ether_type linear,
          parse_ipv6-extensions s,
          key_field,
          length_field,
          ports_field (54 + extension_size d.extensions) (d.payload_length + 40) there,
        )
        refl
