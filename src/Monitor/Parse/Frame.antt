-- ===== src/Monitor/Parse/Frame.antt =====
-- Ethernet frames with IPv4 as RFC 791 lays them out, against parse_packet of
-- bpf/network_monitor_tc.c.
use kubeadapt_k8s_pulse.Prelude.{
  Bool-cases, List, [], ap, arith, drop, if◌then◌else◌, inl, inr, leb, length-append, refl, some,
  suc, take, true, zero, ℕ, ◌%◌, ◌*◌, ◌++◌, ◌+◌, ◌/◌, ◌<◌, ◌==◌, ◌^◌, ◌∙◌, ◌∷◌, ◌≡◌, ◌≤◌, ◌⊎◌,
}
use kubeadapt_k8s_pulse.Bpf.Ringbuf.Layout.{bytes_le}
use kubeadapt_k8s_pulse.Monitor.Flows.{Monitor}
use kubeadapt_k8s_pulse.Monitor.Ipv4.{
  count_ipv4_fragment, ipv4_key, ipv4_transport, ipv4_words, parse_ipv4,
}
use kubeadapt_k8s_pulse.Monitor.Packet.{be16, byte_at, first_byte, le32, read_header}
use kubeadapt_k8s_pulse.Monitor.Parse.{ConnectionKey, SkBuff, length, parse_packet}
use kubeadapt_k8s_pulse.Monitor.Parse.Linear.{Holds, byte_at-linear, read_header-packet}

-- An IPv4 datagram that carries TCP or UDP, in an Ethernet frame. Addresses are the numbers that a
-- little-endian machine loads.
pub record Datagram : Type 0 where
  pub mac_addresses : List ℕ
  pub version : ℕ
  pub header_words : ℕ
  pub service : ℕ
  pub total_length : ℕ
  pub identification : ℕ
  pub flags : ℕ
  pub fragment_offset : ℕ
  pub time_to_live : ℕ
  pub protocol : ℕ
  pub checksum : ℕ
  pub source : ℕ
  pub destination : ℕ
  pub options : List ℕ
  pub src_port : ℕ
  pub dst_port : ℕ
  pub rest : List ℕ

abbrev pub bytes_be16 : ℕ → List ℕ → List ℕ
bytes_be16 x bytes = x / 256 ∷ x % 256 ∷ bytes

-- The frame's bytes.
unfoldable pub payload_bytes : Datagram → List ℕ
payload_bytes d = bytes_be16 d.src_port (bytes_be16 d.dst_port d.rest)

unfoldable pub header_bytes : Datagram → List ℕ → List ℕ
header_bytes d behind =
    8
    ∷ 0
    ∷ (d.version * 16 + d.header_words)
    ∷ d.service
    ∷ bytes_be16 d.total_length (
        bytes_be16 d.identification (
          bytes_be16 (d.flags * 8192 + d.fragment_offset) (
            d.time_to_live
            ∷ d.protocol
            ∷ bytes_be16 d.checksum (bytes_le 4 d.source ++ bytes_le 4 d.destination ++ behind))))

unfoldable pub frame : Datagram → List ℕ
frame d = d.mac_addresses ++ header_bytes d (d.options ++ payload_bytes d)

-- The fields are in range, the header is as long as it says, and the transport header is there.
pub record IsDatagram (d : Datagram) : Type 0 where
  pub mac_addresses-length : length d.mac_addresses ≡ 12
  pub header_words-bound : d.header_words < 16
  pub header_words-options : d.header_words * 4 ≡ 20 + length d.options
  pub total_length-bound : d.total_length < 2 ^ 16
  pub fragment_offset-bound : d.fragment_offset < 2 ^ 13
  pub source-bound : d.source < 2 ^ 32
  pub destination-bound : d.destination < 2 ^ 32
  pub src_port-bound : d.src_port < 2 ^ 16
  pub dst_port-bound : d.dst_port < 2 ^ 16
  pub rest-transport :
      ((d.protocol ≡ 6) × 16 ≤ length d.rest) ⊎ ((d.protocol ≡ 17) × 4 ≤ length d.rest)

-- What a datagram should be booked under, with the ports or without.
abbrev pub key_of : Datagram → ℕ → ℕ → ConnectionKey
key_of d src_port dst_port = record {
  src_addr = ipv4_words d.source;
  dst_addr = ipv4_words d.destination;
  src_port = src_port;
  dst_port = dst_port;
  protocol = d.protocol;
  family = 2;
  pad = 0;
}

pub drop-append {ℓ} :
    {A : Type ℓ} (xs ys : List A) (n m : ℕ) → n ≡ length xs + m → drop n (xs ++ ys) ≡ drop m ys
drop-append [] ys n m h = ap (λ i. drop i ys) (omega arith)
drop-append (x ∷ xs) ys zero m h = absurd (omega arith)
drop-append (x ∷ xs) ys (suc n) m h = drop-append xs ys n m (omega arith)

module _ {d : Datagram} {skb : SkBuff} (datagram : IsDatagram d) (holds : Holds (frame d) skb)
    (linear : 34 ≤ length skb.linear) where
  byte_at-frame :
      (i n : ℕ)
      → n ≡ 12 + i
      → n < 34
      → byte_at n skb.linear ≡ byte_at i (header_bytes d (d.options ++ payload_bytes d))
  unfolding byte_at frame
  byte_at-frame i n same bound =
      byte_at-linear holds n (omega arith)
      ∙ ap first_byte
          (drop-append d.mac_addresses _ n i (omega (arith, same, datagram.mac_addresses-length)))

  ether_type : be16 12 skb.linear ≡ 2048
  unfolding be16 byte_at header_bytes
  ether_type =
      omega (arith, byte_at-frame 0 12 refl (omega arith), byte_at-frame 1 13 refl (omega arith))

  header_length : byte_at 14 skb.linear % 16 ≡ d.header_words
  unfolding byte_at header_bytes
  header_length = omega (arith, byte_at-frame 2 14 refl (omega arith), datagram.header_words-bound)

  length_field : be16 16 skb.linear ≡ d.total_length
  unfolding be16 byte_at header_bytes
  length_field = omega (
    arith,
    byte_at-frame 4 16 refl (omega arith),
    byte_at-frame 5 17 refl (omega arith),
    datagram.total_length-bound,
  )

  fragment_field : be16 20 skb.linear % 8192 ≡ d.fragment_offset
  unfolding be16 byte_at header_bytes
  fragment_field = omega (
    arith,
    byte_at-frame 8 20 refl (omega arith),
    byte_at-frame 9 21 refl (omega arith),
    datagram.fragment_offset-bound,
  )

  source_field : le32 26 skb.linear ≡ d.source
  unfolding le32 byte_at header_bytes bytes_le
  source_field = omega (
    arith,
    byte_at-frame 14 26 refl (omega arith),
    byte_at-frame 15 27 refl (omega arith),
    byte_at-frame 16 28 refl (omega arith),
    byte_at-frame 17 29 refl (omega arith),
    datagram.source-bound,
  )

  destination_field : le32 30 skb.linear ≡ d.destination
  unfolding le32 byte_at header_bytes bytes_le
  destination_field = omega (
    arith,
    byte_at-frame 18 30 refl (omega arith),
    byte_at-frame 19 31 refl (omega arith),
    byte_at-frame 20 32 refl (omega arith),
    byte_at-frame 21 33 refl (omega arith),
    datagram.destination-bound,
  )

  key_field : ipv4_key 14 skb.linear ≡ key_of d 0 0
  unfolding ipv4_key byte_at header_bytes
  key_field = rw (source_field, destination_field, byte_at-frame 11 23 refl (omega arith)) refl

  transport_offset : drop (14 + d.header_words * 4) (frame d) ≡ payload_bytes d
  unfolding frame header_bytes bytes_le
  transport_offset =
      let fixed =
        drop-append (header_bytes d []) (d.options ++ payload_bytes d) (2 + d.header_words * 4)
          (length d.options) (omega (arith, datagram.header_words-options)) in
      drop-append d.mac_addresses _ (14 + d.header_words * 4) (2 + d.header_words * 4)
        (omega (arith, datagram.mac_addresses-length))
      ∙ fixed
      ∙ drop-append d.options (payload_bytes d) (length d.options) 0 (omega arith)

  frame-length : length (frame d) ≡ 38 + length d.options + length d.rest
  unfolding frame header_bytes bytes_le payload_bytes
  frame-length = omega (
    arith,
    length-append d.mac_addresses (header_bytes d (d.options ++ payload_bytes d)),
    length-append d.options (payload_bytes d),
    datagram.mac_addresses-length,
  )

  transport_header :
      (size : ℕ)
      → size ≤ 4 + length d.rest
      → read_header skb (14 + d.header_words * 4) size ≡ some (take size (payload_bytes d))
  transport_header size bound =
      let inside : leb (14 + d.header_words * 4 + size) (length (frame d)) ≡ true =
        ground (arith, frame-length, datagram.header_words-options, bound) in
      read_header-packet holds (14 + d.header_words * 4) size ∙ rw (inside, transport_offset) refl

  ports_field :
      (bytes : ℕ)
      → ipv4_transport skb (14 + d.header_words * 4) (key_of d 0 0) bytes
        ≡ some (key_of d d.src_port d.dst_port, bytes)
  unfolding ipv4_transport be16 byte_at payload_bytes
  ports_field bytes =
      let src : d.src_port / 256 * 256 + d.src_port % 256 ≡ d.src_port = omega arith in
      let dst : d.dst_port / 256 * 256 + d.dst_port % 256 ≡ d.dst_port = omega arith in
      elim datagram.rest-transport [
        | inl (tcp, long) ↦ rw (tcp, transport_header 20 (omega (arith, long)), src, dst) refl
        | inr (udp, long) ↦ rw (udp, transport_header 8 (omega (arith, long)), src, dst) refl
      ]

  -- parse_packet of a well-formed frame with an IPv4 datagram of TCP or UDP, options included, whose
  -- first 34 bytes are linear: it recovers the addresses, the protocol and the total length, and the ports
  -- too if it is not a later fragment, which is counted as one.
  pub parse_packet-frame :
      (s : Monitor)
      → parse_packet skb s ≡ (
          if d.fragment_offset == 0
          then (some (key_of d d.src_port d.dst_port, d.total_length), s)
          else (some (key_of d 0 0, d.total_length), count_ipv4_fragment s))
  unfolding parse_packet parse_ipv4
  parse_packet-frame s =
      let ethernet : leb 14 (length skb.linear) ≡ true = ground arith in
      let ip : leb 34 (length skb.linear) ≡ true = ground arith in
      elim (Bool-cases (d.fragment_offset == 0)) [
        | inl first ↦
            rw
              (
                ethernet,
                ether_type,
                ip,
                fragment_field,
                first,
                key_field,
                length_field,
                header_length,
                ports_field d.total_length,
              )
              refl
        | inr later ↦
            rw (ethernet, ether_type, ip, fragment_field, later, key_field, length_field) refl
      ]
