-- ===== src/Examples/Packets6.antt =====
-- The theorems on the kernel's parser at IPv6 packets.
use kubeadapt_k8s_pulse.Prelude.{
  List, [], arith, if◌then◌else◌, inl, inr, length, ltb, none, refl, some, suc, true, zero, ℕ, ◌*◌,
  ◌++◌, ◌+◌, ◌∷◌, ◌≡◌, ◌≤◌,
}
use kubeadapt_k8s_pulse.Bpf.Ringbuf.Layout.{bytes_le}
use kubeadapt_k8s_pulse.Examples.Buffers.{buffer, sixteen}
use kubeadapt_k8s_pulse.Examples.Data.{api, web, words}
use kubeadapt_k8s_pulse.Examples.Flows.{start}
use kubeadapt_k8s_pulse.Monitor.Flows.{connection_keys}
use kubeadapt_k8s_pulse.Monitor.Ipv6.{
  advance, count_ipv6_fragment, ipv6_key, ipv6_max_headers, is_extension, parse_ipv6,
}
use kubeadapt_k8s_pulse.Monitor.Packet.{SkBuff, be16, byte_at}
use kubeadapt_k8s_pulse.Monitor.Parse.{parse_packet}
use kubeadapt_k8s_pulse.Monitor.Parse.Chain.{at_end, parse_ipv6-later_fragment}
use kubeadapt_k8s_pulse.Monitor.Parse.Ipv6.{
  Extension, IsExtension, IsPacket6, Packet6, fixed_bytes, frame6, key6_of,
}
use kubeadapt_k8s_pulse.Monitor.Parse.Ipv6.RoundTrip.{parse_packet-frame6}
use kubeadapt_k8s_pulse.Monitor.Parse.Linear.{Holds}

-- A fixed header of IPv6 with zero addresses, by its payload length and next header.
abbrev ip6 : ℕ → ℕ → List ℕ
ip6 size nexthdr = 96 ∷ 0 ∷ 0 ∷ 0 ∷ 0 ∷ size ∷ nexthdr ∷ 64 ∷ (sixteen ++ sixteen)

-- An extension header of eight bytes.
abbrev extension : ℕ → List ℕ → List ℕ
extension nexthdr next = nexthdr ∷ 0 ∷ 1 ∷ 4 ∷ 0 ∷ 0 ∷ 0 ∷ 0 ∷ next

abbrev ethernet : List ℕ
ethernet = 2 ∷ 0 ∷ 0 ∷ 0 ∷ 0 ∷ 1 ∷ 2 ∷ 0 ∷ 0 ∷ 0 ∷ 0 ∷ 2 ∷ 134 ∷ 221 ∷ []

abbrev option : Extension
option = record { number = 60; hdrlen = 0; body = 1 ∷ 4 ∷ 0 ∷ 0 ∷ 0 ∷ 0 ∷ [] }

option-IsExtension : IsExtension option
option-IsExtension = record { number-options = inr (inr refl); body-length = refl }

abbrev options : ℕ → List Extension
options zero = []
options (suc n) = option ∷ options n

-- A TCP segment behind so many destination options headers.
abbrev packet6 : ℕ → Packet6
packet6 n = record {
  mac_addresses = 2 ∷ 0 ∷ 0 ∷ 0 ∷ 0 ∷ 1 ∷ 2 ∷ 0 ∷ 0 ∷ 0 ∷ 0 ∷ 2 ∷ [];
  leading = record { w0 = 96; w1 = 0; w2 = 0; w3 = 0 };
  payload_length = 20 + 8 * n;
  hop_limit = 64;
  source = words web;
  destination = words api;
  extensions = options n;
  protocol = 6;
  src_port = 40000;
  dst_port = 443;
  rest = sixteen;
}

packet6-IsPacket6 : IsPacket6 (packet6 4)
packet6-IsPacket6 = record {
  mac_addresses-length = refl;
  payload_length-bound = omega arith;
  source-IsWords = record {
    w0-bound = omega arith;
    w1-bound = omega arith;
    w2-bound = omega arith;
    w3-bound = omega arith;
  };
  destination-IsWords = record {
    w0-bound = omega arith;
    w1-bound = omega arith;
    w2-bound = omega arith;
    w3-bound = omega arith;
  };
  extensions-IsExtension =
      (option-IsExtension, (option-IsExtension, (option-IsExtension, (option-IsExtension, tt))));
  src_port-bound = omega arith;
  dst_port-bound = omega arith;
  rest-transport = inl (refl, omega arith);
}

abbrev deep : SkBuff
deep = buffer 14 (frame6 (packet6 4))

deep-Holds : Holds (frame6 (packet6 4)) deep
unfolding frame6 fixed_bytes bytes_le
deep-Holds = record { linear-take = refl; load_bytes-reads = λ off size. refl }

deep-linear : 14 ≤ length deep.linear
unfolding frame6 fixed_bytes bytes_le
deep-linear = omega arith

parse_packet-frame6_example : parse_packet deep start ≡ (
  (if ltb (length (packet6 4).extensions) ipv6_max_headers
      then some (key6_of (packet6 4), (packet6 4).payload_length + 40)
      else none),
  start,
)
parse_packet-frame6_example = parse_packet-frame6 packet6-IsPacket6 deep-Holds start deep-linear

-- A later fragment.
abbrev fragmented : SkBuff
fragmented = buffer 54 (ethernet ++ (ip6 24 44 ++ extension 6 sixteen))

parse_ipv6-later_fragment_example :
    (parse_ipv6 fragmented 14 start ≡ (
      some (ipv6_key (ip6 24 44) (byte_at 6 (ip6 24 44)), be16 4 (ip6 24 44) + 40),
      count_ipv6_fragment start,
    ))
    × is_extension (byte_at 6 (ip6 24 44)) ≡ true
unfolding advance byte_at be16
parse_ipv6-later_fragment_example =
    parse_ipv6-later_fragment 14 start refl at_end refl (omega arith)
