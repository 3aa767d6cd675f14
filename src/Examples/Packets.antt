-- ===== src/Examples/Packets.antt =====
-- The theorems on the kernel's parser at IPv4 packets.
use kubeadapt_k8s_pulse.Prelude.{
  [], arith, if◌then◌else◌, inl, length, map, refl, some, true, ◌==◌, ◌∷◌, ◌≡◌, ◌≤◌,
}
use kubeadapt_k8s_pulse.Prelude.GoMap.{lookup, put}
use kubeadapt_k8s_pulse.Bpf.Ringbuf.Layout.{bytes_le}
use kubeadapt_k8s_pulse.Examples.Buffers.{buffer, sixteen}
use kubeadapt_k8s_pulse.Examples.Data.{api, connection, web}
use kubeadapt_k8s_pulse.Examples.Flows.{kernel, kernel-IsRoomy, start}
use kubeadapt_k8s_pulse.Monitor.Flows.{Readings, connection_keys, create, update_stats}
use kubeadapt_k8s_pulse.Monitor.Flows.Room.{fits}
use kubeadapt_k8s_pulse.Monitor.Flows.Summary.{of_flow, summary}
use kubeadapt_k8s_pulse.Monitor.Frames.{
  IsReceived, Received, arrival_of, buffer_of, ipv4, tc_ingress_all, tc_ingress_all-summary,
}
use kubeadapt_k8s_pulse.Monitor.Ipv4.{count_ipv4_fragment}
use kubeadapt_k8s_pulse.Monitor.Packet.{SkBuff}
use kubeadapt_k8s_pulse.Monitor.Parse.{parse_packet, tc_ingress}
use kubeadapt_k8s_pulse.Monitor.Parse.Frame.{
  Datagram, IsDatagram, frame, header_bytes, key_of, parse_packet-frame, payload_bytes,
}
use kubeadapt_k8s_pulse.Monitor.Parse.Linear.{Holds}
use kubeadapt_k8s_pulse.Monitor.Parse.Paths.{tc_ingress-linear}

-- A TCP segment between the two pods, behind an IPv4 header with four bytes of options.
abbrev datagram : Datagram
datagram = record {
  mac_addresses = 2 ∷ 0 ∷ 0 ∷ 0 ∷ 0 ∷ 1 ∷ 2 ∷ 0 ∷ 0 ∷ 0 ∷ 0 ∷ 2 ∷ [];
  version = 4;
  header_words = 6;
  service = 0;
  total_length = 44;
  identification = 1;
  flags = 2;
  fragment_offset = 0;
  time_to_live = 64;
  protocol = 6;
  checksum = 0;
  source = web;
  destination = api;
  options = 1 ∷ 1 ∷ 1 ∷ 0 ∷ [];
  src_port = 40000;
  dst_port = 443;
  rest = sixteen;
}

datagram-IsDatagram : IsDatagram datagram
datagram-IsDatagram = record {
  mac_addresses-length = refl;
  header_words-bound = omega arith;
  header_words-options = refl;
  total_length-bound = omega arith;
  fragment_offset-bound = omega arith;
  source-bound = omega arith;
  destination-bound = omega arith;
  src_port-bound = omega arith;
  dst_port-bound = omega arith;
  rest-transport = inl (refl, omega arith);
}

-- The first 34 bytes are linear, or all of them.
abbrev short_buffer : SkBuff
short_buffer = buffer 34 (frame datagram)

abbrev whole_buffer : SkBuff
whole_buffer = buffer 58 (frame datagram)

short_buffer-Holds : Holds (frame datagram) short_buffer
unfolding frame header_bytes payload_bytes bytes_le
short_buffer-Holds = record { linear-take = refl; load_bytes-reads = λ off size. refl }

whole_buffer-Holds : Holds (frame datagram) whole_buffer
unfolding frame header_bytes payload_bytes bytes_le
whole_buffer-Holds = record { linear-take = refl; load_bytes-reads = λ off size. refl }

short_buffer-linear : 34 ≤ length short_buffer.linear
unfolding frame header_bytes payload_bytes bytes_le
short_buffer-linear = omega arith

whole_buffer-linear : 34 ≤ length whole_buffer.linear
unfolding frame header_bytes payload_bytes bytes_le
whole_buffer-linear = omega arith

parse_packet-frame_example : parse_packet short_buffer start ≡ (
    if datagram.fragment_offset == 0
    then (some (key_of datagram 40000 443, 44), start)
    else (some (key_of datagram 0 0, 44), count_ipv4_fragment start))
parse_packet-frame_example =
    parse_packet-frame datagram-IsDatagram short_buffer-Holds short_buffer-linear start

abbrev readings : Readings
readings = record { at_first = 5; at_second = 6 }

tc_ingress-linear_example :
    tc_ingress kernel short_buffer readings start ≡ tc_ingress kernel whole_buffer readings start
tc_ingress-linear_example =
    tc_ingress-linear short_buffer-Holds whole_buffer-Holds short_buffer-linear whole_buffer-linear
      kernel readings start refl refl

abbrev received : Received
received = record { content = ipv4 datagram; skb = short_buffer; now = readings }

received-IsReceived : IsReceived received
received-IsReceived = record {
  content-IsContent = (datagram-IsDatagram, refl);
  skb-Holds = short_buffer-Holds;
  skb-linear = short_buffer-linear;
}

received-fits : fits 100_000 kernel (map arrival_of (received ∷ received ∷ [])) start ≡ true
unfolding fits arrival_of update_stats create lookup put
received-fits = refl

tc_ingress_all-summary_example :
    lookup
      (connection 40000 6)
      (tc_ingress_all kernel (map buffer_of (received ∷ received ∷ [])) start).flows
    ≡ summary (of_flow (connection 40000 6) (map arrival_of (received ∷ received ∷ [])))
tc_ingress_all-summary_example =
    tc_ingress_all-summary 100_000 kernel (connection 40000 6) (received ∷ received ∷ []) start
      kernel-IsRoomy received-fits refl (received-IsReceived, (received-IsReceived, tt))
