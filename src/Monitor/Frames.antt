-- ===== src/Monitor/Frames.antt =====
-- tc_ingress of bpf/network_monitor_tc.c on frames one after another.
use kubeadapt_k8s_pulse.Prelude.{
  All, List, [], ap, arith, length, ltb, map, refl, some, true, ℕ, ◌+◌, ◌<◌, ◌^◌, ◌∙◌, ◌∷◌, ◌≡◌,
  ◌≤◌,
}
use kubeadapt_k8s_pulse.Prelude.GoMap.{lookup}
use kubeadapt_k8s_pulse.Bpf.Types.{ConnectionKey}
use kubeadapt_k8s_pulse.Monitor.Flows.{
  Arrival, Kernel, Monitor, Readings, connection_keys, receive_all, update_stats,
}
use kubeadapt_k8s_pulse.Monitor.Flows.Room.{IsRoomy, fits, receive_all-summary_within}
use kubeadapt_k8s_pulse.Monitor.Flows.Summary.{of_flow, summary}
use kubeadapt_k8s_pulse.Monitor.Packet.{SkBuff}
use kubeadapt_k8s_pulse.Monitor.Parse.{book, parse_packet, tc_ingress}
use kubeadapt_k8s_pulse.Monitor.Parse.Frame.{
  Datagram, IsDatagram, frame, key_of, parse_packet-frame,
}
use kubeadapt_k8s_pulse.Monitor.Parse.Ipv6.{IsPacket6, Packet6, frame6, key6_of}
use kubeadapt_k8s_pulse.Monitor.Parse.Ipv6.RoundTrip.{parse_packet-frame6}
use kubeadapt_k8s_pulse.Monitor.Parse.Linear.{Holds}

-- tc_ingress on the buffers at their times.
unfoldable pub tc_ingress_all : Kernel → List (SkBuff × Readings) → Monitor → Monitor
tc_ingress_all k [] s = s
tc_ingress_all k ((skb, now) ∷ buffers) s = tc_ingress_all k buffers (tc_ingress k skb now s).1

-- A packet of either version.
pub data Content : Type 0 where
  ipv4 : Datagram → Content
  ipv6 : Packet6 → Content

abbrev pub content_bytes : Content → List ℕ
content_bytes (ipv4 d) = frame d
content_bytes (ipv6 d) = frame6 d

-- What it should be booked under, and its length.
abbrev pub content_key : Content → ConnectionKey
content_key (ipv4 d) = key_of d d.src_port d.dst_port
content_key (ipv6 d) = key6_of d

abbrev pub content_length : Content → ℕ
content_length (ipv4 d) = d.total_length
content_length (ipv6 d) = d.payload_length + 40

-- A well-formed packet of TCP or UDP that is no later fragment and has fewer than four extension headers.
abbrev pub IsContent : Content → Type 0
IsContent (ipv4 d) = IsDatagram d × d.fragment_offset ≡ 0
IsContent (ipv6 d) = IsPacket6 d × length d.extensions < 4

-- A packet, the buffer that it comes in, and the time.
pub record Received : Type 0 where
  pub content : Content
  pub skb : SkBuff
  pub now : Readings

-- The buffer holds such a packet, with its first 34 bytes linear.
pub record IsReceived (r : Received) : Type 0 where
  pub content-IsContent : IsContent r.content
  pub skb-Holds : Holds (content_bytes r.content) r.skb
  pub skb-linear : 34 ≤ length r.skb.linear

abbrev pub buffer_of : Received → SkBuff × Readings
buffer_of r = (r.skb, r.now)

-- What the flow table should be told of it.
unfoldable pub arrival_of : Received → Arrival
arrival_of r = record {
  key = content_key r.content;
  bytes = content_length r.content;
  cgroup_id = r.skb.cgroup_id;
  if_index = r.skb.ifindex;
  now = r.now.at_first;
  later = r.now.at_second;
}

parse_packet-content :
    (content : Content) (skb : SkBuff) (s : Monitor)
    → IsContent content
    → Holds (content_bytes content) skb
    → 34 ≤ length skb.linear
    → parse_packet skb s ≡ (some (content_key content, content_length content), s)
parse_packet-content (ipv4 d) skb s (datagram, unfragmented) holds linear =
    parse_packet-frame datagram holds linear s ∙ rw unfragmented refl
parse_packet-content (ipv6 d) skb s (packet, few) holds linear =
    let short : ltb (length d.extensions) 4 ≡ true = ground arith in
    parse_packet-frame6 packet holds s (omega arith) ∙ rw short refl

tc_ingress-received :
    (k : Kernel) (r : Received) (s : Monitor)
    → IsReceived r
    → (tc_ingress k r.skb r.now s).1 ≡ update_stats k (arrival_of r) s
unfolding tc_ingress book arrival_of
tc_ingress-received k r s received = ap (book k r.skb r.now) (
    parse_packet-content r.content r.skb s received.content-IsContent received.skb-Holds
      received.skb-linear)

content_length-bound : (content : Content) → IsContent content → content_length content < 2 ^ 64
content_length-bound (ipv4 d) (datagram, unfragmented) = omega (arith, datagram.total_length-bound)
content_length-bound (ipv6 d) (packet, few) = omega (arith, packet.payload_length-bound)

tc_ingress_all-received :
    (k : Kernel) (rs : List Received) (s : Monitor)
    → All IsReceived rs
    → tc_ingress_all k (map buffer_of rs) s ≡ receive_all k (map arrival_of rs) s
unfolding tc_ingress_all receive_all
tc_ingress_all-received k [] s h = refl
tc_ingress_all-received k (r ∷ rs) s h =
    ap (tc_ingress_all k (map buffer_of rs)) (tc_ingress-received k r s h.0)
    ∙ tc_ingress_all-received k rs (update_stats k (arrival_of r) s) h.1

arrival_of-words :
    (rs : List Received)
    → All IsReceived rs
    → All (λ (p : Arrival). p.bytes < 2 ^ 64) (map arrival_of rs)
unfolding arrival_of
arrival_of-words [] h = tt
arrival_of-words (r ∷ rs) h =
    (content_length-bound r.content h.0.content-IsContent, arrival_of-words rs h.1)

-- On a kernel where calls do not overlap, from a map without entries, and if every packet finds the
-- map with fewer entries than its maximum: after any sequence of well-formed frames of TCP and UDP over
-- IPv4 and IPv6, none of them a later fragment or with four extension headers, and each with 34 bytes
-- linear, the entry of each flow is the summary of the packets with the flow's addresses, ports and
-- protocol, each with its length from the IP header on.
pub tc_ingress_all-summary :
    (max : ℕ) (k : Kernel) (key : ConnectionKey) (rs : List Received) (s : Monitor)
    → IsRoomy max k
    → fits max k (map arrival_of rs) s ≡ true
    → s.flows ≡ []
    → All IsReceived rs
    → lookup key (tc_ingress_all k (map buffer_of rs) s).flows
      ≡ summary (of_flow key (map arrival_of rs))
tc_ingress_all-summary max k key rs s roomy room empty h =
    ap (λ (s' : Monitor). lookup key s'.flows) (tc_ingress_all-received k rs s h)
    ∙ receive_all-summary_within max k key (map arrival_of rs) s roomy room empty
        (arrival_of-words rs h)
