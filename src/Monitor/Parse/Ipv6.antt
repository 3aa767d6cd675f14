-- ===== src/Monitor/Parse/Ipv6.antt =====
-- Ethernet frames with IPv6 as RFC 8200 lays them out, against parse_packet of
-- bpf/network_monitor_tc.c.
pub mod RoundTrip
use kubeadapt_k8s_pulse.Prelude.{
  All, List, [], ap, arith, drop, false, inl, inr, leb, ltb, none, refl, some, suc, sym, take, true,
  zero, ℕ, ◌%◌, ◌*◌, ◌++◌, ◌+◌, ◌/◌, ◌<◌, ◌==◌, ◌^◌, ◌∙◌, ◌∷◌, ◌≡◌, ◌≤◌, ◌⊎◌,
}
use kubeadapt_k8s_pulse.Bpf.Ringbuf.Layout.{IsWords, bytes_le, words_bytes}
use kubeadapt_k8s_pulse.Bpf.Types.{ConnectionKey, Words}
use kubeadapt_k8s_pulse.Monitor.Ipv6.{
  advance, ipv6_key, ipv6_max_headers, ipv6_transport, is_extension, next_header, parse_ipv6,
}
use kubeadapt_k8s_pulse.Monitor.Packet.{SkBuff, be16, byte_at, first_byte, le32}
use kubeadapt_k8s_pulse.Monitor.Parse.{length, parse_packet}
use kubeadapt_k8s_pulse.Monitor.Parse.Chain.{Chain, IsTransport, at_end, behind, parse_ipv6-Chain}
use kubeadapt_k8s_pulse.Monitor.Parse.Frame.{bytes_be16, drop-append}
use kubeadapt_k8s_pulse.Monitor.Parse.Linear.{Holds, be16-linear, byte_at-linear}
use mathlib.Core.List.{nil≢cons}

-- An extension header: its number, its length field and what follows that.
pub record Extension : Type 0 where
  pub number : ℕ
  pub hdrlen : ℕ
  pub body : List ℕ

-- Hop-by-hop options, routing or destination options, as long as the header says.
pub record IsExtension (e : Extension) : Type 0 where
  pub number-options : (e.number ≡ 0) ⊎ ((e.number ≡ 43) ⊎ (e.number ≡ 60))
  pub body-length : length e.body ≡ 6 + 8 * e.hdrlen

-- An IPv6 packet with TCP or UDP behind extension headers, in an Ethernet frame.
pub record Packet6 : Type 0 where
  pub mac_addresses : List ℕ
  pub leading : Words
  pub payload_length : ℕ
  pub hop_limit : ℕ
  pub source : Words
  pub destination : Words
  pub extensions : List Extension
  pub protocol : ℕ
  pub src_port : ℕ
  pub dst_port : ℕ
  pub rest : List ℕ

-- The number in front of the headers.
abbrev pub first_number : List Extension → ℕ → ℕ
first_number [] last = last
first_number (e ∷ es) last = e.number

abbrev pub extension_bytes : List Extension → ℕ → List ℕ → List ℕ
extension_bytes [] last behind_them = behind_them
extension_bytes (e ∷ es) last behind_them =
    first_number es last ∷ e.hdrlen ∷ (e.body ++ extension_bytes es last behind_them)

abbrev pub extension_size : List Extension → ℕ
extension_size [] = 0
extension_size (e ∷ es) = (e.hdrlen + 1) * 8 + extension_size es

abbrev pub transport_bytes : Packet6 → List ℕ
transport_bytes d = bytes_be16 d.src_port (bytes_be16 d.dst_port d.rest)

-- The fixed header.
unfoldable pub fixed_bytes : Packet6 → List ℕ → List ℕ
fixed_bytes d behind_it =
    d.leading.w0
    ∷ d.leading.w1
    ∷ d.leading.w2
    ∷ d.leading.w3
    ∷ bytes_be16 d.payload_length (
        first_number d.extensions d.protocol
        ∷ d.hop_limit
        ∷ (words_bytes d.source ++ (words_bytes d.destination ++ behind_it)))

unfoldable pub frame6 : Packet6 → List ℕ
frame6 d =
    d.mac_addresses
    ++ 134 ∷ 221 ∷ fixed_bytes d (extension_bytes d.extensions d.protocol (transport_bytes d))

pub record IsPacket6 (d : Packet6) : Type 0 where
  pub mac_addresses-length : length d.mac_addresses ≡ 12
  pub payload_length-bound : d.payload_length < 2 ^ 16
  pub source-IsWords : IsWords d.source
  pub destination-IsWords : IsWords d.destination
  pub extensions-IsExtension : All IsExtension d.extensions
  pub src_port-bound : d.src_port < 2 ^ 16
  pub dst_port-bound : d.dst_port < 2 ^ 16
  pub rest-transport :
      ((d.protocol ≡ 6) × 16 ≤ length d.rest) ⊎ ((d.protocol ≡ 17) × 4 ≤ length d.rest)

-- What the packet should be booked under.
abbrev pub key6_of : Packet6 → ConnectionKey
key6_of d = record {
  src_addr = d.source;
  dst_addr = d.destination;
  src_port = d.src_port;
  dst_port = d.dst_port;
  protocol = d.protocol;
  family = 10;
  pad = 0;
}

drop-nil {ℓ} : {A : Type ℓ} (n : ℕ) → drop {A = A} n [] ≡ []
drop-nil zero = refl
drop-nil (suc n) = refl

drop-drop {ℓ} : {A : Type ℓ} (i m n : ℕ) (xs : List A) → i ≡ m + n → drop i xs ≡ drop n (drop m xs)
drop-drop i zero n xs h = ap (λ j. drop j xs) (omega arith)
drop-drop i (suc m) n [] h = drop-nil i ∙ sym (drop-nil n)
drop-drop zero (suc m) n (x ∷ xs) h = absurd (omega arith)
drop-drop (suc i) (suc m) n (x ∷ xs) h = drop-drop i m n xs (omega arith)

-- A list that is behind an offset reaches beyond it by its length.
drop-reaches {ℓ} :
    {A : Type ℓ} (n : ℕ) (xs ys : List A) (y : A)
    → drop n xs ≡ y ∷ ys
    → n + suc (length ys) ≡ length xs
drop-reaches zero xs ys y h = omega (arith, ap (λ (l : List _). length l) h)
drop-reaches (suc n) [] ys y h = absurd (nil≢cons h)
drop-reaches (suc n) (x ∷ xs) ys y h = omega (arith, drop-reaches n xs ys y h)

pub little_quad :
    {x : ℕ}
    → x < 2 ^ 32
    → x % 256
        + 256 * (x / 256 % 256 + 256 * (x / 256 / 256 % 256 + 256 * (x / 256 / 256 / 256 % 256)))
      ≡ x
little_quad h = omega arith

module _ {packet : List ℕ} {skb : SkBuff} (holds : Holds packet skb) where
  -- A reading at an offset, by what stands there.
  pub load_bytes-at :
      (off size : ℕ) (y : ℕ) (ys : List ℕ)
      → drop off packet ≡ y ∷ ys
      → size ≤ suc (length ys)
      → skb.load_bytes off size ≡ some (take size (y ∷ ys))
  load_bytes-at off size y ys there enough =
      let inside : leb (off + size) (length packet) ≡ true =
        ground (arith, drop-reaches off packet ys y there, enough) in
      holds.load_bytes-reads off size ∙ rw (inside, there) refl

  -- One extension header is skipped.
  advance-extension :
      (e : Extension) (off number : ℕ) (bytes : List ℕ)
      → IsExtension e
      → drop off packet ≡ number ∷ e.hdrlen ∷ (e.body ++ bytes)
      → advance skb e.number off ≡ next_header number (off + (e.hdrlen + 1) * 8)
  unfolding advance byte_at
  advance-extension e off number bytes extension there =
      let loaded = load_bytes-at off 2 number (e.hdrlen ∷ (e.body ++ bytes)) there (omega arith) in
      elim extension.number-options [
        | inl hop ↦ rw (loaded, hop) refl
        | inr (inl routing) ↦ rw (loaded, routing) refl
        | inr (inr options) ↦ rw (loaded, options) refl
      ]

  extension-is_extension : (e : Extension) → IsExtension e → is_extension e.number ≡ true
  unfolding is_extension
  extension-is_extension e extension = elim extension.number-options [
    | inl hop ↦ rw hop refl
    | inr (inl routing) ↦ rw routing refl
    | inr (inr options) ↦ rw options refl
  ]

  pub extensions-Chain :
      (es : List Extension) (off last : ℕ) (bytes : List ℕ)
      → All IsExtension es
      → drop off packet ≡ extension_bytes es last bytes
      → Chain skb (length es) (first_number es last) off last (off + extension_size es)
        × drop (off + extension_size es) packet ≡ bytes
  extensions-Chain [] off last bytes all there =
      let same : off + 0 ≡ off = omega arith in rw same (at_end, there)
  extensions-Chain (e ∷ es) off last bytes all there =
      let behind_it : drop (off + (e.hdrlen + 1) * 8) packet ≡ extension_bytes es last bytes =
        drop-drop (off + (e.hdrlen + 1) * 8) off ((e.hdrlen + 1) * 8) packet refl
        ∙ ap (drop ((e.hdrlen + 1) * 8)) there
        ∙ drop-append (first_number es last ∷ e.hdrlen ∷ e.body) (extension_bytes es last bytes)
            ((e.hdrlen + 1) * 8) 0 (omega (arith, all.0.body-length)) in
      let (chain, end) =
        extensions-Chain es (off + (e.hdrlen + 1) * 8) last bytes all.1 behind_it in
      let same : off + extension_size (e ∷ es) ≡ off + (e.hdrlen + 1) * 8 + extension_size es =
        omega arith in
      rw same (
        behind (extension-is_extension e all.0)
            (advance-extension e off (first_number es last) (extension_bytes es last bytes) all.0
              there)
            chain,
        end,
      )
