-- ===== src/Monitor/Parse/Linear.antt =====
-- The direct reads and the helper's reads see the same packet.
use kubeadapt_k8s_pulse.Prelude.{
  Bool-cases, List, [], ap, arith, drop, if◌then◌else◌, inl, inr, leb, leb→le, length, length-take,
  none, refl, some, suc, take, true, zero, ℕ, ◌+◌, ◌<◌, ◌∙◌, ◌∷◌, ◌≡◌, ◌≤◌,
}
use kubeadapt_k8s_pulse.Monitor.Packet.{SkBuff, be16, byte_at, le32, read_header}

-- What is documented of a buffer that holds a packet: its linear bytes are the packet's first ones,
-- and the helper reads the packet, or fails beyond its end.
pub record Holds (packet : List ℕ) (skb : SkBuff) : Type 0 where
  pub linear-take : skb.linear ≡ take (length skb.linear) packet
  pub load_bytes-reads :
      (off size : ℕ)
      → skb.load_bytes off size
        ≡ (if leb (off + size) (length packet) then some (take size (drop off packet)) else none)

take-drop-take {ℓ} :
    {A : Type ℓ} (size off n : ℕ) (xs : List A)
    → off + size ≤ n
    → take size (drop off (take n xs)) ≡ take size (drop off xs)
take-drop-take zero off n xs h = refl
take-drop-take (suc size) zero zero xs h = absurd (omega arith)
take-drop-take (suc size) zero (suc n) [] h = refl
take-drop-take (suc size) zero (suc n) (x ∷ xs) h =
    ap (λ l. x ∷ l) (take-drop-take size 0 n xs (omega arith))
take-drop-take (suc size) (suc off) zero xs h = absurd (omega arith)
take-drop-take (suc size) (suc off) (suc n) [] h = refl
take-drop-take (suc size) (suc off) (suc n) (x ∷ xs) h =
    take-drop-take (suc size) off n xs (omega arith)

byte_at-take : (i n : ℕ) (bytes : List ℕ) → i < n → byte_at i (take n bytes) ≡ byte_at i bytes
unfolding byte_at
byte_at-take i zero bytes h = absurd (omega arith)
byte_at-take i (suc n) [] h = refl
byte_at-take zero (suc n) (b ∷ bs) h = refl
byte_at-take (suc i) (suc n) (b ∷ bs) h = byte_at-take i n bs (omega arith)

module _ {packet : List ℕ} {skb : SkBuff} (holds : Holds packet skb) where
  linear-bound : length skb.linear ≤ length packet
  linear-bound =
      let cut = length-take (length skb.linear) packet in
      omega (arith, cut, ap (λ (l : List ℕ). length l) holds.linear-take)

  -- Whichever way a header is read, it is read from the packet.
  pub read_header-packet :
      (off size : ℕ)
      → read_header skb off size
        ≡ (if leb (off + size) (length packet) then some (take size (drop off packet)) else none)
  unfolding read_header
  read_header-packet off size = elim (Bool-cases (leb (off + size) (length skb.linear))) [
    | inl near ↦
        let fits : off + size ≤ length skb.linear = leb→le (off + size) (length skb.linear) near in
        let whole : leb (off + size) (length packet) ≡ true = ground (arith, fits, linear-bound) in
        rw (near, whole)
          (ap (λ (l : List ℕ). some (take size (drop off l))) holds.linear-take
            ∙ ap (λ (l : List ℕ). some l) (take-drop-take size off (length skb.linear) packet fits))
    | inr far ↦ rw far (holds.load_bytes-reads off size)
  ]

  pub byte_at-linear : (i : ℕ) → i < length skb.linear → byte_at i skb.linear ≡ byte_at i packet
  byte_at-linear i h =
      ap (λ (l : List ℕ). byte_at i l) holds.linear-take
      ∙ byte_at-take i (length skb.linear) packet h

  pub be16-linear : (i : ℕ) → i + 1 < length skb.linear → be16 i skb.linear ≡ be16 i packet
  unfolding be16
  be16-linear i h =
      omega (arith, byte_at-linear i (omega arith), byte_at-linear (i + 1) (omega arith))

  pub le32-linear : (i : ℕ) → i + 3 < length skb.linear → le32 i skb.linear ≡ le32 i packet
  unfolding le32
  le32-linear i h = omega (
    arith,
    byte_at-linear i (omega arith),
    byte_at-linear (i + 1) (omega arith),
    byte_at-linear (i + 2) (omega arith),
    byte_at-linear (i + 3) (omega arith),
  )
