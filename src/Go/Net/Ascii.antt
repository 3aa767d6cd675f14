-- ===== src/Go/Net/Ascii.antt =====
-- What net.IP.String prints is ASCII.
use kubeadapt_k8s_pulse.Prelude.{
  All, Bool-cases, List, [], arith, drop, inl, inr, length, ltb, suc, take, zero, ℕ, ◌%◌, ◌+◌, ◌/◌,
  ◌<◌, ◌==◌, ◌∷◌,
}
use kubeadapt_k8s_pulse.Prelude.Each.{All-drop, All-take}
use kubeadapt_k8s_pulse.Prelude.Text.{text_eq}
use kubeadapt_k8s_pulse.Go.Ascii.{IsAscii, IsAscii-append}
use kubeadapt_k8s_pulse.Go.Net.{
  compressed, dotted, groups, hex_digit, hex_group, ip_string, joined, put_uint32, v4_prefix,
}
use kubeadapt_k8s_pulse.Go.Strconv.{decimal}
use kubeadapt_k8s_pulse.Go.Strconv.Ascii.{decimal-IsAscii}

abbrev pub AreBytes : List ℕ → Type 0
AreBytes = All (λ (b : ℕ). b < 256)

abbrev AreGroups : List ℕ → Type 0
AreGroups = All (λ (g : ℕ). g < 65536)

pub put_uint32-AreBytes : (n : ℕ) → AreBytes (put_uint32 n)
put_uint32-AreBytes n = (omega arith, (omega arith, (omega arith, (omega arith, tt))))

dotted-IsAscii : (bs : List ℕ) → IsAscii (dotted bs)
unfolding dotted
dotted-IsAscii [] = tt
dotted-IsAscii (a ∷ []) = tt
dotted-IsAscii (a ∷ b ∷ []) = tt
dotted-IsAscii (a ∷ b ∷ c ∷ []) = tt
dotted-IsAscii (a ∷ b ∷ c ∷ d ∷ []) = IsAscii-append (decimal a) _ (decimal-IsAscii a) (
  omega arith,
  IsAscii-append (decimal b) _ (decimal-IsAscii b) (
    omega arith,
    IsAscii-append (decimal c) _ (decimal-IsAscii c) (omega arith, decimal-IsAscii d),
  ),
)
dotted-IsAscii (a ∷ b ∷ c ∷ d ∷ e ∷ bs) = tt

groups-AreGroups : (bs : List ℕ) → AreBytes bs → AreGroups (groups bs)
unfolding groups
groups-AreGroups [] h = tt
groups-AreGroups (hi ∷ []) h = tt
groups-AreGroups (hi ∷ lo ∷ bs) h = (omega (arith, h.0, h.1.0), groups-AreGroups bs h.1.1)

hex_digit-ascii : (d : ℕ) → d < 16 → hex_digit d < 128
hex_digit-ascii d h = ground (arith, h)

hex_group-IsAscii : (g : ℕ) → g < 65536 → IsAscii (hex_group g)
unfolding hex_group
hex_group-IsAscii g h = elim (Bool-cases (ltb g 16)) [
  | inl one ↦ rw one (hex_digit-ascii g (ground (arith, one)), tt)
  | inr f1 ↦ elim (Bool-cases (ltb g 256)) [
    | inl two ↦
        let high : g / 16 < 16 = ground (arith, two) in
        rw (f1, two) (hex_digit-ascii (g / 16) high, (hex_digit-ascii (g % 16) (omega arith), tt))
    | inr f2 ↦ elim (Bool-cases (ltb g 4096)) [
      | inl three ↦
          let high : g / 256 < 16 = ground (arith, three) in
          rw (f1, f2, three)
            (
              hex_digit-ascii (g / 256) high,
              (
                hex_digit-ascii (g / 16 % 16) (omega arith),
                (hex_digit-ascii (g % 16) (omega arith), tt),
              ),
            )
      | inr f3 ↦
          rw (f1, f2, f3)
            (
              hex_digit-ascii (g / 4096) (omega (arith, h)),
              (
                hex_digit-ascii (g / 256 % 16) (omega arith),
                (
                  hex_digit-ascii (g / 16 % 16) (omega arith),
                  (hex_digit-ascii (g % 16) (omega arith), tt),
                ),
              ),
            )
    ]
  ]
]

joined-IsAscii : (gs : List ℕ) → AreGroups gs → IsAscii (joined gs)
unfolding joined
joined-IsAscii [] h = tt
joined-IsAscii (g ∷ []) h = hex_group-IsAscii g h.0
joined-IsAscii (g ∷ k ∷ gs) h =
    IsAscii-append (hex_group g) _ (hex_group-IsAscii g h.0)
      (omega arith, joined-IsAscii (k ∷ gs) h.1)

compressed-IsAscii : (gs : List ℕ) (run : ℕ × ℕ) → AreGroups gs → IsAscii (compressed gs run)
unfolding compressed
compressed-IsAscii gs (start, zero) h = joined-IsAscii gs h
compressed-IsAscii gs (start, suc len) h =
    IsAscii-append (joined (take start gs)) _
      (joined-IsAscii _ (All-take (λ (g : ℕ). g < 65536) start gs h))
      (
        omega arith,
        (omega arith, joined-IsAscii _ (All-drop (λ (g : ℕ). g < 65536) (start + suc len) gs h)),
      )

pub ip_string-IsAscii : (bs : List ℕ) → AreBytes bs → IsAscii (ip_string bs)
unfolding ip_string
ip_string-IsAscii bs h = elim (Bool-cases (length bs == 4)) [
  | inl four ↦ rw four (dotted-IsAscii bs)
  | inr f ↦ elim (Bool-cases (text_eq (take 12 bs) v4_prefix)) [
    | inl mapped ↦ rw (f, mapped) (dotted-IsAscii (drop 12 bs))
    | inr g ↦ rw (f, g) (compressed-IsAscii (groups bs) _ (groups-AreGroups bs h))
  ]
]
