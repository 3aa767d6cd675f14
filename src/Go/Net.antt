-- ===== src/Go/Net.antt =====
-- binary.LittleEndian.PutUint32 and net.IP.String.
pub mod Ascii
use kubeadapt_k8s_pulse.Prelude.{
  List, [], drop, if◌then◌else◌, leb, length, ltb, refl, suc, take, zero, ℕ, ◌%◌, ◌&&◌, ◌*◌, ◌++◌,
  ◌+◌, ◌/◌, ◌==◌, ◌∷◌, ◌≡◌,
}
use kubeadapt_k8s_pulse.Prelude.Text.{Text, codes, text_eq}
use kubeadapt_k8s_pulse.Go.Strconv.{decimal}

-- binary.LittleEndian.PutUint32: the four bytes of a uint32, the lowest first.
abbrev pub put_uint32 : ℕ → List ℕ
put_uint32 n = n % 256 ∷ n / 256 % 256 ∷ n / 65536 % 256 ∷ n / 16777216 % 256 ∷ []

-- Four bytes in dotted decimal.
dotted : List ℕ → Text
dotted (a ∷ b ∷ c ∷ d ∷ []) =
    decimal a ++ b'.' ∷ (decimal b ++ b'.' ∷ (decimal c ++ b'.' ∷ decimal d))
dotted _ = []

-- The eight groups of a 16-byte address, each in network order.
groups : List ℕ → List ℕ
groups (hi ∷ lo ∷ bs) = (hi * 256 + lo) ∷ groups bs
groups _ = []

abbrev hex_digit : ℕ → ℕ
hex_digit d = if ltb d 10 then 48 + d else 87 + d

-- A group in lower-case hexadecimal with no leading zeros.
hex_group : ℕ → Text
hex_group g =
    if ltb g 16
    then hex_digit g ∷ []
    else if ltb g 256
    then hex_digit (g / 16) ∷ hex_digit (g % 16) ∷ []
    else if ltb g 4096
    then hex_digit (g / 256) ∷ hex_digit (g / 16 % 16) ∷ hex_digit (g % 16) ∷ []
    else hex_digit (g / 4096)
      ∷ hex_digit (g / 256 % 16)
      ∷ hex_digit (g / 16 % 16)
      ∷ hex_digit (g % 16)
      ∷ []

leading_zeros : List ℕ → ℕ
leading_zeros [] = 0
leading_zeros (g ∷ gs) = let n = leading_zeros gs in if g == 0 then suc n else 0

-- The first longest run of at least two zero groups, as its start and length.
longest_run : ℕ → List ℕ → ℕ × ℕ → ℕ × ℕ
longest_run i [] best = best
longest_run i (g ∷ gs) (start, len) =
    let n = leading_zeros (g ∷ gs) in
    longest_run (suc i) gs (if leb 2 n && ltb len n then (i, n) else (start, len))

-- Groups joined by colons.
joined : List ℕ → Text
joined [] = []
joined (g ∷ []) = hex_group g
joined (g ∷ h ∷ gs) = hex_group g ++ b':' ∷ joined (h ∷ gs)

compressed : List ℕ → ℕ × ℕ → Text
compressed gs (start, zero) = joined gs
compressed gs (start, suc len) =
    joined (take start gs) ++ b':' ∷ b':' ∷ joined (drop (start + suc len) gs)

-- ip.To4 of 16 bytes succeeds on ::ffff:0:0/96.
abbrev v4_prefix : List ℕ
v4_prefix = 0 ∷ 0 ∷ 0 ∷ 0 ∷ 0 ∷ 0 ∷ 0 ∷ 0 ∷ 0 ∷ 0 ∷ 255 ∷ 255 ∷ []

-- net.IP(bs).String() for the lengths that the source builds, 4 and 16.
unfoldable pub ip_string : List ℕ → Text
unfolding dotted groups hex_group leading_zeros longest_run joined compressed text_eq
ip_string bs =
    if length bs == 4
    then dotted bs
    else if text_eq (take 12 bs) v4_prefix
    then dotted (drop 12 bs)
    else compressed (groups bs) (longest_run 0 (groups bs) (255, 0))

ip_strings :
    (ip_string (10 ∷ 244 ∷ 1 ∷ 5 ∷ []) ≡ codes "10.244.1.5")
    × (ip_string (0x20 ∷ 1 ∷ 0xd ∷ 0xb8 ∷ 0 ∷ 0 ∷ 0 ∷ 0 ∷ 0 ∷ 0 ∷ 0 ∷ 0 ∷ 0 ∷ 0 ∷ 0 ∷ 1 ∷ [])
        ≡ codes "2001:db8::1")
    × (ip_string (0 ∷ 0 ∷ 0 ∷ 0 ∷ 0 ∷ 0 ∷ 0 ∷ 0 ∷ 0 ∷ 0 ∷ 0 ∷ 0 ∷ 0 ∷ 0 ∷ 0 ∷ 1 ∷ []) ≡ codes "::1")
unfolding ip_string decimal
ip_strings = (refl, refl, refl)
