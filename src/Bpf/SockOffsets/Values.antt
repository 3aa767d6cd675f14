-- ===== src/Bpf/SockOffsets/Values.antt =====
-- Which offsets DetectSockCommonOffsets returns.
use kubeadapt_k8s_pulse.Prelude.{
  List, Option, [], ap, arith, if◌then◌else◌, inl, inr, none, refl, some, sym, ℕ, ◌∙◌, ◌∷◌, ◌≡◌,
  ◌⊎◌,
}
use kubeadapt_k8s_pulse.Prelude.Text.{Text, codes, text_eq, text_eq_iff}
use kubeadapt_k8s_pulse.Bpf.SockOffsets.{
  DetectError, Member, SockCommonOffsets, detect_loop, detect_member, detect_sock_common_offsets,
  members, missing_field, no_offsets, required_field, required_fields,
}
use mathlib.Core.Sum.{inr-injective}

-- The offset of the last member with a name, on top of an earlier one.
unfoldable pub last_offset : Text → ℕ → List Member → ℕ
last_offset field old [] = old
last_offset field old (m ∷ ms) =
    last_offset field (if text_eq m.name field then m.offset else old) ms

detect_member-offsets :
    (m : Member) (o : SockCommonOffsets) (found : List Text)
    → let o' = (detect_member m (o, found)).0 in
      (o'.skc_family ≡ (if text_eq m.name (codes "skc_family") then m.offset else o.skc_family))
      × (o'.skc_dport ≡ (if text_eq m.name (codes "skc_dport") then m.offset else o.skc_dport))
      × (o'.skc_num ≡ (if text_eq m.name (codes "skc_num") then m.offset else o.skc_num))
      × (o'.skc_daddr ≡ (if text_eq m.name (codes "skc_daddr") then m.offset else o.skc_daddr))
      × (o'.skc_rcv_saddr
          ≡ (if text_eq m.name (codes "skc_rcv_saddr") then m.offset else o.skc_rcv_saddr))
unfolding detect_member
detect_member-offsets m o found = ground (
  arith,
  text_eq_iff m.name (codes "skc_family"),
  text_eq_iff m.name (codes "skc_dport"),
  text_eq_iff m.name (codes "skc_num"),
  text_eq_iff m.name (codes "skc_daddr"),
  text_eq_iff m.name (codes "skc_rcv_saddr"),
  text_eq_iff m.name (codes "skc_state"),
  text_eq_iff m.name (codes "skc_v6_daddr"),
  text_eq_iff m.name (codes "skc_v6_rcv_saddr"),
)

detect_loop-offsets :
    (ms : List Member) (o : SockCommonOffsets) (found : List Text)
    → let o' = (detect_loop ms (o, found)).0 in
      (o'.skc_family ≡ last_offset (codes "skc_family") o.skc_family ms)
      × (o'.skc_dport ≡ last_offset (codes "skc_dport") o.skc_dport ms)
      × (o'.skc_num ≡ last_offset (codes "skc_num") o.skc_num ms)
      × (o'.skc_daddr ≡ last_offset (codes "skc_daddr") o.skc_daddr ms)
      × (o'.skc_rcv_saddr ≡ last_offset (codes "skc_rcv_saddr") o.skc_rcv_saddr ms)
unfolding detect_loop last_offset
detect_loop-offsets [] o found = (refl, refl, refl, refl, refl)
detect_loop-offsets (m ∷ ms) o found =
    let next = detect_member m (o, found) in
    let (family, dport, num, daddr, saddr) = detect_loop-offsets ms next.0 next.1 in
    let (family', dport', num', daddr', saddr') = detect_member-offsets m o found in
    (
      family ∙ ap (λ n. last_offset (codes "skc_family") n ms) family',
      dport ∙ ap (λ n. last_offset (codes "skc_dport") n ms) dport',
      num ∙ ap (λ n. last_offset (codes "skc_num") n ms) num',
      daddr ∙ ap (λ n. last_offset (codes "skc_daddr") n ms) daddr',
      saddr ∙ ap (λ n. last_offset (codes "skc_rcv_saddr") n ms) saddr',
    )

decided-offsets :
    (r : Option Text) (o o' : SockCommonOffsets)
    → (elim r as (λ _. DetectError ⊎ SockCommonOffsets) [
      | none ↦ inr o
      | some field ↦ inl (required_field field)
    ])
      ≡ inr o'
    → o ≡ o'
decided-offsets none o o' h = inr-injective o o' h
decided-offsets (some field) o o' h = ground (arith, h)

-- When detection succeeds, the offset of each of the five required fields is that of the last
-- member with the field's name.
pub detect_sock_common_offsets-last :
    (ms : List Member) (o : SockCommonOffsets)
    → detect_sock_common_offsets (members ms) ≡ inr o
    → (o.skc_family ≡ last_offset (codes "skc_family") 0 ms)
      × (o.skc_dport ≡ last_offset (codes "skc_dport") 0 ms)
      × (o.skc_num ≡ last_offset (codes "skc_num") 0 ms)
      × (o.skc_daddr ≡ last_offset (codes "skc_daddr") 0 ms)
      × (o.skc_rcv_saddr ≡ last_offset (codes "skc_rcv_saddr") 0 ms)
unfolding detect_sock_common_offsets
detect_sock_common_offsets-last ms o h =
    let loop = detect_loop ms (no_offsets, []) in
    let same = sym (decided-offsets (missing_field required_fields loop.1) loop.0 o h) in
    let (family, dport, num, daddr, saddr) = detect_loop-offsets ms no_offsets [] in
    (
      ap (λ (o : SockCommonOffsets). o.skc_family) same ∙ family,
      ap (λ (o : SockCommonOffsets). o.skc_dport) same ∙ dport,
      ap (λ (o : SockCommonOffsets). o.skc_num) same ∙ num,
      ap (λ (o : SockCommonOffsets). o.skc_daddr) same ∙ daddr,
      ap (λ (o : SockCommonOffsets). o.skc_rcv_saddr) same ∙ saddr,
    )
