-- ===== src/Examples/Offsets.antt =====
-- The theorems on sock_common's offsets at one layout.
use kubeadapt_k8s_pulse.Prelude.{List, [], none, some, true, ◌↔◌, ◌∷◌, ◌≡◌, ◌≤◌}
use kubeadapt_k8s_pulse.Prelude.Text.{codes, text_eq}
use kubeadapt_k8s_pulse.Bpf.SockOffsets.{
  Member, SockCommonOffsets, detect_sock_common_offsets, fields, members, required_field,
  validate_offsets,
}
use kubeadapt_k8s_pulse.Bpf.SockOffsets.Detection.{
  detect_sock_common_offsets-required, error_of, has_member,
}
use kubeadapt_k8s_pulse.Bpf.SockOffsets.Limits.{validate_offsets_iff}
use mathlib.Core.List.Permᴰ

-- A layout without skc_num.
abbrev layout : List Member
layout =
    record { name = codes "skc_daddr"; offset = 0 }
    ∷ record { name = codes "skc_rcv_saddr"; offset = 4 }
    ∷ record { name = codes "skc_dport"; offset = 12 }
    ∷ record { name = codes "skc_family"; offset = 16 }
    ∷ []

abbrev offsets : SockCommonOffsets
offsets = record {
  skc_daddr = 0;
  skc_rcv_saddr = 4;
  skc_dport = 12;
  skc_num = 14;
  skc_family = 16;
  skc_state = 18;
  skc_v6_daddr = 56;
  skc_v6_rcv_saddr = 72;
}

detect_sock_common_offsets-required_example :
    (error_of (detect_sock_common_offsets (members layout))
      ≡ some (required_field (codes "skc_num")))
    × ((error_of (detect_sock_common_offsets (members layout)) ≡ none) ↔ (
        (has_member (codes "skc_family") layout ≡ true)
        × (has_member (codes "skc_dport") layout ≡ true)
        × (has_member (codes "skc_num") layout ≡ true)
        × (has_member (codes "skc_daddr") layout ≡ true)
        × (has_member (codes "skc_rcv_saddr") layout ≡ true)))
unfolding has_member text_eq
detect_sock_common_offsets-required_example = detect_sock_common_offsets-required layout

validate_offsets_iff_example : (validate_offsets (λ fs. fs) offsets ≡ none) ↔ (
    (16 ≤ 256)
    × (12 ≤ 256)
    × (14 ≤ 256)
    × (0 ≤ 256)
    × (4 ≤ 256)
    × (18 ≤ 256)
    × (56 ≤ 256)
    × (72 ≤ 256))
validate_offsets_iff_example = validate_offsets_iff (λ fs. fs) offsets (Permᴰ.refl (fields offsets))

-- The layout with its fifth field, and a field that is not asked for.
abbrev full_layout : List Member
full_layout =
    record { name = codes "skc_num"; offset = 14 }
    ∷ record { name = codes "skc_hash"; offset = 8 }
    ∷ layout

abbrev full_offsets : SockCommonOffsets
full_offsets = record {
  skc_daddr = 0;
  skc_rcv_saddr = 4;
  skc_dport = 12;
  skc_num = 14;
  skc_family = 16;
  skc_state = 0;
  skc_v6_daddr = 0;
  skc_v6_rcv_saddr = 0;
}
