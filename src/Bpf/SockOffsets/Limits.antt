-- ===== src/Bpf/SockOffsets/Limits.antt =====
-- What ValidateOffsets accepts, in whatever order Go ranges over its map.
use kubeadapt_k8s_pulse.Prelude.{
  Bool, List, [], ap, arith, leb, none, refl, true, ℕ, ◌&&◌, ◌↔◌, ◌∙◌, ◌∷◌, ◌≡◌, ◌≤◌,
}
use kubeadapt_k8s_pulse.Prelude.Text.{Text}
use kubeadapt_k8s_pulse.Bpf.SockOffsets.{SockCommonOffsets, fields, offset_error, validate_offsets}
use mathlib.Core.List.{Permᴰ}

-- Whether no offset of the list is too far out.
unfoldable all_within : List (Text × ℕ) → Bool
all_within [] = true
all_within ((name, offset) ∷ rest) = leb offset 256 && all_within rest

offset_error-within : (fs : List (Text × ℕ)) → (offset_error fs ≡ none) ↔ (all_within fs ≡ true)
unfolding offset_error all_within
offset_error-within [] = ground arith
offset_error-within ((name, offset) ∷ rest) = ground (arith, offset_error-within rest)

all_within-perm : {l m : List (Text × ℕ)} → Permᴰ l m → all_within l ≡ all_within m
unfolding all_within
all_within-perm Permᴰ.nil = refl
all_within-perm (Permᴰ.cons p q) = ground (arith, ap (λ (f : Text × ℕ). f.1) p, all_within-perm q)
all_within-perm (Permᴰ.swap p q) =
    ground (arith, ap (λ (f : Text × ℕ). f.1) p, ap (λ (f : Text × ℕ). f.1) q)
all_within-perm (Permᴰ.trans p q) = all_within-perm p ∙ all_within-perm q

-- In whatever order Go ranges over the map of the fields, ValidateOffsets accepts exactly if all
-- eight offsets are at most 256.
pub validate_offsets_iff :
    (arrange : List (Text × ℕ) → List (Text × ℕ)) (o : SockCommonOffsets)
    → Permᴰ (arrange (fields o)) (fields o)
    → (validate_offsets arrange o ≡ none) ↔ (
        (o.skc_family ≤ 256)
        × (o.skc_dport ≤ 256)
        × (o.skc_num ≤ 256)
        × (o.skc_daddr ≤ 256)
        × (o.skc_rcv_saddr ≤ 256)
        × (o.skc_state ≤ 256)
        × (o.skc_v6_daddr ≤ 256)
        × (o.skc_v6_rcv_saddr ≤ 256))
unfolding validate_offsets all_within
validate_offsets_iff arrange o ranges =
    let within = offset_error-within (arrange (fields o)) in
    let same = all_within-perm ranges in ground (arith, within, same)
