-- ===== src/Bpf/SockOffsets.antt =====
-- internal/bpf/sock_offsets.go: the offsets of sock_common's fields, from the kernel's BTF.
-- BTF itself is not modelled: its two lookups are part of the input, as the list of members that
-- they find, by name and by the offset in bytes.
pub mod Limits
pub mod Detection
pub mod Values
use kubeadapt_k8s_pulse.Prelude.{
  Bool, List, Option, [], false, if◌then◌else◌, inl, inr, ltb, none, some, ℕ, ◌||◌, ◌∷◌, ◌⊎◌,
}
use kubeadapt_k8s_pulse.Prelude.Text.{Text, codes, text_eq}

pub record SockCommonOffsets : Type 0 where
  pub skc_daddr : ℕ
  pub skc_rcv_saddr : ℕ
  pub skc_dport : ℕ
  pub skc_num : ℕ
  pub skc_family : ℕ
  pub skc_state : ℕ
  pub skc_v6_daddr : ℕ
  pub skc_v6_rcv_saddr : ℕ

pub record Member : Type 0 where
  pub name : Text
  pub offset : ℕ

-- What LoadKernelSpec and TypeByName answer.
pub data Btf : Type 0 where
  no_btf no_sock_common : Btf
  members : List Member → Btf

pub data DetectError : Type 0 where
  loading_btf sock_common_not_found : DetectError
  required_field : Text → DetectError

abbrev pub no_offsets : SockCommonOffsets
no_offsets = record {
  skc_daddr = 0;
  skc_rcv_saddr = 0;
  skc_dport = 0;
  skc_num = 0;
  skc_family = 0;
  skc_state = 0;
  skc_v6_daddr = 0;
  skc_v6_rcv_saddr = 0;
}

-- The switch of the loop: a required field is also put down as found.
unfoldable pub detect_member :
    Member → SockCommonOffsets × List Text → SockCommonOffsets × List Text
detect_member m (o, found) =
    if text_eq m.name (codes "skc_daddr")
    then (record o { skc_daddr = m.offset }, codes "skc_daddr" ∷ found)
    else if text_eq m.name (codes "skc_rcv_saddr")
    then (record o { skc_rcv_saddr = m.offset }, codes "skc_rcv_saddr" ∷ found)
    else if text_eq m.name (codes "skc_dport")
    then (record o { skc_dport = m.offset }, codes "skc_dport" ∷ found)
    else if text_eq m.name (codes "skc_num")
    then (record o { skc_num = m.offset }, codes "skc_num" ∷ found)
    else if text_eq m.name (codes "skc_family")
    then (record o { skc_family = m.offset }, codes "skc_family" ∷ found)
    else if text_eq m.name (codes "skc_state")
    then (record o { skc_state = m.offset }, found)
    else if text_eq m.name (codes "skc_v6_daddr")
    then (record o { skc_v6_daddr = m.offset }, found)
    else if text_eq m.name (codes "skc_v6_rcv_saddr")
    then (record o { skc_v6_rcv_saddr = m.offset }, found)
    else (o, found)

unfoldable pub detect_loop :
    List Member → SockCommonOffsets × List Text → SockCommonOffsets × List Text
detect_loop [] state = state
detect_loop (m ∷ ms) state = detect_loop ms (detect_member m state)

-- foundFields[field]
unfoldable pub is_found : Text → List Text → Bool
is_found field [] = false
is_found field (f ∷ fs) = text_eq field f || is_found field fs

abbrev pub required_fields : List Text
required_fields =
    codes "skc_family"
    ∷ codes "skc_dport"
    ∷ codes "skc_num"
    ∷ codes "skc_daddr"
    ∷ codes "skc_rcv_saddr"
    ∷ []

-- The first required field that is not found.
unfoldable pub missing_field : List Text → List Text → Option Text
missing_field [] found = none
missing_field (field ∷ fields) found =
    let rest = missing_field fields found in if is_found field found then rest else some field

unfoldable pub detect_sock_common_offsets : Btf → DetectError ⊎ SockCommonOffsets
detect_sock_common_offsets no_btf = inl loading_btf
detect_sock_common_offsets no_sock_common = inl sock_common_not_found
detect_sock_common_offsets (members ms) =
    let (o, found) = detect_loop ms (no_offsets, []) in
    elim (missing_field required_fields found) [
      | none ↦ inr o
      | some field ↦ inl (required_field field)
    ]

abbrev pub fields : SockCommonOffsets → List (Text × ℕ)
fields o =
    (codes "skc_family", o.skc_family)
    ∷ (codes "skc_dport", o.skc_dport)
    ∷ (codes "skc_num", o.skc_num)
    ∷ (codes "skc_daddr", o.skc_daddr)
    ∷ (codes "skc_rcv_saddr", o.skc_rcv_saddr)
    ∷ (codes "skc_state", o.skc_state)
    ∷ (codes "skc_v6_daddr", o.skc_v6_daddr)
    ∷ (codes "skc_v6_rcv_saddr", o.skc_v6_rcv_saddr)
    ∷ []

-- The error is of the first field that is too far out. Go ranges over a map here, so the order is
-- a parameter of the model: any arrangement of `fields`.
unfoldable pub offset_error : List (Text × ℕ) → Option (Text × ℕ)
offset_error [] = none
offset_error ((name, offset) ∷ rest) =
    let later = offset_error rest in if ltb 256 offset then some (name, offset) else later

-- (o *SockCommonOffsets) ValidateOffsets, with the order that the map is ranged in.
unfoldable pub validate_offsets :
    (List (Text × ℕ) → List (Text × ℕ)) → SockCommonOffsets → Option (Text × ℕ)
validate_offsets arrange o = offset_error (arrange (fields o))
