-- ===== src/Bpf/SockOffsets/Detection.antt =====
-- When DetectSockCommonOffsets succeeds.
use kubeadapt_k8s_pulse.Prelude.{
  Bool, List, Option, [], ap, arith, false, if◌then◌else◌, inl, inr, map, none, not, refl, some,
  sym, true, ◌||◌, ◌↔◌, ◌∙◌, ◌∷◌, ◌≡◌, ◌⊎◌,
}
use kubeadapt_k8s_pulse.Prelude.Text.{Text, codes, text_eq, text_eq_iff}
use kubeadapt_k8s_pulse.Bpf.SockOffsets.{
  DetectError, Member, SockCommonOffsets, detect_loop, detect_member, detect_sock_common_offsets,
  is_found, members, missing_field, no_offsets, required_field, required_fields,
}
use mathlib.Core.Option

text_eq_sym : (s t : Text) → text_eq s t ≡ text_eq t s
text_eq_sym s t = ground (arith, text_eq_iff s t, text_eq_iff t s)

-- Whether a field is one of the required ones.
abbrev is_required : Text → Bool
is_required f =
    text_eq f (codes "skc_family")
    || (text_eq f (codes "skc_dport")
        || (text_eq f (codes "skc_num")
            || (text_eq f (codes "skc_daddr") || text_eq f (codes "skc_rcv_saddr"))))

detect_member-found :
    (m : Member) (o : SockCommonOffsets) (found : List Text) (f : Text)
    → is_required f ≡ true
    → is_found f (detect_member m (o, found)).1 ≡ (text_eq f m.name || is_found f found)
unfolding detect_member is_found
detect_member-found m o found f h = ground (
  arith,
  h,
  text_eq_iff f m.name,
  text_eq_iff f (codes "skc_family"),
  text_eq_iff f (codes "skc_dport"),
  text_eq_iff f (codes "skc_num"),
  text_eq_iff f (codes "skc_daddr"),
  text_eq_iff f (codes "skc_rcv_saddr"),
  text_eq_iff m.name (codes "skc_family"),
  text_eq_iff m.name (codes "skc_dport"),
  text_eq_iff m.name (codes "skc_num"),
  text_eq_iff m.name (codes "skc_daddr"),
  text_eq_iff m.name (codes "skc_rcv_saddr"),
  text_eq_iff m.name (codes "skc_state"),
  text_eq_iff m.name (codes "skc_v6_daddr"),
  text_eq_iff m.name (codes "skc_v6_rcv_saddr"),
)

abbrev pub names : List Member → List Text
names = map (λ (m : Member). m.name)

detect_loop-found :
    (ms : List Member) (o : SockCommonOffsets) (found : List Text) (f : Text)
    → is_required f ≡ true
    → is_found f (detect_loop ms (o, found)).1 ≡ (is_found f (names ms) || is_found f found)
unfolding detect_loop is_found
detect_loop-found [] o found f h = refl
detect_loop-found (m ∷ ms) o found f h =
    let next = detect_member m (o, found) in
    ground (arith, detect_loop-found ms next.0 next.1 f h, detect_member-found m o found f h)

-- The loop finds a required field exactly if some member has its name.
detected :
    (ms : List Member) (o : SockCommonOffsets) (f : Text)
    → is_required f ≡ true
    → is_found f (detect_loop ms (o, [])).1 ≡ is_found f (names ms)
unfolding is_found
detected ms o f h = ground (arith, detect_loop-found ms o [] f h)

abbrev pub error_of : DetectError ⊎ SockCommonOffsets → Option DetectError
error_of (inl e) = some e
error_of (inr o) = none

missing-detected :
    (ms : List Member) (o : SockCommonOffsets)
    → missing_field required_fields (detect_loop ms (o, [])).1
      ≡ missing_field required_fields (names ms)
unfolding missing_field text_eq
missing-detected ms o =
    rw
      (
        detected ms o (codes "skc_family") refl,
        detected ms o (codes "skc_dport") refl,
        detected ms o (codes "skc_num") refl,
        detected ms o (codes "skc_daddr") refl,
        detected ms o (codes "skc_rcv_saddr") refl,
      )
      refl

-- What detection makes of the first missing field, if there is one.
error_of-decided :
    (r : Option Text) (o : SockCommonOffsets)
    → error_of (elim r as (λ _. DetectError ⊎ SockCommonOffsets) [
      | none ↦ inr o
      | some field ↦ inl (required_field field)
    ])
      ≡ Option.map required_field r
error_of-decided none o = refl
error_of-decided (some field) o = refl

map-none : (r : Option Text) → (Option.map required_field r ≡ none) ↔ (r ≡ none)
map-none none = (λ e. refl, λ e. refl)
map-none (some field) = (λ e. ground (arith, e), λ e. ground (arith, e))

-- Whether some member has the name.
unfoldable pub has_member : Text → List Member → Bool
has_member f [] = false
has_member f (m ∷ ms) = text_eq f m.name || has_member f ms

-- The first of the five names, in the order that they are asked for, that no member has.
abbrev pub first_unnamed : List Member → Option Text
first_unnamed ms =
    if not (has_member (codes "skc_family") ms)
    then some (codes "skc_family")
    else if not (has_member (codes "skc_dport") ms)
    then some (codes "skc_dport")
    else if not (has_member (codes "skc_num") ms)
    then some (codes "skc_num")
    else if not (has_member (codes "skc_daddr") ms)
    then some (codes "skc_daddr")
    else if not (has_member (codes "skc_rcv_saddr") ms)
    then some (codes "skc_rcv_saddr")
    else none

is_found-names : (f : Text) (ms : List Member) → is_found f (names ms) ≡ has_member f ms
unfolding is_found has_member
is_found-names f [] = refl
is_found-names f (m ∷ ms) = ap (λ b. text_eq f m.name || b) (is_found-names f ms)

missing-first : (ms : List Member) → missing_field required_fields (names ms) ≡ first_unnamed ms
unfolding missing_field
missing-first ms = ground (
  arith,
  is_found-names (codes "skc_family") ms,
  is_found-names (codes "skc_dport") ms,
  is_found-names (codes "skc_num") ms,
  is_found-names (codes "skc_daddr") ms,
  is_found-names (codes "skc_rcv_saddr") ms,
)

first_unnamed-none :
    (ms : List Member)
    → (first_unnamed ms ≡ none) ↔ (
        (has_member (codes "skc_family") ms ≡ true)
        × (has_member (codes "skc_dport") ms ≡ true)
        × (has_member (codes "skc_num") ms ≡ true)
        × (has_member (codes "skc_daddr") ms ≡ true)
        × (has_member (codes "skc_rcv_saddr") ms ≡ true))
first_unnamed-none ms = ground arith

-- With the members of sock_common at hand, detection fails exactly if skc_family, skc_dport, skc_num,
-- skc_daddr or skc_rcv_saddr is the name of no member, and the error names the first of these, in this
-- order, that no member has; whatever other members there are and in whatever order they stand.
pub detect_sock_common_offsets-required :
    (ms : List Member)
    → (error_of (detect_sock_common_offsets (members ms))
        ≡ Option.map required_field (first_unnamed ms))
      × ((error_of (detect_sock_common_offsets (members ms)) ≡ none) ↔ (
          (has_member (codes "skc_family") ms ≡ true)
          × (has_member (codes "skc_dport") ms ≡ true)
          × (has_member (codes "skc_num") ms ≡ true)
          × (has_member (codes "skc_daddr") ms ≡ true)
          × (has_member (codes "skc_rcv_saddr") ms ≡ true)))
unfolding detect_sock_common_offsets
detect_sock_common_offsets-required ms =
    let loop = detect_loop ms (no_offsets, []) in
    let first =
      error_of-decided (missing_field required_fields loop.1) loop.0
      ∙ ap (λ r. Option.map required_field r) (missing-detected ms no_offsets ∙ missing-first ms) in
    let complete = first_unnamed-none ms in
    let decided = map-none (first_unnamed ms) in
    (
      first,
      (λ e. complete.0 (decided.0 (sym first ∙ e)), λ five. first ∙ decided.1 (complete.1 five)),
    )
