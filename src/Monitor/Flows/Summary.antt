-- ===== src/Monitor/Flows/Summary.antt =====
-- What a flow's entry holds after any sequence of packets: a summary of the packets of the flow.
use kubeadapt_k8s_pulse.Prelude.{
  All, Bool-cases, List, Option, [], ap, arith, if◌then◌else◌, inl, inr, none, not, refl, some, sym,
  ℕ, ◌+◌, ◌<◌, ◌==◌, ◌^◌, ◌||◌, ◌∙◌, ◌∷◌, ◌≡◌,
}
use kubeadapt_k8s_pulse.Prelude.GoMap.{lookup, lookup-put, put}
use kubeadapt_k8s_pulse.Bpf.Types.{ConnectionKey, ConnectionStats}
use kubeadapt_k8s_pulse.Collector.Keys.{u64}
use kubeadapt_k8s_pulse.Monitor.Flows.{
  Arrival, Flows, Kernel, Monitor, connection_key_eq, connection_key_eq_iff, connection_keys,
  count_packet, create, inserted, new_stats, receive_all, update_existing, update_stats,
}
use mathlib.Core.Path.{ap₂}

-- No one else touches the map during a call, and the insertion of a key that is not there works.
pub record IsQuiet (k : Kernel) : Type 0 where
  pub before_insert : (m : Flows) → k.before_insert m ≡ m
  pub has_room : (key : ConnectionKey) (m : Flows) → lookup key m ≡ none → k.insert key m ≡ inserted

-- The packets of a flow.
unfoldable pub of_flow : ConnectionKey → List Arrival → List Arrival
of_flow key [] = []
of_flow key (p ∷ ps) =
    let rest = of_flow key ps in if connection_key_eq p.key key then p ∷ rest else rest

-- The bytes and the packets that come in on one interface.
unfoldable pub bytes_on : ℕ → List Arrival → ℕ
bytes_on i [] = 0
bytes_on i (p ∷ ps) = (if i == p.if_index then p.bytes else 0) + bytes_on i ps

unfoldable pub packets_on : ℕ → List Arrival → ℕ
packets_on i [] = 0
packets_on i (p ∷ ps) = (if i == p.if_index then 1 else 0) + packets_on i ps

-- The time of the last packet on the interface or on any other that is valid.
unfoldable pub last_seen : ℕ → ℕ → List Arrival → ℕ
last_seen i old [] = old
last_seen i old (p ∷ ps) =
    last_seen i (if (i == p.if_index) || not (p.if_index == 0) then p.now else old) ps

-- An entry after more packets of its flow.
abbrev pub extended : ConnectionStats → List Arrival → ConnectionStats
extended e ps = record e {
  bytes = u64 (e.bytes + bytes_on e.if_index_first_seen ps);
  packets = u64 (e.packets + packets_on e.if_index_first_seen ps);
  last_seen_ns = last_seen e.if_index_first_seen e.last_seen_ns ps;
}

-- The entry of a flow with the given packets: the first packet decides the interface and the pod.
abbrev pub summary : List Arrival → Option ConnectionStats
summary [] = none
summary (p ∷ ps) = some (record {
  bytes = u64 (p.bytes + bytes_on p.if_index ps);
  packets = u64 (1 + packets_on p.if_index ps);
  last_seen_ns = last_seen p.if_index p.now ps;
  cgroup_id = p.cgroup_id;
  if_index_first_seen = p.if_index;
  padding = 0;
})

-- How one packet changes the entry of any flow.
abbrev pub step : Arrival → Option ConnectionStats → ConnectionStats
step p none = new_stats p
step p (some e) =
    if e.if_index_first_seen == p.if_index
    then count_packet p e
    else if not (p.if_index == 0)
    then record e { last_seen_ns = p.now }
    else e

pub create-quiet :
    (k : Kernel) (p : Arrival) (s : Monitor)
    → IsQuiet k
    → lookup p.key s.flows ≡ none
    → create k p (record s { flows = k.before_insert s.flows })
      ≡ record s { flows = put p.key (new_stats p) s.flows }
unfolding create
create-quiet k p s quiet h =
    rw (quiet.before_insert s.flows) (rw (create, quiet.has_room p.key s.flows h) refl)

pub lookup-update_stats :
    (k : Kernel) (key : ConnectionKey) (p : Arrival) (s : Monitor)
    → IsQuiet k
    → lookup key (update_stats k p s).flows ≡ (
        if connection_key_eq p.key key
        then some (step p (lookup p.key s.flows))
        else lookup key s.flows)
unfolding update_stats update_existing create
lookup-update_stats k key p s quiet = go (lookup p.key s.flows) refl
  where
    unchanged :
        (stats : ConnectionStats)
        → lookup p.key s.flows ≡ some stats
        → lookup key s.flows
          ≡ (if connection_key_eq p.key key then some stats else lookup key s.flows)
    unchanged stats e = elim (Bool-cases (connection_key_eq p.key key)) [
      | inl t ↦ rw (t, ← (connection_key_eq_iff p.key key).0 t) e
      | inr f ↦ rw f refl
    ]

    go :
        (o : Option ConnectionStats)
        → lookup p.key s.flows ≡ o
        → lookup key
            (elim o as (λ _. Monitor) [
              | none ↦ create k p (record s { flows = k.before_insert s.flows })
              | some stats ↦ update_existing p stats s
            ]).flows
          ≡ (if connection_key_eq p.key key then some (step p o) else lookup key s.flows)
    go none e =
        ap (λ (t : Monitor). lookup key t.flows) (create-quiet k p s quiet e)
        ∙ lookup-put p.key key _ s.flows
    go (some stats) e = elim (Bool-cases (stats.if_index_first_seen == p.if_index)) [
      | inl t ↦ rw t (lookup-put p.key key _ s.flows)
      | inr f ↦ elim (Bool-cases (p.if_index == 0)) [
        | inl z ↦ rw (f, z) (unchanged stats e)
        | inr y ↦ rw (f, y) (lookup-put p.key key _ s.flows)
      ]
    ]

same_fields :
    (e : ConnectionStats) (time : ℕ) {b b' n n' : ℕ}
    → b ≡ b'
    → n ≡ n'
    → Path ConnectionStats
        (record e { bytes = b; packets = n; last_seen_ns = time })
        (record e { bytes = b'; packets = n'; last_seen_ns = time })
same_fields e time hb hn =
    ap₂ (λ b n. record e { bytes = b; packets = n; last_seen_ns = time }) hb hn

-- One packet of the flow, in terms of the summary.
extended-step :
    (p : Arrival) (e : ConnectionStats) (ps : List Arrival)
    → extended (step p (some e)) ps ≡ extended e (p ∷ ps)
unfolding bytes_on packets_on last_seen count_packet
extended-step p e ps = elim (Bool-cases (e.if_index_first_seen == p.if_index)) [
  | inl t ↦
      rw t (same_fields e (last_seen e.if_index_first_seen p.now ps) (omega arith) (omega arith))
  | inr f ↦ elim (Bool-cases (p.if_index == 0)) [
    | inl z ↦
        rw (f, z)
          (same_fields e (last_seen e.if_index_first_seen e.last_seen_ns ps) (omega arith)
            (omega arith))
    | inr y ↦
        rw (f, y)
          (same_fields e (last_seen e.if_index_first_seen p.now ps) (omega arith) (omega arith))
  ]
]

-- The two sums of an entry are words.
abbrev pub IsWords : ConnectionStats → Type 0
IsWords e = (e.bytes < 2 ^ 64) × (e.packets < 2 ^ 64)

pub step-IsWords : (p : Arrival) (e : ConnectionStats) → IsWords e → IsWords (step p (some e))
unfolding count_packet
step-IsWords p e h = elim (Bool-cases (e.if_index_first_seen == p.if_index)) [
  | inl t ↦ rw t (omega arith, omega arith)
  | inr f ↦ elim (Bool-cases (p.if_index == 0)) [ inl z ↦ rw (f, z) h | inr y ↦ rw (f, y) h ]
]

pub new-IsWords : (p : Arrival) → p.bytes < 2 ^ 64 → IsWords (new_stats p)
unfolding new_stats
new-IsWords p h = (h, omega arith)

summary-first :
    (p : Arrival) (ps : List Arrival) → some (extended (new_stats p) ps) ≡ summary (p ∷ ps)
unfolding new_stats
summary-first p ps = refl

extended_none : (e : ConnectionStats) → IsWords e → extended e [] ≡ e
unfolding bytes_on packets_on last_seen
extended_none e h = same_fields e e.last_seen_ns (omega (arith, h)) (omega (arith, h))

module _ (k : Kernel) (quiet : IsQuiet k) where
  -- An entry that is there goes on with the packets of its flow.
  pub receive_all-some :
      (key : ConnectionKey) (ps : List Arrival) (s : Monitor) (e : ConnectionStats)
      → lookup key s.flows ≡ some e
      → IsWords e
      → lookup key (receive_all k ps s).flows ≡ some (extended e (of_flow key ps))
  unfolding receive_all of_flow
  receive_all-some key [] s e h words = h ∙ ap (λ e. some e) (sym (extended_none e words))
  receive_all-some key (p ∷ ps) s e h words = elim (Bool-cases (connection_key_eq p.key key)) [
    | inl t ↦
        let same = (connection_key_eq_iff p.key key).0 t in
        let now : lookup key (update_stats k p s).flows ≡ some (step p (some e)) =
          lookup-update_stats k key p s quiet
          ∙ rw t (ap (λ o. some (step p o)) (ap (λ j. lookup j s.flows) same ∙ h)) in
        rw t (
          receive_all-some key ps (update_stats k p s) (step p (some e)) now
            (step-IsWords p e words)
          ∙ ap (λ e. some e) (extended-step p e (of_flow key ps)))
    | inr f ↦ rw f (
        receive_all-some key ps (update_stats k p s) e
          (lookup-update_stats k key p s quiet ∙ rw f h) words)
  ]

  receive_all-none :
      (key : ConnectionKey) (ps : List Arrival) (s : Monitor)
      → lookup key s.flows ≡ none
      → All (λ (p : Arrival). p.bytes < 2 ^ 64) ps
      → lookup key (receive_all k ps s).flows ≡ summary (of_flow key ps)
  unfolding receive_all of_flow
  receive_all-none key [] s h words = h
  receive_all-none key (p ∷ ps) s h words = elim (Bool-cases (connection_key_eq p.key key)) [
    | inl t ↦
        let same = (connection_key_eq_iff p.key key).0 t in
        let now : lookup key (update_stats k p s).flows ≡ some (new_stats p) =
          lookup-update_stats k key p s quiet
          ∙ rw t (ap (λ o. some (step p o)) (ap (λ j. lookup j s.flows) same ∙ h)) in
        rw t (
          receive_all-some key ps (update_stats k p s) (new_stats p) now (new-IsWords p words.0)
          ∙ summary-first p (of_flow key ps))
    | inr f ↦ rw f (
        receive_all-none key ps (update_stats k p s) (lookup-update_stats k key p s quiet ∙ rw f h)
          words.1)
  ]

-- On a kernel where calls do not overlap and the map has room, and from a map without entries: after
-- any sequence of packets the entry of each flow is the summary of the flow's own packets. The first
-- one decides the interface and the pod; the bytes and the packets are those on that interface alone,
-- modulo 2 ^ 64, and the time is that of the last packet on it or on another valid one.
pub receive_all-summary :
    (k : Kernel) (key : ConnectionKey) (ps : List Arrival) (s : Monitor)
    → IsQuiet k
    → s.flows ≡ []
    → All (λ (p : Arrival). p.bytes < 2 ^ 64) ps
    → lookup key (receive_all k ps s).flows ≡ summary (of_flow key ps)
unfolding lookup
receive_all-summary k key ps s quiet empty words =
    receive_all-none k quiet key ps s (ap (λ m. lookup key m) empty) words
