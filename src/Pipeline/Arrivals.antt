-- ===== src/Pipeline/Arrivals.antt =====
-- What the packets bring into the map of flows.
use kubeadapt_k8s_pulse.Prelude.{
  All, Bool, Bool-cases, List, Option, [], ap, arith, if◌then◌else◌, inl, inr, none, refl, some,
  sym, true, ℕ, ◌+◌, ◌<◌, ◌==◌, ◌^◌, ◌∙◌, ◌∷◌, ◌≡◌,
}
use kubeadapt_k8s_pulse.Prelude.GoMap.{IsMap, lookup, put, put-IsMap}
use kubeadapt_k8s_pulse.Prelude.Totals.{measured, total, total-put}
use kubeadapt_k8s_pulse.Bpf.Types.{ConnectionKey, ConnectionStats}
use kubeadapt_k8s_pulse.Collector.Cycle.Reading.{agg_key}
use kubeadapt_k8s_pulse.Collector.Keys.{AggKey, agg_key_eq, u64}
use kubeadapt_k8s_pulse.Monitor.Flows.{
  Arrival, Flows, Kernel, Monitor, connection_key_eq, connection_key_eq_iff, connection_keys,
  count_packet, create, new_stats, receive_all, update_existing, update_stats,
}
use kubeadapt_k8s_pulse.Monitor.Flows.Summary.{
  IsQuiet, IsWords, create-quiet, lookup-update_stats, new-IsWords, step, step-IsWords,
}
use mathlib.Core.Option.{some-injective}
use mathlib.Core.Path.{subst}

abbrev pub weight : AggKey → ConnectionKey → Bool
weight a key = agg_key_eq (agg_key key) a

-- The bytes that stand in the map under an aggregation key.
abbrev pub waiting : AggKey → Flows → ℕ
waiting a m = total (weight a) (λ (e : ConnectionStats). e.bytes) m

-- The bytes of the packets with an aggregation key.
unfoldable pub sent : AggKey → List Arrival → ℕ
sent a [] = 0
sent a (p ∷ ps) = (if agg_key_eq (agg_key p.key) a then p.bytes else 0) + sent a ps

-- Each flow comes in on one interface, as all packets of a pod do, and a size is a word.
abbrev pub IsArrival : (ConnectionKey → ℕ) → Arrival → Type 0
IsArrival iface p = (p.if_index ≡ iface p.key) × (p.bytes < 2 ^ 64)

abbrev pub IsEntry : (ConnectionKey → ℕ) → ConnectionKey → ConnectionStats → Type 0
IsEntry iface key e = (e.if_index_first_seen ≡ iface key) × IsWords e

-- The entries of a map are of that kind, and stand under different keys.
pub record IsOwned (iface : ConnectionKey → ℕ) (m : Flows) : Type 0 where
  pub keys-IsMap : IsMap m
  pub lookup-IsEntry :
      (key : ConnectionKey) (e : ConnectionStats) → lookup key m ≡ some e → IsEntry iface key e

put-waiting :
    (a : AggKey) (key : ConnectionKey) (v : ConnectionStats) (m : Flows)
    (o : Option ConnectionStats) (b : ℕ)
    → lookup key m ≡ o
    → u64 v.bytes ≡ u64 (measured (λ (e : ConnectionStats). e.bytes) o + b)
    → u64 (waiting a (put key v m)) ≡ u64 (waiting a m + (if weight a key then b else 0))
put-waiting a key v m o b h grown =
    let sums = total-put (weight a) (λ (e : ConnectionStats). e.bytes) key v m in
    let old = ap (measured (λ (e : ConnectionStats). e.bytes)) h in
    elim (Bool-cases (weight a key)) [
      | inl t ↦ rw t (omega (arith, (rw t at sums), old, grown))
      | inr f ↦ rw f (omega (arith, (rw f at sums)))
    ]

step-owner :
    (p : Arrival) (e : ConnectionStats)
    → (step p (some e)).if_index_first_seen ≡ e.if_index_first_seen
unfolding count_packet
step-owner p e = elim (Bool-cases (e.if_index_first_seen == p.if_index)) [
  | inl t ↦ rw t refl
  | inr f ↦ elim (Bool-cases (p.if_index == 0)) [ inl z ↦ rw (f, z) refl | inr y ↦ rw (f, y) refl ]
]

module _ (iface : ConnectionKey → ℕ) (k : Kernel) (quiet : IsQuiet k) where
  -- A packet adds its bytes to the map, modulo 2 ^ 64.
  update_stats-waiting :
      (a : AggKey) (p : Arrival) (s : Monitor)
      → IsOwned iface s.flows
      → IsArrival iface p
      → u64 (waiting a (update_stats k p s).flows)
        ≡ u64 (waiting a s.flows + (if weight a p.key then p.bytes else 0))
  unfolding update_stats update_existing count_packet new_stats
  update_stats-waiting a p s owned (on, size) = go (lookup p.key s.flows) refl
    where
      go :
          (o : Option ConnectionStats)
          → lookup p.key s.flows ≡ o
          → u64 (
              waiting a
                (elim o as (λ _. Monitor) [
                  | none ↦ create k p (record s { flows = k.before_insert s.flows })
                  | some stats ↦ update_existing p stats s
                ]).flows)
            ≡ u64 (waiting a s.flows + (if weight a p.key then p.bytes else 0))
      go none e =
          ap (λ (t : Monitor). u64 (waiting a t.flows)) (create-quiet k p s quiet e)
          ∙ put-waiting a p.key (new_stats p) s.flows none p.bytes e (omega arith)
      go (some stats) e =
          let same : (stats.if_index_first_seen == p.if_index) ≡ true =
            ground (arith, owned.lookup-IsEntry p.key stats e, on) in
          rw same (
            put-waiting a p.key (count_packet p stats) s.flows (some stats) p.bytes e (omega arith))

  update_stats-IsMap :
      (p : Arrival) (s : Monitor) → IsMap s.flows → IsMap (update_stats k p s).flows
  unfolding update_stats update_existing
  update_stats-IsMap p s keys = go (lookup p.key s.flows) refl
    where
      go :
          (o : Option ConnectionStats)
          → lookup p.key s.flows ≡ o
          → IsMap
              (elim o as (λ _. Monitor) [
                | none ↦ create k p (record s { flows = k.before_insert s.flows })
                | some stats ↦ update_existing p stats s
              ]).flows
      go none e = rw (create-quiet k p s quiet e) (put-IsMap p.key (new_stats p) s.flows keys)
      go (some stats) e = elim (Bool-cases (stats.if_index_first_seen == p.if_index)) [
        | inl t ↦ rw t (put-IsMap p.key _ s.flows keys)
        | inr f ↦ elim (Bool-cases (p.if_index == 0)) [
          | inl z ↦ rw (f, z) keys
          | inr y ↦ rw (f, y) (put-IsMap p.key _ s.flows keys)
        ]
      ]

  step-IsEntry :
      (p : Arrival) (o : Option ConnectionStats)
      → IsArrival iface p
      → ((e : ConnectionStats) → o ≡ some e → IsEntry iface p.key e)
      → IsEntry iface p.key (step p o)
  unfolding count_packet new_stats
  step-IsEntry p none (on, size) h = (on, new-IsWords p size)
  step-IsEntry p (some e) (on, size) h =
      let (owner, words) = h e refl in (step-owner p e ∙ owner, step-IsWords p e words)

  update_stats-IsOwned :
      (p : Arrival) (s : Monitor)
      → IsOwned iface s.flows
      → IsArrival iface p
      → IsOwned iface (update_stats k p s).flows
  update_stats-IsOwned p s owned arrival = record {
    keys-IsMap = update_stats-IsMap p s owned.keys-IsMap;
    lookup-IsEntry = λ key e h.
        let h' = sym (lookup-update_stats k key p s quiet) ∙ h in
        elim (Bool-cases (connection_key_eq p.key key)) [
          | inl t ↦
              let same = some-injective _ _ (rw t at h') in
              let key_same = (connection_key_eq_iff p.key key).0 t in
              subst (λ x. IsEntry iface key x) same
                (subst (λ j. IsEntry iface j (step p (lookup p.key s.flows))) key_same
                  (step-IsEntry p (lookup p.key s.flows) arrival (owned.lookup-IsEntry p.key)))
          | inr f ↦ owned.lookup-IsEntry key e (rw f at h')
        ];
  }

  pub receive_all-IsOwned :
      (ps : List Arrival) (s : Monitor)
      → IsOwned iface s.flows
      → All (IsArrival iface) ps
      → IsOwned iface (receive_all k ps s).flows
  unfolding receive_all
  receive_all-IsOwned [] s owned h = owned
  receive_all-IsOwned (p ∷ ps) s owned h =
      receive_all-IsOwned ps (update_stats k p s) (update_stats-IsOwned p s owned h.0) h.1

  pub receive_all-waiting :
      (a : AggKey) (ps : List Arrival) (s : Monitor)
      → IsOwned iface s.flows
      → All (IsArrival iface) ps
      → u64 (waiting a (receive_all k ps s).flows) ≡ u64 (waiting a s.flows + sent a ps)
  unfolding receive_all sent
  receive_all-waiting a [] s owned h = omega arith
  receive_all-waiting a (p ∷ ps) s owned h =
      let rest =
        receive_all-waiting a ps (update_stats k p s) (update_stats-IsOwned p s owned h.0) h.1 in
      let first = update_stats-waiting a p s owned h.0 in omega (arith, rest, first)
