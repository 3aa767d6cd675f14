-- ===== src/Pipeline/Conservation.antt =====
-- Bytes are conserved on their way from the packets to the counters, up to two leaks of the loop.
use kubeadapt_k8s_pulse.Prelude.{
  All, Bool-cases, List, Option, [], ap, arith, if◌then◌else◌, inl, inr, none, refl, some, sym,
  true, ℕ, ◌&&◌, ◌++◌, ◌+◌, ◌==◌, ◌∙◌, ◌∷◌, ◌≡◌,
}
use kubeadapt_k8s_pulse.Prelude.GoMap.{lookup}
use kubeadapt_k8s_pulse.Prelude.Totals.{lookup-remove, measured, remove, remove-IsMap, total-remove}
use kubeadapt_k8s_pulse.Bpf.Types.{ConnectionKey, ConnectionStats}
use kubeadapt_k8s_pulse.Collector.Cycle.Reading.{Visit}
use kubeadapt_k8s_pulse.Collector.Cycle.Totals.{flow_bytes}
use kubeadapt_k8s_pulse.Collector.Keys.{AggKey, u64}
use kubeadapt_k8s_pulse.Monitor.Flows.{
  Arrival, Flows, Kernel, Monitor, connection_key_eq, connection_key_eq_iff, connection_keys,
  receive_all,
}
use kubeadapt_k8s_pulse.Monitor.Flows.Summary.{IsQuiet, bytes_on, of_flow, receive_all-some}
use kubeadapt_k8s_pulse.Pipeline.{Turn, after_turn, answer, delete_key, harvest, yielded}
use kubeadapt_k8s_pulse.Pipeline.Arrivals.{
  IsArrival, IsOwned, receive_all-IsOwned, receive_all-waiting, sent, waiting, weight,
}
use kubeadapt_k8s_pulse.Pipeline.Leaks.{arrivals, lost, lost_turn, repeated, repeated_turn}
use mathlib.Core.Option.{none-ne-some}

sent-append : (a : AggKey) (ps qs : List Arrival) → sent a (ps ++ qs) ≡ sent a ps + sent a qs
unfolding sent
sent-append a [] qs = omega arith
sent-append a (p ∷ ps) qs = omega (arith, sent-append a ps qs)

sent-of_flow :
    (a : AggKey) (iface : ConnectionKey → ℕ) (key : ConnectionKey) (ps : List Arrival)
    → All (IsArrival iface) ps
    → sent a (of_flow key ps) ≡ (if weight a key then bytes_on (iface key) (of_flow key ps) else 0)
unfolding sent of_flow bytes_on
sent-of_flow a iface key [] h = ground arith
sent-of_flow a iface key (p ∷ ps) h = elim (Bool-cases (connection_key_eq p.key key)) [
  | inl t ↦
      let same = (connection_key_eq_iff p.key key).0 t in
      let on : (iface key == p.if_index) ≡ true = ground (arith, h.0.0, ap iface same) in
      rw (t, on) (ground (arith, sent-of_flow a iface key ps h.1, ap (weight a) same))
  | inr f ↦ rw f (sent-of_flow a iface key ps h.1)
]

module _ (a : AggKey) (iface : ConnectionKey → ℕ) (k : Kernel) (quiet : IsQuiet k) where
  -- The accounts of one round balance.
  turn-balance :
      (t : Turn) (s : Monitor)
      → IsOwned iface s.flows
      → All (IsArrival iface) t.before
      → All (IsArrival iface) t.during
      → u64 (waiting a s.flows + (sent a t.before + sent a t.during) + repeated_turn a k t s)
        ≡ u64
            (flow_bytes a (yielded k t s) + waiting a (after_turn k t s).flows + lost_turn a k t s)
  unfolding yielded after_turn lost_turn repeated_turn flow_bytes delete_key
  turn-balance t s owned hb hd = go (lookup t.key read.flows) refl
    where
      owned' : IsOwned iface (receive_all k t.before s).flows
      owned' = receive_all-IsOwned iface k quiet t.before s owned hb

      filled :
          u64 (waiting a (receive_all k t.during (receive_all k t.before s)).flows)
          ≡ u64 (waiting a s.flows + sent a t.before + sent a t.during)
      filled = omega (
        arith,
        receive_all-waiting iface k quiet a t.before s owned hb,
        receive_all-waiting iface k quiet a t.during (receive_all k t.before s) owned' hd,
      )

      read : Monitor
      read = receive_all k t.before s

      meanwhile : Monitor
      meanwhile = receive_all k t.during read

      deleted_balance :
          (stats : ConnectionStats)
          → lookup t.key read.flows ≡ some stats
          → u64 (waiting a s.flows + (sent a t.before + sent a t.during) + 0)
            ≡ u64 (
                (if weight a t.key then stats.bytes else 0)
                + 0
                + waiting a (remove t.key meanwhile.flows)
                + sent a (of_flow t.key t.during))
      deleted_balance stats e =
          let entry = owned'.lookup-IsEntry t.key stats e in
          let there =
            receive_all-some k quiet t.key t.during (receive_all k t.before s) stats e entry.1 in
          let size = ap (measured (λ (e : ConnectionStats). e.bytes)) there in
          let gone =
            total-remove (weight a) (λ (e : ConnectionStats). e.bytes) t.key
              (receive_all k t.during (receive_all k t.before s)).flows in
          let flow = sent-of_flow a iface t.key t.during hd in
          let owner = ap (λ i. bytes_on i (of_flow t.key t.during)) entry.0 in
          elim (Bool-cases (weight a t.key)) [
            | inl w ↦ rw w (omega (arith, filled, (rw w at gone), size, (rw w at flow), owner))
            | inr w ↦ rw w (omega (arith, filled, (rw w at gone), (rw w at flow)))
          ]

      go :
          (o : Option ConnectionStats)
          → lookup t.key read.flows ≡ o
          → u64 (
              waiting a s.flows + (sent a t.before + sent a t.during) + (elim o as (λ _. ℕ) [
                | none ↦ 0
                | some stats ↦ if t.delete_fails && weight a t.key then stats.bytes else 0
              ]))
            ≡ u64 (
                flow_bytes a (elim o as (λ _. List Visit) [
                  | none ↦ []
                  | some stats ↦
                      record { key = t.key; stats = stats; deletion = answer t.delete_fails } ∷ []
                ])
                + waiting a
                    (elim o as (λ _. Monitor) [
                      | none ↦ meanwhile
                      | some stats ↦ record meanwhile { flows = delete_key t meanwhile.flows }
                    ]).flows
                + (elim o as (λ _. ℕ) [
                  | none ↦ 0
                  | some stats ↦ if t.delete_fails then 0 else sent a (of_flow t.key t.during)
                ]))
      go none e = omega (arith, filled)
      go (some stats) e = elim (Bool-cases t.delete_fails) [
        | inl f ↦ rw f (elim (Bool-cases (weight a t.key)) [
          | inl w ↦ rw w (omega (arith, filled))
          | inr w ↦ rw w (omega (arith, filled))
        ])
        | inr g ↦ rw g (deleted_balance stats e)
      ]

All-append {ℓ κ} :
    {A : Type ℓ} (P : A → Type κ) (xs ys : List A) → All P (xs ++ ys) → All P xs × All P ys
All-append P [] ys h = (tt, h)
All-append P (x ∷ xs) ys h = let (hx, hy) = All-append P xs ys h.1 in ((h.0, hx), hy)

pub flow_bytes-append :
    (a : AggKey) (us vs : List Visit) → flow_bytes a (us ++ vs) ≡ flow_bytes a us + flow_bytes a vs
unfolding flow_bytes
flow_bytes-append a [] vs = omega arith
flow_bytes-append a (u ∷ us) vs = omega (arith, flow_bytes-append a us vs)

remove-IsOwned :
    (iface : ConnectionKey → ℕ) (key : ConnectionKey) (m : Flows)
    → IsOwned iface m
    → IsOwned iface (remove key m)
remove-IsOwned iface key m owned = record {
  keys-IsMap = remove-IsMap key m owned.keys-IsMap;
  lookup-IsEntry = λ j e h.
      let h' = sym (lookup-remove key j m owned.keys-IsMap) ∙ h in
      elim (Bool-cases (connection_key_eq key j)) [
        | inl t ↦ absurd (none-ne-some _ (rw t at h'))
        | inr f ↦ owned.lookup-IsEntry j e (rw f at h')
      ];
}

module _ (iface : ConnectionKey → ℕ) (k : Kernel) (quiet : IsQuiet k) where
  after_turn-IsOwned :
      (t : Turn) (s : Monitor)
      → IsOwned iface s.flows
      → All (IsArrival iface) t.before
      → All (IsArrival iface) t.during
      → IsOwned iface (after_turn k t s).flows
  unfolding after_turn delete_key
  after_turn-IsOwned t s owned hb hd = go (lookup t.key (receive_all k t.before s).flows)
    where
      meanwhile : Monitor
      meanwhile = receive_all k t.during (receive_all k t.before s)

      owned' : IsOwned iface meanwhile.flows
      owned' =
          receive_all-IsOwned iface k quiet t.during (receive_all k t.before s)
            (receive_all-IsOwned iface k quiet t.before s owned hb) hd

      go :
          (o : Option ConnectionStats)
          → IsOwned iface
              (elim o as (λ _. Monitor) [
                | none ↦ meanwhile
                | some stats ↦ record meanwhile { flows = delete_key t meanwhile.flows }
              ]).flows
      go none = owned'
      go (some stats) = elim (Bool-cases t.delete_fails) [
        | inl f ↦ rw f owned'
        | inr g ↦ rw g (remove-IsOwned iface t.key meanwhile.flows owned')
      ]

  -- When calls do not overlap, the map has room and each flow comes in on one interface, the bytes of
  -- every source, destination and protocol balance over any loop of the collector and any packets that
  -- come in before, between and during its rounds, modulo 2 ^ 64: what was in the map, what the packets
  -- bring and what is read twice is what is read, what is left and what a deletion takes along unread.
  pub harvest-balance :
      (a : AggKey) (ts : List Turn) (s : Monitor)
      → IsOwned iface s.flows
      → All (IsArrival iface) (arrivals ts)
      → let (visits, left) = harvest k ts s in
        u64 (waiting a s.flows + sent a (arrivals ts) + repeated a k ts s)
        ≡ u64 (flow_bytes a visits + waiting a left.flows + lost a k ts s)
  unfolding harvest arrivals repeated lost sent flow_bytes
  harvest-balance a [] s owned h = ground arith
  harvest-balance a (t ∷ ts) s owned h =
      let (hb, more) = All-append (IsArrival iface) t.before (t.during ++ arrivals ts) h in
      let (hd, hs) = All-append (IsArrival iface) t.during (arrivals ts) more in
      let first = turn-balance a iface k quiet t s owned hb hd in
      let rest = harvest-balance a ts (after_turn k t s) (after_turn-IsOwned t s owned hb hd) hs in
      omega (
        arith,
        first,
        rest,
        sent-append a t.before (t.during ++ arrivals ts),
        sent-append a t.during (arrivals ts),
        flow_bytes-append a (yielded k t s) (harvest k ts (after_turn k t s)).0,
      )
