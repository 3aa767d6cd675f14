-- ===== src/Monitor/Concurrent/Calm.antt =====
-- Interleavings in which the collector deletes nothing, the map has room and each flow comes in on one
-- interface: what their states have in common.
use kubeadapt_k8s_pulse.Prelude.{
  Bool-cases, List, Option, ap, arith, inl, inr, none, refl, some, true, ℕ, ◌==◌, ◌≡◌, ◌≢◌,
}
use kubeadapt_k8s_pulse.Prelude.GoMap.{lookup, lookup-put}
use kubeadapt_k8s_pulse.Bpf.Types.{ConnectionKey, ConnectionStats}
use kubeadapt_k8s_pulse.Monitor.Concurrent.{
  Answer, Memory, Move, Processor, add_bytes, add_packet, arrive, bytes_added, compare_interface,
  delete, first_lookup, found, go_on, idle, insert_element, late, look_again, missing,
  overflow_reason_race_condition, packet_added, read, report, second_lookup, stamp, stamped, store,
  take_step,
}
use kubeadapt_k8s_pulse.Monitor.Concurrent.Elements.{lookup-is_used}
use kubeadapt_k8s_pulse.Monitor.Concurrent.Insertion.{Insertion, done, in_use, insertion, overtaken}
use kubeadapt_k8s_pulse.Monitor.Concurrent.Sound.{Growth, grown, same}
use kubeadapt_k8s_pulse.Monitor.Flows.{
  Arrival, connection_key_eq, connection_key_eq_iff, connection_keys, new_stats,
}

first_interface : (p : Arrival) → (new_stats p).if_index_first_seen ≡ p.if_index
unfolding new_stats
first_interface p = refl

module _ (iface : ConnectionKey → ℕ) where
  -- The packets come in on the interfaces of their flows, an insertion finds an element, and nothing is
  -- deleted.
  abbrev pub IsCalmMove : Move → Type 0
  IsCalmMove (arrive cpu p) = p.if_index ≡ iface p.key
  IsCalmMove (go_on cpu a) = a.element ≢ none
  IsCalmMove (read key) = Unit {0}
  IsCalmMove (delete fails) = ⊥

  -- A processor that holds an element holds the one that stands under its key; none has to report.
  abbrev pub IsSettled : List (ConnectionKey × ℕ) → Processor → Type 0
  IsSettled m idle = Unit {0}
  IsSettled m (found p e) = (lookup p.key m ≡ some e) × (p.if_index ≡ iface p.key)
  IsSettled m (missing p) = p.if_index ≡ iface p.key
  IsSettled m (add_bytes p e) = lookup p.key m ≡ some e
  IsSettled m (add_packet p e) = lookup p.key m ≡ some e
  IsSettled m (stamp p e) = lookup p.key m ≡ some e
  IsSettled m (look_again p) = (lookup p.key m ≢ none) × (p.if_index ≡ iface p.key)
  IsSettled m (report reason p) = ⊥

  -- Each flow counts on its interface.
  pub record IsCounting (m : Memory) : Type 0 where
    pub own :
        (key : ConnectionKey) (e : ℕ)
        → lookup key m.elements ≡ some e
        → (m.stats e).if_index_first_seen ≡ iface key

  Growth-lookup :
      {m m' : List (ConnectionKey × ℕ)} (key : ConnectionKey) (e : ℕ)
      → Growth m m'
      → lookup key m ≡ some e
      → lookup key m' ≡ some e
  Growth-lookup key e same h = h
  Growth-lookup {m} key e (grown k i g u) h =
      ground (arith, lookup-put k key i m, connection_key_eq_iff k key)

  Growth-there :
      {m m' : List (ConnectionKey × ℕ)} (key : ConnectionKey)
      → Growth m m'
      → lookup key m ≢ none
      → lookup key m' ≢ none
  Growth-there key same h = h
  Growth-there {m} key (grown k i g u) h = ground (arith, lookup-put k key i m)

  -- What the other processors do leaves a processor settled.
  pub Growth-IsSettled :
      {m m' : List (ConnectionKey × ℕ)} (pc : Processor)
      → Growth m m'
      → IsSettled m pc
      → IsSettled m' pc
  Growth-IsSettled idle g h = tt
  Growth-IsSettled (found p e) g h = (Growth-lookup p.key e g h.0, h.1)
  Growth-IsSettled (missing p) g h = h
  Growth-IsSettled (add_bytes p e) g h = Growth-lookup p.key e g h
  Growth-IsSettled (add_packet p e) g h = Growth-lookup p.key e g h
  Growth-IsSettled (stamp p e) g h = Growth-lookup p.key e g h
  Growth-IsSettled (look_again p) g h = (Growth-there p.key g h.0, h.1)
  Growth-IsSettled (report reason p) g h = h

  pub first_lookup-IsSettled :
      (p : Arrival) (m : Memory)
      → p.if_index ≡ iface p.key
      → IsSettled m.elements (first_lookup p m)
  unfolding first_lookup
  first_lookup-IsSettled p m h = go (lookup p.key m.elements) refl
    where
      go :
          (o : Option ℕ)
          → lookup p.key m.elements ≡ o
          → IsSettled m.elements
              (elim o as (λ _. Processor) [ none ↦ missing p | some e ↦ found p e ])
      go none q = h
      go (some e) q = (q, h)

  second_lookup-IsSettled :
      (p : Arrival) (m : Memory)
      → lookup p.key m.elements ≢ none
      → IsSettled m.elements (second_lookup p m)
  unfolding second_lookup
  second_lookup-IsSettled p m h = go (lookup p.key m.elements) refl
    where
      go :
          (o : Option ℕ)
          → lookup p.key m.elements ≡ o
          → IsSettled m.elements (elim o as (λ _. Processor) [
            | none ↦ report overflow_reason_race_condition p
            | some e ↦ add_bytes (late p) e
          ])
      go none q = h q
      go (some e) q = q

  Insertion-IsSettled :
      {e : ℕ} {p : Arrival} {m : Memory} {r : Memory × Processor}
      → Insertion e p m r
      → p.if_index ≡ iface p.key
      → IsSettled r.0.elements r.1
  Insertion-IsSettled (overtaken there) h = (there, h)
  Insertion-IsSettled in_use h = h
  Insertion-IsSettled (done g u) h = tt

  store-IsCounting :
      (e : ℕ) (x : ConnectionStats) (m : Memory)
      → x.if_index_first_seen ≡ (m.stats e).if_index_first_seen
      → IsCounting m
      → IsCounting (store e x m)
  unfolding store
  store-IsCounting e x m h c = record { own = λ key i q. ground (arith, c.own key i q) }

  Insertion-IsCounting :
      {e : ℕ} {p : Arrival} {m : Memory} {r : Memory × Processor}
      → Insertion e p m r
      → p.if_index ≡ iface p.key
      → IsCounting m
      → IsCounting r.0
  Insertion-IsCounting (overtaken there) h c = c
  Insertion-IsCounting in_use h c = c
  Insertion-IsCounting {e} {p} {m} (done g u) h c = record {
    own = λ key i q. elim (Bool-cases (connection_key_eq p.key key)) [
      | inl t ↦
          let owner = ap iface ((connection_key_eq_iff p.key key).0 t) in
          ground (arith, lookup-put p.key key e m.elements, first_interface p)
      | inr f ↦
          ground
            (arith, lookup-put p.key key e m.elements, lookup-is_used key i m.elements, c.own key i)
    ];
  }

  module _ (a : Answer) (room : a.element ≢ none) where
    inserted_somewhere :
        (p : Arrival) (m : Memory) → (e : ℕ) × Insertion e p m (insert_element a.element p m)
    inserted_somewhere p m = go a.element room
      where
        go : (o : Option ℕ) → o ≢ none → (e : ℕ) × Insertion e p m (insert_element o p m)
        go none r = absurd (r refl)
        go (some e) r = (e, insertion e p m)

    pub take_step-IsSettled :
        (pc : Processor) (m : Memory)
        → IsCounting m
        → IsSettled m.elements pc
        → (let (m', next) = take_step a pc m in IsSettled m'.elements next)
    unfolding take_step store compare_interface
    take_step-IsSettled idle m c h = tt
    take_step-IsSettled (found p e) m c h =
        let first = c.own p.key e h.0 in
        let eq : ((m.stats e).if_index_first_seen == p.if_index) ≡ true = ground arith in rw eq h.0
    take_step-IsSettled (missing p) m c h = Insertion-IsSettled (inserted_somewhere p m).1 h
    take_step-IsSettled (add_bytes p e) m c h = h
    take_step-IsSettled (add_packet p e) m c h = h
    take_step-IsSettled (stamp p e) m c h = tt
    take_step-IsSettled (look_again p) m c h = second_lookup-IsSettled p m h.0
    take_step-IsSettled (report reason p) m c h = absurd h

    pub take_step-IsCounting :
        (pc : Processor) (m : Memory)
        → IsCounting m
        → IsSettled m.elements pc
        → IsCounting (take_step a pc m).0
    unfolding take_step bytes_added packet_added stamped
    take_step-IsCounting idle m c h = c
    take_step-IsCounting (found p e) m c h = c
    take_step-IsCounting (missing p) m c h = Insertion-IsCounting (inserted_somewhere p m).1 h c
    take_step-IsCounting (add_bytes p e) m c h =
        store-IsCounting e (bytes_added p (m.stats e)) m refl c
    take_step-IsCounting (add_packet p e) m c h =
        store-IsCounting e (packet_added (m.stats e)) m refl c
    take_step-IsCounting (stamp p e) m c h = store-IsCounting e (stamped p (m.stats e)) m refl c
    take_step-IsCounting (look_again p) m c h = c
    take_step-IsCounting (report reason p) m c h = absurd h
