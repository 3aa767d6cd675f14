-- ===== src/Monitor/Concurrent/Advance.antt =====
-- What one step of a processor does to the accounts.
use kubeadapt_k8s_pulse.Prelude.{
  Bool, List, Option, [], arith, if◌then◌else◌, none, refl, some, ℕ, ◌++◌, ◌+◌, ◌∷◌, ◌≡◌,
}
use kubeadapt_k8s_pulse.Prelude.Family.{set_at}
use kubeadapt_k8s_pulse.Prelude.Totals.{total-put}
use kubeadapt_k8s_pulse.Bpf.Types.{ConnectionKey, ConnectionStats, FlowRecord}
use kubeadapt_k8s_pulse.Collector.Keys.{u64}
use kubeadapt_k8s_pulse.Monitor.Concurrent.{
  Answer, Memory, Processor, add_bytes, add_packet, bytes_added, compare_interface, first_lookup,
  found, idle, insert_element, late, look_again, missing, packet_added, report, second_lookup,
  stamp, stamped, store, submit, take_step,
}
use kubeadapt_k8s_pulse.Monitor.Concurrent.Elements.{AreDistinct, stored-set_at, unused-for}
use kubeadapt_k8s_pulse.Monitor.Concurrent.Ledger.{
  Counted, alien_by, amount, byte_amount, bytes, dropped_by, held, in_flight, is_used_for, measure,
  packet_amount, packets, reported, share, skipped_by, stale_by,
}
use kubeadapt_k8s_pulse.Monitor.Flows.{Arrival, connection_keys, event, new_stats}

-- The second reading of the clock changes no amount.
byte_amount-late : (c : Counted) (p : Arrival) → byte_amount c (late p) ≡ byte_amount c p
unfolding byte_amount
byte_amount-late bytes p = refl
byte_amount-late packets p = refl

measure-new_stats : (c : Counted) (p : Arrival) → measure c (new_stats p) ≡ amount c p
unfolding measure new_stats byte_amount packet_amount
measure-new_stats bytes p = omega arith
measure-new_stats packets p = omega arith

measure_bytes :
    (c : Counted) (p : Arrival) (s : ConnectionStats)
    → u64 (measure c (bytes_added p s)) ≡ u64 (measure c s + byte_amount c p)
unfolding measure byte_amount bytes_added
measure_bytes bytes p s = omega arith
measure_bytes packets p s = omega arith

measure_packets :
    (c : Counted) (s : ConnectionStats)
    → u64 (measure c (packet_added s)) ≡ u64 (measure c s + packet_amount c)
unfolding measure packet_amount packet_added
measure_packets bytes s = omega arith
measure_packets packets s = omega arith

measure_stamp :
    (c : Counted) (p : Arrival) (s : ConnectionStats) → measure c (stamped p s) ≡ measure c s
unfolding measure stamped
measure_stamp bytes p s = refl
measure_stamp packets p s = refl

module _ (mine : ConnectionKey → Bool) where
  reported-append :
      (c : Counted) (rs : List FlowRecord) (r : FlowRecord)
      → reported mine c (rs ++ r ∷ []) ≡ reported mine c rs + share mine r.key (measure c r.stats)
  unfolding reported
  reported-append c [] r = omega arith
  reported-append c (x ∷ rs) r = omega (arith, reported-append c rs r)

  pub first_lookup-in_flight :
      (c : Counted) (p : Arrival) (m : Memory)
      → in_flight mine c (first_lookup p m) ≡ share mine p.key (amount c p)
  unfolding in_flight first_lookup
  first_lookup-in_flight c p m = ground arith

  -- What an access adds to an element is in the sum, unless the element has been deleted.
  store-held :
      (c : Counted) (e : ℕ) (s : ConnectionStats) (m : Memory)
      → AreDistinct m.elements
      → held mine c (store e s m)
          + (if is_used_for mine e m.elements then measure c (m.stats e) else 0)
        ≡ held mine c m + (if is_used_for mine e m.elements then measure c s else 0)
  unfolding held store
  store-held c e s m d = stored-set_at mine (measure c) e s m.stats m.elements d

  module _ (c : Counted) (a : Answer) where
    -- What a processor and the maps have together.
    unfoldable pub wealth : Processor → Memory → ℕ
    wealth pc m = held mine c m + in_flight mine c pc + reported mine c m.events

    submit-balance :
        (reason : ℕ) (p : Arrival) (m : Memory)
        → held mine c m + share mine p.key (amount c p) + reported mine c m.events
          ≡ held mine c (submit a.reserved reason p m)
            + reported mine c (submit a.reserved reason p m).events
            + dropped_by mine c a (report reason p)
    unfolding submit dropped_by held
    submit-balance reason p m =
        ground (arith, reported-append c m.events (event reason p), measure-new_stats c p)

    insert-balance :
        (p : Arrival) (m : Memory)
        → AreDistinct m.elements
        → held mine c m + share mine p.key (amount c p) + reported mine c m.events
          ≡ (let (m', next) = insert_element a.element p m in wealth next m')
    unfolding insert_element wealth in_flight held
    insert-balance p m d = go a.element
      where
        go :
            (o : Option ℕ)
            → held mine c m + share mine p.key (amount c p) + reported mine c m.events
              ≡ wealth (insert_element o p m).1 (insert_element o p m).0
        go none = omega arith
        go (some e) = ground (
          arith,
          measure-new_stats c p,
          total-put mine (λ (i : ℕ). measure c (set_at e (new_stats p) m.stats i)) p.key e
              m.elements,
          stored-set_at mine (measure c) e (new_stats p) m.stats m.elements d,
          unused-for mine e m.elements,
        )

    pub take_step-balance :
        (pc : Processor) (m : Memory)
        → AreDistinct m.elements
        → u64 (wealth pc m + alien_by mine c pc m)
          ≡ u64 (
              (let (m', next) = take_step a pc m in wealth next m')
              + (skipped_by mine c pc m + dropped_by mine c a pc + stale_by mine c pc m))
    unfolding take_step wealth in_flight skipped_by dropped_by stale_by alien_by compare_interface
        second_lookup store
    take_step-balance idle m d = omega arith
    take_step-balance (found p e) m d = ground arith
    take_step-balance (missing p) m d = ground (arith, insert-balance p m d)
    take_step-balance (add_bytes p e) m d =
        ground
          (arith, store-held c e (bytes_added p (m.stats e)) m d, measure_bytes c p (m.stats e))
    take_step-balance (add_packet p e) m d =
        ground (arith, store-held c e (packet_added (m.stats e)) m d, measure_packets c (m.stats e))
    take_step-balance (stamp p e) m d =
        ground (arith, store-held c e (stamped p (m.stats e)) m d, measure_stamp c p (m.stats e))
    take_step-balance (look_again p) m d = ground (arith, byte_amount-late c p)
    take_step-balance (report reason p) m d = ground (arith, submit-balance reason p m)
