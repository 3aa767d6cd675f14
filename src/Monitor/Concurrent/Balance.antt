-- ===== src/Monitor/Concurrent/Balance.antt =====
-- The accounts of an interleaving balance, whatever the order of its steps.
use kubeadapt_k8s_pulse.Prelude.{
  All, Bool, Bool-cases, List, Option, [], ap, arith, false, if◌then◌else◌, inl, inr, none, refl,
  some, true, ℕ, ◌++◌, ◌+◌, ◌<◌, ◌∷◌, ◌≡◌, ◌≢◌,
}
use kubeadapt_k8s_pulse.Prelude.Family.{sum_below-set_at}
use kubeadapt_k8s_pulse.Prelude.GoMap.{lookup}
use kubeadapt_k8s_pulse.Prelude.Totals.{total-remove}
use kubeadapt_k8s_pulse.Bpf.Types.{ConnectionKey, ConnectionStats}
use kubeadapt_k8s_pulse.Collector.Keys.{u64}
use kubeadapt_k8s_pulse.Monitor.Concurrent.{
  Answer, Collecting, Memory, Move, Processor, Visit, World, arrive, arrive_on, delete,
  delete_element, delete_entry, deleting, deletion_of, first_lookup, go_on, go_on_with, idle, read,
  read_entry, reading, run_moves, step, take_step,
}
use kubeadapt_k8s_pulse.Monitor.Concurrent.Advance.{
  first_lookup-in_flight, take_step-balance, wealth,
}
use kubeadapt_k8s_pulse.Monitor.Concurrent.Elements.{AreDistinct}
use kubeadapt_k8s_pulse.Monitor.Concurrent.Ledger.{
  Counted, alien, along, assets, brought, brought_on, dropped, growth_since, held, in_flight,
  measure, repeated, repeated_by, share, skipped, stale, unread, unread_by, visited,
}
use kubeadapt_k8s_pulse.Monitor.Concurrent.Sound.{IsBound, IsSound, step-IsSound}
use kubeadapt_k8s_pulse.Monitor.Flows.{Arrival, connection_keys}

-- A move names one of the first n processors.
abbrev pub IsAmong : ℕ → Move → Type 0
IsAmong n (arrive cpu p) = cpu < n
IsAmong n (go_on cpu a) = cpu < n
IsAmong n (read key) = Unit {0}
IsAmong n (delete fails) = Unit {0}

module _ (mine : ConnectionKey → Bool) where
  in_flight_idle : (c : Counted) → in_flight mine c idle ≡ 0
  unfolding in_flight
  in_flight_idle c = refl

  unread_by_reading : (c : Counted) (m : Memory) → unread_by mine c reading m ≡ 0
  unfolding unread_by
  unread_by_reading c m = refl

  visited-append :
      (c : Counted) (vs : List Visit) (v : Visit)
      → visited mine c (vs ++ v ∷ []) ≡ visited mine c vs + share mine v.key (measure c v.stats)
  unfolding visited
  visited-append c [] v = omega arith
  visited-append c (x ∷ vs) v = omega (arith, visited-append c vs v)

  module _ (c : Counted) (n : ℕ) where
    go_on-balance :
        (cpu : ℕ) (a : Answer) (w : World)
        → cpu < n
        → AreDistinct w.memory.elements
        → u64 (assets mine c n w + alien mine c (go_on cpu a) w)
          ≡ u64 (
              assets mine c n (go_on_with cpu a w)
              + (skipped mine c (go_on cpu a) w
                  + dropped mine c (go_on cpu a) w
                  + stale mine c (go_on cpu a) w))
    unfolding assets go_on_with skipped dropped stale alien wealth
    go_on-balance cpu a w h d = ground (
      arith,
      take_step-balance mine c a (w.processors cpu) w.memory d,
      sum_below-set_at (in_flight mine c) n w.processors cpu
          (take_step a (w.processors cpu) w.memory).1 h,
    )

    arrive-balance :
        (cpu : ℕ) (p : Arrival) (w : World)
        → cpu < n
        → assets mine c n w + brought mine c (arrive cpu p) w
          ≡ assets mine c n (step (arrive cpu p) w)
    unfolding assets step brought brought_on arrive_on
    arrive-balance cpu p w h = go (w.processors cpu) refl
      where
        go :
            (pc : Processor)
            → w.processors cpu ≡ pc
            → assets mine c n w + brought_on mine c p pc ≡ assets mine c n (arrive_on cpu p pc w)
        go idle e = ground (
          arith,
          sum_below-set_at (in_flight mine c) n w.processors cpu (first_lookup p w.memory) h,
          ap (in_flight mine c) e,
          in_flight_idle c,
          first_lookup-in_flight mine c p w.memory,
        )
        go pc e = omega arith

    unread-balance :
        (key : ConnectionKey) (stats : ConnectionStats) (m : Memory)
        → lookup key m.elements ≢ none
        → u64 (held mine c m)
          ≡ u64 (
              held mine c (delete_element false key m)
              + (share mine key (measure c stats) + unread_by mine c (deleting key stats) m))
    unfolding held delete_element unread_by growth_since
    unread-balance key stats m there = go (lookup key m.elements) refl
      where
        go :
            (o : Option ℕ)
            → lookup key m.elements ≡ o
            → u64 (held mine c m)
              ≡ u64 (
                  held mine c (delete_element false key m)
                  + (share mine key (measure c stats) + (elim o as (λ _. ℕ) [
                    | none ↦ 0
                    | some e ↦
                        share mine key (growth_since (measure c stats) (measure c (m.stats e)))
                  ])))
        go none e = absurd (there e)
        go (some i) e =
            let gone = total-remove mine (λ (e : ℕ). measure c (m.stats e)) key m.elements in
            ground (arith, (rw e at gone))

    delete-balance :
        (fails : Bool) (w : World)
        → IsBound w.collecting w.memory.elements
        → u64 (assets mine c n w + repeated mine c (delete fails) w)
          ≡ u64 (assets mine c n (step (delete fails) w) + unread mine c (delete fails) w)
    unfolding assets step repeated unread delete_entry delete_element repeated_by
    delete-balance fails w bound = go w.collecting bound
      where
        go :
            (s : Collecting)
            → IsBound s w.memory.elements
            → u64 (assets mine c n w + (if fails then repeated_by mine c s else 0))
              ≡ u64 (
                  assets mine c n (delete_entry fails s w)
                  + (if fails then 0 else unread_by mine c s w.memory))
        go reading b = ground (arith, unread_by_reading c w.memory)
        go (deleting key stats) b =
            let visit = λ (f : Bool).
              let v : Visit = record {
                key = key;
                stats = stats;
                deletion = deletion_of f key w.memory;
              } in
              visited-append c w.visits v in
            elim (Bool-cases fails) [
              | inl t ↦ rw t (omega (arith, visit true))
              | inr f ↦ rw f (omega (arith, visit false, unread-balance key stats w.memory b))
            ]

    read-balance :
        (key : ConnectionKey) (w : World) → assets mine c n (step (read key) w) ≡ assets mine c n w
    unfolding step read_entry assets
    read-balance key w = go w.collecting
      where
        go : (s : Collecting) → assets mine c n (read_entry key s w) ≡ assets mine c n w
        go (deleting k e) = refl
        go reading = ground arith

    -- Everything that leaves the accounts in one step.
    abbrev leaked : Move → World → ℕ
    leaked v w = skipped mine c v w + dropped mine c v w + stale mine c v w + unread mine c v w

    step-balance :
        (v : Move) (w : World)
        → IsAmong n v
        → IsSound w
        → u64 (assets mine c n w + (brought mine c v w + repeated mine c v w + alien mine c v w))
          ≡ u64 (assets mine c n (step v w) + leaked v w)
    unfolding brought repeated skipped dropped stale alien unread step
    step-balance (arrive cpu p) w h sound = ground (arith, arrive-balance cpu p w h)
    step-balance (go_on cpu a) w h sound =
        omega (arith, go_on-balance cpu a w h sound.elements-AreDistinct)
    step-balance (read key) w h sound = ground (arith, read-balance key w)
    step-balance (delete fails) w h sound =
        ground (arith, delete-balance fails w sound.collecting-IsBound)

    -- In any interleaving of calls of update_stats on n processors with the reads and deletions of the
    -- collector, from a state in which each key and each element stands once and the entry that the
    -- collector has read is in the map, the bytes and the packets of any part of the traffic that goes by
    -- keys balance modulo 2 ^ 64. On one side: what was in the map, on the processors, in the ring buffer
    -- and at the collector, what the packets bring, what is read though its deletion fails, and what other
    -- traffic adds to an element that was handed out anew. On the other: what is there at the end, and
    -- what is skipped on another interface, dropped for want of room in the ring buffer, added to an
    -- element that since its lookup was deleted or handed out to other traffic, or added to an entry
    -- between its reading and its deletion.
    pub run_moves-balance :
        (vs : List Move) (w : World)
        → All (IsAmong n) vs
        → IsSound w
        → u64 (
            assets mine c n w
            + along (brought mine c) vs w
            + along (repeated mine c) vs w
            + along (alien mine c) vs w)
          ≡ u64 (
              assets mine c n (run_moves vs w)
              + along (skipped mine c) vs w
              + along (dropped mine c) vs w
              + along (stale mine c) vs w
              + along (unread mine c) vs w)
    unfolding along run_moves
    run_moves-balance [] w h sound = omega arith
    run_moves-balance (v ∷ vs) w h sound = omega (
      arith,
      step-balance v w h.0 sound,
      run_moves-balance vs (step v w) h.1 (step-IsSound v w sound),
    )
