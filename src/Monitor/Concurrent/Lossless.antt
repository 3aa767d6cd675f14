-- ===== src/Monitor/Concurrent/Lossless.antt =====
-- Calls of update_stats that overlap lose nothing while nothing is deleted.
use kubeadapt_k8s_pulse.Prelude.{
  All, Bool, List, Option, [], ap, arith, none, refl, some, ℕ, ◌+◌, ◌∙◌, ◌∷◌, ◌≡◌,
}
use kubeadapt_k8s_pulse.Prelude.Family.{sum_below}
use kubeadapt_k8s_pulse.Bpf.Types.{ConnectionKey}
use kubeadapt_k8s_pulse.Collector.Keys.{u64}
use kubeadapt_k8s_pulse.Monitor.Concurrent.{
  Answer, Collecting, Memory, Move, Processor, World, add_bytes, add_packet, arrive, arrive_on,
  delete, deleting, found, go_on, go_on_with, idle, insert_element, look_again, missing, read,
  read_entry, reading, report, run_moves, stamp, step, store, take_step,
}
use kubeadapt_k8s_pulse.Monitor.Concurrent.Balance.{IsAmong, run_moves-balance}
use kubeadapt_k8s_pulse.Monitor.Concurrent.Calm.{IsCalmMove, IsCounting, IsSettled}
use kubeadapt_k8s_pulse.Monitor.Concurrent.Deletions.{arrive_on-visits, read_entry-visits}
use kubeadapt_k8s_pulse.Monitor.Concurrent.Elements.{AreDistinct, lookup-is_used_for}
use kubeadapt_k8s_pulse.Monitor.Concurrent.Ledger.{
  Counted, alien, alien_by, along, assets, brought, dropped, dropped_by, held, in_flight, repeated,
  reported, skipped, skipped_by, stale, stale_by, unread, visited,
}
use kubeadapt_k8s_pulse.Monitor.Concurrent.Sound.{IsSound, step-IsSound}
use kubeadapt_k8s_pulse.Monitor.Concurrent.Steps.{IsCalm, step-IsCalm}
use kubeadapt_k8s_pulse.Monitor.Flows.{Arrival, connection_keys}

insert_element-events :
    (o : Option ℕ) (p : Arrival) (m : Memory) → (insert_element o p m).0.events ≡ m.events
unfolding insert_element
insert_element-events none p m = refl
insert_element-events (some e) p m = ground arith

arrive_on-events :
    (cpu : ℕ) (p : Arrival) (pc : Processor) (w : World)
    → (arrive_on cpu p pc w).memory.events ≡ w.memory.events
unfolding arrive_on
arrive_on-events cpu p idle w = refl
arrive_on-events cpu p pc w = refl

read_entry-events :
    (key : ConnectionKey) (s : Collecting) (w : World)
    → (read_entry key s w).memory.events ≡ w.memory.events
unfolding read_entry
read_entry-events key (deleting _ _) w = refl
read_entry-events key reading w = ground arith

module _ (iface : ConnectionKey → ℕ) where
  -- No account of a leak moves.
  leaks_zero :
      (mine : ConnectionKey → Bool) (c : Counted) (a : Answer) (pc : Processor) (m : Memory)
      → AreDistinct m.elements
      → IsCounting iface m
      → IsSettled iface m.elements pc
      → skipped_by mine c pc m
          + dropped_by mine c a pc
          + stale_by mine c pc m
          + alien_by mine c pc m
        ≡ 0
  unfolding skipped_by dropped_by stale_by alien_by
  leaks_zero mine c a idle m d k h = omega arith
  leaks_zero mine c a (found p e) m d k h = let first = k.own p.key e h.0 in ground arith
  leaks_zero mine c a (missing p) m d k h = omega arith
  leaks_zero mine c a (add_bytes p e) m d k h =
      ground (arith, lookup-is_used_for mine p.key e m.elements d h)
  leaks_zero mine c a (add_packet p e) m d k h =
      ground (arith, lookup-is_used_for mine p.key e m.elements d h)
  leaks_zero mine c a (stamp p e) m d k h = omega arith
  leaks_zero mine c a (look_again p) m d k h = omega arith
  leaks_zero mine c a (report reason p) m d k h = absurd h

  take_step-events :
      (a : Answer) (pc : Processor) (m : Memory)
      → IsSettled iface m.elements pc
      → (take_step a pc m).0.events ≡ m.events
  unfolding take_step store
  take_step-events a idle m h = refl
  take_step-events a (found p e) m h = refl
  take_step-events a (missing p) m h = insert_element-events a.element p m
  take_step-events a (add_bytes p e) m h = refl
  take_step-events a (add_packet p e) m h = refl
  take_step-events a (stamp p e) m h = refl
  take_step-events a (look_again p) m h = refl
  take_step-events a (report reason p) m h = absurd h

  -- What a step leaves alone, and that nothing leaks.
  record IsKeeping (mine : ConnectionKey → Bool) (c : Counted) (v : Move) (w : World) : Type 0 where
    events-eq : (step v w).memory.events ≡ w.memory.events
    visits-eq : (step v w).visits ≡ w.visits
    leak-eq :
        skipped mine c v w
          + dropped mine c v w
          + stale mine c v w
          + alien mine c v w
          + unread mine c v w
          + repeated mine c v w
        ≡ 0

  step-IsKeeping :
      (mine : ConnectionKey → Bool) (c : Counted) (v : Move) (w : World)
      → AreDistinct w.memory.elements
      → IsCalmMove iface v
      → IsCalm iface w
      → IsKeeping mine c v w
  unfolding step skipped dropped stale alien unread repeated go_on_with
  step-IsKeeping mine c (arrive cpu p) w d h calm = record {
    events-eq = arrive_on-events cpu p (w.processors cpu) w;
    visits-eq = arrive_on-visits cpu p (w.processors cpu) w;
    leak-eq = omega arith;
  }
  step-IsKeeping mine c (go_on cpu a) w d h calm = record {
    events-eq = take_step-events a (w.processors cpu) w.memory (calm.settled cpu);
    visits-eq = refl;
    leak-eq =
        omega (
          arith,
          leaks_zero mine c a (w.processors cpu) w.memory d calm.counting (calm.settled cpu),
        );
  }
  step-IsKeeping mine c (read key) w d h calm = record {
    events-eq = read_entry-events key w.collecting w;
    visits-eq = read_entry-visits key w.collecting w;
    leak-eq = omega arith;
  }
  step-IsKeeping mine c (delete fails) w d h calm = absurd h

  record AreKeeping (mine : ConnectionKey → Bool) (c : Counted) (vs : List Move) (w : World)
      : Type 0 where
    events-eq : (run_moves vs w).memory.events ≡ w.memory.events
    visits-eq : (run_moves vs w).visits ≡ w.visits
    leak-eq :
        along (skipped mine c) vs w
          + along (dropped mine c) vs w
          + along (stale mine c) vs w
          + along (alien mine c) vs w
          + along (unread mine c) vs w
          + along (repeated mine c) vs w
        ≡ 0

  run_moves-AreKeeping :
      (mine : ConnectionKey → Bool) (c : Counted) (vs : List Move) (w : World)
      → All (IsCalmMove iface) vs
      → IsSound w
      → IsCalm iface w
      → AreKeeping mine c vs w
  unfolding run_moves along
  run_moves-AreKeeping mine c [] w h sound calm = record {
    events-eq = refl;
    visits-eq = refl;
    leak-eq = omega arith;
  }
  run_moves-AreKeeping mine c (v ∷ vs) w h sound calm =
      let first = step-IsKeeping mine c v w sound.elements-AreDistinct h.0 calm in
      let rest =
        run_moves-AreKeeping mine c vs (step v w) h.1 (step-IsSound v w sound)
          (step-IsCalm iface v w h.0 calm) in
      record {
        events-eq = rest.events-eq ∙ first.events-eq;
        visits-eq = rest.visits-eq ∙ first.visits-eq;
        leak-eq = omega (arith, first.leak-eq, rest.leak-eq);
      }

  -- While the collector deletes nothing, every insertion is given an element and each flow comes in on
  -- one interface, calls of update_stats that overlap in any way lose nothing and count nothing twice,
  -- insertions of one key by several processors included. For any part of the traffic that goes by keys,
  -- in the map and on the processors there is at the end what was there before and what the packets
  -- bring, in bytes and in packets modulo 2 ^ 64; and no overflow event is submitted and nothing is
  -- handed to the collector. The state before is one in which each key and each element stands once,
  -- the entry that the collector has read is in the map, flows count on their interfaces, and a
  -- processor that holds an element holds its flow's and has nothing to report.
  pub run_moves-lossless :
      (mine : ConnectionKey → Bool) (c : Counted) (n : ℕ) (vs : List Move) (w : World)
      → All (IsAmong n) vs
      → All (IsCalmMove iface) vs
      → IsSound w
      → IsCalm iface w
      → let w' = run_moves vs w in
        (u64 (held mine c w'.memory + sum_below (in_flight mine c) n w'.processors)
          ≡ u64 (
              held mine c w.memory
              + sum_below (in_flight mine c) n w.processors
              + along (brought mine c) vs w))
        × (w'.memory.events ≡ w.memory.events)
        × (w'.visits ≡ w.visits)
  unfolding assets
  run_moves-lossless mine c n vs w among quiet sound calm =
      let kept = run_moves-AreKeeping mine c vs w quiet sound calm in
      let balance = run_moves-balance mine c n vs w among sound in
      (
        omega (
          arith,
          balance,
          kept.leak-eq,
          ap (reported mine c) kept.events-eq,
          ap (visited mine c) kept.visits-eq,
        ),
        kept.events-eq,
        kept.visits-eq,
      )
