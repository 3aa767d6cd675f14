-- ===== src/Pipeline/Lossless.antt =====
-- The loop without the two leaks.
use kubeadapt_k8s_pulse.Prelude.{
  All, List, [], ap, arith, false, if◌then◌else◌, map, none, refl, some, true, ℕ, ◌&&◌, ◌+◌, ◌∷◌,
  ◌≡◌,
}
use kubeadapt_k8s_pulse.Prelude.Text.{Text, text_eq}
use kubeadapt_k8s_pulse.Prelude.Totals.{total}
use kubeadapt_k8s_pulse.Bpf.Types.{ConnectionKey}
use kubeadapt_k8s_pulse.Collector.Cycle.{ConnectionCollector, traffic_values}
use kubeadapt_k8s_pulse.Collector.Keys.{AggKey, u64}
use kubeadapt_k8s_pulse.Collector.Metrics.{FloatOps, add, connection_traffic_bytes}
use kubeadapt_k8s_pulse.Collector.Schedule.{collection_loop}
use kubeadapt_k8s_pulse.Collector.Schedule.Runs.{Round, ticks}
use kubeadapt_k8s_pulse.Collector.Series.{series}
use kubeadapt_k8s_pulse.Monitor.Flows.{Kernel, Monitor, connection_keys, receive_all}
use kubeadapt_k8s_pulse.Monitor.Flows.Room.{IsRoomy}
use kubeadapt_k8s_pulse.Monitor.Flows.Summary.{of_flow}
use kubeadapt_k8s_pulse.Pipeline.{Turn, after_turn, lookup}
use kubeadapt_k8s_pulse.Pipeline.Arrivals.{IsArrival, sent, waiting, weight}
use kubeadapt_k8s_pulse.Pipeline.Leaks.{arrivals, lost, lost_turn, repeated, repeated_turn}
use kubeadapt_k8s_pulse.Pipeline.Room.{rounds_fit, run-balance}
use kubeadapt_k8s_pulse.Pipeline.Runs.{IsRun, amounts, rounds_of, sum}

-- No packet comes in between a reading and its deletion, and the deletion works.
abbrev pub IsClean : Turn → Type 0
IsClean t = (t.during ≡ []) × (t.delete_fails ≡ false)

lost-clean :
    (a : AggKey) (k : Kernel) (ts : List Turn) (s : Monitor) → All IsClean ts → lost a k ts s ≡ 0
unfolding lost lost_turn sent of_flow
lost-clean a k [] s h = refl
lost-clean a k (t ∷ ts) s ((alone, works), h) =
    elim (lookup t.key (receive_all k t.before s).flows)
      as (λ found.
        (elim found as (λ _. ℕ) [
          | none ↦ 0
          | some stats ↦ if t.delete_fails then 0 else sent a (of_flow t.key t.during)
        ])
          + lost a k ts (after_turn k t s)
        ≡ 0) [
          | none ↦ omega (arith, lost-clean a k ts (after_turn k t s) h)
          | some stats ↦ rw (lost-clean a k ts (after_turn k t s) h, works, alone) (omega arith)
        ]

repeated-clean :
    (a : AggKey) (k : Kernel) (ts : List Turn) (s : Monitor)
    → All IsClean ts
    → repeated a k ts s ≡ 0
unfolding repeated repeated_turn
repeated-clean a k [] s h = refl
repeated-clean a k (t ∷ ts) s ((alone, works), h) =
    elim (lookup t.key (receive_all k t.before s).flows)
      as (λ found.
        (elim found as (λ _. ℕ) [
          | none ↦ 0
          | some stats ↦ if t.delete_fails && weight a t.key then stats.bytes else 0
        ])
          + repeated a k ts (after_turn k t s)
        ≡ 0) [
          | none ↦ omega (arith, repeated-clean a k ts (after_turn k t s) h)
          | some stats ↦ rw (repeated-clean a k ts (after_turn k t s) h, works) (omega arith)
        ]

-- A whole run of an agent that knows its pod, from an empty map to an empty map, when calls of the eBPF
-- program do not overlap, every packet finds the map with fewer entries than its maximum and each flow comes
-- in on one interface, in packets of less than 2 ^ 64 bytes: if no packet comes in between the reading of a key and its deletion and no deletion
-- fails, the byte counter of each source, destination and protocol gets one addition for each cycle in
-- which the key is seen, and the additions sum to the bytes of its packets, modulo 2 ^ 64.
pub run-lossless :
    {F : Type 0} (float : FloatOps F) (uid node : Text) (a : AggKey) (c : ConnectionCollector)
    (iface : ConnectionKey → ℕ) (max : ℕ) (k : Kernel) (tss : List (List Turn))
    (rs : List (Round F)) (s s' : Monitor)
    → IsRoomy max k
    → rounds_fit max k (rounds_of tss) s ≡ true
    → s.flows ≡ []
    → All (IsArrival iface) (arrivals (rounds_of tss))
    → IsRun k s tss rs s'
    → text_eq uid [] ≡ false
    → All IsClean (rounds_of tss)
    → s'.flows ≡ []
    → (series connection_traffic_bytes
          (traffic_values a uid node)
          (collection_loop (ticks float uid node rs) c).1
        ≡ map (λ (n : ℕ). add (float.of_ℕ n)) (amounts a rs))
      × (u64 (sum (amounts a rs)) ≡ u64 (sent a (arrivals (rounds_of tss))))
unfolding total
run-lossless float uid node a c iface max k tss rs s s' roomy room empty on run named clean
      drained =
    let (added, balance) =
      run-balance float uid node a c iface max k tss rs s s' roomy room empty on run named in
    (
      added,
      omega (
        arith,
        balance,
        lost-clean a k (rounds_of tss) s clean,
        repeated-clean a k (rounds_of tss) s clean,
        ap (waiting a) drained,
      ),
    )
