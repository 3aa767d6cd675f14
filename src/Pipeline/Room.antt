-- ===== src/Pipeline/Room.antt =====
-- Whole runs on a map of flows that does not fill up.
use kubeadapt_k8s_pulse.Prelude.{
  All, Bool, List, [], ap, arith, false, if◌then◌else◌, map, none, refl, some, sym, true, ℕ, ◌&&◌,
  ◌++◌, ◌+◌, ◌∙◌, ◌∷◌, ◌≡◌,
}
use kubeadapt_k8s_pulse.Prelude.GoMap.{lookup}
use kubeadapt_k8s_pulse.Prelude.Text.{Text, text_eq}
use kubeadapt_k8s_pulse.Prelude.Totals.{total}
use kubeadapt_k8s_pulse.Bpf.Types.{ConnectionKey}
use kubeadapt_k8s_pulse.Collector.Cycle.{ConnectionCollector, traffic_values}
use kubeadapt_k8s_pulse.Collector.Cycle.Totals.{flow_bytes}
use kubeadapt_k8s_pulse.Collector.Keys.{AggKey, u64}
use kubeadapt_k8s_pulse.Collector.Metrics.{FloatOps, add, connection_traffic_bytes}
use kubeadapt_k8s_pulse.Collector.Schedule.{collection_loop}
use kubeadapt_k8s_pulse.Collector.Schedule.Runs.{Round, collection_loop-increments, ticks}
use kubeadapt_k8s_pulse.Collector.Series.{series}
use kubeadapt_k8s_pulse.Monitor.Flows.{Kernel, Monitor, connection_keys, receive_all}
use kubeadapt_k8s_pulse.Monitor.Flows.Room.{
  IsRoomy, both_true, fits, receive_all-unbounded, unbounded, unbounded-IsQuiet,
}
use kubeadapt_k8s_pulse.Monitor.Flows.Summary.{of_flow}
use kubeadapt_k8s_pulse.Pipeline.{Turn, Visit, after_turn, answer, delete_key, harvest, yielded}
use kubeadapt_k8s_pulse.Pipeline.Arrivals.{IsArrival, IsOwned, sent, waiting, weight}
use kubeadapt_k8s_pulse.Pipeline.Conservation.{harvest-balance}
use kubeadapt_k8s_pulse.Pipeline.Delivery.{empty-IsOwned}
use kubeadapt_k8s_pulse.Pipeline.Leaks.{arrivals, lost, lost_turn, repeated, repeated_turn}
use kubeadapt_k8s_pulse.Pipeline.Runs.{
  IsRun, amounts, increments-amounts, rounds_of, run-harvest, sum, sum-amounts,
}
use mathlib.Core.Path.{subst}

-- Every packet of the rounds finds the map with fewer than its maximum of entries.
unfoldable pub rounds_fit : ℕ → Kernel → List Turn → Monitor → Bool
rounds_fit max k [] s = true
rounds_fit max k (t ∷ ts) s =
    fits max k t.before s
    && (fits max k t.during (receive_all k t.before s) && rounds_fit max k ts (after_turn k t s))

turn_end : Turn → Monitor → Monitor → Monitor
turn_end t read meanwhile = elim (lookup t.key read.flows) [
  | none ↦ meanwhile
  | some stats ↦ record meanwhile { flows = delete_key t meanwhile.flows }
]

module _ (max : ℕ) (k : Kernel) (roomy : IsRoomy max k) where
  module _ (t : Turn) (s : Monitor) (before : fits max k t.before s ≡ true)
      (during : fits max k t.during (receive_all k t.before s) ≡ true) where
    read-unbounded : receive_all k t.before s ≡ receive_all (unbounded k) t.before s
    read-unbounded = receive_all-unbounded max k roomy t.before s before

    meanwhile-unbounded :
        receive_all k t.during (receive_all k t.before s)
        ≡ receive_all (unbounded k) t.during (receive_all (unbounded k) t.before s)
    meanwhile-unbounded =
        receive_all-unbounded max k roomy t.during (receive_all k t.before s) during
        ∙ ap (receive_all (unbounded k) t.during) read-unbounded

    after_turn-unbounded : after_turn k t s ≡ after_turn (unbounded k) t s
    unfolding after_turn turn_end
    after_turn-unbounded =
        ap (λ (read : Monitor). turn_end t read (receive_all k t.during (receive_all k t.before s)))
          read-unbounded
        ∙ ap (turn_end t (receive_all (unbounded k) t.before s)) meanwhile-unbounded

    yielded-unbounded : yielded k t s ≡ yielded (unbounded k) t s
    unfolding yielded
    yielded-unbounded =
        ap
          (λ (read : Monitor). elim (lookup t.key read.flows) as (λ _. List Visit) [
            | none ↦ []
            | some stats ↦
                record { key = t.key; stats = stats; deletion = answer t.delete_fails } ∷ []
          ])
          read-unbounded

    lost_turn-unbounded : (a : AggKey) → lost_turn a k t s ≡ lost_turn a (unbounded k) t s
    unfolding lost_turn
    lost_turn-unbounded a =
        ap
          (λ (read : Monitor). elim (lookup t.key read.flows) as (λ _. ℕ) [
            | none ↦ 0
            | some stats ↦ if t.delete_fails then 0 else sent a (of_flow t.key t.during)
          ])
          read-unbounded

    repeated_turn-unbounded :
        (a : AggKey) → repeated_turn a k t s ≡ repeated_turn a (unbounded k) t s
    unfolding repeated_turn
    repeated_turn-unbounded a =
        ap
          (λ (read : Monitor). elim (lookup t.key read.flows) as (λ _. ℕ) [
            | none ↦ 0
            | some stats ↦ if t.delete_fails && weight a t.key then stats.bytes else 0
          ])
          read-unbounded

  -- What a loop does and loses is the same on the map that is never full.
  harvest-unbounded :
      (a : AggKey) (ts : List Turn) (s : Monitor)
      → rounds_fit max k ts s ≡ true
      → (harvest k ts s ≡ harvest (unbounded k) ts s)
        × (lost a k ts s ≡ lost a (unbounded k) ts s)
        × (repeated a k ts s ≡ repeated a (unbounded k) ts s)
  unfolding harvest lost repeated rounds_fit
  harvest-unbounded a [] s h = (refl, refl, refl)
  harvest-unbounded a (t ∷ ts) s h =
      let (before, rest) = both_true (fits max k t.before s) _ h in
      let (during, later) = both_true (fits max k t.during (receive_all k t.before s)) _ rest in
      let (harvests, loses, repeats) = harvest-unbounded a ts (after_turn k t s) later in
      let after = after_turn-unbounded t s before during in
      let harvests_on = ap (harvest (unbounded k) ts) after in
      let loses_on = ap (lost a (unbounded k) ts) after in
      let repeats_on = ap (repeated a (unbounded k) ts) after in
      (
        ap (λ (h : List Visit × Monitor). (yielded k t s ++ h.0, h.1)) (harvests ∙ harvests_on)
            ∙ ap
                (λ (visits : List Visit).
                  let (later_visits, left) =
                    harvest (unbounded k) ts (after_turn (unbounded k) t s) in
                  (visits ++ later_visits, left))
                (yielded-unbounded t s before during),
        omega (arith, loses, loses_on, lost_turn-unbounded t s before during a),
        omega (arith, repeats, repeats_on, repeated_turn-unbounded t s before during a),
      )

module _ {F : Type 0} (float : FloatOps F) (uid node : Text) where
  -- A whole run of an agent that knows its pod, from an empty map, when calls of the eBPF program do not
  -- overlap, every packet finds the map with fewer entries than its maximum and each flow comes in on one
  -- interface, in packets of less than 2 ^ 64 bytes: the byte counter of each source, destination and protocol gets one addition for each
  -- cycle in which the key is seen, and these additions, with what is left in the map at the end and
  -- what deletions have taken along unread, are all that the packets of the run have sent and what was
  -- read twice, modulo 2 ^ 64.
  pub run-balance :
      (a : AggKey) (c : ConnectionCollector) (iface : ConnectionKey → ℕ) (max : ℕ) (k : Kernel)
      (tss : List (List Turn)) (rs : List (Round F)) (s s' : Monitor)
      → IsRoomy max k
      → rounds_fit max k (rounds_of tss) s ≡ true
      → s.flows ≡ []
      → All (IsArrival iface) (arrivals (rounds_of tss))
      → IsRun k s tss rs s'
      → text_eq uid [] ≡ false
      → (series connection_traffic_bytes
            (traffic_values a uid node)
            (collection_loop (ticks float uid node rs) c).1
          ≡ map (λ (n : ℕ). add (float.of_ℕ n)) (amounts a rs))
        × (u64 (sum (amounts a rs) + waiting a s'.flows + lost a k (rounds_of tss) s)
            ≡ u64 (sent a (arrivals (rounds_of tss)) + repeated a k (rounds_of tss) s))
  unfolding total
  run-balance a c iface max k tss rs s s' roomy room empty on run named =
      let owned = subst (IsOwned iface) (sym empty) (empty-IsOwned iface) in
      let balance =
        harvest-balance iface (unbounded k) (unbounded-IsQuiet max k roomy) a (rounds_of tss) s
          owned on in
      let (harvests, loses, repeats) = harvest-unbounded max k roomy a (rounds_of tss) s room in
      let same = run-harvest run ∙ harvests in
      (
        collection_loop-increments float uid node a rs c named
            ∙ increments-amounts float uid node a rs,
        omega (
          arith,
          balance,
          loses,
          repeats,
          sum-amounts a rs,
          ap (λ (h : List Visit × Monitor). flow_bytes a h.0) same,
          ap (λ (h : List Visit × Monitor). waiting a h.1.flows) same,
          ap (waiting a) empty,
        ),
      )
