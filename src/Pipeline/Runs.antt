-- ===== src/Pipeline/Runs.antt =====
-- Whole runs of the agent: cycle after cycle on one map, and what they add to the counters.
use kubeadapt_k8s_pulse.Prelude.{
  Bool-cases, List, [], ap, arith, if◌then◌else◌, inl, inr, map, refl, sym, ℕ, ◌++◌, ◌+◌, ◌∙◌, ◌∷◌,
  ◌≡◌,
}
use kubeadapt_k8s_pulse.Prelude.Text.{Text}
use kubeadapt_k8s_pulse.Collector.Cycle.Totals.{flow_bytes, is_seen, unseen}
use kubeadapt_k8s_pulse.Collector.Keys.{AggKey, u64}
use kubeadapt_k8s_pulse.Collector.Metrics.{FloatOps, add}
use kubeadapt_k8s_pulse.Collector.Schedule.Runs.{Round, all_visits, increments}
use kubeadapt_k8s_pulse.Monitor.Flows.{Kernel, Monitor, connection_keys}
use kubeadapt_k8s_pulse.Pipeline.{Turn, Visit, after_turn, harvest, yielded}
use kubeadapt_k8s_pulse.Pipeline.Conservation.{flow_bytes-append}
use mathlib.Core.List.{append_assoc}

-- The cycles of a run, each with the rounds of its loop: the collector reads what the loop yields, and the
-- next cycle finds the map that this one leaves.
pub data IsRun {F : Type 0} (k : Kernel)
    : Monitor → List (List Turn) → List (Round F) → Monitor → Type 0 where
  no_cycle : {s : Monitor} → IsRun k s [] [] s
  next_cycle :
      {s s' : Monitor} {ts : List Turn} {tss : List (List Turn)} {r : Round F} {rs : List (Round F)}
      → r.view.visits ≡ (harvest k ts s).0
      → IsRun k (harvest k ts s).1 tss rs s'
      → IsRun k s (ts ∷ tss) (r ∷ rs) s'

-- All rounds of a run.
unfoldable pub rounds_of : List (List Turn) → List Turn
rounds_of [] = []
rounds_of (ts ∷ tss) = ts ++ rounds_of tss

-- What the cycles in which a key is seen add to its counter.
unfoldable pub amounts : {F : Type 0} → AggKey → List (Round F) → List ℕ
amounts a [] = []
amounts a (r ∷ rs) =
    (if is_seen a r.view.visits then u64 (flow_bytes a r.view.visits) ∷ [] else []) ++ amounts a rs

unfoldable pub sum : List ℕ → ℕ
sum [] = 0
sum (n ∷ ns) = n + sum ns

harvest-append :
    (k : Kernel) (ts us : List Turn) (s : Monitor)
    → harvest k (ts ++ us) s ≡ (
      (harvest k ts s).0 ++ (harvest k us (harvest k ts s).1).0,
      (harvest k us (harvest k ts s).1).1,
    )
unfolding harvest
harvest-append k [] us s = refl
harvest-append k (t ∷ ts) us s =
    let rest = harvest-append k ts us (after_turn k t s) in
    let last = (harvest k us (harvest k ts (after_turn k t s)).1) in
    ap (λ (h : List Visit × Monitor). (yielded k t s ++ h.0, h.1)) rest
    ∙ ap (λ (visits : List Visit). (visits, last.1))
        (sym (append_assoc (yielded k t s) (harvest k ts (after_turn k t s)).0 last.0))

pub run-harvest :
    {F : Type 0} {k : Kernel} {s s' : Monitor} {tss : List (List Turn)} {rs : List (Round F)}
    → IsRun k s tss rs s'
    → (all_visits rs, s') ≡ harvest k (rounds_of tss) s
unfolding all_visits rounds_of harvest
run-harvest no_cycle = refl
run-harvest {k} {s} (next_cycle {ts} {tss} read run) =
    rw (read, harvest-append k ts (rounds_of tss) s)
      (ap (λ (h : List Visit × Monitor). ((harvest k ts s).0 ++ h.0, h.1)) (run-harvest run))

pub sum-amounts :
    {F : Type 0} (a : AggKey) (rs : List (Round F))
    → u64 (sum (amounts a rs)) ≡ u64 (flow_bytes a (all_visits rs))
unfolding amounts sum all_visits flow_bytes
sum-amounts a [] = refl
sum-amounts a (r ∷ rs) = elim (Bool-cases (is_seen a r.view.visits)) [
  | inl t ↦
      rw t (omega (arith, flow_bytes-append a r.view.visits (all_visits rs), sum-amounts a rs))
  | inr f ↦ rw f (
      omega (
        arith,
        flow_bytes-append a r.view.visits (all_visits rs),
        sum-amounts a rs,
        (unseen a r.view.visits f).0,
      ))
]

module _ {F : Type 0} (float : FloatOps F) (uid node : Text) where
  pub increments-amounts :
      (a : AggKey) (rs : List (Round F))
      → increments float uid node a rs ≡ map (λ (n : ℕ). add (float.of_ℕ n)) (amounts a rs)
  unfolding increments amounts
  increments-amounts a [] = refl
  increments-amounts a (r ∷ rs) = elim (Bool-cases (is_seen a r.view.visits)) [
    | inl t ↦ rw (t, increments-amounts a rs) refl
    | inr f ↦ rw (f, increments-amounts a rs) refl
  ]
