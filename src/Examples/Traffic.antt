-- ===== src/Examples/Traffic.antt =====
-- The theorems on the kernel's map of flows and on its harvest, at a few packets.
use kubeadapt_k8s_pulse.Prelude.{List, [], arith, false, map, refl, true, ℕ, ◌+◌, ◌∷◌, ◌≡◌}
use kubeadapt_k8s_pulse.Prelude.GoMap.{lookup, put}
use kubeadapt_k8s_pulse.Prelude.Text.{codes, text_eq}
use kubeadapt_k8s_pulse.Prelude.Totals.{remove}
use kubeadapt_k8s_pulse.Collector.Cycle.{traffic_values}
use kubeadapt_k8s_pulse.Collector.Keys.{AggKey, u64}
use kubeadapt_k8s_pulse.Collector.Metrics.{add, connection_traffic_bytes}
use kubeadapt_k8s_pulse.Collector.Schedule.{collection_loop}
use kubeadapt_k8s_pulse.Collector.Schedule.Runs.{Round, ticks}
use kubeadapt_k8s_pulse.Collector.Series.{series}
use kubeadapt_k8s_pulse.Examples.Data.{connection, fresh, round, view, whole}
use kubeadapt_k8s_pulse.Examples.Flows.{kernel, kernel-IsRoomy, packet, start}
use kubeadapt_k8s_pulse.Monitor.Flows.{
  Arrival, Monitor, connection_key_eq, connection_keys, create, new_stats, receive_all,
  update_existing, update_stats,
}
use kubeadapt_k8s_pulse.Monitor.Flows.Room.{fits, receive_all-summary_within}
use kubeadapt_k8s_pulse.Monitor.Flows.Summary.{of_flow, summary}
use kubeadapt_k8s_pulse.Pipeline.{Turn, after_turn, delete_key, harvest}
use kubeadapt_k8s_pulse.Pipeline.Arrivals.{sent, waiting}
use kubeadapt_k8s_pulse.Pipeline.Leaks.{arrivals, lost, repeated}
use kubeadapt_k8s_pulse.Pipeline.Lossless.{run-lossless}
use kubeadapt_k8s_pulse.Pipeline.Room.{rounds_fit, run-balance}
use kubeadapt_k8s_pulse.Pipeline.Runs.{amounts, next_cycle, no_cycle, rounds_of, sum}

abbrev key : AggKey
key = record { src_ip = codes "10.0.0.1"; dst_ip = codes "10.0.0.2"; protocol = codes "tcp" }

-- A packet comes in between the reading of the first flow and its deletion; the second deletion fails.
abbrev leaking : List Turn
leaking =
    record {
      key = connection 40000 6;
      before = packet 40000 6 100 ∷ packet 40001 6 250 ∷ [];
      during = packet 40000 6 70 ∷ [];
      delete_fails = false;
    }
    ∷ record { key = connection 40001 6; before = []; during = []; delete_fails = true }
    ∷ []

-- The same flows, read and deleted without a leak.
abbrev clean : List Turn
clean =
    record {
      key = connection 40000 6;
      before = packet 40000 6 100 ∷ packet 40001 6 250 ∷ [];
      during = [];
      delete_fails = false;
    }
    ∷ record { key = connection 40001 6; before = []; during = []; delete_fails = false }
    ∷ []

clean_round : Round ℕ
clean_round = record round { view = record view { visits = (harvest kernel clean start).0 } }

clean-drained : (harvest kernel clean start).1.flows ≡ []
unfolding harvest after_turn delete_key receive_all update_stats create lookup put remove
    connection_key_eq
clean-drained = refl

clean-fits : rounds_fit 100_000 kernel (rounds_of (clean ∷ [])) start ≡ true
unfolding rounds_fit rounds_of fits after_turn delete_key receive_all update_stats create lookup put
    remove connection_key_eq
clean-fits = refl

run-lossless_example :
    (series connection_traffic_bytes
        (traffic_values key (codes "uid-1") (codes "node-1"))
        (collection_loop (ticks whole (codes "uid-1") (codes "node-1") (clean_round ∷ [])) fresh).1
      ≡ map (λ (n : ℕ). add n) (amounts key (clean_round ∷ [])))
    × (u64 (sum (amounts key (clean_round ∷ [])))
        ≡ u64 (sent key (arrivals (rounds_of (clean ∷ [])))))
unfolding text_eq arrivals rounds_of clean_round
run-lossless_example =
    run-lossless whole (codes "uid-1") (codes "node-1") key fresh (λ k. 3) 100_000 kernel
      (clean ∷ []) (clean_round ∷ []) start (harvest kernel clean start).1 kernel-IsRoomy clean-fits
      refl ((refl, omega arith), ((refl, omega arith), tt)) (next_cycle refl no_cycle) refl
      ((refl, refl), ((refl, refl), tt)) clean-drained

abbrev arrived : List Arrival
arrived = packet 40000 6 100 ∷ packet 40000 6 70 ∷ []

arrived-fits : fits 100_000 kernel arrived start ≡ true
unfolding fits update_stats create lookup put
arrived-fits = refl

receive_all-summary_within_example :
    lookup (connection 40000 6) (receive_all kernel arrived start).flows
    ≡ summary (of_flow (connection 40000 6) arrived)
receive_all-summary_within_example =
    receive_all-summary_within 100_000 kernel (connection 40000 6) arrived start kernel-IsRoomy
      arrived-fits refl (omega arith, (omega arith, tt))

-- Two cycles, the first with leaks.
abbrev run_rounds : List (Round ℕ)
run_rounds =
    record round { view = record view { visits = (harvest kernel leaking start).0 } }
    ∷ record round {
      view = record view { visits = (harvest kernel clean (harvest kernel leaking start).1).0 };
    }
    ∷ []

abbrev run_end : Monitor
run_end = (harvest kernel clean (harvest kernel leaking start).1).1

run-fits : rounds_fit 100_000 kernel (rounds_of (leaking ∷ clean ∷ [])) start ≡ true
unfolding rounds_fit rounds_of fits after_turn delete_key receive_all update_stats update_existing
    create lookup put remove connection_key_eq new_stats
run-fits = refl

run-balance_example :
    (series connection_traffic_bytes
        (traffic_values key (codes "uid-1") (codes "node-1"))
        (collection_loop (ticks whole (codes "uid-1") (codes "node-1") run_rounds) fresh).1
      ≡ map (λ (n : ℕ). add n) (amounts key run_rounds))
    × (u64 (
          sum (amounts key run_rounds)
          + waiting key run_end.flows
          + lost key kernel (rounds_of (leaking ∷ clean ∷ [])) start)
        ≡ u64 (
            sent key (arrivals (rounds_of (leaking ∷ clean ∷ [])))
            + repeated key kernel (rounds_of (leaking ∷ clean ∷ [])) start))
unfolding text_eq arrivals rounds_of
run-balance_example =
    run-balance whole (codes "uid-1") (codes "node-1") key fresh (λ k. 3) 100_000 kernel
      (leaking ∷ clean ∷ []) run_rounds start run_end kernel-IsRoomy run-fits refl
      (
        (refl, omega arith),
        (
          (refl, omega arith),
          ((refl, omega arith), ((refl, omega arith), ((refl, omega arith), tt))),
        ),
      )
      (next_cycle refl (next_cycle refl no_cycle)) refl
