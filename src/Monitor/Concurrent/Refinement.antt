-- ===== src/Monitor/Concurrent/Refinement.antt =====
-- update_stats in one piece is an interleaving of its own steps: the model of Flows.antt refines to the
-- moves of Concurrent.antt.
use kubeadapt_k8s_pulse.Prelude.{List, [], ap, arith, refl, suc, zero, ℕ, ◌∙◌, ◌∷◌, ◌≡◌}
use kubeadapt_k8s_pulse.Prelude.Family.{set_at}
use kubeadapt_k8s_pulse.Monitor.Concurrent.{
  Answer, Memory, Move, Processor, World, arrive, arrive_on, first_lookup, go_on, go_on_with, idle,
  run_moves, step, take_step,
}
use kubeadapt_k8s_pulse.Monitor.Concurrent.Solo.{IsFree, alone, call, call-update_stats, steps}
use kubeadapt_k8s_pulse.Monitor.Concurrent.Sound.{IsSound}
use kubeadapt_k8s_pulse.Monitor.Concurrent.View.{as_monitor}
use kubeadapt_k8s_pulse.Monitor.Flows.{Arrival, Monitor, connection_keys, update_stats}

-- A number of steps of one processor, as moves.
unfoldable pub go_ons : ℕ → ℕ → Answer → List Move
go_ons zero cpu a = []
go_ons (suc n) cpu a = go_on cpu a ∷ go_ons n cpu a

-- The packet comes in and its processor takes its steps.
unfoldable pub whole_call : ℕ → Answer → Arrival → List Move
whole_call cpu a p = arrive cpu p ∷ go_ons 4 cpu a

set_at_self : (i : ℕ) (pc : Processor) (f : ℕ → Processor) → set_at i pc f i ≡ pc
set_at_self i pc f = ground arith

go_ons-steps :
    (n cpu : ℕ) (a : Answer) (w : World)
    → let w' = run_moves (go_ons n cpu a) w in
      ((w'.memory, w'.processors cpu) ≡ steps n a w.memory (w.processors cpu))
      × (w'.visits ≡ w.visits)
unfolding go_ons run_moves steps step go_on_with
go_ons-steps zero cpu a w = (refl, refl)
go_ons-steps (suc n) cpu a w =
    let next = take_step a (w.processors cpu) w.memory in
    let (ih, same) = go_ons-steps n cpu a (go_on_with cpu a w) in
    (ih ∙ ap (steps n a next.0) (set_at_self cpu next.1 w.processors), same)

run_moves_first :
    (v : Move) (vs : List Move) (w : World) → run_moves (v ∷ vs) w ≡ run_moves vs (step v w)
unfolding run_moves
run_moves_first v vs w = refl

started :
    (cpu : ℕ) (p : Arrival) (w : World)
    → w.processors cpu ≡ idle
    → step (arrive cpu p) w
      ≡ record w { processors = set_at cpu (first_lookup p w.memory) w.processors }
unfolding step arrive_on
started cpu p w free = rw free refl

-- From any state in which the processor is free, the five moves that a packet makes without
-- interruption end with the processor free, have the effect of update_stats on the map, the ring buffer and the
-- counters, and leave what the collector has read as it was. The kernel hands out no element in use.
pub whole_call-update_stats :
    (s : Monitor) (cpu : ℕ) (a : Answer) (p : Arrival) (w : World)
    → IsSound w
    → w.processors cpu ≡ idle
    → IsFree a.element w.memory.elements
    → let w' = run_moves (whole_call cpu a p) w in
      (as_monitor s w'.memory ≡ update_stats (alone a) p (as_monitor s w.memory))
      × (w'.processors cpu ≡ idle)
      × (w'.visits ≡ w.visits)
unfolding whole_call call
whole_call-update_stats s cpu a p w sound free room =
    let begun = started cpu p w free in
    let (ends, same) =
      go_ons-steps 4 cpu a
        (record w { processors = set_at cpu (first_lookup p w.memory) w.processors }) in
    let ends' =
      ends ∙ ap (steps 4 a w.memory) (set_at_self cpu (first_lookup p w.memory) w.processors) in
    let (view, done) = call-update_stats a p s w.memory sound.elements-AreDistinct room in
    rw (run_moves_first (arrive cpu p) (go_ons 4 cpu a) w) (
      rw begun (
        ap (λ (x : Memory × Processor). as_monitor s x.0) ends' ∙ view,
        ap (λ (x : Memory × Processor). x.1) ends' ∙ done,
        same,
      ))
