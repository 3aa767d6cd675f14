-- ===== src/Monitor/Concurrent/Progress.antt =====
-- A call of update_stats ends after a bounded number of its own steps, whatever the others do.
use kubeadapt_k8s_pulse.Prelude.{
  Bool, Bool-cases, List, Option, [], ap, arith, false, if◌then◌else◌, inl, inr, none, refl, some,
  true, ℕ, ◌+◌, ◌-◌, ◌==◌, ◌∷◌, ◌≡◌, ◌≤◌,
}
use kubeadapt_k8s_pulse.Bpf.Types.{ConnectionKey}
use kubeadapt_k8s_pulse.Monitor.Concurrent.{
  Answer, Collecting, Memory, Move, Processor, World, add_bytes, add_packet, arrive, arrive_on,
  compare_interface, delete, delete_entry, deleting, found, go_on, go_on_with, idle, insert_element,
  look_again, missing, read, read_entry, reading, report, run_moves, second_lookup, stamp, step,
  take_step,
}
use kubeadapt_k8s_pulse.Monitor.Concurrent.Solo.{IsFree}
use kubeadapt_k8s_pulse.Monitor.Flows.{Arrival, connection_keys}

-- How many steps a processor may still need.
abbrev pub rank : Processor → ℕ
rank idle = 0
rank (found p e) = 4
rank (missing p) = 5
rank (add_bytes p e) = 3
rank (add_packet p e) = 2
rank (stamp p e) = 1
rank (look_again p) = 4
rank (report reason p) = 1

insert_element-rank :
    (o : Option ℕ) (p : Arrival) (m : Memory)
    → IsFree o m.elements
    → rank (insert_element o p m).1 ≤ 4
unfolding insert_element
insert_element-rank none p m h = omega arith
insert_element-rank (some e) p m h = ground arith

take_step-rank :
    (a : Answer) (pc : Processor) (m : Memory)
    → IsFree a.element m.elements
    → rank (take_step a pc m).1 ≤ rank pc - 1
unfolding take_step compare_interface second_lookup
take_step-rank a idle m h = omega arith
take_step-rank a (found p e) m h = ground arith
take_step-rank a (missing p) m h = insert_element-rank a.element p m h
take_step-rank a (add_bytes p e) m h = omega arith
take_step-rank a (add_packet p e) m h = omega arith
take_step-rank a (stamp p e) m h = omega arith
take_step-rank a (look_again p) m h = ground arith
take_step-rank a (report reason p) m h = omega arith

rank-le : (pc : Processor) → rank pc ≤ 5
rank-le pc = ground arith

rank-idle : (pc : Processor) → rank pc ≤ 0 → pc ≡ idle
rank-idle idle h = refl
rank-idle pc h = absurd (omega arith)

-- The steps of a processor in an interleaving.
unfoldable pub steps_of : ℕ → List Move → ℕ
steps_of cpu [] = 0
steps_of cpu (go_on i a ∷ vs) = (if i == cpu then 1 else 0) + steps_of cpu vs
steps_of cpu (arrive i p ∷ vs) = steps_of cpu vs
steps_of cpu (read key ∷ vs) = steps_of cpu vs
steps_of cpu (delete fails ∷ vs) = steps_of cpu vs

module _ (cpu : ℕ) where
  -- No further packet comes in on the processor, and the kernel hands it no element in use.
  abbrev pub IsUndisturbed : Move → World → Type 0
  IsUndisturbed (arrive i p) w = (i == cpu) ≡ false
  IsUndisturbed (go_on i a) w = (i == cpu) ≡ true → IsFree a.element w.memory.elements
  IsUndisturbed (read key) w = Unit {0}
  IsUndisturbed (delete fails) w = Unit {0}

  abbrev pub AreUndisturbed : List Move → World → Type 0
  AreUndisturbed [] w = Unit {0}
  AreUndisturbed (v ∷ vs) w = IsUndisturbed v w × AreUndisturbed vs (step v w)

  arrive_on-other :
      (i : ℕ) (p : Arrival) (pc : Processor) (w : World)
      → (i == cpu) ≡ false
      → (arrive_on i p pc w).processors cpu ≡ w.processors cpu
  unfolding arrive_on
  arrive_on-other i p idle w h = rw h refl
  arrive_on-other i p pc w h = refl

  go_on_with-rank :
      (i : ℕ) (a : Answer) (w : World)
      → ((i == cpu) ≡ true → IsFree a.element w.memory.elements)
      → rank ((go_on_with i a w).processors cpu)
        ≤ rank (w.processors cpu) - (if i == cpu then 1 else 0)
  unfolding go_on_with
  go_on_with-rank i a w h = elim (Bool-cases (i == cpu)) [
    | inl t ↦
        let same : i ≡ cpu = ground arith in
        let now = ap w.processors same in
        rw t (rw (← now) (take_step-rank a (w.processors i) w.memory (h t)))
    | inr o ↦ rw o (omega arith)
  ]

  read_entry-processors :
      (key : ConnectionKey) (s : Collecting) (w : World)
      → (read_entry key s w).processors ≡ w.processors
  unfolding read_entry
  read_entry-processors key (deleting _ _) w = refl
  read_entry-processors key reading w = ground arith

  delete_entry-processors :
      (fails : Bool) (s : Collecting) (w : World)
      → (delete_entry fails s w).processors ≡ w.processors
  unfolding delete_entry
  delete_entry-processors fails reading w = refl
  delete_entry-processors fails (deleting key stats) w = refl

  step-rank :
      (v : Move) (w : World)
      → IsUndisturbed v w
      → rank ((step v w).processors cpu) ≤ rank (w.processors cpu) - steps_of cpu (v ∷ [])
  unfolding step steps_of
  step-rank (arrive i p) w h = omega (arith, ap rank (arrive_on-other i p (w.processors i) w h))
  step-rank (go_on i a) w h = omega (arith, go_on_with-rank i a w h)
  step-rank (read key) w h =
      omega
        (arith, ap (λ (f : ℕ → Processor). rank (f cpu)) (read_entry-processors key w.collecting w))
  step-rank (delete fails) w h = omega (
    arith,
    ap (λ (f : ℕ → Processor). rank (f cpu)) (delete_entry-processors fails w.collecting w),
  )

  steps_of-none : steps_of cpu [] ≡ 0
  unfolding steps_of
  steps_of-none = refl

  steps_of-first :
      (v : Move) (vs : List Move) → steps_of cpu (v ∷ vs) ≡ steps_of cpu (v ∷ []) + steps_of cpu vs
  unfolding steps_of
  steps_of-first (arrive i p) vs = omega arith
  steps_of-first (go_on i a) vs = omega arith
  steps_of-first (read key) vs = omega arith
  steps_of-first (delete fails) vs = omega arith

  run_moves-rank :
      (vs : List Move) (w : World)
      → AreUndisturbed vs w
      → rank ((run_moves vs w).processors cpu) ≤ rank (w.processors cpu) - steps_of cpu vs
  unfolding run_moves
  run_moves-rank [] w h = omega (arith, steps_of-none)
  run_moves-rank (v ∷ vs) w h =
      omega (arith, step-rank v w h.0, run_moves-rank vs (step v w) h.1, steps_of-first v vs)

  -- In any interleaving in which a processor takes five steps it ends its call of update_stats, wherever
  -- in the call it stood and whatever the other processors and the collector do in between, if no
  -- further packet comes in on it and the kernel hands it no element that is in use.
  pub run_moves-ends :
      (vs : List Move) (w : World)
      → AreUndisturbed vs w
      → 5 ≤ steps_of cpu vs
      → (run_moves vs w).processors cpu ≡ idle
  run_moves-ends vs w h enough =
      let end = (run_moves vs w).processors cpu in
      rank-idle end (omega (arith, run_moves-rank vs w h, rank-le (w.processors cpu)))
