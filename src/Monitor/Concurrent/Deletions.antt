-- ===== src/Monitor/Concurrent/Deletions.antt =====
-- What the deletions of the collector answer.
use kubeadapt_k8s_pulse.Prelude.{All, Bool, List, [], arith, none, refl, ℕ, ◌++◌, ◌∷◌, ◌≡◌, ◌≢◌}
use kubeadapt_k8s_pulse.Prelude.GoMap.{lookup}
use kubeadapt_k8s_pulse.Bpf.Types.{ConnectionKey}
use kubeadapt_k8s_pulse.Collector.Cycle.Reading.{Visit, not_found}
use kubeadapt_k8s_pulse.Monitor.Concurrent.{
  Collecting, Memory, Move, Processor, World, arrive, arrive_on, delete, delete_entry, deleting,
  deletion_of, go_on, go_on_with, read, read_entry, reading, run_moves, step,
}
use kubeadapt_k8s_pulse.Monitor.Concurrent.Sound.{IsBound, IsSound, step-IsSound}
use kubeadapt_k8s_pulse.Monitor.Flows.{Arrival, connection_keys}

abbrev pub WasThere : Visit → Type 0
WasThere v = v.deletion ≢ not_found

deletion_of-ne-not_found :
    (fails : Bool) (key : ConnectionKey) (m : Memory)
    → lookup key m.elements ≢ none
    → deletion_of fails key m ≢ not_found
unfolding deletion_of
deletion_of-ne-not_found fails key m h = ground arith

All-snoc {ℓ κ} :
    {A : Type ℓ} (P : A → Type κ) (xs : List A) (x : A) → All P xs → P x → All P (xs ++ x ∷ [])
All-snoc P [] x h p = (p, tt)
All-snoc P (y ∷ xs) x h p = (h.0, All-snoc P xs x h.1 p)

delete_entry-WasThere :
    (fails : Bool) (s : Collecting) (w : World)
    → IsBound s w.memory.elements
    → All WasThere w.visits
    → All WasThere (delete_entry fails s w).visits
unfolding delete_entry
delete_entry-WasThere fails reading w b h = h
delete_entry-WasThere fails (deleting key stats) w b h =
    All-snoc WasThere w.visits
      (record { key = key; stats = stats; deletion = deletion_of fails key w.memory }) h
      (deletion_of-ne-not_found fails key w.memory b)

pub arrive_on-visits :
    (cpu : ℕ) (p : Arrival) (pc : Processor) (w : World) → (arrive_on cpu p pc w).visits ≡ w.visits
unfolding arrive_on
arrive_on-visits cpu p Processor.idle w = refl
arrive_on-visits cpu p pc w = refl

pub read_entry-visits :
    (key : ConnectionKey) (s : Collecting) (w : World) → (read_entry key s w).visits ≡ w.visits
unfolding read_entry
read_entry-visits key (deleting _ _) w = refl
read_entry-visits key reading w = ground arith

step-WasThere :
    (v : Move) (w : World) → IsSound w → All WasThere w.visits → All WasThere (step v w).visits
unfolding step go_on_with
step-WasThere (arrive cpu p) w s h = rw (arrive_on-visits cpu p (w.processors cpu) w) h
step-WasThere (go_on cpu a) w s h = h
step-WasThere (read key) w s h = rw (read_entry-visits key w.collecting w) h
step-WasThere (delete fails) w s h =
    delete_entry-WasThere fails w.collecting w s.collecting-IsBound h

-- In no interleaving does a deletion of the collector find its key gone, if before it each key and each
-- element stood once, the entry that the collector had read was in the map and no deletion had found its
-- key gone: only the collector deletes.
pub run_moves-WasThere :
    (vs : List Move) (w : World)
    → IsSound w
    → All WasThere w.visits
    → All WasThere (run_moves vs w).visits
unfolding run_moves
run_moves-WasThere [] w s h = h
run_moves-WasThere (v ∷ vs) w s h =
    run_moves-WasThere vs (step v w) (step-IsSound v w s) (step-WasThere v w s h)
