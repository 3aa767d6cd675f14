-- ===== src/Monitor/Concurrent/Insertion.antt =====
-- The three outcomes of an insertion that is given an element.
use kubeadapt_k8s_pulse.Prelude.{
  Bool-cases, Option, false, if◌then◌else◌, inl, inr, none, refl, some, ℕ, ◌≡◌, ◌≢◌,
}
use kubeadapt_k8s_pulse.Prelude.Family.{set_at}
use kubeadapt_k8s_pulse.Prelude.GoMap.{lookup, put}
use kubeadapt_k8s_pulse.Monitor.Concurrent.{
  Memory, Processor, idle, insert_element, is_used, look_again, missing,
}
use kubeadapt_k8s_pulse.Monitor.Flows.{Arrival, connection_keys, new_stats}

-- The state after the insertion of a free element.
abbrev pub with_new : ℕ → Arrival → Memory → Memory
with_new e p m = record m {
  elements = put p.key e m.elements;
  stats = set_at e (new_stats p) m.stats;
}

pub data Insertion (e : ℕ) (p : Arrival) (m : Memory) : Memory × Processor → Type 0 where
  overtaken : lookup p.key m.elements ≢ none → Insertion e p m (m, look_again p)
  in_use : Insertion e p m (m, missing p)
  done :
      lookup p.key m.elements ≡ none
      → is_used e m.elements ≡ false
      → Insertion e p m (with_new e p m, idle)

pub insertion : (e : ℕ) (p : Arrival) (m : Memory) → Insertion e p m (insert_element (some e) p m)
unfolding insert_element
insertion e p m = go (lookup p.key m.elements) refl
  where
    go :
        (o : Option ℕ)
        → lookup p.key m.elements ≡ o
        → Insertion e p m (elim o as (λ _. Memory × Processor) [
          | some other ↦ (m, look_again p)
          | none ↦ if is_used e m.elements then (m, missing p) else (with_new e p m, idle)
        ])
    go (some other) q = overtaken (λ (gone : lookup p.key m.elements ≡ none). cc)
    go none q = elim (Bool-cases (is_used e m.elements)) [
      | inl t ↦ rw t in_use
      | inr f ↦ rw f (done q f)
    ]
