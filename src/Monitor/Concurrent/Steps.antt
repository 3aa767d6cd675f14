-- ===== src/Monitor/Concurrent/Steps.antt =====
-- Every move that deletes nothing keeps what calm states have in common.
use kubeadapt_k8s_pulse.Prelude.{Bool-cases, List, Option, inl, inr, none, some, ℕ, ◌==◌, ◌≡◌, ◌≢◌}
use kubeadapt_k8s_pulse.Prelude.Family.{set_at}
use kubeadapt_k8s_pulse.Prelude.GoMap.{lookup}
use kubeadapt_k8s_pulse.Bpf.Types.{ConnectionKey}
use kubeadapt_k8s_pulse.Monitor.Concurrent.{
  Answer, Collecting, Move, Processor, World, arrive, arrive_on, delete, deleting, first_lookup,
  go_on, go_on_with, idle, read, read_entry, reading, step, take_step,
}
use kubeadapt_k8s_pulse.Monitor.Concurrent.Calm.{
  Growth-IsSettled, IsCalmMove, IsCounting, IsSettled, first_lookup-IsSettled, take_step-IsCounting,
  take_step-IsSettled,
}
use kubeadapt_k8s_pulse.Monitor.Concurrent.Sound.{take_step-Growth}
use kubeadapt_k8s_pulse.Monitor.Flows.{Arrival, connection_keys}

module _ (iface : ConnectionKey → ℕ) where
  -- Each flow counts on its interface, and each processor that holds an element holds its flow's.
  pub record IsCalm (w : World) : Type 0 where
    pub counting : IsCounting iface w.memory
    pub settled : (cpu : ℕ) → IsSettled iface w.memory.elements (w.processors cpu)

  set_at-IsSettled :
      (m : List (ConnectionKey × ℕ)) (i : ℕ) (pc : Processor) (f : ℕ → Processor)
      → IsSettled iface m pc
      → ((j : ℕ) → IsSettled iface m (f j))
      → (j : ℕ) → IsSettled iface m (set_at i pc f j)
  set_at-IsSettled m i pc f h g j = elim (Bool-cases (i == j)) [
    | inl t ↦ rw t h
    | inr o ↦ rw o (g j)
  ]

  module _ (w : World) (calm : IsCalm w) where
    arrive_on-IsCalm :
        (cpu : ℕ) (p : Arrival) (pc : Processor)
        → p.if_index ≡ iface p.key
        → IsCalm (arrive_on cpu p pc w)
    unfolding arrive_on
    arrive_on-IsCalm cpu p idle h = record {
      counting = calm.counting;
      settled =
          set_at-IsSettled w.memory.elements cpu (first_lookup p w.memory) w.processors
            (first_lookup-IsSettled iface p w.memory h) calm.settled;
    }
    arrive_on-IsCalm cpu p pc h = calm

    go_on_with-IsCalm : (cpu : ℕ) (a : Answer) → a.element ≢ none → IsCalm (go_on_with cpu a w)
    unfolding go_on_with
    go_on_with-IsCalm cpu a room =
        let pc = w.processors cpu in
        let (m', next) = take_step a pc w.memory in
        let growth = take_step-Growth a pc w.memory in
        record {
          counting = take_step-IsCounting iface a room pc w.memory calm.counting (calm.settled cpu);
          settled =
              set_at-IsSettled m'.elements cpu next w.processors
                (take_step-IsSettled iface a room pc w.memory calm.counting (calm.settled cpu))
                (λ j. Growth-IsSettled iface (w.processors j) growth (calm.settled j));
        }

    read_entry-IsCalm : (key : ConnectionKey) (s : Collecting) → IsCalm (read_entry key s w)
    unfolding read_entry
    read_entry-IsCalm key (deleting _ _) = calm
    read_entry-IsCalm key reading = go (lookup key w.memory.elements)
      where
        go :
            (o : Option ℕ)
            → IsCalm (elim o as (λ _. World) [
              | none ↦ w
              | some e ↦ record w { collecting = deleting key (w.memory.stats e) }
            ])
        go none = calm
        go (some e) = record { counting = calm.counting; settled = calm.settled }

  pub step-IsCalm : (v : Move) (w : World) → IsCalmMove iface v → IsCalm w → IsCalm (step v w)
  unfolding step
  step-IsCalm (arrive cpu p) w h calm = arrive_on-IsCalm w calm cpu p (w.processors cpu) h
  step-IsCalm (go_on cpu a) w h calm = go_on_with-IsCalm w calm cpu a h
  step-IsCalm (read key) w h calm = read_entry-IsCalm w calm key w.collecting
  step-IsCalm (delete fails) w h calm = absurd h
