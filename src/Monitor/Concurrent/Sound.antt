-- ===== src/Monitor/Concurrent/Sound.antt =====
-- What every interleaving keeps: each key and each element stands once, and the entry that the collector
-- has read stays in the map until its deletion, since nothing else deletes.
use kubeadapt_k8s_pulse.Prelude.{
  Bool, Bool-cases, List, Option, [], arith, false, if◌then◌else◌, inl, inr, none, refl, some, true,
  ℕ, ◌∷◌, ◌≡◌, ◌≢◌,
}
use kubeadapt_k8s_pulse.Prelude.GoMap.{IsMap, lookup, lookup-put, put, put-IsMap}
use kubeadapt_k8s_pulse.Prelude.Totals.{remove-IsMap}
use kubeadapt_k8s_pulse.Bpf.Types.{ConnectionKey}
use kubeadapt_k8s_pulse.Monitor.Concurrent.{
  Answer, Collecting, Memory, Move, Processor, World, add_bytes, add_packet, arrive, arrive_on,
  delete, delete_element, delete_entry, deleting, found, go_on, go_on_with, idle, insert_element,
  is_used, look_again, missing, new_stats, read, read_entry, reading, report, run_moves, set_at,
  stamp, step, store, submit, take_step,
}
use kubeadapt_k8s_pulse.Monitor.Concurrent.Elements.{
  AreDistinct, put-AreDistinct, remove-AreDistinct,
}
use kubeadapt_k8s_pulse.Monitor.Flows.{Arrival, connection_keys}

-- The entry that the collector has read is still in the map.
abbrev pub IsBound : Collecting → List (ConnectionKey × ℕ) → Type 0
IsBound reading m = Unit {0}
IsBound (deleting key stats) m = lookup key m ≢ none

pub record IsSound (w : World) : Type 0 where
  pub keys-IsMap : IsMap w.memory.elements
  pub elements-AreDistinct : AreDistinct w.memory.elements
  pub collecting-IsBound : IsBound w.collecting w.memory.elements

-- What a processor does to the map: nothing, or the insertion of a free element under a new key.
pub data Growth (m : List (ConnectionKey × ℕ)) : List (ConnectionKey × ℕ) → Type 0 where
  same : Growth m m
  grown :
      (key : ConnectionKey) (e : ℕ)
      → lookup key m ≡ none
      → is_used e m ≡ false
      → Growth m (put key e m)

insert_element-Growth :
    (o : Option ℕ) (p : Arrival) (m : Memory) → Growth m.elements (insert_element o p m).0.elements
unfolding insert_element
insert_element-Growth none p m = same
insert_element-Growth (some e) p m = go (lookup p.key m.elements) refl
  where
    go :
        (there : Option ℕ)
        → lookup p.key m.elements ≡ there
        → Growth m.elements
            (elim there as (λ _. Memory × Processor) [
              | some other ↦ (m, look_again p)
              | none ↦ if is_used e m.elements then (m, missing p) else (
                record m {
                  elements = put p.key e m.elements;
                  stats = set_at e (new_stats p) m.stats;
                },
                idle,
              )
            ]).0.elements
    go (some other) q = same
    go none q = elim (Bool-cases (is_used e m.elements)) [
      | inl t ↦ rw t same
      | inr f ↦ rw f (grown p.key e q f)
    ]

submit-elements :
    (reserved : Bool) (reason : ℕ) (p : Arrival) (m : Memory)
    → (submit reserved reason p m).elements ≡ m.elements
unfolding submit
submit-elements reserved reason p m = ground arith

pub take_step-Growth :
    (a : Answer) (pc : Processor) (m : Memory) → Growth m.elements (take_step a pc m).0.elements
unfolding take_step store
take_step-Growth a idle m = same
take_step-Growth a (found p e) m = same
take_step-Growth a (missing p) m = insert_element-Growth a.element p m
take_step-Growth a (add_bytes p e) m = same
take_step-Growth a (add_packet p e) m = same
take_step-Growth a (stamp p e) m = same
take_step-Growth a (look_again p) m = same
take_step-Growth a (report reason p) m = rw (submit-elements a.reserved reason p m) same

-- The part of the invariant that looks at the map.
record AreSound (s : Collecting) (m : List (ConnectionKey × ℕ)) : Type 0 where
  keys : IsMap m
  distinct : AreDistinct m
  bound : IsBound s m

Growth-IsBound :
    {m m' : List (ConnectionKey × ℕ)} (s : Collecting) → Growth m m' → IsBound s m → IsBound s m'
Growth-IsBound s same b = b
Growth-IsBound reading (grown key e h g) b = tt
Growth-IsBound {m} (deleting k stats) (grown key e h g) b = ground (arith, lookup-put key k e m)

Growth-AreSound :
    {m m' : List (ConnectionKey × ℕ)} {s : Collecting} → Growth m m' → AreSound s m → AreSound s m'
Growth-AreSound same i = i
Growth-AreSound {m} {s} (grown key e h g) i = record {
  keys = put-IsMap key e m i.keys;
  distinct = put-AreDistinct e key m h g i.distinct;
  bound = Growth-IsBound s (grown key e h g) i.bound;
}

module _ (w : World) (sound : IsSound w) where
  parts : AreSound w.collecting w.memory.elements
  parts = record {
    keys = sound.keys-IsMap;
    distinct = sound.elements-AreDistinct;
    bound = sound.collecting-IsBound;
  }

  go_on_with-IsSound : (cpu : ℕ) (a : Answer) → IsSound (go_on_with cpu a w)
  unfolding go_on_with
  go_on_with-IsSound cpu a =
      let after = Growth-AreSound (take_step-Growth a (w.processors cpu) w.memory) parts in
      record {
        keys-IsMap = after.keys;
        elements-AreDistinct = after.distinct;
        collecting-IsBound = after.bound;
      }

  arrive_on-IsSound : (cpu : ℕ) (p : Arrival) (pc : Processor) → IsSound (arrive_on cpu p pc w)
  unfolding arrive_on
  arrive_on-IsSound cpu p idle = record {
    keys-IsMap = sound.keys-IsMap;
    elements-AreDistinct = sound.elements-AreDistinct;
    collecting-IsBound = sound.collecting-IsBound;
  }
  arrive_on-IsSound cpu p pc = sound

  read_entry-IsSound : (key : ConnectionKey) (s : Collecting) → IsSound (read_entry key s w)
  unfolding read_entry
  read_entry-IsSound key (deleting _ _) = sound
  read_entry-IsSound key reading = go (lookup key w.memory.elements) refl
    where
      go :
          (o : Option ℕ)
          → lookup key w.memory.elements ≡ o
          → IsSound (elim o as (λ _. World) [
            | none ↦ w
            | some e ↦ record w { collecting = deleting key (w.memory.stats e) }
          ])
      go none q = sound
      go (some e) q = record {
        keys-IsMap = sound.keys-IsMap;
        elements-AreDistinct = sound.elements-AreDistinct;
        collecting-IsBound = λ (gone : lookup key w.memory.elements ≡ none). cc;
      }

  delete_entry-IsSound : (fails : Bool) (s : Collecting) → IsSound (delete_entry fails s w)
  unfolding delete_entry delete_element
  delete_entry-IsSound fails reading = sound
  delete_entry-IsSound true (deleting key stats) = record {
    keys-IsMap = sound.keys-IsMap;
    elements-AreDistinct = sound.elements-AreDistinct;
    collecting-IsBound = tt;
  }
  delete_entry-IsSound false (deleting key stats) = record {
    keys-IsMap = remove-IsMap key w.memory.elements sound.keys-IsMap;
    elements-AreDistinct = remove-AreDistinct key w.memory.elements sound.elements-AreDistinct;
    collecting-IsBound = tt;
  }

pub step-IsSound : (v : Move) (w : World) → IsSound w → IsSound (step v w)
unfolding step
step-IsSound (arrive cpu p) w s = arrive_on-IsSound w s cpu p (w.processors cpu)
step-IsSound (go_on cpu a) w s = go_on_with-IsSound w s cpu a
step-IsSound (read key) w s = read_entry-IsSound w s key w.collecting
step-IsSound (delete fails) w s = delete_entry-IsSound w s fails w.collecting

pub run_moves-IsSound : (vs : List Move) (w : World) → IsSound w → IsSound (run_moves vs w)
unfolding run_moves
run_moves-IsSound [] w s = s
run_moves-IsSound (v ∷ vs) w s = run_moves-IsSound vs (step v w) (step-IsSound v w s)
