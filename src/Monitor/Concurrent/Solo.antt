-- ===== src/Monitor/Concurrent/Solo.antt =====
-- A call of update_stats that nothing interrupts does what the function does as a whole.
use kubeadapt_k8s_pulse.Prelude.{
  Bool-cases, List, Option, arith, false, inl, inr, none, refl, some, suc, zero, ℕ, ◌==◌, ◌≡◌,
}
use kubeadapt_k8s_pulse.Prelude.Family.{set_at}
use kubeadapt_k8s_pulse.Prelude.GoMap.{lookup, put}
use kubeadapt_k8s_pulse.Bpf.Types.{ConnectionKey, ConnectionStats}
use kubeadapt_k8s_pulse.Monitor.Concurrent.{
  Answer, Memory, Processor, add_bytes, bytes_added, compare_interface, first_lookup, found, idle,
  insert_element, is_used, missing, new_stats, overflow_reason_map_full, packet_added, report,
  stamp, stamped, store, submit, take_step,
}
use kubeadapt_k8s_pulse.Monitor.Concurrent.Elements.{AreDistinct}
use kubeadapt_k8s_pulse.Monitor.Concurrent.View.{
  as_monitor, as_monitor-insert, as_monitor-store, flows_of, lookup-flows_of, store-stats,
  store-store,
}
use kubeadapt_k8s_pulse.Monitor.Flows.{
  Arrival, Kernel, Monitor, connection_keys, count_packet, create, inserted, overflow_full, refused,
  update_existing, update_stats,
}

-- A number of steps of one processor, each with the same answer.
unfoldable pub steps : ℕ → Answer → Memory → Processor → Memory × Processor
steps zero a m pc = (m, pc)
steps (suc n) a m pc = let (m', next) = take_step a pc m in steps n a m' next

-- A whole call, from the first lookup.
unfoldable pub call : Answer → Arrival → Memory → Memory × Processor
call a p m = steps 4 a m (first_lookup p m)

-- What such a call meets: nothing else touches the maps.
unfoldable pub alone : Answer → Kernel
alone a = record {
  insert = λ key m. elim a.element [ none ↦ refused | some e ↦ inserted ];
  reserved = a.reserved;
  before_insert = λ m. m;
  before_retry = λ m. m;
}

-- The kernel hands out no element that is in use.
abbrev pub IsFree : Option ℕ → List (ConnectionKey × ℕ) → Type 0
IsFree none m = Unit {0}
IsFree (some e) m = is_used e m ≡ false

count_packet_parts :
    (p : Arrival) (x : ConnectionStats)
    → stamped p (packet_added (bytes_added p x)) ≡ count_packet p x
unfolding stamped packet_added bytes_added count_packet
count_packet_parts p x = refl

-- The two additions and the time are one change of the entry.
counted :
    (a : Answer) (p : Arrival) (e : ℕ) (m : Memory)
    → steps 3 a m (add_bytes p e) ≡ (store e (count_packet p (m.stats e)) m, idle)
unfolding steps take_step
counted a p e m = simp (store-stats, store-store, count_packet_parts)

as_monitor-submit :
    (s : Monitor) (a : Answer) (p : Arrival) (m : Memory)
    → as_monitor s (submit a.reserved overflow_reason_map_full p m)
      ≡ overflow_full (alone a) p (as_monitor s m)
unfolding as_monitor submit overflow_full alone
as_monitor-submit s a p m = ground arith

insert_element_full :
    (p : Arrival) (m : Memory) → insert_element none p m ≡ (m, report overflow_reason_map_full p)
unfolding insert_element
insert_element_full p m = refl

insert_element_free :
    (e : ℕ) (p : Arrival) (m : Memory)
    → is_used e m.elements ≡ false
    → lookup p.key m.elements ≡ none
    → insert_element (some e) p m ≡ (
      record m { elements = put p.key e m.elements; stats = set_at e (new_stats p) m.stats },
      idle,
    )
unfolding insert_element
insert_element_free e p m h g = rw (g, insert_element) (rw (h, insert_element) refl)

-- A call that another processor's insertion has not overtaken.
module _ (a : Answer) (p : Arrival) where
  steps_found :
      (e : ℕ) (m : Memory) → steps 4 a m (found p e) ≡ steps 3 a m (compare_interface p e m)
  unfolding steps take_step
  steps_found e m = refl

  steps_stamp :
      (e : ℕ) (m : Memory) → steps 3 a m (stamp p e) ≡ (store e (stamped p (m.stats e)) m, idle)
  unfolding steps take_step
  steps_stamp e m = refl

  steps_idle : (m : Memory) → steps 3 a m idle ≡ (m, idle)
  unfolding steps take_step
  steps_idle m = refl

  steps_missing :
      (m : Memory)
      → steps 4 a m (missing p)
        ≡ (let (m', next) = insert_element a.element p m in steps 3 a m' next)
  unfolding steps take_step
  steps_missing m = refl

  steps_report :
      (reason : ℕ) (m : Memory)
      → steps 3 a m (report reason p) ≡ (submit a.reserved reason p m, idle)
  unfolding steps take_step
  steps_report reason m = refl

  module _ (s : Monitor) (m : Memory) where
    found_call :
        (e : ℕ)
        → AreDistinct m.elements
        → lookup p.key m.elements ≡ some e
        → let (m', next) = steps 4 a m (found p e) in
          (as_monitor s m' ≡ update_existing p (m.stats e) (as_monitor s m)) × (next ≡ idle)
    unfolding compare_interface update_existing stamped
    found_call e d h =
        let stored = λ (x : ConnectionStats). as_monitor-store s p.key e x m d h in
        rw (steps_found e m) (elim (Bool-cases ((m.stats e).if_index_first_seen == p.if_index)) [
          | inl same ↦ rw same (rw (counted a p e m) (stored (count_packet p (m.stats e)), refl))
          | inr other ↦ rw other (elim (Bool-cases (p.if_index == 0)) [
            | inl z ↦ rw z (rw (steps_idle m) (refl, refl))
            | inr nz ↦ rw nz (rw (steps_stamp e m) (stored (stamped p (m.stats e)), refl))
          ])
        ])

    missing_call :
        lookup p.key m.elements ≡ none
        → IsFree a.element m.elements
        → let (m', next) = steps 4 a m (missing p) in
          (as_monitor s m' ≡ create (alone a) p (as_monitor s m)) × (next ≡ idle)
    unfolding create alone
    missing_call h free = rw (steps_missing m) (go a.element free)
      where
        go :
            (o : Option ℕ)
            → IsFree o m.elements
            → let (m', next) = insert_element o p m in
              let (m'', last) = steps 3 a m' next in
              (as_monitor s m'' ≡ create (alone (record a { element = o })) p (as_monitor s m))
              × (last ≡ idle)
        go none f = rw (insert_element_full p m) (
            rw (steps_report overflow_reason_map_full m)
              (as_monitor-submit s (record a { element = none }) p m, refl))
        go (some e) f = rw (insert_element_free e p m f h) (
            rw
              (steps_idle (record m {
                elements = put p.key e m.elements;
                stats = set_at e (new_stats p) m.stats;
              }))
              (as_monitor-insert s p.key e (new_stats p) m f h, refl))

    as_monitor-flows : (as_monitor s m).flows ≡ flows_of m.stats m.elements
    unfolding as_monitor
    as_monitor-flows = refl

    pub call-update_stats :
        AreDistinct m.elements
        → IsFree a.element m.elements
        → let (m', next) = call a p m in
          (as_monitor s m' ≡ update_stats (alone a) p (as_monitor s m)) × (next ≡ idle)
    unfolding call first_lookup as_monitor update_stats alone
    call-update_stats d free = go (lookup p.key m.elements) refl
      where
        seen :
            lookup p.key (as_monitor s m).flows
            ≡ (elim (lookup p.key m.elements) as (λ _. Option ConnectionStats) [
              | none ↦ none
              | some e ↦ some (m.stats e)
            ])
        seen = rw as_monitor-flows (lookup-flows_of m.stats p.key m.elements)

        go :
            (o : Option ℕ)
            → lookup p.key m.elements ≡ o
            → let (m', next) = call a p m in
              (as_monitor s m' ≡ update_stats (alone a) p (as_monitor s m)) × (next ≡ idle)
        go none q =
            let gone : lookup p.key (as_monitor s m).flows ≡ none = rw q at seen in
            rw (q, first_lookup) (rw (gone, update_stats) (missing_call q free))
        go (some e) q =
            let there : lookup p.key (as_monitor s m).flows ≡ some (m.stats e) = rw q at seen in
            rw (q, first_lookup) (rw (there, update_stats) (found_call e d q))
