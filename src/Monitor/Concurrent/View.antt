-- ===== src/Monitor/Concurrent/View.antt =====
-- connection_flows as update_stats sees it: each key with what stands in its element.
use kubeadapt_k8s_pulse.Prelude.{
  Bool-cases, List, Option, [], ap, arith, false, inl, inr, none, refl, some, ℕ, ◌==◌, ◌∷◌, ◌≡◌,
}
use kubeadapt_k8s_pulse.Prelude.Family.{set_at}
use kubeadapt_k8s_pulse.Prelude.GoMap.{lookup, put}
use kubeadapt_k8s_pulse.Bpf.Types.{ConnectionKey, ConnectionStats}
use kubeadapt_k8s_pulse.Monitor.Concurrent.{Memory, is_used, store}
use kubeadapt_k8s_pulse.Monitor.Concurrent.Elements.{AreDistinct, lookup-is_used}
use kubeadapt_k8s_pulse.Monitor.Flows.{Flows, Monitor, connection_key_eq, connection_keys}
use mathlib.Core.Path.{fun_ext}

-- The map as update_stats sees it, with the other maps of a state.
unfoldable pub flows_of : (ℕ → ConnectionStats) → List (ConnectionKey × ℕ) → Flows
flows_of f [] = []
flows_of f ((k, e) ∷ m) = (k, f e) ∷ flows_of f m

unfoldable pub as_monitor : Monitor → Memory → Monitor
as_monitor s m = record s {
  flows = flows_of m.stats m.elements;
  events = m.events;
  overflow_events = m.overflow_events;
  race_conditions = m.race_conditions;
}

pub lookup-flows_of :
    (f : ℕ → ConnectionStats) (key : ConnectionKey) (m : List (ConnectionKey × ℕ))
    → lookup key (flows_of f m)
      ≡ (elim (lookup key m) as (λ _. Option ConnectionStats) [ none ↦ none | some e ↦ some (f e) ])
unfolding flows_of lookup
lookup-flows_of f key [] = refl
lookup-flows_of f key ((k, e) ∷ m) = ground (arith, lookup-flows_of f key m)

-- A change of an element that is not in the map is not seen.
flows_of-set_at_unused :
    (f : ℕ → ConnectionStats) (e : ℕ) (s : ConnectionStats) (m : List (ConnectionKey × ℕ))
    → is_used e m ≡ false
    → flows_of (set_at e s f) m ≡ flows_of f m
unfolding flows_of is_used
flows_of-set_at_unused f e s [] h = refl
flows_of-set_at_unused f e s ((k, i) ∷ m) h = ground (arith, flows_of-set_at_unused f e s m)

-- A change of the element that stands under a key is a change of the key's entry.
flows_of-set_at :
    (f : ℕ → ConnectionStats) (key : ConnectionKey) (e : ℕ) (s : ConnectionStats)
    (m : List (ConnectionKey × ℕ))
    → AreDistinct m
    → lookup key m ≡ some e
    → flows_of (set_at e s f) m ≡ put key s (flows_of f m)
unfolding flows_of lookup put
flows_of-set_at f key e s [] d h = cc
flows_of-set_at f key e s ((k, i) ∷ m) d h = elim (Bool-cases (connection_key_eq k key)) [
  | inl t ↦ ground (arith, flows_of-set_at_unused f e s m)
  | inr g ↦
      let there : lookup key m ≡ some e = rw g at h in
      let other : (e == i) ≡ false = ground (arith, lookup-is_used key e m there) in
      rw (g, other) (ap (λ r. (k, f i) ∷ r) (flows_of-set_at f key e s m d.1 there))
]

flows_of-put :
    (f : ℕ → ConnectionStats) (key : ConnectionKey) (e : ℕ) (s : ConnectionStats)
    (m : List (ConnectionKey × ℕ))
    → is_used e m ≡ false
    → lookup key m ≡ none
    → flows_of (set_at e s f) (put key e m) ≡ put key s (flows_of f m)
unfolding flows_of lookup put is_used
flows_of-put f key e s [] h g = ground arith
flows_of-put f key e s ((k, i) ∷ m) h g = ground (arith, flows_of-put f key e s m)

pub store-stats : (e : ℕ) (x : ConnectionStats) (m : Memory) → (store e x m).stats e ≡ x
unfolding store
store-stats e x m = ground arith

set_at-set_at :
    (e : ℕ) (x y : ConnectionStats) (f : ℕ → ConnectionStats)
    → set_at e y (set_at e x f) ≡ set_at e y f
set_at-set_at e x y f = fun_ext (λ i. ground arith)

pub store-store :
    (e : ℕ) (x y : ConnectionStats) (m : Memory) → store e y (store e x m) ≡ store e y m
unfolding store
store-store e x y m = ap (λ f. record m { stats = f }) (set_at-set_at e x y m.stats)

-- A change of the element under a key, in the map as update_stats sees it.
pub as_monitor-store :
    (s : Monitor) (key : ConnectionKey) (e : ℕ) (x : ConnectionStats) (m : Memory)
    → AreDistinct m.elements
    → lookup key m.elements ≡ some e
    → as_monitor s (store e x m)
      ≡ record (as_monitor s m) { flows = put key x (as_monitor s m).flows }
unfolding as_monitor store
as_monitor-store s key e x m d h =
    ap (λ (f : Flows). record (as_monitor s m) { flows = f })
      (flows_of-set_at m.stats key e x m.elements d h)

pub as_monitor-insert :
    (s : Monitor) (key : ConnectionKey) (e : ℕ) (x : ConnectionStats) (m : Memory)
    → is_used e m.elements ≡ false
    → lookup key m.elements ≡ none
    → as_monitor s (record m { elements = put key e m.elements; stats = set_at e x m.stats })
      ≡ record (as_monitor s m) { flows = put key x (as_monitor s m).flows }
unfolding as_monitor
as_monitor-insert s key e x m h g =
    ap (λ (f : Flows). record (as_monitor s m) { flows = f })
      (flows_of-put m.stats key e x m.elements h g)
