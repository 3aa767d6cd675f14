-- ===== src/Monitor/Concurrent/Elements.antt =====
-- The elements of connection_flows, one for each key: what a change of one does to the sum of all.
use kubeadapt_k8s_pulse.Prelude.{
  Bool, Bool-cases, List, [], ap, arith, false, if◌then◌else◌, inl, inr, none, refl, some, true, ℕ,
  ◌+◌, ◌==◌, ◌||◌, ◌∷◌, ◌≡◌,
}
use kubeadapt_k8s_pulse.Prelude.Family.{set_at}
use kubeadapt_k8s_pulse.Prelude.GoMap.{lookup, put}
use kubeadapt_k8s_pulse.Prelude.Totals.{remove, total}
use kubeadapt_k8s_pulse.Bpf.Types.{ConnectionKey, ConnectionStats}
use kubeadapt_k8s_pulse.Monitor.Concurrent.{is_used}
use kubeadapt_k8s_pulse.Monitor.Concurrent.Ledger.{is_used_for}
use kubeadapt_k8s_pulse.Monitor.Flows.{connection_key_eq, connection_key_eq_iff, connection_keys}

-- No element stands under two keys.
abbrev pub AreDistinct : List (ConnectionKey × ℕ) → Type 0
AreDistinct [] = Unit {0}
AreDistinct ((k, e) ∷ m) = (is_used e m ≡ false) × AreDistinct m

pub unused-for :
    (mine : ConnectionKey → Bool) (e : ℕ) (m : List (ConnectionKey × ℕ))
    → is_used e m ≡ false
    → is_used_for mine e m ≡ false
unfolding is_used is_used_for
unused-for mine e [] h = refl
unused-for mine e ((k, i) ∷ m) h = ground (arith, unused-for mine e m)

module _ (mine : ConnectionKey → Bool) (size : ConnectionStats → ℕ) where
  abbrev pub stored : (ℕ → ConnectionStats) → List (ConnectionKey × ℕ) → ℕ
  stored f m = total mine (λ e. size (f e)) m

  pub stored-set_at :
      (e : ℕ) (v : ConnectionStats) (f : ℕ → ConnectionStats) (m : List (ConnectionKey × ℕ))
      → AreDistinct m
      → stored (set_at e v f) m + (if is_used_for mine e m then size (f e) else 0)
        ≡ stored f m + (if is_used_for mine e m then size v else 0)
  unfolding total is_used is_used_for
  stored-set_at e v f [] h = refl
  stored-set_at e v f ((k, i) ∷ m) h =
      ground (arith, stored-set_at e v f m h.1, unused-for mine e m)

is_used-put :
    (e i : ℕ) (key : ConnectionKey) (m : List (ConnectionKey × ℕ))
    → lookup key m ≡ none
    → is_used i (put key e m) ≡ (e == i || is_used i m)
unfolding is_used put lookup
is_used-put e i key [] h = ground arith
is_used-put e i key ((k, j) ∷ m) h = ground (arith, is_used-put e i key m)

pub put-AreDistinct :
    (e : ℕ) (key : ConnectionKey) (m : List (ConnectionKey × ℕ))
    → lookup key m ≡ none
    → is_used e m ≡ false
    → AreDistinct m
    → AreDistinct (put key e m)
unfolding is_used put lookup
put-AreDistinct e key [] h g d = (refl, tt)
put-AreDistinct e key ((k, j) ∷ m) h g d = elim (Bool-cases (connection_key_eq k key)) [
  | inl t ↦ cc
  | inr f ↦ rw f (
    ground (arith, is_used-put e j key m),
    put-AreDistinct e key m (ground arith) (ground arith) d.1,
  )
]

is_used-remove :
    (i : ℕ) (key : ConnectionKey) (m : List (ConnectionKey × ℕ))
    → is_used i m ≡ false
    → is_used i (remove key m) ≡ false
unfolding is_used remove
is_used-remove i key [] h = refl
is_used-remove i key ((k, j) ∷ m) h = ground (arith, is_used-remove i key m)

pub remove-AreDistinct :
    (key : ConnectionKey) (m : List (ConnectionKey × ℕ))
    → AreDistinct m
    → AreDistinct (remove key m)
unfolding is_used remove
remove-AreDistinct key [] d = tt
remove-AreDistinct key ((k, j) ∷ m) d = elim (Bool-cases (connection_key_eq k key)) [
  | inl t ↦ rw t d.1
  | inr f ↦ rw f (is_used-remove j key m d.0, remove-AreDistinct key m d.1)
]

pub lookup-is_used :
    (key : ConnectionKey) (e : ℕ) (m : List (ConnectionKey × ℕ))
    → lookup key m ≡ some e
    → is_used e m ≡ true
unfolding lookup is_used
lookup-is_used key e [] h = cc
lookup-is_used key e ((k, i) ∷ m) h = ground (arith, lookup-is_used key e m)

-- The element that stands under a key stands there only.
pub lookup-is_used_for :
    (mine : ConnectionKey → Bool) (key : ConnectionKey) (e : ℕ) (m : List (ConnectionKey × ℕ))
    → AreDistinct m
    → lookup key m ≡ some e
    → is_used_for mine e m ≡ mine key
unfolding lookup is_used_for is_used
lookup-is_used_for mine key e [] d h = cc
lookup-is_used_for mine key e ((k, i) ∷ m) d h = elim (Bool-cases (connection_key_eq k key)) [
  | inl t ↦
      let same = ap mine ((connection_key_eq_iff k key).0 t) in ground (arith, unused-for mine e m)
  | inr f ↦
      let there : lookup key m ≡ some e = rw f at h in
      ground (arith, lookup-is_used key e m there, lookup-is_used_for mine key e m d.1 there)
]
