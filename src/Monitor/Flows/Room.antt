-- ===== src/Monitor/Flows/Room.antt =====
-- Maps of flows with a maximum of entries that packets do not reach, as BPF_MAP_SIZE of
-- bpf/network_monitor_tc.c.
use kubeadapt_k8s_pulse.Prelude.{
  All, Bool, List, Option, [], ap, arith, length, ltb, none, refl, some, true, ℕ, ◌&&◌, ◌<◌, ◌^◌,
  ◌∙◌, ◌∷◌, ◌≡◌,
}
use kubeadapt_k8s_pulse.Prelude.GoMap.{lookup, put}
use kubeadapt_k8s_pulse.Monitor.Flows.{
  Arrival, ConnectionKey, ConnectionStats, Flows, InsertResult, Kernel, Monitor, connection_keys,
  create, exists, inserted, new_stats, overflow_full, receive_all, refused, retry, update_existing,
  update_stats,
}
use kubeadapt_k8s_pulse.Monitor.Flows.Summary.{IsQuiet, of_flow, receive_all-summary, summary}

-- No one else touches the map during a call, and the insertion of a key that is not there works
-- while the map has fewer than its maximum of entries.
pub record IsRoomy (max : ℕ) (k : Kernel) : Type 0 where
  pub before_insert-id : (m : Flows) → k.before_insert m ≡ m
  pub insert-room :
      (key : ConnectionKey) (m : Flows)
      → lookup key m ≡ none
      → ltb (length m) max ≡ true
      → k.insert key m ≡ inserted

-- The same kernel with a map that is never full.
abbrev pub unbounded : Kernel → Kernel
unbounded k = record k { insert = λ key m. inserted }

pub unbounded-IsQuiet : (max : ℕ) (k : Kernel) → IsRoomy max k → IsQuiet (unbounded k)
unbounded-IsQuiet max k roomy = record {
  before_insert = roomy.before_insert-id;
  has_room = λ key m h. refl;
}

-- Before each packet the map has fewer than its maximum of entries.
unfoldable pub fits : ℕ → Kernel → List Arrival → Monitor → Bool
fits max k [] s = true
fits max k (p ∷ ps) s = ltb (length s.flows) max && fits max k ps (update_stats k p s)

pub both_true : (a b : Bool) → (a && b) ≡ true → (a ≡ true) × (b ≡ true)
both_true a b h = ground (arith, h)

module _ (max : ℕ) (k : Kernel) (roomy : IsRoomy max k) where
  create-unbounded :
      (p : Arrival) (s : Monitor)
      → lookup p.key s.flows ≡ none
      → ltb (length s.flows) max ≡ true
      → create k p s ≡ create (unbounded k) p s
  unfolding create
  create-unbounded p s absent room =
      ap
        (λ (answer : InsertResult). elim answer as (λ _. Monitor) [
          | inserted ↦ record s { flows = put p.key (new_stats p) s.flows }
          | exists ↦ retry k p (record s { flows = k.before_retry s.flows })
          | refused ↦ overflow_full k p s
        ])
        (roomy.insert-room p.key s.flows absent room)

  update_stats-unbounded :
      (p : Arrival) (s : Monitor)
      → ltb (length s.flows) max ≡ true
      → update_stats k p s ≡ update_stats (unbounded k) p s
  unfolding update_stats create
  update_stats-unbounded p s room = go (lookup p.key s.flows) refl
    where
      go :
          (found : Option ConnectionStats)
          → lookup p.key s.flows ≡ found
          → (elim found as (λ _. Monitor) [
            | none ↦ create k p (record s { flows = k.before_insert s.flows })
            | some stats ↦ update_existing p stats s
          ])
            ≡ (elim found as (λ _. Monitor) [
              | none ↦ create (unbounded k) p (record s { flows = k.before_insert s.flows })
              | some stats ↦ update_existing p stats s
            ])
      go none absent = rw (roomy.before_insert-id s.flows) (create-unbounded p s absent room)
      go (some stats) found = refl

  pub receive_all-unbounded :
      (ps : List Arrival) (s : Monitor)
      → fits max k ps s ≡ true
      → receive_all k ps s ≡ receive_all (unbounded k) ps s
  unfolding receive_all fits
  receive_all-unbounded [] s h = refl
  receive_all-unbounded (p ∷ ps) s h =
      let (room, later) =
        both_true (ltb (length s.flows) max) (fits max k ps (update_stats k p s)) h in
      receive_all-unbounded ps (update_stats k p s) later
      ∙ ap (receive_all (unbounded k) ps) (update_stats-unbounded p s room)

-- On a kernel where calls do not overlap, from a map without entries, and if every packet finds the
-- map with fewer entries than its maximum: after any sequence of packets of less than 2 ^ 64 bytes the
-- entry of each flow is
-- the summary of the flow's own packets. The first one decides the interface and the pod; the bytes and the
-- packets are those on that interface alone, modulo 2 ^ 64, and the time is that of the last packet on
-- it or on another valid one.
pub receive_all-summary_within :
    (max : ℕ) (k : Kernel) (key : ConnectionKey) (ps : List Arrival) (s : Monitor)
    → IsRoomy max k
    → fits max k ps s ≡ true
    → s.flows ≡ []
    → All (λ (p : Arrival). p.bytes < 2 ^ 64) ps
    → lookup key (receive_all k ps s).flows ≡ summary (of_flow key ps)
receive_all-summary_within max k key ps s roomy room empty words =
    ap (λ (s' : Monitor). lookup key s'.flows) (receive_all-unbounded max k roomy ps s room)
    ∙ receive_all-summary (unbounded k) key ps s (unbounded-IsQuiet max k roomy) empty words
