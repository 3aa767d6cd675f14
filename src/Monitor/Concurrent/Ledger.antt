-- ===== src/Monitor/Concurrent/Ledger.antt =====
-- The accounts of an interleaving: where the bytes and the packets of the traffic are.
use kubeadapt_k8s_pulse.Prelude.{
  Bool, List, [], false, if◌then◌else◌, none, some, ℕ, ◌&&◌, ◌+◌, ◌-◌, ◌==◌, ◌^◌, ◌||◌, ◌∷◌,
}
use kubeadapt_k8s_pulse.Prelude.Family.{sum_below}
use kubeadapt_k8s_pulse.Prelude.GoMap.{lookup}
use kubeadapt_k8s_pulse.Prelude.Totals.{total}
use kubeadapt_k8s_pulse.Bpf.Types.{ConnectionKey, ConnectionStats, FlowRecord}
use kubeadapt_k8s_pulse.Collector.Cycle.Reading.{Visit}
use kubeadapt_k8s_pulse.Collector.Keys.{u64}
use kubeadapt_k8s_pulse.Monitor.Concurrent.{
  Answer, Collecting, Memory, Move, Processor, World, add_bytes, add_packet, arrive, delete,
  deleting, found, go_on, idle, look_again, missing, reading, report, stamp, step,
}
use kubeadapt_k8s_pulse.Monitor.Flows.{Arrival, connection_keys}

-- Which of the two counters is looked at.
pub data Counted : Type 0 where
  bytes packets : Counted

unfoldable pub measure : Counted → ConnectionStats → ℕ
measure bytes s = s.bytes
measure packets s = s.packets

-- What the two additions of a packet add.
unfoldable pub byte_amount : Counted → Arrival → ℕ
byte_amount bytes p = p.bytes
byte_amount packets p = 0

unfoldable pub packet_amount : Counted → ℕ
packet_amount bytes = 0
packet_amount packets = 1

abbrev pub amount : Counted → Arrival → ℕ
amount c p = byte_amount c p + packet_amount c

-- What a counter has grown by, modulo 2 ^ 64.
unfoldable pub growth_since : ℕ → ℕ → ℕ
growth_since before now = u64 (now + (2 ^ 64 - u64 before))

-- Whether an element stands under a key of the traffic that is looked at.
unfoldable pub is_used_for : (ConnectionKey → Bool) → ℕ → List (ConnectionKey × ℕ) → Bool
is_used_for mine e [] = false
is_used_for mine e ((k, i) ∷ m) = (i == e && mine k) || is_used_for mine e m

-- A part of the traffic, by its keys.
module _ (mine : ConnectionKey → Bool) where
  -- An amount, if it is of that traffic.
  abbrev pub share : ConnectionKey → ℕ → ℕ
  share key n = if mine key then n else 0

  -- What a processor has still to add or to report.
  unfoldable pub in_flight : Counted → Processor → ℕ
  in_flight c idle = 0
  in_flight c (found p e) = share p.key (amount c p)
  in_flight c (missing p) = share p.key (amount c p)
  in_flight c (add_bytes p e) = share p.key (amount c p)
  in_flight c (add_packet p e) = share p.key (packet_amount c)
  in_flight c (stamp p e) = 0
  in_flight c (look_again p) = share p.key (amount c p)
  in_flight c (report reason p) = share p.key (amount c p)

  -- What stands in connection_flows.
  unfoldable pub held : Counted → Memory → ℕ
  held c m = total mine (λ e. measure c (m.stats e)) m.elements

  unfoldable pub reported : Counted → List FlowRecord → ℕ
  reported c [] = 0
  reported c (r ∷ rs) = share r.key (measure c r.stats) + reported c rs

  unfoldable pub visited : Counted → List Visit → ℕ
  visited c [] = 0
  visited c (v ∷ vs) = share v.key (measure c v.stats) + visited c vs

  -- All of it: in the map, on the processors, in the ring buffer and at the collector.
  unfoldable pub assets : Counted → ℕ → World → ℕ
  assets c n w =
      held c w.memory
      + sum_below (in_flight c) n w.processors
      + reported c w.memory.events
      + visited c w.visits

  -- The packets that start a call.
  unfoldable pub brought_on : Counted → Arrival → Processor → ℕ
  brought_on c p idle = share p.key (amount c p)
  brought_on c p _ = 0

  unfoldable pub brought : Counted → Move → World → ℕ
  brought c (arrive cpu p) w = brought_on c p (w.processors cpu)
  brought c _ w = 0

  -- The packets of a flow that come in on another interface than its first.
  unfoldable pub skipped_by : Counted → Processor → Memory → ℕ
  skipped_by c (found p e) m =
      if (m.stats e).if_index_first_seen == p.if_index then 0 else share p.key (amount c p)
  skipped_by c _ m = 0

  unfoldable pub skipped : Counted → Move → World → ℕ
  skipped c (go_on cpu a) w = skipped_by c (w.processors cpu) w.memory
  skipped c _ w = 0

  -- The packets that the ring buffer has no room for.
  unfoldable pub dropped_by : Counted → Answer → Processor → ℕ
  dropped_by c a (report reason p) = if a.reserved then 0 else share p.key (amount c p)
  dropped_by c a _ = 0

  unfoldable pub dropped : Counted → Move → World → ℕ
  dropped c (go_on cpu a) w = dropped_by c a (w.processors cpu)
  dropped c _ w = 0

  -- What is added to an element that, since the lookup, has been deleted or handed out to other traffic.
  abbrev stray_from : ConnectionKey → ℕ → Memory → ℕ → ℕ
  stray_from key e m n = if is_used_for mine e m.elements then 0 else share key n

  unfoldable pub stale_by : Counted → Processor → Memory → ℕ
  stale_by c (add_bytes p e) m = stray_from p.key e m (byte_amount c p)
  stale_by c (add_packet p e) m = stray_from p.key e m (packet_amount c)
  stale_by c _ m = 0

  unfoldable pub stale : Counted → Move → World → ℕ
  stale c (go_on cpu a) w = stale_by c (w.processors cpu) w.memory
  stale c _ w = 0

  -- What other traffic adds to an element that has been handed out to this one.
  abbrev stray_to : ConnectionKey → ℕ → Memory → ℕ → ℕ
  stray_to key e m n = if mine key then 0 else if is_used_for mine e m.elements then n else 0

  unfoldable pub alien_by : Counted → Processor → Memory → ℕ
  alien_by c (add_bytes p e) m = stray_to p.key e m (byte_amount c p)
  alien_by c (add_packet p e) m = stray_to p.key e m (packet_amount c)
  alien_by c _ m = 0

  unfoldable pub alien : Counted → Move → World → ℕ
  alien c (go_on cpu a) w = alien_by c (w.processors cpu) w.memory
  alien c _ w = 0

  -- What has been added to an entry between its reading and its deletion.
  unfoldable pub unread_by : Counted → Collecting → Memory → ℕ
  unread_by c reading m = 0
  unread_by c (deleting key stats) m = elim (lookup key m.elements) [
    | none ↦ 0
    | some e ↦ share key (growth_since (measure c stats) (measure c (m.stats e)))
  ]

  unfoldable pub unread : Counted → Move → World → ℕ
  unread c (delete fails) w = if fails then 0 else unread_by c w.collecting w.memory
  unread c _ w = 0

  -- What is read and stays, because the deletion fails.
  unfoldable pub repeated_by : Counted → Collecting → ℕ
  repeated_by c reading = 0
  repeated_by c (deleting key stats) = share key (measure c stats)

  unfoldable pub repeated : Counted → Move → World → ℕ
  repeated c (delete fails) w = if fails then repeated_by c w.collecting else 0
  repeated c _ w = 0

-- The sum of an account over an interleaving.
unfoldable pub along : (Move → World → ℕ) → List Move → World → ℕ
along account [] w = 0
along account (v ∷ vs) w = account v w + along account vs (step v w)
