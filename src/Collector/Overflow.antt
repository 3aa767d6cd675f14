-- ===== src/Collector/Overflow.antt =====
-- StartOverflowHandler of connection_collector.go, on top of the ring buffer's reader.
use kubeadapt_k8s_pulse.Prelude.{
  Bool, Bool-cases, List, [], ap, arith, false, if◌then◌else◌, inl, inr, leb, length, ltb, not,
  refl, true, ℕ, ◌&&◌, ◌+◌, ◌∙◌, ◌∷◌, ◌≡◌, ◌⊎◌,
}
use kubeadapt_k8s_pulse.Bpf.Manager.{Manager}
use kubeadapt_k8s_pulse.Bpf.Ringbuf.{
  ReaderError, RingEvent, cancelled, read_failed, ringbuf_loop, sample, start_ringbuf_reader,
}
use kubeadapt_k8s_pulse.Bpf.Types.{FlowRecord}
use kubeadapt_k8s_pulse.Collector.Metrics.{Call, Update, inc, overflow_flows_total, update}
use kubeadapt_k8s_pulse.Collector.Series.{series, texts_eq}

-- What the handler does with a record, beside its message.
unfoldable pub overflow_handler : {F : Type 0} → FlowRecord → List (Call F)
overflow_handler r = update overflow_flows_total [] inc ∷ []

-- An error of the reader is only logged.
abbrev calls_of : {F : Type 0} → ReaderError ⊎ List (Call F) → List (Call F)
calls_of (inl e) = []
calls_of (inr calls) = calls

-- (c *ConnectionCollector) StartOverflowHandler
unfoldable pub start_overflow_handler :
    {F : Type 0} → Manager → Bool → List RingEvent → List (Call F)
start_overflow_handler m reader_fails events =
    calls_of (start_ringbuf_reader m reader_fails overflow_handler events)

-- The samples that are read before the context is done, and those that are large enough.
unfoldable pub samples : List RingEvent → List (List ℕ)
samples [] = []
samples (cancelled ∷ events) = []
samples (read_failed ∷ events) = samples events
samples (sample bytes ∷ events) = bytes ∷ samples events

unfoldable pub count_whole : List (List ℕ) → ℕ
count_whole [] = 0
count_whole (bytes ∷ more) = (if leb 96 (length bytes) then 1 else 0) + count_whole more

-- The counter's increments, as a number.
unfoldable pub count_increments : {F : Type 0} → List (Update F) → ℕ
count_increments [] = 0
count_increments (inc ∷ us) = 1 + count_increments us
count_increments (_ ∷ us) = count_increments us

ringbuf_loop-increments :
    (F : Type 0) (events : List RingEvent)
    → count_increments
        (series {F = F} overflow_flows_total [] (ringbuf_loop overflow_handler events))
      ≡ count_whole (samples events)
unfolding ringbuf_loop overflow_handler samples count_whole count_increments series texts_eq
ringbuf_loop-increments F [] = refl
ringbuf_loop-increments F (cancelled ∷ events) = refl
ringbuf_loop-increments F (read_failed ∷ events) = ringbuf_loop-increments F events
ringbuf_loop-increments F (sample bytes ∷ events) = elim (Bool-cases (ltb (length bytes) 96)) [
  | inl short ↦
      let small : leb 96 (length bytes) ≡ false = ground (arith, short) in
      rw (short, small) (ringbuf_loop-increments F events ∙ omega arith)
  | inr whole ↦
      let large : leb 96 (length bytes) ≡ true = ground (arith, whole) in
      rw (whole, large) (ap (λ n. 1 + n) (ringbuf_loop-increments F events))
]

-- With a ring buffer and a reader for it, the overflow counter is incremented once for each sample
-- of at least the record's 96 bytes that is read before the context is done, whatever errors and
-- short samples lie between; without a ring buffer or a reader it is never touched.
pub start_overflow_handler-increments :
    (F : Type 0) (m : Manager) (reader_fails : Bool) (events : List RingEvent)
    → count_increments
        (series {F = F} overflow_flows_total [] (start_overflow_handler m reader_fails events))
      ≡ (if m.overflow_ringbuf && not reader_fails then count_whole (samples events) else 0)
unfolding start_overflow_handler start_ringbuf_reader series count_increments
start_overflow_handler-increments F m reader_fails events = elim (Bool-cases m.overflow_ringbuf) [
  | inr f ↦ rw f refl
  | inl t ↦ elim (Bool-cases reader_fails) [
    | inl u ↦ rw (t, u) refl
    | inr v ↦ rw (t, v) (ringbuf_loop-increments F events)
  ]
]
