-- ===== src/Bpf/Ringbuf.antt =====
-- StartRingbufReader of internal/bpf/loader_linux.go: the read loop, and the record that a sample is
-- cast to on a little-endian machine. What the reader of the ring buffer answers is an input.
pub mod Layout
use kubeadapt_k8s_pulse.Prelude.{
  Bool, List, [], drop, if◌then◌else◌, inl, inr, length, ltb, not, take, ℕ, ◌*◌, ◌++◌, ◌+◌, ◌∷◌,
  ◌⊎◌,
}
use kubeadapt_k8s_pulse.Bpf.Manager.{Manager}
use kubeadapt_k8s_pulse.Bpf.Types.{FlowRecord, Words}

-- One round of the loop: the context is done, Read fails, or Read gives the bytes of a sample.
pub data RingEvent : Type 0 where
  cancelled read_failed : RingEvent
  sample : List ℕ → RingEvent

-- The number that bytes spell, least significant first.
unfoldable pub little_endian : List ℕ → ℕ
little_endian [] = 0
little_endian (b ∷ bs) = b + 256 * little_endian bs

-- `n` bytes from `offset` on, as a number.
abbrev pub word_at : ℕ → ℕ → List ℕ → ℕ
word_at n offset bytes = little_endian (take n (drop offset bytes))

abbrev pub words_at : ℕ → List ℕ → Words
words_at offset bytes = record {
  w0 = word_at 4 offset bytes;
  w1 = word_at 4 (offset + 4) bytes;
  w2 = word_at 4 (offset + 8) bytes;
  w3 = word_at 4 (offset + 12) bytes;
}

-- unsafe.Sizeof(FlowRecord{}): a key of 40 bytes, stats of 40, a time of 8, the reason, and 7 bytes.
abbrev pub flow_record_size : ℕ
flow_record_size = 96

-- (*FlowRecord)(unsafe.Pointer(&record.RawSample[0]))
unfoldable pub flow_record : List ℕ → FlowRecord
flow_record bytes = record {
  key = record {
    src_addr = words_at 0 bytes;
    dst_addr = words_at 16 bytes;
    src_port = word_at 2 32 bytes;
    dst_port = word_at 2 34 bytes;
    protocol = word_at 1 36 bytes;
    family = word_at 1 37 bytes;
    pad = word_at 2 38 bytes;
  };
  stats = record {
    bytes = word_at 8 40 bytes;
    packets = word_at 8 48 bytes;
    last_seen_ns = word_at 8 56 bytes;
    cgroup_id = word_at 8 64 bytes;
    if_index_first_seen = word_at 4 72 bytes;
    padding = word_at 4 76 bytes;
  };
  timestamp_ns = word_at 8 80 bytes;
  reason = word_at 1 88 bytes;
  padding = word_at 7 89 bytes;
}

-- The read loop, with what the handler does with each record. A sample that is too short is skipped.
unfoldable pub ringbuf_loop : {A : Type 0} → (FlowRecord → List A) → List RingEvent → List A
ringbuf_loop handler [] = []
ringbuf_loop handler (cancelled ∷ events) = []
ringbuf_loop handler (read_failed ∷ events) = ringbuf_loop handler events
ringbuf_loop handler (sample bytes ∷ events) =
    let rest = ringbuf_loop handler events in
    if ltb (length bytes) flow_record_size then rest else handler (flow_record bytes) ++ rest

pub data ReaderError : Type 0 where
  not_initialized creating_reader : ReaderError

-- (m *Manager) StartRingbufReader; `reader_fails` is an error of ringbuf.NewReader.
unfoldable pub start_ringbuf_reader :
    {A : Type 0} → Manager → Bool → (FlowRecord → List A) → List RingEvent → ReaderError ⊎ List A
start_ringbuf_reader m reader_fails handler events =
    if not m.overflow_ringbuf
    then inl not_initialized
    else if reader_fails
    then inl creating_reader
    else inr (ringbuf_loop handler events)
