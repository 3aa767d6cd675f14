-- ===== src/Server/Reports.antt =====
-- The state of the server after any sequence of calls of its methods, told from the sequence alone.
use kubeadapt_k8s_pulse.Prelude.{
  Bool, Bool-cases, List, Option, [], ap, arith, false, if◌then◌else◌, inl, inr, leb, length,
  length-append, length-take, ltb, none, not, refl, some, take, true, ℕ, ℤ, ◌++◌, ◌∙◌, ◌∷◌, ◌≡◌,
  ◌≤◌,
}
use kubeadapt_k8s_pulse.Prelude.Text.{Text, codes}
use kubeadapt_k8s_pulse.Server.{
  Server, new_server, report_bpf_load_failure, report_bpf_load_success, set_ready, shutdown,
  start_server, truncate_error,
}

-- One call of a method that changes the state.
pub data ServerCall : Type 0 where
  starts stops : ServerCall
  sets_ready : (ready : Bool) (now : ℕ) → ServerCall
  succeeds : (duration now : ℕ) → ServerCall
  fails : (err : Text) (duration now : ℕ) → ServerCall

unfoldable pub after_call : ServerCall → Server → Server
after_call starts s = start_server s
after_call stops s = (shutdown s).0
after_call (sets_ready ready now) s = set_ready ready now s
after_call (succeeds duration now) s = report_bpf_load_success duration now s
after_call (fails err duration now) s = report_bpf_load_failure err duration now s

-- A new server after some calls, of which the last comes first in the list.
unfoldable pub state_after : ℤ → ℕ → List ServerCall → Server
state_after port now [] = new_server port now
state_after port now (c ∷ earlier) = after_call c (state_after port now earlier)

-- The answer of the last call that decides readiness: a report, SetReady or Shutdown.
abbrev pub last_readiness : List ServerCall → Bool
last_readiness [] = false
last_readiness (starts ∷ earlier) = last_readiness earlier
last_readiness (stops ∷ earlier) = false
last_readiness (sets_ready ready now ∷ earlier) = ready
last_readiness (succeeds duration now ∷ earlier) = true
last_readiness (fails err duration now ∷ earlier) = false

-- When the server was last made ready.
abbrev pub last_ready_at : List ServerCall → Option ℕ
last_ready_at [] = none
last_ready_at (starts ∷ earlier) = last_ready_at earlier
last_ready_at (stops ∷ earlier) = last_ready_at earlier
last_ready_at (sets_ready true now ∷ earlier) = some now
last_ready_at (sets_ready false now ∷ earlier) = last_ready_at earlier
last_ready_at (succeeds duration now ∷ earlier) = some now
last_ready_at (fails err duration now ∷ earlier) = last_ready_at earlier

abbrev pub was_started : List ServerCall → Bool
was_started [] = false
was_started (starts ∷ earlier) = true
was_started (_ ∷ earlier) = was_started earlier

abbrev pub was_stopped : List ServerCall → Bool
was_stopped [] = false
was_stopped (stops ∷ earlier) = true
was_stopped (_ ∷ earlier) = was_stopped earlier

-- A report on the loading of the eBPF programs: the error if it failed, and the duration.
abbrev pub Report : Type 0
Report = Option Text × ℕ

-- The reports, the last one first.
abbrev pub reports : List ServerCall → List Report
reports [] = []
reports (succeeds duration now ∷ earlier) = (none, duration) ∷ reports earlier
reports (fails err duration now ∷ earlier) = (some err, duration) ∷ reports earlier
reports (_ ∷ earlier) = reports earlier

-- What the three metrics and the health body should say after some reports.
pub record Loading : Type 0 where
  pub status : ℕ
  pub duration : Option ℕ
  pub error : Text
  pub successful : Bool

abbrev pub told : List Report → Loading
told [] = record { status = 0; duration = none; error = codes "not_attempted"; successful = false }
told ((none, duration) ∷ earlier) = record {
  status = 1;
  duration = some duration;
  error = codes "none";
  successful = true;
}
told ((some err, duration) ∷ earlier) = record {
  status = 0;
  duration = some duration;
  error = if leb (length err) 256 then err else take 253 err ++ codes "...";
  successful = false;
}

-- The state that the calls should lead to.
abbrev pub expected : ℤ → ℕ → List ServerCall → Server
expected port now calls = record {
  port = port;
  has_http_server = was_started calls;
  is_ready = last_readiness calls;
  is_live = not (was_stopped calls);
  ready_at = last_ready_at calls;
  started_at = now;
  bpf_load_status = (told (reports calls)).status;
  bpf_load_attempts = length (reports calls);
  bpf_load_duration = (told (reports calls)).duration;
  bpf_load_error = (told (reports calls)).error;
  bpf_load_successful = (told (reports calls)).successful;
}

truncate_error_lem :
    (err : Text)
    → truncate_error err ≡ (if leb (length err) 256 then err else take 253 err ++ codes "...")
unfolding truncate_error
truncate_error_lem err = rw (leb_ltb (length err)) (flip (ltb 256 (length err)))
  where
    leb_ltb : (n : ℕ) → leb n 256 ≡ not (ltb 256 n)
    leb_ltb n = ground arith

    flip :
        (b : Bool)
        → (if b then take 253 err ++ codes "..." else err)
          ≡ (if not b then err else take 253 err ++ codes "...")
    flip true = refl
    flip false = refl

-- Each call takes the expected state to the expected one.
after_call-expected :
    (port : ℤ) (now : ℕ) (c : ServerCall) (earlier : List ServerCall)
    → after_call c (expected port now earlier) ≡ expected port now (c ∷ earlier)
unfolding after_call start_server report_bpf_load_success report_bpf_load_failure shutdown set_ready
after_call-expected port now starts earlier = refl
after_call-expected port now stops earlier = refl
after_call-expected port now (sets_ready true at) earlier = refl
after_call-expected port now (sets_ready false at) earlier = refl
after_call-expected port now (succeeds duration at) earlier = ground arith
after_call-expected port now (fails err duration at) earlier =
    rw (truncate_error_lem err) (ground arith)

told-error : (rs : List Report) → length (told rs).error ≤ 256
told-error [] = ground arith
told-error ((none, duration) ∷ earlier) = ground arith
told-error ((some err, duration) ∷ earlier) = elim (Bool-cases (leb (length err) 256)) [
  | inl short ↦ rw short (ground (arith, short))
  | inr long ↦
      rw long (omega (arith, length-append (take 253 err) (codes "..."), length-take 253 err))
]

state_after_lem :
    (port : ℤ) (now : ℕ) (calls : List ServerCall)
    → state_after port now calls ≡ expected port now calls
unfolding state_after new_server
state_after_lem port now [] = refl
state_after_lem port now (c ∷ earlier) =
    ap (after_call c) (state_after_lem port now earlier) ∙ after_call-expected port now c earlier

-- After any calls of Start, SetReady, the two reports and Shutdown on a new server, in any order: it is
-- ready exactly if the last call other than Start made it so, which are SetReady(true) and the report of
-- a success, and its time is that of the last call that did; it is live until Shutdown; the attempts
-- are the number of reports; and the status gauge, the duration, the flag and the error text are those
-- of the last report, 1 and "none" for a success and 0 and the error's text for a failure, with a text
-- of more than 256 bytes cut to 253 and three dots. The error text never has more than 256 bytes.
pub state_after-history :
    (port : ℤ) (now : ℕ) (calls : List ServerCall)
    → (state_after port now calls ≡ expected port now calls)
      × (length (state_after port now calls).bpf_load_error ≤ 256)
state_after-history port now calls =
    let same = state_after_lem port now calls in
    (same, rw (ap (λ (s : Server). s.bpf_load_error) same) (told-error (reports calls)))
