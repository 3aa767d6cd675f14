-- ===== src/Server.antt =====
-- internal/metrics/server.go: the HTTP server's health state, the reports on the loading of the
-- eBPF programs, and the handlers of the health endpoints. net/http, the Prometheus registry and
-- the clock are not modelled: durations, times and uptimes come in as they are read and printed.
pub mod Health
pub mod Page
pub mod Reports
pub mod Routes
use kubeadapt_k8s_pulse.Prelude.{
  Bool, Option, [], false, if◌then◌else◌, length, ltb, none, not, some, take, true, ℕ, ℤ, ◌&&◌,
  ◌++◌, ◌+◌, ◌||◌, ◌∷◌,
}
use kubeadapt_k8s_pulse.Prelude.Text.{Text, codes}

-- The state of Server: its three metrics by their values, a time as the clock gives it, and
-- whether Start has put an http.Server in place.
pub record Server : Type 0 where
  pub port : ℤ
  pub has_http_server : Bool
  pub is_ready : Bool
  pub is_live : Bool
  pub ready_at : Option ℕ
  pub started_at : ℕ
  pub bpf_load_status : ℕ
  pub bpf_load_attempts : ℕ
  pub bpf_load_duration : Option ℕ
  pub bpf_load_error : Text
  pub bpf_load_successful : Bool

-- NewServer, at a time
unfoldable pub new_server : ℤ → ℕ → Server
new_server port now = record {
  port = port;
  has_http_server = false;
  is_ready = false;
  is_live = true;
  ready_at = none;
  started_at = now;
  bpf_load_status = 0;
  bpf_load_attempts = 0;
  bpf_load_duration = none;
  bpf_load_error = codes "not_attempted";
  bpf_load_successful = false;
}

-- (s *Server) Start, up to ListenAndServe: the state of the probes is left alone.
unfoldable pub start_server : Server → Server
start_server s = record s { has_http_server = true }

-- What ListenAndServe comes back with, and what Start makes of it.
pub data ServeResult : Type 0 where
  no_error server_closed serve_failed : ServeResult

-- Whether Start returns an error.
unfoldable pub start_fails : ServeResult → Bool
start_fails no_error = false
start_fails server_closed = false
start_fails serve_failed = true

-- (s *Server) Shutdown; the second component is whether the http.Server is shut down as well.
unfoldable pub shutdown : Server → Server × Bool
shutdown s = (record s { is_ready = false; is_live = false }, s.has_http_server)

-- (s *Server) SetReady, at a time
unfoldable pub set_ready : Bool → ℕ → Server → Server
set_ready ready now s = record s {
  is_ready = ready;
  ready_at = if ready then some now else s.ready_at;
}

-- (s *Server) ReportBPFLoadSuccess
unfoldable pub report_bpf_load_success : ℕ → ℕ → Server → Server
unfolding set_ready
report_bpf_load_success duration now s = set_ready true now (record s {
  bpf_load_attempts = s.bpf_load_attempts + 1;
  bpf_load_duration = some duration;
  bpf_load_status = 1;
  bpf_load_error = codes "none";
  bpf_load_successful = true;
})

-- The error's text cut to 256 bytes.
unfoldable pub truncate_error : Text → Text
truncate_error msg = if ltb 256 (length msg) then take 253 msg ++ codes "..." else msg

-- (s *Server) ReportBPFLoadFailure
unfoldable pub report_bpf_load_failure : Text → ℕ → ℕ → Server → Server
unfolding set_ready
report_bpf_load_failure err duration now s = set_ready false now (record s {
  bpf_load_attempts = s.bpf_load_attempts + 1;
  bpf_load_duration = some duration;
  bpf_load_status = 0;
  bpf_load_error = truncate_error err;
  bpf_load_successful = false;
})

pub record Response : Type 0 where
  pub status : ℕ
  pub body : Text

-- The byte that ends a line, and the byte of a quotation mark.
abbrev newline : Text
newline = 10 ∷ []

abbrev quote : Text
quote = 34 ∷ []

-- (s *Server) handleLiveness
unfoldable pub handle_liveness : Server → Response
handle_liveness s =
    if s.is_live
    then record { status = 200; body = codes "OK" ++ newline }
    else record { status = 503; body = codes "Not Live" ++ newline }

-- (s *Server) handleReadiness
unfoldable pub handle_readiness : Server → Response
handle_readiness s =
    if s.is_ready
    then record { status = 200; body = codes "OK" ++ newline }
    else record { status = 503; body = codes "Not Ready" ++ newline }

-- What the health body takes from the clock: the seconds of uptime and the time of the start, as
-- fmt prints them.
pub record Clock : Type 0 where
  pub uptime : Text
  pub started_at : Text

-- "name": "value"
abbrev pub json_text : Text → Text → Text
json_text name value = quote ++ (name ++ (quote ++ (codes ": " ++ (quote ++ (value ++ quote)))))

-- "name": value
abbrev pub json_raw : Text → Text → Text
json_raw name value = quote ++ (name ++ (quote ++ (codes ": " ++ value)))

-- One member of the object, with its indentation and the comma.
abbrev member : Text → Text
member text = codes "  " ++ (text ++ (codes "," ++ newline))

abbrev pub bool_text : Bool → Text
bool_text true = codes "true"
bool_text false = codes "false"

-- The body that handleHealth prints.
unfoldable pub health_body : Clock → Server → Text → Text
health_body clock s status =
    codes "{"
    ++ (newline
        ++ (member (json_text (codes "status") status)
            ++ (member (json_raw (codes "live") (bool_text s.is_live))
                ++ (member (json_raw (codes "ready") (bool_text s.is_ready))
                    ++ (member (json_raw (codes "uptime_seconds") clock.uptime)
                        ++ (member (json_text (codes "started_at") clock.started_at)
                            ++ (member (
                                  json_raw (codes "bpf_load_successful")
                                    (bool_text s.bpf_load_successful))
                                ++ (codes "  "
                                    ++ (json_text (codes "bpf_load_error") s.bpf_load_error
                                        ++ (newline ++ (codes "}" ++ newline)))))))))))

-- (s *Server) handleHealth
unfoldable pub handle_health : Clock → Server → Response
handle_health clock s =
    if not s.is_live || not s.is_ready
    then record { status = 503; body = health_body clock s (codes "unhealthy") }
    else record { status = 200; body = health_body clock s (codes "healthy") }

-- (s *Server) getStatusClass
unfoldable pub get_status_class : Server → Text
get_status_class s = if s.is_ready && s.is_live then codes "ready" else codes "notready"

-- (s *Server) getStatusText
unfoldable pub get_status_text : Server → Text
get_status_text s =
    if s.is_ready && s.is_live
    then codes "HEALTHY"
    else if s.is_live
    then codes "STARTING"
    else codes "UNHEALTHY"
