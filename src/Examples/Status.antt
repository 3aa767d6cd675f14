-- ===== src/Examples/Status.antt =====
-- The theorems on the server at concrete states.
use kubeadapt_k8s_pulse.Prelude.{
  List, [], if◌then◌else◌, length, pos, refl, true, ◌&&◌, ◌==◌, ◌↔◌, ◌∷◌, ◌≡◌, ◌≤◌,
}
use kubeadapt_k8s_pulse.Prelude.Text.{codes, has_prefix, text_eq}
use kubeadapt_k8s_pulse.Go.Http.{
  best_match, clean_from, ends_in_slash, is_clean, is_last_segment, is_segment, longer,
  pattern_matches,
}
use kubeadapt_k8s_pulse.Server.{
  Server, get_status_class, get_status_text, handle_health, handle_liveness, handle_readiness,
  new_server,
}
use kubeadapt_k8s_pulse.Server.Health.{handle_health-probes}
use kubeadapt_k8s_pulse.Server.Page.{handle_root}
use kubeadapt_k8s_pulse.Server.Reports.{
  ServerCall, expected, fails, sets_ready, starts, state_after, state_after-history,
}
use kubeadapt_k8s_pulse.Server.Routes.{Pages, handle, routes, serve_request, serve_request_table}

abbrev server : Server
server = new_server (pos 9090) 0

-- SetReady(true) on a new server, then a failed loading, the last call first.
abbrev calls : List ServerCall
calls = fails (codes "no BTF") 12 5 ∷ (sets_ready true 3 ∷ (starts ∷ []))

state_after-history_example :
    (state_after (pos 9090) 0 calls ≡ expected (pos 9090) 0 calls)
    × (length (state_after (pos 9090) 0 calls).bpf_load_error ≤ 256)
state_after-history_example = state_after-history (pos 9090) 0 calls

handle_health-probes_example :
    ((handle_health (record { uptime = codes "1"; started_at = codes "t" }) server).status ≡ (
      if ((handle_liveness server).status == 200) && ((handle_readiness server).status == 200)
      then 200
      else 503))
    × (((handle_health (record { uptime = codes "1"; started_at = codes "t" }) server).status ≡ 200)
        ↔ (get_status_class server ≡ codes "ready"))
    × (((handle_health (record { uptime = codes "1"; started_at = codes "t" }) server).status ≡ 200)
        ↔ (get_status_text server ≡ codes "HEALTHY"))
handle_health-probes_example =
    handle_health-probes (record { uptime = codes "1"; started_at = codes "t" }) server

abbrev pages : Pages
pages = record {
  redirect = λ path. record { status = 301; body = path };
  exposition = λ s. record { status = 200; body = [] };
  clock = record { uptime = codes "1"; started_at = codes "t" };
  page_clock = record { uptime = codes "1s"; started_at = codes "t" };
}

-- A path that looks like a probe and is none is answered by the status page.
misspelt : (serve_request pages server (codes "/healthz")).status ≡ 200
unfolding serve_request is_clean clean_from is_segment is_last_segment best_match routes
    pattern_matches ends_in_slash longer text_eq has_prefix handle handle_root
misspelt = refl

-- A path that has to be cleaned is not answered by the probe.
unclean : (serve_request pages server (codes "//health")).status ≡ 301
unfolding serve_request is_clean clean_from is_segment is_last_segment text_eq
unclean = refl

clean_below : (serve_request pages server (codes "/health/")).status ≡ 200
unfolding serve_request is_clean clean_from is_segment is_last_segment best_match routes
    pattern_matches ends_in_slash longer text_eq has_prefix handle handle_root
clean_below = refl

serve_request_table_example :
    serve_request pages server (codes "/health/ready") ≡ handle_readiness server
unfolding is_clean clean_from is_segment is_last_segment text_eq handle
serve_request_table_example = serve_request_table pages server (codes "/health/ready")
