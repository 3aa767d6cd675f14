-- ===== src/Server/Routes.antt =====
-- The routes of Start in internal/metrics/server.go, and the answer to a request for a path.
use kubeadapt_k8s_pulse.Prelude.{
  Bool-cases, List, Option, [], ap, arith, if◌then◌else◌, inl, inr, none, refl, some, sym, true,
  ◌++◌, ◌∙◌, ◌∷◌, ◌≡◌,
}
use kubeadapt_k8s_pulse.Prelude.Text.{Text, codes, has_prefix, text_eq, text_eq→≡}
use kubeadapt_k8s_pulse.Go.Http.{best_match, ends_in_slash, is_clean, longer, pattern_matches}
use kubeadapt_k8s_pulse.Server.{
  Clock, Response, Server, handle_health, handle_liveness, handle_readiness,
}
use kubeadapt_k8s_pulse.Server.Page.{PageClock, handle_root}
use mathlib.Core.Path.{subst}

pub data Endpoint : Type 0 where
  metrics live ready health root : Endpoint

-- The patterns that Start registers, in order.
unfoldable pub routes : List (Text × Endpoint)
routes =
    (codes "/metrics", metrics)
    ∷ (codes "/health/live", live)
    ∷ (codes "/health/ready", ready)
    ∷ (codes "/health", health)
    ∷ (codes "/", root)
    ∷ []

-- What the handlers take from the Prometheus library and from the clock, and the redirect that
-- http.ServeMux answers with to a path that is not clean.
pub record Pages : Type 0 where
  pub redirect : Text → Response
  pub exposition : Server → Response
  pub clock : Clock
  pub page_clock : PageClock

unfoldable pub handle : Pages → Server → Endpoint → Response
handle g s metrics = g.exposition s
handle g s live = handle_liveness s
handle g s ready = handle_readiness s
handle g s health = handle_health g.clock s
handle g s root = handle_root g.page_clock s

-- The answer of http.ServeMux where no pattern matches.
abbrev pub not_found : Response
not_found = record { status = 404; body = codes "404 page not found" ++ 10 ∷ [] }

-- The server's answer to a request for a path.
unfoldable pub serve_request : Pages → Server → Text → Response
serve_request g s path =
    if is_clean path
    then elim (best_match path routes) [ none ↦ not_found | some r ↦ handle g s r.1 ]
    else g.redirect path

-- The table that the routes amount to.
abbrev pub endpoint_of : Text → Endpoint
endpoint_of path =
    if text_eq path (codes "/metrics")
    then metrics
    else if text_eq path (codes "/health/live")
    then live
    else if text_eq path (codes "/health/ready")
    then ready
    else if text_eq path (codes "/health")
    then health
    else root

abbrev endpoint : Option (Text × Endpoint) → Option Endpoint
endpoint none = none
endpoint (some r) = some r.1

abbrev Agrees : Text → Type 0
Agrees path = endpoint (best_match path routes) ≡ some (endpoint_of path)

abbrev answer_of : Pages → Server → Option Endpoint → Response
answer_of g s none = not_found
answer_of g s (some e) = handle g s e

through :
    (g : Pages) (s : Server) (o : Option (Text × Endpoint))
    → (elim o as (λ _. Response) [ none ↦ not_found | some r ↦ handle g s r.1 ])
      ≡ answer_of g s (endpoint o)
through g s none = refl
through g s (some r) = refl

-- A path that is one of the patterns.
known : (path pattern : Text) → Agrees pattern → text_eq path pattern ≡ true → Agrees path
known path pattern h t = subst Agrees (sym (text_eq→≡ path pattern t)) h

is_clean-slash : (path : Text) → is_clean path ≡ true → has_prefix path (codes "/") ≡ true
unfolding is_clean has_prefix
is_clean-slash [] h = ground (arith, h)
is_clean-slash (c ∷ path) h = ground (arith, h)

best_match-routes : (path : Text) → is_clean path ≡ true → Agrees path
unfolding best_match routes pattern_matches ends_in_slash longer text_eq has_prefix
best_match-routes path clean = elim (Bool-cases (text_eq path (codes "/metrics"))) [
  | inl t ↦ known path (codes "/metrics") refl t
  | inr f1 ↦ elim (Bool-cases (text_eq path (codes "/health/live"))) [
    | inl t ↦ known path (codes "/health/live") refl t
    | inr f2 ↦ elim (Bool-cases (text_eq path (codes "/health/ready"))) [
      | inl t ↦ known path (codes "/health/ready") refl t
      | inr f3 ↦ elim (Bool-cases (text_eq path (codes "/health"))) [
        | inl t ↦ known path (codes "/health") refl t
        | inr f4 ↦ rw (f1, f2, f3, f4, is_clean-slash path clean) refl
      ]
    ]
  ]
]

-- The answer to a request for any path without percent-escapes, by a method other than CONNECT: where
-- the path begins with a slash, repeats none and has no segment . or .., the four endpoints answer at
-- their paths exactly and the status page at every other path, also at one below an endpoint; a
-- request for any other path is redirected.
pub serve_request_table :
    (g : Pages) (s : Server) (path : Text)
    → serve_request g s path
      ≡ (if is_clean path then handle g s (endpoint_of path) else g.redirect path)
unfolding serve_request
serve_request_table g s path = elim (Bool-cases (is_clean path)) [
  | inl clean ↦
      let answer =
        through g s (best_match path routes) ∙ ap (answer_of g s) (best_match-routes path clean) in
      rw clean answer
  | inr unclean ↦ rw unclean refl
]
