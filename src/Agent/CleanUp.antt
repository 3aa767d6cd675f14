-- ===== src/Agent/CleanUp.antt =====
-- What main takes off the interfaces before it ends.
use kubeadapt_k8s_pulse.Prelude.{
  Bool, Bool-cases, List, Option, [], ap, false, if◌then◌else◌, inl, inr, map, none, refl, some,
  true, ℕ, ◌++◌, ◌∙◌, ◌∷◌, ◌≡◌,
}
use kubeadapt_k8s_pulse.Agent.{
  Action, Outcome, Startup, clean_up, run, run_loaded, run_manager, serving_errors, start_fails,
}
use kubeadapt_k8s_pulse.Agent.Paths.{
  Passes, new_manager-loading, run-Passes, run_manager-loaded, run_manager-refused, served,
}
use kubeadapt_k8s_pulse.Bpf.Manager.{
  Cleanup, LoadError, Manager, TcFilter, close, collection_close, filter_del, link_close,
  load_and_attach,
}
use kubeadapt_k8s_pulse.Bpf.Manager.Attach.{ingress_filter}
use kubeadapt_k8s_pulse.Bpf.Manager.Lifecycle.{attached_interfaces, close_idempotent, load_error}
use kubeadapt_k8s_pulse.Bpf.Platform.{lacks_manager, new}
use kubeadapt_k8s_pulse.Config.{Config}
use kubeadapt_k8s_pulse.Server.{
  ServeResult, Server, no_error, serve_failed, server_closed, start_fails,
}
use mathlib.Core.List.{append-nil}

filters_of : List Cleanup → List TcFilter
filters_of [] = []
filters_of (filter_del f ∷ cs) = f ∷ filters_of cs
filters_of (link_close l ∷ cs) = filters_of cs
filters_of (collection_close ∷ cs) = filters_of cs

-- The filters that are taken off the interfaces.
unfoldable pub removed_filters : List Action → List TcFilter
unfolding filters_of
removed_filters [] = []
removed_filters (clean_up cs ∷ more) = filters_of cs ++ removed_filters more
removed_filters (_ ∷ more) = removed_filters more

filters_of-map :
    (fs : List TcFilter) (rest : List Cleanup)
    → filters_of (map filter_del fs ++ rest) ≡ fs ++ filters_of rest
unfolding filters_of
filters_of-map [] rest = refl
filters_of-map (f ∷ fs) rest = ap (λ l. f ∷ l) (filters_of-map fs rest)

filters_of-rest :
    (ls : List ℕ) (b : Bool)
    → filters_of (map link_close ls ++ (if b then collection_close ∷ [] else [])) ≡ []
unfolding filters_of
filters_of-rest [] true = refl
filters_of-rest [] false = refl
filters_of-rest (l ∷ ls) b = filters_of-rest ls b

close-filters : (m : Manager) → filters_of (close m).1 ≡ m.tc_filters
close-filters m =
    ap (λ cs. filters_of cs) (close_idempotent m).0
    ∙ (filters_of-map m.tc_filters _
        ∙ rw (filters_of-rest m.links m.has_collection) (append-nil m.tc_filters))

run_loaded-filters :
    (s : Startup) (cfg : Config) (server : Server) (e : Option LoadError) (m : Manager)
    → removed_filters (run_loaded s cfg server e m) ≡ m.tc_filters
unfolding run_loaded removed_filters
run_loaded-filters s cfg server (some e) m = append-nil (filters_of (close m).1) ∙ close-filters m
run_loaded-filters s cfg server none m = elim (Bool-cases cfg.enable_profiling) [
  | inl p ↦ elim (Bool-cases cfg.connection_tracking) [
    | inl t ↦ rw (p, t) (append-nil (filters_of (close m).1) ∙ close-filters m)
    | inr t ↦ rw (p, t) (append-nil (filters_of (close m).1) ∙ close-filters m)
  ]
  | inr p ↦ elim (Bool-cases cfg.connection_tracking) [
    | inl t ↦ rw (p, t) (append-nil (filters_of (close m).1) ∙ close-filters m)
    | inr t ↦ rw (p, t) (append-nil (filters_of (close m).1) ∙ close-filters m)
  ]
]

run_manager-filters :
    (s : Startup) (cfg : Config) (server : Server)
    → removed_filters (run_manager s cfg server)
      ≡ map ingress_filter
          (if lacks_manager s.platform s.memlock_fails then [] else attached_interfaces s.loading)
unfolding removed_filters
run_manager-filters s cfg server = elim (Bool-cases (lacks_manager s.platform s.memlock_fails)) [
  | inl f ↦ ap (λ l. removed_filters l) (run_manager-refused s cfg server f) ∙ rw f refl
  | inr g ↦
      ap (λ l. removed_filters l) (run_manager-loaded s cfg server g)
      ∙ (run_loaded-filters s cfg server (load_error s.loading) (load_and_attach s.loading new).1
          ∙ ((new_manager-loading s.loading).1 ∙ rw g refl))
]

serving_errors-removed_filters :
    (r : ServeResult) (more : List Action)
    → removed_filters (serving_errors r ++ more) ≡ removed_filters more
unfolding removed_filters start_fails
serving_errors-removed_filters no_error more = refl
serving_errors-removed_filters server_closed more = refl
serving_errors-removed_filters serve_failed more = refl

-- A run that gets past the configuration, the logger and the kernel check takes off, before it
-- ends, exactly the filters that it attached, once each and in order, also when loading failed
-- after the attachment had begun.
pub run-filters :
    (s : Startup) (cfg : Config)
    → Passes s cfg
    → removed_filters (run s).trace
      ≡ map ingress_filter
          (if lacks_manager s.platform s.memlock_fails then [] else attached_interfaces s.loading)
unfolding removed_filters
run-filters s cfg h =
    ap (λ (o : Outcome). removed_filters o.trace) (run-Passes s cfg h)
    ∙ (serving_errors-removed_filters s.serve_result _ ∙ run_manager-filters s cfg (served s cfg))
