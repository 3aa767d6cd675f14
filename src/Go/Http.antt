-- ===== src/Go/Http.antt =====
-- http.ServeMux, as documented: the longest pattern that matches the path wins, and a pattern that ends in
-- a slash matches every path below it; a request whose path has a segment . or .. or repeated slashes is
-- redirected to a cleaner path instead. Paths have no percent-escapes, patterns have no host, and the
-- method is not CONNECT.
use kubeadapt_k8s_pulse.Prelude.{
  Bool, List, Option, [], false, if◌then◌else◌, length, ltb, none, not, some, ◌&&◌, ◌++◌, ◌==◌,
  ◌||◌, ◌∷◌,
}
use kubeadapt_k8s_pulse.Prelude.Text.{Text, codes, has_prefix, text_eq}

unfoldable pub ends_in_slash : Text → Bool
ends_in_slash [] = false
ends_in_slash (c ∷ []) = c == 47
ends_in_slash (c ∷ (d ∷ s)) = ends_in_slash (d ∷ s)

-- Whether a pattern of http.ServeMux matches a path.
unfoldable pub pattern_matches : Text → Text → Bool
pattern_matches path pattern =
    if ends_in_slash pattern then has_prefix path pattern else text_eq path pattern

-- A segment between two slashes of a clean path.
unfoldable pub is_segment : Text → Bool
is_segment segment =
    not (text_eq segment []) && not (text_eq segment (codes ".") || text_eq segment (codes ".."))

-- The same behind the last slash, where nothing may stand.
unfoldable pub is_last_segment : Text → Bool
is_last_segment segment = not (text_eq segment (codes ".") || text_eq segment (codes ".."))

-- Whether the rest of a path is clean, whose current segment begins as given.
unfoldable pub clean_from : Text → Text → Bool
clean_from segment [] = is_last_segment segment
clean_from segment (c ∷ path) =
    let rest = clean_from (if c == 47 then [] else segment ++ c ∷ []) path in
    if c == 47 then is_segment segment && rest else rest

-- A path that begins with a slash, repeats none, and has no segment . or ..
unfoldable pub is_clean : Text → Bool
is_clean [] = false
is_clean (c ∷ path) = c == 47 && clean_from [] path

module _ {E : Type 0} where
  -- The longer of a pattern that matches and the best one of the rest.
  unfoldable pub longer : Text × E → Option (Text × E) → Option (Text × E)
  longer r none = some r
  longer r (some best) = if ltb (length r.0) (length best.0) then some best else some r

  unfoldable pub best_match : Text → List (Text × E) → Option (Text × E)
  best_match path [] = none
  best_match path (r ∷ rs) =
      let rest = best_match path rs in if pattern_matches path r.0 then longer r rest else rest
