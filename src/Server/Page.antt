-- ===== src/Server/Page.antt =====
-- handleRoot of internal/metrics/server.go: the status page. Its text is that of the source, line by line.
use kubeadapt_k8s_pulse.Prelude.{List, [], ◌++◌, ◌∷◌}
use kubeadapt_k8s_pulse.Prelude.Text.{Text, codes}
use kubeadapt_k8s_pulse.Server.{Response, Server, get_status_class, get_status_text}

-- The time of the start and the rounded uptime, as the page prints them.
pub record PageClock : Type 0 where
  pub started_at : Text
  pub uptime : Text

-- Lines, with the byte that ends each but the last.
unfoldable pub lines_text : List Text → Text
lines_text [] = []
lines_text (l ∷ []) = l
lines_text (l ∷ (k ∷ ls)) = l ++ 10 ∷ lines_text (k ∷ ls)

abbrev page_head : List Text
page_head =
    codes "<!DOCTYPE html>"
    ∷ codes "<html>"
    ∷ codes "<head>"
    ∷ codes "    <title>KubeAdapt eBPF Agent</title>"
    ∷ codes "    <style>"
    ∷ codes
        "        body { font-family: -apple-system, BlinkMacSystemFont, \"Segoe UI\", Roboto, sans-serif; padding: 40px; background: #f5f5f5; }"
    ∷ codes "        h1 { color: #333; }"
    ∷ codes
        "        .info { background: white; padding: 20px; border-radius: 8px; box-shadow: 0 2px 4px rgba(0,0,0,0.1); margin: 20px 0; }"
    ∷ codes "        .metric { margin: 10px 0; }"
    ∷ codes "        .label { font-weight: 600; color: #666; }"
    ∷ codes "        a { color: #007bff; text-decoration: none; }"
    ∷ codes "        a:hover { text-decoration: underline; }"
    ∷ codes
        "        .status { display: inline-block; padding: 4px 8px; border-radius: 4px; font-size: 12px; font-weight: 600; }"
    ∷ codes "        .status.ready { background: #d4edda; color: #155724; }"
    ∷ codes "        .status.notready { background: #f8d7da; color: #721c24; }"
    ∷ codes "    </style>"
    ∷ codes "</head>"
    ∷ []

unfoldable pub page_status : PageClock → Server → List Text
page_status clock s =
    codes "<body>"
    ∷ codes "    <h1>KubeAdapt eBPF Network Metrics Agent</h1>"
    ∷ []
    ∷ codes "    <div class=\"info\">"
    ∷ codes "        <h2>Status</h2>"
    ∷ codes "        <div class=\"metric\">"
    ∷ codes "            <span class=\"label\">Health:</span>"
    ∷ (codes "            <span class=\"status "
        ++ (get_status_class s ++ (codes "\">" ++ (get_status_text s ++ codes "</span>"))))
    ∷ codes "        </div>"
    ∷ codes "        <div class=\"metric\">"
    ∷ (codes "            <span class=\"label\">Started:</span> " ++ clock.started_at)
    ∷ codes "        </div>"
    ∷ codes "        <div class=\"metric\">"
    ∷ (codes "            <span class=\"label\">Uptime:</span> " ++ clock.uptime)
    ∷ codes "        </div>"
    ∷ codes "    </div>"
    ∷ []
    ∷ []

abbrev page_endpoints : List Text
page_endpoints =
    codes "    <div class=\"info\">"
    ∷ codes "        <h2>Endpoints</h2>"
    ∷ codes "        <div class=\"metric\">"
    ∷ codes "            <a href=\"/metrics\">/metrics</a> - Prometheus metrics"
    ∷ codes "        </div>"
    ∷ codes "        <div class=\"metric\">"
    ∷ codes "            <a href=\"/health\">/health</a> - Combined health status"
    ∷ codes "        </div>"
    ∷ codes "        <div class=\"metric\">"
    ∷ codes "            <a href=\"/health/live\">/health/live</a> - Liveness probe"
    ∷ codes "        </div>"
    ∷ codes "        <div class=\"metric\">"
    ∷ codes "            <a href=\"/health/ready\">/health/ready</a> - Readiness probe"
    ∷ codes "        </div>"
    ∷ codes "    </div>"
    ∷ []
    ∷ []

abbrev page_about : List Text
page_about =
    codes "    <div class=\"info\">"
    ∷ codes "        <h2>About</h2>"
    ∷ codes
        "        <p>This agent provides true container-level network metrics by leveraging eBPF to intercept network syscalls at the kernel level.</p>"
    ∷ codes
        "        <p>Unlike standard Kubernetes metrics that are aggregated at the pod level, this agent tracks individual container network usage.</p>"
    ∷ codes "    </div>"
    ∷ codes "</body>"
    ∷ codes "</html>"
    ∷ []

-- (s *Server) handleRoot: the status code is the default one.
unfoldable pub handle_root : PageClock → Server → Response
handle_root clock s = record {
  status = 200;
  body = lines_text (page_head ++ (page_status clock s ++ (page_endpoints ++ page_about)));
}
