-- ===== src/Tests/Parts.antt =====
-- Examples of the parts of the controller and of the client.
use polixy.Prelude.{
  ℕ, String, ◌≡◌, ◌≢◌, ◌↔◌, refl, true, none, some, List, [], ◌∷◌, arith, string_eq, nat_eq, any,
  All, contains, is_some,
}
use polixy.Result.{ok}
use polixy.Map.{get}
use polixy.Core.{v4, http1}
use polixy.K8s.{number, Container}
use polixy.Core.Display.{display}
use polixy.Authz.{mk_identity}
use polixy.Authz.Make.{display-mk_identity}
use polixy.Labels.{in_set, not_in, matches, expression_matches, or_empty}
use polixy.Labels.Matching.{Accepts, HasLabels, matches_iff, not_in-eq-in_set}
use polixy.DefaultAllow
use polixy.DefaultAllow.{DefaultAllow, deny, cluster_authenticated, from_str, spawn, get_rx}
use polixy.DefaultAllow.Modes.{from_str_iff}
use polixy.Node.{known, NodeIndex, KubeletIps, get_or_push_pending, node_of, try_from_node}
use polixy.Node.Kubelet.{FirstHosts, cidrs_or, try_from_node_iff}
use polixy.Node.Pending.{get_or_push_pending-known}
use polixy.Lookup.{Rx, ByNs}
use polixy.Pod.{Port, Pod, Links, extract_ports, link_servers}
use polixy.Pod.Extract.{IsExtracted, declares, extract_ports-IsExtracted, extract_ports-declared}
use polixy.Pod.Link.Assign.{OwnSenders, At, first_match}
use polixy.Pod.Link.{settle, link_servers-At}
use polixy.Server.{Server, SrvIndex, Configs, apply, iter_matching}
use polixy.Server.Updates.{updated, config_of, apply-updated}
use polixy.Watch
use polixy.Watch.{borrow}
use polixy.Tests.{nets, web_labels, web_pods, web_spec, web_pod, web_server, the_node}

abbrev no_links : Links
no_links = Watch.new 0

abbrev kubelet : KubeletIps
kubelet = v4 1 ∷ []

extract_ports-IsExtracted_example :
    IsExtracted 7 kubelet (extract_ports web_spec 7 kubelet no_links)
extract_ports-IsExtracted_example = extract_ports-IsExtracted 7 kubelet web_spec no_links

extract_ports-declared_example :
    is_some (get 80 (extract_ports web_spec 7 kubelet no_links).ports.by_port)
    ≡ any (λ (c : Container). any (declares 80) c.ports) web_spec.containers
extract_ports-declared_example = extract_ports-declared 7 kubelet web_spec no_links 80

-- a pod with one port, and the server that names it
abbrev web_port : Port
web_port = record { server_name = none; server_tx = 0 }

abbrev indexed_pod : Pod
indexed_pod = record {
  ports = record { by_port = (80, web_port) ∷ []; by_name = ("http", 80 ∷ []) ∷ [] };
  labels = web_labels;
  default_allow_rx = 4;
}

abbrev indexed_server : Server nets
indexed_server = record {
  meta = record { labels = []; port = number 80; pod_selector = web_pods; protocol = http1 };
  authorizations = [];
  rx = 5;
}

abbrev indexed_servers : SrvIndex nets
indexed_servers = ("web", indexed_server) ∷ []

one_port-OwnSenders : OwnSenders ((80, web_port) ∷ [])
unfolding get
one_port-OwnSenders p q tx h k = ground (arith, nat_eq.beq_iff 80 p, nat_eq.beq_iff 80 q)

link_servers-At_example :
    At 80
      (settle 4
        (first_match indexed_pod.ports 80 (iter_matching web_labels indexed_servers))
        (web_port, borrow 0 no_links))
      (
        (link_servers indexed_servers indexed_pod no_links).0.ports.by_port,
        (link_servers indexed_servers indexed_pod no_links).1,
      )
unfolding get
link_servers-At_example =
    link_servers-At indexed_servers indexed_pod no_links 80 web_port one_port-OwnSenders refl

abbrev configs : Configs nets
configs = Watch.new (config_of indexed_server)

apply-updated_example :
    (get "web" (apply web_server [] indexed_servers configs).0
      ≡ some (updated web_server [] indexed_server))
    × (borrow 5 (apply web_server [] indexed_servers configs).1
        ≡ config_of (updated web_server [] indexed_server))
unfolding get borrow Watch.new
apply-updated_example = apply-updated web_server [] indexed_servers indexed_server configs refl refl

-- pods in the lookups
abbrev web_lookups : List (ℕ × Rx)
web_lookups = (80, record { kubelet = kubelet; rx = 0 }) ∷ []

abbrev one_pod : ByNs
one_pod = ("default", ("web-0", web_lookups) ∷ []) ∷ []

matches_iff_example : (matches web_pods web_labels ≡ true) ↔ (
    All
      (λ expr. Accepts expr.operator expr.values (get expr.key web_labels))
      (or_empty web_pods.match_expressions)
    × HasLabels (or_empty web_pods.match_labels) web_labels)
matches_iff_example = matches_iff web_pods web_labels

not_in-eq-in_set_example :
    (expression_matches web_labels (record { key = "app"; operator = not_in; values = "web" ∷ [] })
      ≡ expression_matches web_labels
          (record { key = "app"; operator = in_set; values = "web" ∷ [] }))
    × (expression_matches web_labels
          (record { key = "app"; operator = not_in; values = "web" ∷ [] })
        ≡ contains {A = String} ("web" ∷ []) "web")
unfolding get
not_in-eq-in_set_example = not_in-eq-in_set web_labels "app" "web" ("web" ∷ []) refl

from_str_iff_example : (from_str "deny" ≡ ok deny) ↔ ("deny" ≡ DefaultAllow.display deny)
from_str_iff_example = from_str_iff "deny" deny

try_from_node_iff_example :
    (try_from_node nets the_node ≡ ok (v4 1 ∷ []))
    ↔ (FirstHosts nets (cidrs_or nets ("10.0.0.1/32" ∷ []) none) (v4 1 ∷ []) × (v4 1 ∷ [] ≢ []))
try_from_node_iff_example =
    try_from_node_iff nets the_node (record { pod_cidr = none; pod_cidrs = "10.0.0.1/32" ∷ [] })
      (v4 1 ∷ []) refl

abbrev known_node : NodeIndex
known_node = ("node", known kubelet) ∷ []

get_or_push_pending-known_example :
    (web_pod ≡ web_pod)
    × (node : String) × (node_of web_pod ≡ some node)
    × (get node known_node ≡ some (known kubelet))
unfolding get_or_push_pending get
get_or_push_pending-known_example =
    get_or_push_pending-known web_pod web_pod kubelet known_node refl

display-mk_identity_example :
    display (mk_identity "*.default.serviceaccount") ≡ "*.default.serviceaccount"
display-mk_identity_example = display-mk_identity "*.default.serviceaccount"
