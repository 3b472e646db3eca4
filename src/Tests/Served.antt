-- ===== src/Tests/Served.antt =====
-- Examples of what is served.
use polixy.Prelude.{ℕ, ◌⊎◌, ◌∙◌, ◌≡◌, refl, Option, none, some, List, [], ◌∷◌, string_eq, nat_eq}
use polixy.Result.{try_map}
use polixy.Map.{get, insert}
use polixy.DefaultAllow.{deny, DefaultAllow, get_rx}
use polixy.DefaultAllow.Modes.{allowed}
use polixy.Core.{InboundServer, detect}
use polixy.Watch.{borrow}
use polixy.Node.{get_or_push_pending, try_from_node}
use polixy.Labels.{matches}
use polixy.Lookup.{Rx, set, lookup, get_inbound_server, mk_server}
use polixy.Server.{Server, iter_matching, new_server, apply}
use polixy.Server.Updates.{config_of}
use polixy.Index.{Index, Namespace, new, namespace_or_new, for_all, with_namespace}
use polixy.Index.Nodes.{pods_to_apply, apply_node}
use polixy.Index.Pods
use polixy.Index.Pods.{store_pod, add_pod, new_pod, apply_pod}
use polixy.Index.Servers
use polixy.Index.Servers.{apply_server}
use polixy.Index.Run.{Update, node, pod, server, applied, run, handle}
use polixy.Index.Run.Linked.{run-linked}
use polixy.Index.Run.Linked.Channels.{IsMode}
use polixy.Index.Run.Heard.{run-heard}
use polixy.Index.Run.Synced.Matching.{find_pod-there}
use polixy.Index.Run.Served.{run-served, run-served_default, run-indexed}
use polixy.Pod.{
  Pod, Port, add_port, add_ports, add_containers, extract_ports, collect_port, link_server_port,
  link_port, link_ports, link_matching, clear_port, clear_ports, link_servers, link_pods,
}
use polixy.Pod.Linked.{expected}
use polixy.Tests.{nets, the_node, web_server, web_pod}
use polixy.Tests.Updates.{or_none}

abbrev no_pod : Pod
no_pod = record { ports = record { by_port = []; by_name = [] }; labels = []; default_allow_rx = 0 }

abbrev pub or_no_pod : Option Pod → Pod
or_no_pod none = no_pod
or_no_pod (some p) = p

abbrev no_port : Port
no_port = record { server_name = none; server_tx = 0 }

abbrev pub or_no_port : Option Port → Port
or_no_port none = no_port
or_no_port (some p) = p

abbrev pub with_server : List Update
with_server = node (applied the_node) ∷ server (applied web_server) ∷ pod (applied web_pod) ∷ []

abbrev without_server : List Update
without_server = node (applied the_node) ∷ pod (applied web_pod) ∷ []

abbrev pub after_pod : Index nets
after_pod = run (with_server) (new [] "cluster.local" deny 10)

abbrev web_ns : Namespace nets
web_ns = or_none (get "default" after_pod.namespaces.index)

abbrev web_entry : Pod
web_entry = or_no_pod (get "web-0" web_ns.pods)

abbrev web_port : Port
web_port = or_no_port (get 80 web_entry.ports.by_port)

web_ns-there : get "default" after_pod.namespaces.index ≡ some web_ns
unfolding handle run new namespace_or_new for_all with_namespace pods_to_apply apply_node store_pod
    add_pod new_pod Pods.apply_in apply_pod Servers.apply_in apply_server get_or_push_pending
    try_from_node add_port add_ports add_containers extract_ports collect_port link_server_port
    link_port link_ports link_matching clear_ports link_servers link_pods set matches iter_matching
    new_server apply get insert try_map
web_ns-there = refl

web_entry-there : get "web-0" web_ns.pods ≡ some web_entry
unfolding handle run new namespace_or_new for_all with_namespace pods_to_apply apply_node store_pod
    add_pod new_pod Pods.apply_in apply_pod Servers.apply_in apply_server get_or_push_pending
    try_from_node add_port add_ports add_containers extract_ports collect_port link_server_port
    link_port link_ports link_matching clear_ports link_servers link_pods set matches iter_matching
    new_server apply get insert try_map
web_entry-there = refl

web_port-there : get 80 web_entry.ports.by_port ≡ some web_port
unfolding handle run new namespace_or_new for_all with_namespace pods_to_apply apply_node store_pod
    add_pod new_pod Pods.apply_in apply_pod Servers.apply_in apply_server get_or_push_pending
    try_from_node add_port add_ports add_containers extract_ports collect_port link_server_port
    link_port link_ports link_matching clear_ports link_servers link_pods set matches iter_matching
    new_server apply get insert try_map
web_port-there = refl

web_port-linked : web_port.server_name ≡ some "web"
unfolding handle run new namespace_or_new for_all with_namespace pods_to_apply apply_node store_pod
    add_pod new_pod Pods.apply_in apply_pod Servers.apply_in apply_server get_or_push_pending
    try_from_node add_port add_ports add_containers extract_ports collect_port link_server_port
    link_port link_ports link_matching clear_ports link_servers link_pods set matches iter_matching
    new_server apply get insert try_map
web_port-linked = refl

abbrev after_bare : Index nets
after_bare = run (without_server) (new [] "cluster.local" deny 10)

abbrev bare_ns : Namespace nets
bare_ns = or_none (get "default" after_bare.namespaces.index)

abbrev bare_entry : Pod
bare_entry = or_no_pod (get "web-0" bare_ns.pods)

abbrev bare_port : Port
bare_port = or_no_port (get 80 bare_entry.ports.by_port)

bare_ns-there : get "default" after_bare.namespaces.index ≡ some bare_ns
unfolding handle run new namespace_or_new for_all with_namespace pods_to_apply apply_node store_pod
    add_pod new_pod Pods.apply_in apply_pod Servers.apply_in apply_server get_or_push_pending
    try_from_node add_port add_ports add_containers extract_ports collect_port link_server_port
    link_port link_ports link_matching clear_port clear_ports link_servers link_pods set matches
    iter_matching new_server apply get insert try_map
bare_ns-there = refl

bare_entry-there : get "web-0" bare_ns.pods ≡ some bare_entry
unfolding handle run new namespace_or_new for_all with_namespace pods_to_apply apply_node store_pod
    add_pod new_pod Pods.apply_in apply_pod Servers.apply_in apply_server get_or_push_pending
    try_from_node add_port add_ports add_containers extract_ports collect_port link_server_port
    link_port link_ports link_matching clear_port clear_ports link_servers link_pods set matches
    iter_matching new_server apply get insert try_map
bare_entry-there = refl

bare_port-there : get 80 bare_entry.ports.by_port ≡ some bare_port
unfolding handle run new namespace_or_new for_all with_namespace pods_to_apply apply_node store_pod
    add_pod new_pod Pods.apply_in apply_pod Servers.apply_in apply_server get_or_push_pending
    try_from_node add_port add_ports add_containers extract_ports collect_port link_server_port
    link_port link_ports link_matching clear_port clear_ports link_servers link_pods set matches
    iter_matching new_server apply get insert try_map
bare_port-there = refl

bare_port-default : bare_port.server_name ≡ none
unfolding handle run new namespace_or_new for_all with_namespace pods_to_apply apply_node store_pod
    add_pod new_pod Pods.apply_in apply_pod Servers.apply_in apply_server get_or_push_pending
    try_from_node add_port add_ports add_containers extract_ports collect_port link_server_port
    link_port link_ports link_matching clear_port clear_ports link_servers link_pods set matches
    iter_matching new_server apply get insert try_map
bare_port-default = refl

run-linked_example :
    (expected web_ns.servers web_entry.default_allow_rx web_port.server_name
      ≡ some (borrow web_port.server_tx after_pod.links))
    × IsMode after_pod.default_allows web_entry.default_allow_rx
run-linked_example =
    run-linked {ip = nets} [] "cluster.local" deny 10 with_server "default" web_ns "web-0" web_entry
      80 web_port web_ns-there web_entry-there web_port-there

run-served_example :
    (srv : Server nets) × (rx : Rx) × (get "web" web_ns.servers ≡ some srv)
    × (lookup "default" "web-0" 80 after_pod.lookups ≡ some rx)
    × (get_inbound_server after_pod.links after_pod.configs
          ("default", "web-0", 80)
          after_pod.lookups
        ≡ some (mk_server rx.kubelet (config_of srv)))
run-served_example =
    run-served {ip = nets} [] "cluster.local" deny 10 with_server "default" web_ns "web-0" web_entry
      80 web_port "web" web_ns-there web_entry-there web_port-there web_port-linked

run-served_default_example :
    (m : DefaultAllow) × (rx : Rx) × (bare_entry.default_allow_rx
      ≡ get_rx after_bare.default_allows m)
    × (lookup "default" "web-0" 80 after_bare.lookups ≡ some rx)
    × (get_inbound_server after_bare.links after_bare.configs
          ("default", "web-0", 80)
          after_bare.lookups
        ≡ some (
            mk_server rx.kubelet
              (record { protocol = detect 10; authorizations = allowed {ip = nets} [] m })))
run-served_default_example =
    run-served_default {ip = nets} [] "cluster.local" deny 10 without_server "default" bare_ns
      "web-0" bare_entry 80 bare_port bare_ns-there bare_entry-there bare_port-there
      bare_port-default

abbrev or_no_server : Option (InboundServer nets) → InboundServer nets
or_no_server none = record { protocol = detect 0; authorizations = [] }
or_no_server (some s) = s

abbrev pub answer : InboundServer nets
answer = or_no_server (
    get_inbound_server after_pod.links after_pod.configs ("default", "web-0", 80) after_pod.lookups)

pub answer-there :
    get_inbound_server after_pod.links after_pod.configs ("default", "web-0", 80) after_pod.lookups
    ≡ some answer
answer-there =
    there _ _
      (run-served {ip = nets} [] "cluster.local" deny 10 with_server "default" web_ns "web-0"
        web_entry 80 web_port "web" web_ns-there web_entry-there web_port-there web_port-linked).4
  where
    there :
        (o : Option (InboundServer nets)) (s : InboundServer nets)
        → o ≡ some s
        → o ≡ some (or_no_server o)
    there none s h = cc
    there (some x) s h = refl

run-indexed_example :
    (ns : Namespace nets) × (pod : Pod) × (port : Port) × (get "default" after_pod.namespaces.index
      ≡ some ns)
    × (get "web-0" ns.pods ≡ some pod)
    × (get 80 pod.ports.by_port ≡ some port)
run-indexed_example =
    run-indexed {ip = nets} [] "cluster.local" deny 10 with_server "default" "web-0" 80 answer
      answer-there

run-heard_example :
    ((link_servers web_ns.servers (record web_entry { labels = [] }) after_pod.links).1.version
        web_port.server_tx
      ≡ after_pod.links.version web_port.server_tx)
    ⊎ ((p : ℕ) × (rx : Rx) × (lookup "default" "web-0" p after_pod.lookups ≡ some rx)
        × (rx.rx ≡ web_port.server_tx))
run-heard_example =
    run-heard nets [] "cluster.local" deny 10 with_server "default" "web-0" web_entry
      (find_pod-there "default" "web-0" web_ns after_pod.namespaces.index web_ns-there
        ∙ web_entry-there)
      web_ns.servers [] after_pod.links web_port.server_tx
