-- ===== src/Tests/Policed.antt =====
-- Examples of what is admitted.
use polixy.Prelude.{◌≡◌, refl, none, some, List, [], ◌∷◌, string_eq, nat_eq}
use polixy.Result.{try_map}
use polixy.Map.{get, insert, extend}
use polixy.DefaultAllow.{deny, spawn}
use polixy.Core.{InboundServer}
use polixy.Watch
use polixy.Node.{get_or_push_pending, try_from_node}
use polixy.Labels.{matches}
use polixy.Lookup.{Rx, set, mk_server}
use polixy.Server
use polixy.Index.Authzs
use polixy.Index.Authzs.{apply_authz, apply_made, store_authz, store_entry}
use polixy.Authz.{mk_authz, selects, filter_selected}
use polixy.Server.{selected, add_authz, for_each, add_or_remove, server_add_authz}
use polixy.Server.{Server, iter_matching, new_server, apply}
use polixy.Index.{Index, new, namespace_or_new, for_all, with_namespace}
use polixy.Index.Nodes.{pods_to_apply, apply_node}
use polixy.Index.Pods
use polixy.Index.Pods.{store_pod, add_pod, new_pod, apply_pod}
use polixy.Index.Servers
use polixy.Index.Servers.{apply_server}
use polixy.Index.Run.{authz, applied, run, handle}
use polixy.Pod.{
  add_port, add_ports, add_containers, extract_ports, collect_port, link_server_port, link_port,
  link_ports, link_matching, clear_ports, link_servers, link_pods,
}
use polixy.Watch.{borrow, has_changed, mark_seen, send, channel}
use polixy.Client.Decode.{inbound_of}
use polixy.Tests.{open_authz, nets}
use polixy.Prelude.{◌↔◌, is_some}
use polixy.Core.{v4}
use polixy.Client.HttpApi.{Spec, check}
use polixy.Index.Run.{Update, node, server, pod}
use polixy.Tests.Updates.{or_none}
use polixy.Prelude.{true}
use polixy.Tests.{the_node, web_server, web_pod}
use polixy.Index.{Namespace}
use polixy.Pod.{Pod, Port}
use polixy.Lookup.{get_inbound_server, lookup}
use polixy.Server.{Server}
use polixy.Index.Run.Policed.{IsAdmitted, run-admits}
use polixy.Tests.{nets-IsIpnet}
use polixy.Tests.Served.{or_no_pod, or_no_port}

abbrev with_authz : List Update
with_authz =
    node (applied the_node)
    ∷ server (applied web_server)
    ∷ authz (applied open_authz)
    ∷ pod (applied web_pod)
    ∷ []

abbrev policed : Index nets
policed = run with_authz (new [] "cluster.local" deny 10)

abbrev web_ns : Namespace nets
web_ns = or_none (get "default" policed.namespaces.index)

abbrev web_entry : Pod
web_entry = or_no_pod (get "web-0" web_ns.pods)

abbrev web_port : Port
web_port = or_no_port (get 80 web_entry.ports.by_port)

web_ns-there : get "default" policed.namespaces.index ≡ some web_ns
unfolding handle run new namespace_or_new for_all with_namespace pods_to_apply apply_node store_pod
    add_pod new_pod Pods.apply_in apply_pod Servers.apply_in apply_server get_or_push_pending
    try_from_node add_port add_ports add_containers extract_ports collect_port link_server_port
    link_port link_ports link_matching clear_ports link_servers link_pods set matches iter_matching
    new_server apply get insert try_map borrow send channel Watch.new extend spawn mk_server
    Server.mk_protocol apply_authz Authzs.apply_in mk_authz apply_made store_authz store_entry
    add_authz for_each add_or_remove server_add_authz selects filter_selected selected
web_ns-there = refl

web_entry-there : get "web-0" web_ns.pods ≡ some web_entry
unfolding handle run new namespace_or_new for_all with_namespace pods_to_apply apply_node store_pod
    add_pod new_pod Pods.apply_in apply_pod Servers.apply_in apply_server get_or_push_pending
    try_from_node add_port add_ports add_containers extract_ports collect_port link_server_port
    link_port link_ports link_matching clear_ports link_servers link_pods set matches iter_matching
    new_server apply get insert try_map borrow send channel Watch.new extend spawn mk_server
    Server.mk_protocol apply_authz Authzs.apply_in mk_authz apply_made store_authz store_entry
    add_authz for_each add_or_remove server_add_authz selects filter_selected selected
web_entry-there = refl

web_port-there : get 80 web_entry.ports.by_port ≡ some web_port
unfolding handle run new namespace_or_new for_all with_namespace pods_to_apply apply_node store_pod
    add_pod new_pod Pods.apply_in apply_pod Servers.apply_in apply_server get_or_push_pending
    try_from_node add_port add_ports add_containers extract_ports collect_port link_server_port
    link_port link_ports link_matching clear_ports link_servers link_pods set matches iter_matching
    new_server apply get insert try_map borrow send channel Watch.new extend spawn mk_server
    Server.mk_protocol apply_authz Authzs.apply_in mk_authz apply_made store_authz store_entry
    add_authz for_each add_or_remove server_add_authz selects filter_selected selected
web_port-there = refl

web_port-linked : web_port.server_name ≡ some "web"
unfolding handle run new namespace_or_new for_all with_namespace pods_to_apply apply_node store_pod
    add_pod new_pod Pods.apply_in apply_pod Servers.apply_in apply_server get_or_push_pending
    try_from_node add_port add_ports add_containers extract_ports collect_port link_server_port
    link_port link_ports link_matching clear_ports link_servers link_pods set matches iter_matching
    new_server apply get insert try_map borrow send channel Watch.new extend spawn mk_server
    Server.mk_protocol apply_authz Authzs.apply_in mk_authz apply_made store_authz store_entry
    add_authz for_each add_or_remove server_add_authz selects filter_selected selected
web_port-linked = refl

-- a client in the network of the nodes, without TLS
abbrev client : Spec
client = record { server_port = 80; client_ip = v4 7; tls = none }

run-admits_example :
    (srv : Server nets) × (rx : Rx) × (s : InboundServer nets) × (get "web" web_ns.servers
      ≡ some srv)
    × (lookup "default" "web-0" 80 policed.lookups ≡ some rx)
    × (get_inbound_server policed.links policed.configs ("default", "web-0", 80) policed.lookups
        ≡ some s)
    × ((is_some (check (inbound_of s) client) ≡ true)
        ↔ IsAdmitted client rx.kubelet web_ns.authzs "web" srv.meta.labels)
run-admits_example =
    run-admits nets-IsIpnet [] "cluster.local" deny 10 with_authz "default" web_ns "web-0" web_entry
      80 web_port "web" client web_ns-there web_entry-there web_port-there web_port-linked
