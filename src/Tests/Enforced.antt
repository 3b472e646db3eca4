-- ===== src/Tests/Enforced.antt =====
-- Examples of the whole system.
use polixy.Prelude.{◌≡◌, refl, none, some, List, [], ◌∷◌, string_eq, nat_eq}
use polixy.Result.{try_map}
use polixy.Map.{get, insert, extend}
use polixy.DefaultAllow.{deny, spawn}
use polixy.Watch
use polixy.Node.{get_or_push_pending, try_from_node}
use polixy.Labels.{matches}
use polixy.Lookup.{Rx, lookup, set, mk_server}
use polixy.Server
use polixy.Index.Authzs
use polixy.Index.Authzs.{apply_authz, apply_made, store_authz, store_entry}
use polixy.Authz.{mk_authz, selects, filter_selected}
use polixy.Server.{selected, add_authz, for_each, add_or_remove, server_add_authz}
use polixy.Server.{Server, iter_matching, new_server, apply}
use polixy.Index.{Index, new, namespace_or_new, for_all, with_namespace}
use polixy.Index.Nodes.{pods_to_apply, apply_node}
use polixy.Index.Pods
use polixy.Index.Pods.{store_pod, add_pod, new_pod, apply_pod}
use polixy.Index.Servers
use polixy.Index.Servers.{apply_server}
use polixy.Index.Run.{authz, applied, run, handle}
use polixy.Pod.{
  add_port, add_ports, add_containers, extract_ports, collect_port, link_server_port, link_port,
  link_ports, link_matching, clear_ports, link_servers, link_pods,
}
use polixy.Watch.{borrow, has_changed, mark_seen, send, channel}
use polixy.Prelude.{arith}
use polixy.Tests.{open_authz, nets}
use polixy.Prelude.{◌↔◌, is_some}
use polixy.Core.{v4}
use polixy.Client.HttpApi.{Spec, check}
use polixy.Index.Run.{node, server, pod}
use polixy.Tests.Updates.{or_none}
use polixy.Prelude.{true}
use polixy.Tests.{the_node, web_server, web_pod}
use polixy.Index.{Namespace}
use polixy.Pod.{Pod, Port}
use polixy.Server.{Server}
use polixy.Index.Run.Policed.{IsAdmitted}
use polixy.Tests.{nets-IsIpnet}
use polixy.Tests.Served.{or_no_pod, or_no_port}
use polixy.Prelude.{String, ◌≢◌, none}
use polixy.Reply.{ok}
use polixy.Index.Run.{Poll, failed, received, nodes, polls, poll, start}
use polixy.Client.{Inbound}
use polixy.Client.Calls
use polixy.Client.Commands.{workload}
use polixy.Client.Commands.Answered.{api}
use polixy.Controller.{Args, index_task}
use polixy.Controller.Enforced.{get-enforced}
use polixy.Tests.{plain, plain-IsWire}

abbrev args : Args nets
args = record { identity_domain = "cluster.local"; cluster_networks = []; default_allow = deny }

abbrev seen : List Poll
seen =
    failed nodes
    ∷ received (node (applied the_node))
    ∷ received (server (applied web_server))
    ∷ received (authz (applied open_authz))
    ∷ received (pod (applied web_pod))
    ∷ []

abbrev state : Index nets
state = (polls seen (index_task args)).idx

abbrev web_ns : Namespace nets
web_ns = or_none (get "default" state.namespaces.index)

abbrev web_entry : Pod
web_entry = or_no_pod (get "web-0" web_ns.pods)

abbrev web_port : Port
web_port = or_no_port (get 80 web_entry.ports.by_port)

web_ns-there : get "default" state.namespaces.index ≡ some web_ns
unfolding handle run new namespace_or_new for_all with_namespace pods_to_apply apply_node store_pod
    add_pod new_pod Pods.apply_in apply_pod Servers.apply_in apply_server get_or_push_pending
    try_from_node add_port add_ports add_containers extract_ports collect_port link_server_port
    link_port link_ports link_matching clear_ports link_servers link_pods set matches iter_matching
    new_server apply get insert try_map borrow send channel Watch.new extend spawn mk_server
    Server.mk_protocol apply_authz Authzs.apply_in mk_authz apply_made store_authz store_entry
    add_authz for_each add_or_remove server_add_authz selects filter_selected selected polls poll
    index_task start
web_ns-there = refl

web_entry-there : get "web-0" web_ns.pods ≡ some web_entry
unfolding handle run new namespace_or_new for_all with_namespace pods_to_apply apply_node store_pod
    add_pod new_pod Pods.apply_in apply_pod Servers.apply_in apply_server get_or_push_pending
    try_from_node add_port add_ports add_containers extract_ports collect_port link_server_port
    link_port link_ports link_matching clear_ports link_servers link_pods set matches iter_matching
    new_server apply get insert try_map borrow send channel Watch.new extend spawn mk_server
    Server.mk_protocol apply_authz Authzs.apply_in mk_authz apply_made store_authz store_entry
    add_authz for_each add_or_remove server_add_authz selects filter_selected selected polls poll
    index_task start
web_entry-there = refl

web_port-there : get 80 web_entry.ports.by_port ≡ some web_port
unfolding handle run new namespace_or_new for_all with_namespace pods_to_apply apply_node store_pod
    add_pod new_pod Pods.apply_in apply_pod Servers.apply_in apply_server get_or_push_pending
    try_from_node add_port add_ports add_containers extract_ports collect_port link_server_port
    link_port link_ports link_matching clear_ports link_servers link_pods set matches iter_matching
    new_server apply get insert try_map borrow send channel Watch.new extend spawn mk_server
    Server.mk_protocol apply_authz Authzs.apply_in mk_authz apply_made store_authz store_entry
    add_authz for_each add_or_remove server_add_authz selects filter_selected selected polls poll
    index_task start
web_port-there = refl

web_port-linked : web_port.server_name ≡ some "web"
unfolding handle run new namespace_or_new for_all with_namespace pods_to_apply apply_node store_pod
    add_pod new_pod Pods.apply_in apply_pod Servers.apply_in apply_server get_or_push_pending
    try_from_node add_port add_ports add_containers extract_ports collect_port link_server_port
    link_port link_ports link_matching clear_ports link_servers link_pods set matches iter_matching
    new_server apply get insert try_map borrow send channel Watch.new extend spawn mk_server
    Server.mk_protocol apply_authz Authzs.apply_in mk_authz apply_made store_authz store_entry
    add_authz for_each add_or_remove server_add_authz selects filter_selected selected polls poll
    index_task start
web_port-linked = refl

some_default : ◌≢◌ {A = String} "default" ""
some_default = cc

some_web : ◌≢◌ {A = String} "web-0" ""
some_web = cc

-- a client that is not on TLS
abbrev client : Spec
client = record { server_port = 80; client_ip = v4 7; tls = none }

get-enforced_example :
    (srv : Server nets) × (rx : Rx) × (inbound : Inbound nets) × (get "web" web_ns.servers
      ≡ some srv)
    × (lookup "default" "web-0" 80 state.lookups ≡ some rx)
    × (Calls.get_port plain
          (api plain state.links state.configs state.lookups)
          (workload "default" "web-0")
          80
        ≡ ok inbound)
    × ((is_some (check inbound client) ≡ true)
        ↔ IsAdmitted client rx.kubelet web_ns.authzs "web" srv.meta.labels)
get-enforced_example =
    get-enforced nets-IsIpnet plain plain-IsWire args seen "default" web_ns "web-0" web_entry 80
      web_port "web" client web_ns-there web_entry-there web_port-there web_port-linked
      (refl, (refl, (refl, (refl, (refl, (refl, (refl, tt))))))) some_default some_web (omega arith)
