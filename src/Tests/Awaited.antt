-- ===== src/Tests/Awaited.antt =====
-- A pod that is reported before its node, for the examples.
use polixy.Prelude.{◌≡◌, refl, [], ◌∷◌, true, false, All, is_some, string_eq}
use polixy.Result.{ok, try_map}
use polixy.Map.{get}
use polixy.Core.{v4}
use polixy.DefaultAllow.{deny}
use polixy.Node.{KubeletIps, try_from_node}
use polixy.Index.{Index, new}
use polixy.Index.Nodes.{is_known, pods_to_apply}
use polixy.Index.Run.{Update, node, pod, server, authz, applied, deleted, handle, run}
use polixy.Index.Run.Synced.Matching.{find_pod}
use polixy.Index.Run.Awaited.{HasNamespace}
use polixy.Index.Run.Awaited.Reported.{run-awaited}
use polixy.Tests.{nets, web_pod, web_spec, web_labels, web_server, open_authz, meta_of, the_node}
use polixy.K8s
use polixy.Lookup.{lookup}
use polixy.Prelude.{String, none, some, List, Option, ◌≢◌, ◌⊎◌, ◌<◌, nat_eq}
use polixy.Index.Run.Addressed.{IsOfNode, apply_pod-Adds}
use polixy.Index.Run.Bounded.{answered-lt}
use polixy.Tests.Served.{with_server, answer, answer-there}
use polixy.Lookup.{Rx, set}
use polixy.Map.{insert, extend}
use polixy.Labels.{matches}
use polixy.Node.{get_or_push_pending}
use polixy.Server.{iter_matching, new_server, apply}
use polixy.Index.{namespace_or_new, for_all, with_namespace}
use polixy.Index.Nodes.{apply_node}
use polixy.Index.Pods
use polixy.Index.Pods.{store_pod, add_pod, new_pod, apply_pod}
use polixy.Index.Servers
use polixy.Index.Servers.{apply_server}
use polixy.Pod.{
  add_port, add_ports, add_containers, extract_ports, collect_port, link_server_port, link_port,
  link_ports, link_matching, clear_ports, link_servers, link_pods,
}

abbrev kubelet : KubeletIps
kubelet = v4 1 ∷ []

abbrev empty : Index nets
empty = run [] (new [] "cluster.local" deny 10)

the_node-parses : try_from_node nets the_node ≡ ok kubelet
unfolding try_from_node try_map
the_node-parses = refl

node-unknown : is_known (get "node" empty.nodes) ≡ false
unfolding run new get is_known
node-unknown = refl

nothing-waits : All HasNamespace (pods_to_apply (get "node" empty.nodes))
unfolding run new get pods_to_apply
nothing-waits = tt

not-indexed : find_pod "default" "web-0" empty.namespaces.index ≡ none
unfolding run new get
not-indexed = refl

-- pods of the same node that come and go
abbrev sibling : String → K8s.Pod
sibling name = record { metadata = meta_of name web_labels; spec = some web_spec }

abbrev between : List Update
between =
    pod (applied (sibling "api"))
    ∷ server (applied web_server)
    ∷ pod (deleted (sibling "api"))
    ∷ authz (applied open_authz)
    ∷ pod (applied (sibling "jobs"))
    ∷ []

other_names : ◌≢◌ {A = String} "api" "web-0"
other_names = cc

run-awaited_example :
    is_some (
      find_pod "default" "web-0"
        (handle
          (node (applied the_node))
          (run between (handle (pod (applied web_pod)) empty).1)).1.namespaces.index)
    ≡ true
run-awaited_example =
    run-awaited nets [] "cluster.local" deny 10 [] web_pod web_spec between the_node "default"
      kubelet (refl, refl) refl the_node-parses (not-indexed, node-unknown, nothing-waits)
      (tt, (tt, ((λ h. other_names), (tt, (tt, tt)))))

-- the pod, when its node is known
abbrev before_pod : Index nets
before_pod =
    run (node (applied the_node) ∷ server (applied web_server) ∷ [])
      (new [] "cluster.local" deny 10)

abbrev or_no_rx : Option Rx → Rx
or_no_rx none = record { kubelet = []; rx = 0 }
or_no_rx (some rx) = rx

abbrev the_rx : Rx
the_rx = or_no_rx (lookup "default" "web-0" 80 (apply_pod web_pod before_pod).1.lookups)

the_rx-there : lookup "default" "web-0" 80 (apply_pod web_pod before_pod).1.lookups ≡ some the_rx
unfolding handle run new namespace_or_new for_all with_namespace pods_to_apply apply_node store_pod
    add_pod new_pod Pods.apply_in apply_pod Servers.apply_in apply_server get_or_push_pending
    try_from_node add_port add_ports add_containers extract_ports collect_port link_server_port
    link_port link_ports link_matching clear_ports link_servers link_pods set matches iter_matching
    new_server apply get insert try_map lookup extend
the_rx-there = refl

apply_pod-Adds_example :
    (lookup "default" "web-0" 80 before_pod.lookups ≡ some the_rx)
    ⊎ ((web_pod.metadata.namespace ≡ some "default")
        × (web_pod.metadata.name ≡ "web-0")
        × IsOfNode web_pod before_pod the_rx.kubelet)
apply_pod-Adds_example = apply_pod-Adds web_pod before_pod "default" "web-0" 80 the_rx the_rx-there

answered-lt_example : 80 < 65536
answered-lt_example =
    answered-lt nets [] "cluster.local" deny 10 with_server "default" "web-0" 80 answer answer-there
