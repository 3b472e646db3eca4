-- ===== src/Tests/Updates.antt =====
-- Examples of the indexing task.
use polixy.Prelude.{◌≡◌, refl, Option, none, some, List, [], ◌∷◌, string_eq, nat_eq, ◌&&◌, ◌++◌}
use polixy.Map.{get, insert}
use polixy.Map.Sorted
use polixy.DefaultAllow.{deny}
use polixy.Index.{Index, Namespace, new}
use polixy.Index.Run.{
  node, pod, server, authz, applied, restarted, run, handle, Poll, received, failed, polls, start,
  nodes, pods, servers, authzs,
}
use polixy.Index.Run.Ready.{Alternating, healthy, ready-healthy, sent-Alternating}
use polixy.Index.Run.Granted.{run-granted}
use polixy.Index.Run.Published.{run-published, run-modes}
use polixy.Server.Updates.{config_of}
use polixy.DefaultAllow.{get_rx}
use polixy.DefaultAllow.Modes.{allowed}
use polixy.Core.{detect}
use polixy.Index.Run.Synced.{run-Synced}
use polixy.Index.Run.Synced.Matching.{Synced}
use polixy.Server.{
  Server, apply, new_server, selected, add_authz, for_each, add_or_remove, server_add_authz,
  mk_protocol,
}
use polixy.Authz.{mk_authz, selects, filter_selected}
use polixy.Pod.{link_pods}
use polixy.Watch.{channel, borrow, send}
use polixy.DefaultAllow.{spawn}
use polixy.Core.{net_match}
use polixy.Index.Authzs
use polixy.Index.Authzs.{apply_authz, apply_made, store_authz, store_entry}
use polixy.Index.Servers
use polixy.Index.Servers.{apply_server}
use polixy.Index.{with_namespace, namespace_or_new}
use polixy.Server.Authorizations.{grant}
use polixy.K8s.{number}
use polixy.Core.{http1}
use polixy.Tests.{nets, cluster, web_server, web_pods, open_authz}

abbrev after : Index nets
after = run cluster (new [] "cluster.local" deny 10)

run-Synced_example : Synced after
run-Synced_example = run-Synced nets [] "cluster.local" deny 10 cluster

abbrev pub no_namespace : Namespace nets
no_namespace = record { default_allow = deny; pods = []; servers = []; authzs = [] }

abbrev pub or_none : Option (Namespace nets) → Namespace nets
or_none none = no_namespace
or_none (some ns) = ns

abbrev or_first : Option (Server nets) → Server nets
or_first none = record {
  meta = record { labels = []; port = number 0; pod_selector = web_pods; protocol = http1 };
  authorizations = [];
  rx = 0;
}
or_first (some srv) = srv

abbrev after_two : Index nets
after_two =
    run (server (applied web_server) ∷ authz (applied open_authz) ∷ [])
      (new [] "cluster.local" deny 10)

abbrev default_ns : Namespace nets
default_ns = or_none (get "default" after_two.namespaces.index)

abbrev web : Server nets
web = or_first (get "web" default_ns.servers)

default_ns-there : get "default" after_two.namespaces.index ≡ some default_ns
unfolding run handle new get apply_authz with_namespace Authzs.apply_in mk_authz insert apply_made
    store_authz store_entry namespace_or_new apply_server Servers.apply_in apply new_server selected
    filter_selected link_pods add_authz for_each add_or_remove selects server_add_authz spawn
    channel Sorted.extend Sorted.insert borrow send net_match mk_protocol
default_ns-there = refl

web-there : get "web" default_ns.servers ≡ some web
unfolding run handle new get apply_authz with_namespace Authzs.apply_in mk_authz insert apply_made
    store_authz store_entry namespace_or_new apply_server Servers.apply_in apply new_server selected
    filter_selected link_pods add_authz for_each add_or_remove selects server_add_authz spawn
    channel Sorted.extend Sorted.insert borrow send net_match mk_protocol
web-there = refl

run-granted_example :
    get "open" web.authorizations ≡ grant (get "open" default_ns.authzs) "web" web.meta.labels
run-granted_example =
    run-granted [] "cluster.local" deny 10
      (server (applied web_server) ∷ authz (applied open_authz) ∷ []) "default" default_ns "web" web
      default_ns-there web-there "open"

-- the pods' watch fails and recovers
abbrev seen : List Poll
seen =
    received (node (restarted []))
    ∷ received (pod (restarted []))
    ∷ received (server (restarted []))
    ∷ failed pods
    ∷ received (pod (restarted []))
    ∷ []

ready-healthy_example :
    (polls
      (seen ++ received (authz (restarted [])) ∷ [])
      (start (new {ip = nets} [] "cluster.local" deny 10))).ready
    ≡ (healthy nodes (seen ++ received (authz (restarted [])) ∷ [])
        && healthy pods (seen ++ received (authz (restarted [])) ∷ [])
        && healthy servers (seen ++ received (authz (restarted [])) ∷ [])
        && healthy authzs (seen ++ received (authz (restarted [])) ∷ []))
ready-healthy_example =
    ready-healthy (new {ip = nets} [] "cluster.local" deny 10) seen (authz (restarted []))

sent-Alternating_example :
    Alternating
      (polls seen (start (new {ip = nets} [] "cluster.local" deny 10))).ready
      (polls seen (start (new {ip = nets} [] "cluster.local" deny 10))).sent
sent-Alternating_example = sent-Alternating (new {ip = nets} [] "cluster.local" deny 10) seen

run-published_example : borrow web.rx after_two.configs ≡ config_of web
run-published_example =
    run-published [] "cluster.local" deny 10
      (server (applied web_server) ∷ authz (applied open_authz) ∷ []) "default" default_ns "web" web
      default_ns-there web-there

run-modes_example :
    borrow (get_rx after.default_allows deny) after.configs
    ≡ record { protocol = detect 10; authorizations = allowed {ip = nets} [] deny }
run-modes_example = run-modes {ip = nets} [] "cluster.local" deny 10 cluster deny
