-- ===== src/Tests/Clients.antt =====
-- Examples of the client's calls, its streams, its HTTP API, and of the admin server.
use mathlib.Core.Option
use polixy.Prelude.{
  ℕ, String, ◌≡◌, ◌≢◌, ◌↔◌, ◌&&◌, refl, inl, none, some, List, [], ◌∷◌, ◌++◌, All, arith, nat_eq,
  string_eq, if◌then◌else◌, map,
}
use polixy.Map.{Map, get, insert, extend}
use polixy.Result.{try_map}
use polixy.Core.{v4}
use polixy.Reply.{ok, err, ◌>>=◌}
use polixy.DefaultAllow.{deny}
use polixy.Lookup.{get_inbound_server}
use polixy.Lookup.Stream.{start, watch_inbound_server}
use polixy.Grpc.{invalid_argument, not_found, internal, get_port, watch_port, item, response_stream}
use polixy.Grpc.Watches.{watch_port-get_port}
use polixy.Client.{Inbound}
use polixy.Client.Calls
use polixy.Client.Calls.{Failure, status}
use polixy.Client.Decode.{inbound_of}
use polixy.Client.Checks.{labels_of, first}
use polixy.Client.Ports
use polixy.Client.Ports.{
  PortTask, Event, called, next, closed, finished, streaming, steps, step, step_in, on_called,
  on_first, recover,
}
use polixy.Client.Ports.Recovery.{IsHarmless, fails_only, recovers}
use polixy.Client.HttpApi
use polixy.Client.HttpApi.{Spec, authorization, serve, check}
use polixy.Client.HttpApi.Answers.{Asks, admitted, serve_iff, serve-admits}
use polixy.Client.Commands.{workload}
use polixy.Client.Commands.Answered.{api, answered, AllFit, get-answered}
use polixy.Admin
use polixy.Admin.{ready_of}
use polixy.Admin.Readiness.{ready-answer}
use polixy.Index.{new}
use polixy.Index.Run
use polixy.Index.Run.{Poll, received, restarted, authz, pod, polls, nodes, pods, servers, authzs}
use polixy.Index.Run.Ready.{healthy}
use polixy.Index.Run.Streams.{world_of}
use polixy.DefaultAllow.{spawn}
use polixy.Index.Nodes.{apply_node, pods_to_apply}
use polixy.Index.Pods
use polixy.Index.Pods.{add_pod, apply_pod, new_pod, store_pod}
use polixy.Index.Run.{handle, run}
use polixy.Index.Servers
use polixy.Index.Servers.{apply_server}
use polixy.Index.{for_all, namespace_or_new, with_namespace}
use polixy.Labels.{matches}
use polixy.Lookup.{lookup, mk_server, rx_get, set}
use polixy.Node.{get_or_push_pending, try_from_node}
use polixy.Pod.{
  add_containers, add_port, add_ports, clear_ports, collect_port, extract_ports, link_matching,
  link_pods, link_port, link_ports, link_server_port, link_servers,
}
use polixy.Server
use polixy.Server.{Server, apply, iter_matching, new_server}
use polixy.Watch
use polixy.Watch.{borrow, channel, send}
use polixy.Tests.{nets, nets-IsIpnet, plain, plain-IsWire}
use polixy.Tests.Api.{config, request}
use polixy.Tests.Served.{after_pod}

-- a call that is refused
abbrev refusal : List (Event nets)
refusal = called (err (status not_found)) ∷ called (err (status invalid_argument)) ∷ []

refusal-finished : (steps refusal Ports.start).phase ≡ finished (err (status invalid_argument))
unfolding steps step step_in on_called recover
refusal-finished = refl

fails_only_example : status invalid_argument ≡ status invalid_argument
fails_only_example = fails_only refusal (status invalid_argument) refusal-finished

-- a stream that is lost
abbrev losses : List (Event nets)
losses =
    called (err (status not_found))
    ∷ called (ok tt)
    ∷ next (ok (some (inbound_of config)))
    ∷ next (err (status internal))
    ∷ []

losses-IsHarmless : All IsHarmless losses
losses-IsHarmless = (λ e. cc, (tt, (tt, (λ e. cc, tt))))

recovers_example :
    steps
      (losses ++ next (ok none) ∷ called (ok tt) ∷ next (ok (some (inbound_of config))) ∷ [])
      Ports.start
    ≡ record { phase = streaming; watched = some (inbound_of config) }
recovers_example = recovers losses (inbound_of config) losses-IsHarmless

-- a check of a client that is on TLS
abbrev watched : Map ℕ (Inbound nets)
watched = (80, inbound_of config) ∷ []

abbrev spec : Spec
spec = record {
  server_port = 80;
  client_ip = v4 1;
  tls = some (record { client_id = some "web.cluster.local" });
}

abbrev asked : HttpApi.Request
asked = record { method = "POST"; content_type = some "application/json"; body = ok spec }

watched-there : get 80 watched ≡ some (inbound_of config)
unfolding get
watched-there = refl

serve-admits_example :
    serve watched asked
    ≡ ok (
        HttpApi.plain 200
          (authorization (Option.map labels_of (first (admitted spec) config.authorizations))))
serve-admits_example =
    serve-admits nets-IsIpnet watched asked spec config (refl, refl, refl) watched-there

serve_iff_example :
    (serve watched asked ≡ ok (HttpApi.plain 200 (authorization (some (("name", "mesh") ∷ [])))))
    ↔ ((s : Spec) × (inbound : Inbound nets) × Asks asked s
        × (get s.server_port watched ≡ some inbound)
        × (check inbound s ≡ some (("name", "mesh") ∷ [])))
serve_iff_example = serve_iff watched asked (some (("name", "mesh") ∷ []))

found-AllFit : AllFit plain (
    get_inbound_server after_pod.links after_pod.configs ("default", "web-0", 80) after_pod.lookups)
unfolding handle run new namespace_or_new for_all with_namespace pods_to_apply apply_node store_pod
    add_pod new_pod Pods.apply_in apply_pod Servers.apply_in apply_server get_or_push_pending
    try_from_node add_port add_ports add_containers extract_ports collect_port link_server_port
    link_port link_ports link_matching clear_ports link_servers link_pods set matches iter_matching
    new_server apply get insert try_map lookup borrow send channel Watch.new extend spawn mk_server
    Server.mk_protocol get_inbound_server rx_get
found-AllFit = omega arith

some_default : ◌≢◌ {A = String} "default" ""
some_default = cc

some_web : ◌≢◌ {A = String} "web-0" ""
some_web = cc

get-answered_example :
    Calls.get_port plain
      (api plain after_pod.links after_pod.configs after_pod.lookups)
      (workload "default" "web-0")
      80
    ≡ answered plain (
        get_inbound_server after_pod.links after_pod.configs
          ("default", "web-0", 80)
          after_pod.lookups)
get-answered_example =
    get-answered plain plain-IsWire after_pod.links after_pod.configs after_pod.lookups "default"
      "web-0" 80 (refl, (refl, (refl, (refl, (refl, (refl, (refl, tt))))))) some_default some_web
      (omega arith) (omega arith) found-AllFit

watch_port-get_port_example :
    (watch_port (λ t. some (watch_inbound_server t after_pod.lookups after_pod.links)) request
      >>= λ s. ok (response_stream plain (map item (start s (world_of after_pod)).yielded)))
    ≡ (get_port plain
          (λ t. some (get_inbound_server after_pod.links after_pod.configs t after_pod.lookups))
          request
        >>= λ m. ok (m ∷ []))
watch_port-get_port_example =
    watch_port-get_port plain (world_of after_pod) after_pod.lookups request

abbrev seen : List Poll
seen = received (pod (restarted [])) ∷ []

ready-answer_example :
    Admin.serve
      (ready_of
        (polls
          (seen ++ received (authz (restarted [])) ∷ [])
          (Run.start (new {ip = nets} [] "cluster.local" deny 10))).sent)
      (record { path = "/ready"; method = "GET" })
    ≡ (if healthy nodes (seen ++ received (authz (restarted [])) ∷ [])
          && healthy pods (seen ++ received (authz (restarted [])) ∷ [])
          && healthy servers (seen ++ received (authz (restarted [])) ∷ [])
          && healthy authzs (seen ++ received (authz (restarted [])) ∷ [])
        then Admin.plain 200 "ready\n"
        else Admin.plain 500 "not ready\n")
ready-answer_example =
    ready-answer (new {ip = nets} [] "cluster.local" deny 10) seen (authz (restarted [])) "GET"
      (inl refl)
