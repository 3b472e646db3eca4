-- ===== src/Tests/Followed.antt =====
-- Examples of streams that are polled while the index takes updates.
use polixy.Prelude.{◌≡◌, refl, Option, none, some, List, [], ◌∷◌, string_eq, nat_eq}
use polixy.Result.{try_map}
use polixy.Map.{get, insert, extend}
use polixy.DefaultAllow.{deny, spawn}
use polixy.Core.{InboundServer}
use polixy.Watch
use polixy.Node.{get_or_push_pending, try_from_node}
use polixy.Labels.{matches}
use polixy.Lookup.{Rx, set, lookup, mk_server}
use polixy.Server
use polixy.Index.Authzs
use polixy.Index.Authzs.{apply_authz, apply_made, store_authz, store_entry}
use polixy.Authz.{mk_authz, selects, filter_selected}
use polixy.Server.{selected, add_authz, for_each, add_or_remove, server_add_authz}
use polixy.Server.{Server, iter_matching, new_server, apply}
use polixy.Index.{Index, new, namespace_or_new, for_all, with_namespace}
use polixy.Index.Nodes.{pods_to_apply, apply_node}
use polixy.Index.Pods
use polixy.Index.Pods.{store_pod, add_pod, new_pod, apply_pod}
use polixy.Index.Servers
use polixy.Index.Servers.{apply_server}
use polixy.Index.Run.{authz, applied, run, handle}
use polixy.Pod.{
  add_port, add_ports, add_containers, extract_ports, collect_port, link_server_port, link_port,
  link_ports, link_matching, clear_ports, link_servers, link_pods,
}
use polixy.Lookup.Stream
use polixy.Lookup.Stream.{Watching, inner, outer, into_stream, start, polls}
use polixy.Lookup.Stream.Settled.{polls-GoesOn}
use polixy.Watch.{borrow, has_changed, mark_seen, send, channel}
use polixy.Lookup.{rx_get}
use polixy.Index.Run.Streams.{Turn, update, poll, world_of, turns}
use polixy.Index.Run.Streams.Watched.{run-watched}
use polixy.Lookup.Stream.News.{IsNews, poll-IsNews}
use polixy.Index.Run.Followed.{heard, run-followed}
use polixy.Grpc.{response_stream, item}
use polixy.Client.Decode.{inbound_of}
use polixy.Client.Ports.{PortTask, opening, steps}
use polixy.Prelude.{false, map, reverse, arith}
use polixy.Tests.Served.{with_server, after_pod}
use polixy.Tests.{plain, plain-IsWire, open_authz, nets}

abbrev no_rx : Rx
no_rx = record { kubelet = []; rx = 0 }

abbrev or_no_rx : Option Rx → Rx
or_no_rx none = no_rx
or_no_rx (some rx) = rx

abbrev the_rx : Rx
the_rx = or_no_rx (lookup "default" "web-0" 80 after_pod.lookups)

the_rx-there : lookup "default" "web-0" 80 after_pod.lookups ≡ some the_rx
unfolding handle run new namespace_or_new for_all with_namespace pods_to_apply apply_node store_pod
    add_pod new_pod Pods.apply_in apply_pod Servers.apply_in apply_server get_or_push_pending
    try_from_node add_port add_ports add_containers extract_ports collect_port link_server_port
    link_port link_ports link_matching clear_ports link_servers link_pods set matches iter_matching
    new_server apply get insert try_map lookup extend
the_rx-there = refl

-- an authorization, which the stream is polled for too early and then again
abbrev the_turns : List Turn
the_turns = poll inner ∷ update (authz (applied open_authz)) ∷ []

abbrev at_end : Index nets × Watching nets
at_end =
    turns the_turns (after_pod, start (into_stream the_rx after_pod.links) (world_of after_pod))

going :
    (at_end.1.stream.ended ≡ false)
    × ((world_of at_end.0).closed at_end.1.stream.outer.chan ≡ false)
unfolding handle run new namespace_or_new for_all with_namespace pods_to_apply apply_node store_pod
    add_pod new_pod Pods.apply_in apply_pod Servers.apply_in apply_server get_or_push_pending
    try_from_node add_port add_ports add_containers extract_ports collect_port link_server_port
    link_port link_ports link_matching clear_ports link_servers link_pods set matches iter_matching
    new_server apply get insert try_map lookup turns start into_stream Stream.poll mark_seen
    has_changed borrow send channel Watch.new extend spawn mk_server Server.mk_protocol apply_authz
    Authzs.apply_in mk_authz apply_made store_authz store_entry add_authz for_each add_or_remove
    server_add_authz selects filter_selected selected
going = (refl, refl)

run-watched_example :
    (before : List (InboundServer nets)) × ((polls
        (outer ∷ inner ∷ [])
        (world_of at_end.0)
        at_end.1).yielded
      ≡ rx_get at_end.0.links at_end.0.configs the_rx ∷ before)
run-watched_example =
    run-watched nets [] "cluster.local" deny 10 with_server "default" "web-0" 80 the_rx the_turns
      (outer ∷ inner ∷ []) the_rx-there refl refl
      (polls-GoesOn (world_of at_end.0) (outer ∷ inner ∷ []) at_end.1 going)

poll-IsNews_example : IsNews at_end.1 (Stream.poll inner (world_of at_end.0) at_end.1)
poll-IsNews_example = poll-IsNews inner (world_of at_end.0) at_end.1

-- a task whose call has been answered
abbrev fresh : PortTask nets
fresh = record { phase = opening; watched = none }

abbrev shown : Watching nets
shown =
    polls (outer ∷ inner ∷ []) (world_of after_pod)
      (start (into_stream the_rx after_pod.links) (world_of after_pod))

shown_going : shown.stream.ended ≡ false
unfolding handle run new namespace_or_new for_all with_namespace pods_to_apply apply_node store_pod
    add_pod new_pod Pods.apply_in apply_pod Servers.apply_in apply_server get_or_push_pending
    try_from_node add_port add_ports add_containers extract_ports collect_port link_server_port
    link_port link_ports link_matching clear_ports link_servers link_pods set matches iter_matching
    new_server apply get insert try_map lookup turns start into_stream polls Stream.poll mark_seen
    has_changed borrow send channel Watch.new extend spawn mk_server Server.mk_protocol
shown_going = refl

run-followed_example :
    (steps
      (map (heard plain) (response_stream plain (map item (reverse shown.yielded))))
      fresh).watched
    ≡ some (inbound_of (rx_get after_pod.links after_pod.configs the_rx))
unfolding turns run start
run-followed_example =
    run-followed plain plain-IsWire [] "cluster.local" deny 10 with_server "default" "web-0" 80
      the_rx [] (outer ∷ inner ∷ []) fresh the_rx-there refl refl refl (omega arith) shown_going
