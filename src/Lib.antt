-- ===== src/Lib.antt =====
-- Polixy: the policy controller of a Linkerd cluster, and the client with which a proxy asks it.
--
-- The controller watches nodes, pods, servers and server authorizations. One task indexes them: a
-- server selects pods by their labels and names a port; an authorization selects servers, by name or
-- by labels, and says which clients they admit. For each port of a pod the task keeps a watch channel
-- whose value is the receiver of another channel: that of the server which governs the port, or of
-- the pod's default policy. An API server looks the outer channel up by namespace, pod and port and
-- sends what the inner one holds; the client decodes it and checks connections against it.
--
-- The files, and the code that each is about:
--   Core            controller/core/src: the configuration of a port, networks and identities
--   Labels, K8s     controller/k8s/api/src: label selectors, and the resources; K8s/Watch has the
--                   watches of watch.rs
--   DefaultAllow    controller/k8s/index/src/default_allow.rs: the default policies
--   Node            controller/k8s/index/src/node.rs: nodes, and the pods that wait for them
--   Lookup          controller/k8s/index/src/lookup.rs: the map that the API server reads; its child
--                   Stream has the streams of a watch
--   Authz           controller/k8s/index/src/authz.rs: authorizations
--   Server          controller/k8s/index/src/server.rs: servers
--   Pod             controller/k8s/index/src/pod.rs: the ports of pods, and linking them to servers
--   Index           controller/k8s/index/src/lib.rs and namespace.rs: the state of the task; its
--                   children Pods, Nodes, Servers and Authzs have the methods of `Index` that the
--                   files of those names define, and Run has the event loop, with a watch as the
--                   polls of its stream; Run/Awaited is about pods that wait for their node
--                   and Run/Addressed about the addresses that they come with,
--                   Run/Streams runs a stream beside the loop, and Run/Followed also the proxy at
--                   its other end; Run/Policed has the policy as a proxy enforces it
--   Proto, Grpc     controller/grpc/src/lib.rs: the messages and the API server
--   Client          client/src/lib.rs: what a proxy makes of the messages; its children are Calls, the
--                   calls of the API server, Ports for client/src/watch_ports.rs, HttpApi for
--                   client/src/http_api.rs and Commands for client/src/main.rs
--   Admin           controller/src/admin.rs: the admin server
--   Controller      controller/src/main.rs: what the controller is started with, and how it ends; its
--                   child Enforced is about the whole system
--   Map, Watch, Text, Result, Reply, Prelude: maps, channels, strings and results, shared
--   Tests           examples, at which the hypotheses of the results hold
--
-- Names are the source's. A method that changes its receiver takes it and returns it. `Index::apply`
-- methods that work on two parts of the state at once, through disjoint borrows, are in the children
-- of Index. A nested loop or match is a chain of small functions.
--
-- How the code is represented:
--   A HashMap, a DashMap or a BTreeMap is a list of entries with distinct keys in the order of its
--   iteration, so that every order of a HashMap is some list; a HashSet is the list of its elements.
--   A watch channel is a cell of a store (Watch): a sender and its receivers share its number. A send
--   fails only without receivers, and each sender here stands beside a receiver that is held.
--   A receiver is the number of its channel and the version that it has seen; `changed` compares that
--   with the sends. One that is sent through a channel has seen none, since it is never read before.
--   A stream and the task of a proxy are machines. One step is a poll of one branch of a `select!`, or
--   what a future gives, so that a list of steps is one order of what happens. An update of the index
--   is one step too; a stream that another thread polls between two sends of an update is left out.
--   The sender of a port's channel is gone when no pod of the index has it.
--   A panic for a missing namespace, or for a pod that the lookups hold already, is a result, `panic`,
--   which ends the update; `run` takes the next one, where the source's task ends, so that it only has
--   more states. The `expect` of a send and the `unwrap` of a key that was just read from the map are
--   left out, and so is the end of a watch's stream, which `recv` expects never to come: it waits.
--   An error keeps the changes made before it. `with_context` only changes the text that is logged.
--   The build is a release build: `debug_assert` is left out. Logging is left out.
--   A u16 port is a number; the cast of a container's port from i32 is `% 65536` of its bit pattern.
--   A Duration is its number of nanoseconds.
--   The names that a `reset_*` method has not seen again are computed from the state before and the
--   list of resources, where the source removes them one by one in the same loop.
--   The error of `reset_nodes` for a node that is already gone is that of `delete_node`.
--   All loops run over lists, so no fuel is needed.
--
-- Parameters: the crate ipnet (Ipnet, with IsIpnet for what it documents), and the conversions of
-- networks and durations of linkerd2-proxy-api (Wire, with IsWire).
--
-- Not modelled: command lines, signals, binding and serving sockets, connecting
-- to Kubernetes and gRPC, pauses, and (de)serialisation, which are I/O or calls of other packages. What
-- hyper and serde read of a request, and what the gRPC channel carries, are arguments.
pub mod Prelude
pub mod Map
pub mod Result
pub mod Core
pub mod Labels
pub mod K8s
pub mod Watch
pub mod DefaultAllow
pub mod Node
pub mod Lookup
pub mod Text
pub mod Authz
pub mod Server
pub mod Pod
pub mod Reply
pub mod Proto
pub mod Grpc
pub mod Client
pub mod Admin
pub mod Controller
pub mod Index
pub mod Tests
