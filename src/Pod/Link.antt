-- ===== src/Pod/Link.antt =====
-- `link_servers` gives each port the first matching server, or the default.
pub mod Assign
pub mod Clear
use polixy.Prelude.{
  ℕ, String, ◌≡◌, ◌≢◌, refl, sym, ◌∙◌, Bool, not, ◌&&◌, Option, none, some, List, [], ◌∷◌, inl, inr,
  arith, ◌==◌, nat_eq, if◌then◌else◌, Option-cases, Bool-cases, contains, contains-without, is_some,
}
use polixy.K8s.{PortRef}
use polixy.Map.{Map, keys, get}
use polixy.Map.Laws.{get-insert}
use polixy.Map.Keys.{contains-keys}
use polixy.Watch.{borrow}
use polixy.Watch.Laws.{borrow-send}
use polixy.Pod.{
  Port, PodPorts, Pod, Links, Ports, Linking, assign, link_entry, clear_entry, link_server_port,
  link_port, link_ports, link_matching, clear_port, clear_ports, link_servers, collect_port,
}
use polixy.Pod.Senders.{
  SameSenders, sender, link_ports-SameSenders, link_matching-SameSenders, clear_port-SameSenders,
}
use polixy.Server.{SrvIndex, iter_matching}
use polixy.Core.{Ipnet}
use polixy.Pod.Link.Assign.{
  OwnSenders, State, At, first_match, take_server, resolve, own-same, link_matching-At,
  remaining-link_matching,
}
use polixy.Pod.Link.Clear.{clear_ports-At}

-- the default where no server matches
abbrev pub settle : (default_rx : ℕ) → Option (String × ℕ) → State → State
settle default_rx none (port, v) = (record port { server_name = none }, default_rx)
settle default_rx (some (name, rx)) s = take_server name rx s

-- After a pod with a channel for each of its ports is linked, each port has: no server, and its
-- receivers read the pod's default, if no server that selects the pod names the port; else the
-- server that it had, unread, if it had one; else the first matching server, and its receivers read
-- that server's configuration.
pub link_servers-At :
    {ip : Ipnet} (servers : SrvIndex ip) (pod : Pod) (links : Links) (p : ℕ) (port : Port)
    → OwnSenders pod.ports.by_port
    → get p pod.ports.by_port ≡ some port
    → At p
        (settle pod.default_allow_rx
          (first_match pod.ports p (iter_matching pod.labels servers))
          (port, borrow port.server_tx links))
        ((link_servers servers pod links).0.ports.by_port, (link_servers servers pod links).1)
unfolding link_servers
link_servers-At servers pod links p port own h =
    let ms = iter_matching pod.labels servers in
    let st0 : Linking = record {
      ports = (pod.ports.by_port, links);
      remaining = keys pod.ports.by_port;
    } in
    let st = link_matching pod.ports ms st0 in
    let at =
      link_matching-At pod.ports ms st0 p (port, borrow port.server_tx links) own
        (record { entry = h; reads = refl }) in
    let own' = own-same _ _ (link_matching-SameSenders pod.ports ms st0) own in
    let at' = clear_ports-At pod.default_allow_rx st.remaining st.ports p _ own' at in
    let left : contains st.remaining p ≡ not (is_some (first_match pod.ports p ms)) =
      ground
        (arith, remaining-link_matching pod.ports ms st0 p, contains-keys p pod.ports.by_port) in
    elim (Option-cases (first_match pod.ports p ms)) [
      | inl e ↦ rw e (rw (left, e) at at')
      | inr ((name, rx), e) ↦ rw e (rw (left, e) at at')
    ]
