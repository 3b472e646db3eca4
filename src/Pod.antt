-- ===== src/Pod.antt =====
-- controller/k8s/index/src/pod.rs: the pods of a namespace and the servers of their ports.
pub mod Senders
pub mod Sent
pub mod Extract
pub mod Link
pub mod Linked
pub mod Moves
use mathlib.Core.Option
use polixy.Prelude.{
  ℕ, String, Bool, true, false, Option, none, some, List, [], ◌∷◌, ◌++◌, ◌==◌, nat_eq, string_eq,
  without, if◌then◌else◌,
}
use Prim.Native.Nat.{◌%◌}
use polixy.Map.{Map, keys, get, insert, contains_key}
use polixy.Core.{Ipnet}
use polixy.Labels.{Labels}
use polixy.K8s
use polixy.K8s.{PortRef, number, name, ContainerPort, Container, PodSpec}
use polixy.Node.{KubeletIps, or_default}
use polixy.Lookup.{Rx}
use polixy.Server.{SrvIndex, iter_matching}
use polixy.Watch.{Channels, channel, send}

-- `server_tx` is the number of a channel of receivers
pub record Port : Type 0 where
  pub server_name : Option String
  pub server_tx : ℕ

pub record PodPorts : Type 0 where
  pub by_port : Map ℕ Port
  pub by_name : Map String (List ℕ)

pub record Pod : Type 0 where
  pub ports : PodPorts
  pub labels : Labels
  pub default_allow_rx : ℕ

abbrev pub PodIndex : Type 0
PodIndex = Map String Pod

abbrev pub Links : Type 0
Links = Channels ℕ

-- the variables of the loop of `extract_ports`
pub record Extracted : Type 0 where
  pub ports : PodPorts
  pub lookups : Map ℕ Rx
  pub links : Links

is_tcp : Option String → Bool
is_tcp none = true
is_tcp (some p) = p == "TCP"

push_name : Option String → ℕ → Map String (List ℕ) → Map String (List ℕ)
push_name none port by_name = by_name
push_name (some n) port by_name = insert n (or_default (get n by_name) ++ port ∷ []) by_name

-- the body of the inner loop, for a port that is not yet there
new_port : ℕ → KubeletIps → Option String → ℕ → Extracted → Extracted
unfolding push_name
new_port server_rx kubelet port_name port st =
    let (tx, links) = channel server_rx st.links in
    record {
      ports = record {
        by_port = insert port (record { server_name = none; server_tx = tx }) st.ports.by_port;
        by_name = push_name port_name port st.ports.by_name;
      };
      lookups = insert port (record { kubelet = kubelet; rx = tx }) st.lookups;
      links = links;
    }

-- `p.container_port as u16`
abbrev pub port_number : ContainerPort → ℕ
port_number p = p.container_port % 65536

unfoldable pub add_port : ℕ → KubeletIps → ContainerPort → Extracted → Extracted
unfolding is_tcp new_port
add_port server_rx kubelet p st =
    if is_tcp p.protocol
    then if contains_key (port_number p) st.ports.by_port
      then st
      else new_port server_rx kubelet p.name (port_number p) st
    else st

unfoldable pub add_ports : ℕ → KubeletIps → List ContainerPort → Extracted → Extracted
add_ports server_rx kubelet [] st = st
add_ports server_rx kubelet (p ∷ ps) st =
    add_ports server_rx kubelet ps (add_port server_rx kubelet p st)

unfoldable pub add_containers : ℕ → KubeletIps → List Container → Extracted → Extracted
add_containers server_rx kubelet [] st = st
add_containers server_rx kubelet (c ∷ cs) st =
    add_containers server_rx kubelet cs (add_ports server_rx kubelet c.ports st)

-- `PodIndex::extract_ports`
unfoldable pub extract_ports : PodSpec → ℕ → KubeletIps → Links → Extracted
extract_ports spec server_rx kubelet links =
    add_containers server_rx kubelet spec.containers
      (record { ports = record { by_port = []; by_name = [] }; lookups = []; links = links })

-- `PodPorts::collect_port`, flattened
unfoldable pub collect_port : PodPorts → PortRef → List ℕ
collect_port ports (number port) = port ∷ []
collect_port ports (name n) = or_default (get n ports.by_name)

-- the ports of a pod, and the channels
abbrev pub Ports : Type 0
Ports = Map ℕ Port × Links

unfoldable pub assign : ℕ → String → ℕ → Port → Option String → Ports → Ports
assign p srv_name rx port none st =
    (insert p (record port { server_name = some srv_name }) st.0, send port.server_tx rx st.1)
assign p srv_name rx port (some sn) st = st

unfoldable pub link_entry : ℕ → String → ℕ → Option Port → Ports → Ports
unfolding assign
link_entry p srv_name rx none st = st
link_entry p srv_name rx (some port) st = assign p srv_name rx port port.server_name st

-- `Pod::link_server_port`, as released: a port that has a server keeps it
unfoldable pub link_server_port : ℕ → String → ℕ → Ports → Ports
unfolding link_entry
link_server_port p srv_name rx st = link_entry p srv_name rx (get p st.0) st

-- the variables of the loops of `link_servers`
pub record Linking : Type 0 where
  pub ports : Ports
  pub remaining : List ℕ

unfoldable pub link_port : String → ℕ → ℕ → Linking → Linking
link_port srv_name rx p st = record {
  ports = link_server_port p srv_name rx st.ports;
  remaining = without p st.remaining;
}

unfoldable pub link_ports : String → ℕ → List ℕ → Linking → Linking
link_ports srv_name rx [] st = st
link_ports srv_name rx (p ∷ ps) st = link_ports srv_name rx ps (link_port srv_name rx p st)

unfoldable pub link_matching : PodPorts → List (String × PortRef × ℕ) → Linking → Linking
link_matching ports [] st = st
link_matching ports ((srv_name, port_match, rx) ∷ matching) st =
    link_matching ports matching (link_ports srv_name rx (collect_port ports port_match) st)

unfoldable pub clear_entry : ℕ → ℕ → Option Port → Ports → Ports
clear_entry default_rx p none st = st
clear_entry default_rx p (some port) st =
    (insert p (record port { server_name = none }) st.0, send port.server_tx default_rx st.1)

-- a port back to the pod's default; `unwrap` finds it, since it is a key of the map
unfoldable pub clear_port : ℕ → ℕ → Ports → Ports
unfolding clear_entry
clear_port default_rx p st = clear_entry default_rx p (get p st.0) st

unfoldable pub clear_ports : ℕ → List ℕ → Ports → Ports
clear_ports default_rx [] st = st
clear_ports default_rx (p ∷ ps) st = clear_ports default_rx ps (clear_port default_rx p st)

abbrev pub with_ports : Pod → Map ℕ Port → Pod
with_ports pod by_port = record pod { ports = record (pod.ports) { by_port = by_port } }

module _ {ip : Ipnet} where
  -- `Pod::link_servers`
  unfoldable pub link_servers : SrvIndex ip → Pod → Links → Pod × Links
  link_servers servers pod links =
      let st =
        link_matching pod.ports (iter_matching pod.labels servers)
          (record { ports = (pod.ports.by_port, links); remaining = keys pod.ports.by_port }) in
      let (by_port, links') = clear_ports pod.default_allow_rx st.remaining st.ports in
      (with_ports pod by_port, links')

  -- `PodIndex::link_servers`
  unfoldable pub link_pods : SrvIndex ip → PodIndex → Links → PodIndex × Links
  link_pods servers [] links = ([], links)
  link_pods servers ((pod_name, pod) ∷ index) links =
      let (pod', links') = link_servers servers pod links in
      let (index', links'') = link_pods servers index links' in ((pod_name, pod') ∷ index', links'')

-- the ports of a pod in the loop of `PodIndex::reset_server`
has_server : String → Option String → Bool
has_server srv_name none = false
has_server srv_name (some n) = n == srv_name

unfoldable pub reset_ports : String → ℕ → Map ℕ Port → Links → Map ℕ Port × Links
unfolding has_server
reset_ports srv_name rx [] links = ([], links)
reset_ports srv_name rx ((p, port) ∷ ports) links =
    let hit = has_server srv_name port.server_name in
    let (ports', links') =
      reset_ports srv_name rx ports (if hit then send port.server_tx rx links else links) in
    ((p, if hit then record port { server_name = none } else port) ∷ ports', links')

-- `PodIndex::reset_server`
unfoldable pub reset_server : String → PodIndex → Links → PodIndex × Links
reset_server srv_name [] links = ([], links)
reset_server srv_name ((pod_name, pod) ∷ index) links =
    let (by_port, links') = reset_ports srv_name pod.default_allow_rx pod.ports.by_port links in
    let (index', links'') = reset_server srv_name index links' in
    ((pod_name, with_ports pod by_port) ∷ index', links'')
