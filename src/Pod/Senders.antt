-- ===== src/Pod/Senders.antt =====
-- Linking and resetting change the server of a port, never its sender.
use polixy.Prelude.{
  ℕ, String, ◌≡◌, refl, ◌∙◌, Option, none, some, List, [], ◌∷◌, arith, nat_eq, if◌then◌else◌,
}
use polixy.K8s.{PortRef}
use polixy.Map.{Map, get, insert}
use polixy.Map.Laws.{get-insert}
use polixy.Pod.{
  Port, PodPorts, Pod, Links, Ports, Linking, assign, link_entry, has_server, clear_entry,
  link_server_port, link_port, link_ports, link_matching, clear_port, clear_ports, link_servers,
  reset_ports, collect_port,
}
use polixy.Server.{SrvIndex, iter_matching}
use polixy.Core.{Ipnet}
use polixy.Watch.{send}

-- the sender of a port, if it is there
abbrev pub sender : ℕ → Map ℕ Port → Option ℕ
sender p ports = elim (get p ports) [ none ↦ none | some port ↦ some port.server_tx ]

abbrev pub SameSenders : Map ℕ Port → Map ℕ Port → Type 0
SameSenders new old = (p : ℕ) → sender p new ≡ sender p old

-- a port is rewritten with the sender that it has
insert-SameSenders :
    (p : ℕ) (port new : Port) (ports : Map ℕ Port)
    → get p ports ≡ some port
    → new.server_tx ≡ port.server_tx
    → SameSenders (insert p new ports) ports
insert-SameSenders p port new ports h k q =
    ground (arith, get-insert p q new ports, nat_eq.beq_iff p q)

assign-SameSenders :
    (p : ℕ) (name : String) (rx : ℕ) (port : Port) (o : Option String) (st : Ports)
    → get p st.0 ≡ some port
    → SameSenders (assign p name rx port o st).0 st.0
unfolding assign
assign-SameSenders p name rx port none st h q = insert-SameSenders p port _ st.0 h refl q
assign-SameSenders p name rx port (some sn) st h q = refl

pub link_entry-SameSenders :
    (p : ℕ) (name : String) (rx : ℕ) (o : Option Port) (st : Ports)
    → get p st.0 ≡ o
    → SameSenders (link_entry p name rx o st).0 st.0
unfolding link_entry
link_entry-SameSenders p name rx none st h q = refl
link_entry-SameSenders p name rx (some port) st h q = assign-SameSenders p name rx port _ st h q

pub clear_entry-SameSenders :
    (rx p : ℕ) (o : Option Port) (st : Ports)
    → get p st.0 ≡ o
    → SameSenders (clear_entry rx p o st).0 st.0
unfolding clear_entry
clear_entry-SameSenders rx p none st h q = refl
clear_entry-SameSenders rx p (some port) st h q = insert-SameSenders p port _ st.0 h refl q

pub link_ports-SameSenders :
    (name : String) (rx : ℕ) (ps : List ℕ) (st : Linking)
    → SameSenders (link_ports name rx ps st).ports.0 st.ports.0
unfolding link_ports link_port link_server_port
link_ports-SameSenders name rx [] st q = refl
link_ports-SameSenders name rx (p ∷ ps) st q =
    link_ports-SameSenders name rx ps (link_port name rx p st) q
    ∙ link_entry-SameSenders p name rx _ st.ports refl q

pub link_matching-SameSenders :
    (ports : PodPorts) (ms : List (String × PortRef × ℕ)) (st : Linking)
    → SameSenders (link_matching ports ms st).ports.0 st.ports.0
unfolding link_matching
link_matching-SameSenders ports [] st q = refl
link_matching-SameSenders ports ((name, m, rx) ∷ ms) st q =
    link_matching-SameSenders ports ms (link_ports name rx (collect_port ports m) st) q
    ∙ link_ports-SameSenders name rx (collect_port ports m) st q

pub clear_port-SameSenders : (rx p : ℕ) (st : Ports) → SameSenders (clear_port rx p st).0 st.0
unfolding clear_port
clear_port-SameSenders rx p st = clear_entry-SameSenders rx p _ st refl

clear_ports-SameSenders :
    (rx : ℕ) (ps : List ℕ) (st : Ports) → SameSenders (clear_ports rx ps st).0 st.0
unfolding clear_ports
clear_ports-SameSenders rx [] st q = refl
clear_ports-SameSenders rx (p ∷ ps) st q =
    clear_ports-SameSenders rx ps (clear_port rx p st) q ∙ clear_port-SameSenders rx p st q

-- `Pod::link_servers` keeps the ports of the pod and their senders.
pub link_servers-SameSenders :
    {ip : Ipnet} (servers : SrvIndex ip) (pod : Pod) (links : Links)
    → SameSenders (link_servers servers pod links).0.ports.by_port pod.ports.by_port
unfolding link_servers
link_servers-SameSenders servers pod links q =
    clear_ports-SameSenders pod.default_allow_rx _ _ q
    ∙ link_matching-SameSenders pod.ports (iter_matching pod.labels servers) _ q

-- So does `PodIndex::reset_server`.
pub reset_ports-SameSenders :
    (name : String) (rx : ℕ) (ports : Map ℕ Port) (links : Links)
    → SameSenders (reset_ports name rx ports links).0 ports
unfolding reset_ports get
reset_ports-SameSenders name rx [] links q = refl
reset_ports-SameSenders name rx ((p, port) ∷ ports) links q = ground (
  arith,
  reset_ports-SameSenders name rx ports
      (if has_server name port.server_name then send port.server_tx rx links else links) q,
)
