-- ===== src/Pod/Moves.antt =====
-- What the operations on pods send to the channels of their ports: receivers of servers and of
-- defaults.
use polixy.Prelude.{
  ℕ, String, ◌≡◌, subst, Option, none, some, List, [], ◌∷◌, inl, inr, All, Bool-cases, nat_eq,
  string_eq, ◌==◌,
}
use mathlib.Core.Option.{some-injective}
use polixy.K8s.{PortRef, PodSpec, Container, ContainerPort}
use polixy.Node.{KubeletIps}
use polixy.Labels.{Labels, matches}
use polixy.Map.{Map, keys, get, contains_key}
use polixy.Core.{Ipnet}
use polixy.Watch.{send}
use polixy.Watch.Moves.{Moves, Moves-refl, Moves-trans, Moves-send, Moves-channel}
use polixy.Server.{SrvIndex, iter_matching}
use polixy.Pod.{
  Extracted, add_port, add_ports, add_containers, extract_ports, new_port, is_tcp, port_number,
  Port, PodPorts, Pod, PodIndex, Links, Ports, Linking, assign, link_entry, link_server_port,
  link_port, link_ports, link_matching, clear_entry, clear_port, clear_ports, collect_port,
  link_servers, link_pods, has_server, reset_ports, reset_server,
}

module _ (P : ℕ → Type 0) where
  assign-Moves :
      (p : ℕ) (name : String) (rx : ℕ) (port : Port) (o : Option String) (st : Ports)
      → P rx
      → Moves P st.1 (assign p name rx port o st).1
  unfolding assign
  assign-Moves p name rx port none st h = Moves-send P port.server_tx rx st.1 (λ all. h)
  assign-Moves p name rx port (some sn) st h = Moves-refl P st.1

  link_entry-Moves :
      (p : ℕ) (name : String) (rx : ℕ) (o : Option Port) (st : Ports)
      → P rx
      → Moves P st.1 (link_entry p name rx o st).1
  unfolding link_entry
  link_entry-Moves p name rx none st h = Moves-refl P st.1
  link_entry-Moves p name rx (some port) st h = assign-Moves p name rx port port.server_name st h

  link_ports-Moves :
      (name : String) (rx : ℕ) (ps : List ℕ) (st : Linking)
      → P rx
      → Moves P st.ports.1 (link_ports name rx ps st).ports.1
  unfolding link_ports link_port link_server_port
  link_ports-Moves name rx [] st h = Moves-refl P _
  link_ports-Moves name rx (p ∷ ps) st h =
      Moves-trans P _ _ _ (link_entry-Moves p name rx _ st.ports h)
        (link_ports-Moves name rx ps (link_port name rx p st) h)

  link_matching-Moves :
      (ports : PodPorts) (ms : List (String × PortRef × ℕ)) (st : Linking)
      → All (λ m. P m.2) ms
      → Moves P st.ports.1 (link_matching ports ms st).ports.1
  unfolding link_matching
  link_matching-Moves ports [] st h = Moves-refl P _
  link_matching-Moves ports ((name, m, rx) ∷ ms) st (h, hs) =
      Moves-trans P _ _ _ (link_ports-Moves name rx (collect_port ports m) st h)
        (link_matching-Moves ports ms _ hs)

  clear_entry-Moves :
      (d p : ℕ) (o : Option Port) (st : Ports) → P d → Moves P st.1 (clear_entry d p o st).1
  unfolding clear_entry
  clear_entry-Moves d p none st h = Moves-refl P st.1
  clear_entry-Moves d p (some port) st h = Moves-send P port.server_tx d st.1 (λ all. h)

  clear_ports-Moves :
      (d : ℕ) (ps : List ℕ) (st : Ports) → P d → Moves P st.1 (clear_ports d ps st).1
  unfolding clear_ports clear_port
  clear_ports-Moves d [] st h = Moves-refl P st.1
  clear_ports-Moves d (p ∷ ps) st h =
      Moves-trans P _ _ _ (clear_entry-Moves d p _ st h)
        (clear_ports-Moves d ps (clear_port d p st) h)

  reset_ports-Moves :
      (s : String) (d : ℕ) (ports : Map ℕ Port) (links : Links)
      → P d
      → Moves P links (reset_ports s d ports links).1
  unfolding reset_ports
  reset_ports-Moves s d [] links h = Moves-refl P links
  reset_ports-Moves s d ((p, port) ∷ ports) links h =
      elim (Bool-cases (has_server s port.server_name)) [
        | inl e ↦ rw e (
            Moves-trans P _ _ _ (Moves-send P port.server_tx d links (λ all. h))
              (reset_ports-Moves s d ports (send port.server_tx d links) h))
        | inr e ↦ rw e (reset_ports-Moves s d ports links h)
      ]

  add_port-Moves :
      (d : ℕ) (kubelet : KubeletIps) (p : ContainerPort) (st : Extracted)
      → P d
      → Moves P st.links (add_port d kubelet p st).links
  unfolding add_port new_port is_tcp
  add_port-Moves d kubelet p st h = elim (Bool-cases (is_tcp p.protocol)) [
    | inl tcp ↦ elim (Bool-cases (contains_key (port_number p) st.ports.by_port)) [
      | inl there ↦ rw (tcp, there) (Moves-refl P st.links)
      | inr new ↦ rw (tcp, new) (Moves-channel P d st.links h)
    ]
    | inr other ↦ rw other (Moves-refl P st.links)
  ]

  add_ports-Moves :
      (d : ℕ) (kubelet : KubeletIps) (ps : List ContainerPort) (st : Extracted)
      → P d
      → Moves P st.links (add_ports d kubelet ps st).links
  unfolding add_ports
  add_ports-Moves d kubelet [] st h = Moves-refl P st.links
  add_ports-Moves d kubelet (p ∷ ps) st h =
      Moves-trans P _ _ _ (add_port-Moves d kubelet p st h)
        (add_ports-Moves d kubelet ps (add_port d kubelet p st) h)

  add_containers-Moves :
      (d : ℕ) (kubelet : KubeletIps) (cs : List Container) (st : Extracted)
      → P d
      → Moves P st.links (add_containers d kubelet cs st).links
  unfolding add_containers
  add_containers-Moves d kubelet [] st h = Moves-refl P st.links
  add_containers-Moves d kubelet (c ∷ cs) st h =
      Moves-trans P _ _ _ (add_ports-Moves d kubelet c.ports st h)
        (add_containers-Moves d kubelet cs (add_ports d kubelet c.ports st) h)

  pub extract_ports-Moves :
      (spec : PodSpec) (d : ℕ) (kubelet : KubeletIps) (links : Links)
      → P d
      → Moves P links (extract_ports spec d kubelet links).links
  unfolding extract_ports
  extract_ports-Moves spec d kubelet links h = add_containers-Moves d kubelet spec.containers _ h

  -- every pod's default is such a receiver
  abbrev pub DefaultsHave : PodIndex → Type 0
  DefaultsHave [] = Unit
  DefaultsHave ((n, pod) ∷ pods) = P pod.default_allow_rx × DefaultsHave pods

  pub get-DefaultsHave :
      (n : String) (pod : Pod) (pods : PodIndex)
      → get n pods ≡ some pod
      → DefaultsHave pods
      → P pod.default_allow_rx
  unfolding get
  get-DefaultsHave n pod [] h k = cc
  get-DefaultsHave n pod ((m, first) ∷ pods) h (d, ds) = elim (Bool-cases (m == n)) [
    | inl e ↦ subst (λ (x : Pod). P x.default_allow_rx) (some-injective first pod (rw e at h)) d
    | inr e ↦ get-DefaultsHave n pod pods (rw e at h) ds
  ]

  pub reset_server-Moves :
      (s : String) (pods : PodIndex) (links : Links)
      → DefaultsHave pods
      → Moves P links (reset_server s pods links).1
  unfolding reset_server
  reset_server-Moves s [] links h = Moves-refl P links
  reset_server-Moves s ((n, pod) ∷ pods) links (d, ds) =
      Moves-trans P _ _ _ (reset_ports-Moves s pod.default_allow_rx pod.ports.by_port links d) (
        reset_server-Moves s pods (reset_ports s pod.default_allow_rx pod.ports.by_port links).1 ds)

  module _ {ip : Ipnet} where
    -- every server's receiver is such a one
    abbrev pub ServersHave : SrvIndex ip → Type 0
    ServersHave [] = Unit
    ServersHave ((n, srv) ∷ servers) = P srv.rx × ServersHave servers

    iter_matching_lem :
        (labels : Labels) (servers : SrvIndex ip)
        → ServersHave servers
        → All (λ m. P m.2) (iter_matching labels servers)
    unfolding iter_matching
    iter_matching_lem labels [] h = tt
    iter_matching_lem labels ((n, srv) ∷ servers) (h, hs) =
        elim (Bool-cases (matches srv.meta.pod_selector labels)) [
          | inl e ↦ rw e (h, iter_matching_lem labels servers hs)
          | inr e ↦ rw e (iter_matching_lem labels servers hs)
        ]

    pub link_servers-Moves :
        (servers : SrvIndex ip) (pod : Pod) (links : Links)
        → ServersHave servers
        → P pod.default_allow_rx
        → Moves P links (link_servers servers pod links).1
    unfolding link_servers
    link_servers-Moves servers pod links h d =
        Moves-trans P _ _ _
          (link_matching-Moves pod.ports _
            (record { ports = (pod.ports.by_port, links); remaining = keys pod.ports.by_port })
            (iter_matching_lem pod.labels servers h))
          (clear_ports-Moves pod.default_allow_rx _ _ d)

    pub link_pods-Moves :
        (servers : SrvIndex ip) (pods : PodIndex) (links : Links)
        → ServersHave servers
        → DefaultsHave pods
        → Moves P links (link_pods servers pods links).1
    unfolding link_pods
    link_pods-Moves servers [] links h d = Moves-refl P links
    link_pods-Moves servers ((n, pod) ∷ pods) links h (d, ds) =
        Moves-trans P _ _ _ (link_servers-Moves servers pod links h d)
          (link_pods-Moves servers pods (link_servers servers pod links).1 h ds)
