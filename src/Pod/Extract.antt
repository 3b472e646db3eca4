-- ===== src/Pod/Extract.antt =====
-- What `extract_ports` reads from a pod's specification.
use polixy.Prelude.{
  ℕ, String, ◌<◌, ◌≡◌, refl, Bool, true, ◌&&◌, ◌||◌, Option, none, some, List, [], ◌∷◌, inl, inr,
  arith, ◌==◌, nat_eq, any, is_some, string_eq, Bool-cases, Option-cases,
}
use polixy.K8s.{ContainerPort, Container, PodSpec}
use polixy.Map.{Map, get}
use polixy.Map.Keys.{Distinct, insert-Distinct}
use polixy.Map.Laws.{get-insert}
use polixy.Node.{KubeletIps}
use polixy.Lookup.{Rx}
use polixy.Watch.{channel, borrow}
use polixy.Watch.Laws.{borrow-channel}
use polixy.Pod.{
  Port, Links, Extracted, is_tcp, new_port, port_number, add_port, add_ports, add_containers,
  extract_ports,
}
use polixy.Pod.Senders.{sender}
use polixy.Pod.Link.Assign.{OwnSenders}

abbrev pub receiver : ℕ → Map ℕ Rx → Option ℕ
receiver p lookups = elim (get p lookups) [ none ↦ none | some r ↦ some r.rx ]

-- The ports and the lookups of one pod: each port has a channel of its own, which the lookups read
-- with the kubelet's addresses, and which holds the pod's default.
pub record IsExtracted (server_rx : ℕ) (kubelet : KubeletIps) (st : Extracted) : Type 0 where
  pub synced : (p : ℕ) → receiver p st.lookups ≡ sender p st.ports.by_port
  pub distinct : Distinct st.lookups
  pub own : OwnSenders st.ports.by_port
  pub opened : (p tx : ℕ) → sender p st.ports.by_port ≡ some tx → tx < st.links.next
  pub unlinked :
      (p : ℕ) (port : Port) → get p st.ports.by_port ≡ some port → port.server_name ≡ none
  pub default : (p tx : ℕ) → sender p st.ports.by_port ≡ some tx → borrow tx st.links ≡ server_rx
  pub from_kubelet : (p : ℕ) (r : Rx) → get p st.lookups ≡ some r → r.kubelet ≡ kubelet
  pub bounded : (p : ℕ) (r : Rx) → get p st.lookups ≡ some r → p < 65536

-- TCP, or no protocol
abbrev pub tcp_or_none : Option String → Bool
tcp_or_none none = true
tcp_or_none (some p) = p == "TCP"

-- whether a container's port is this one, for TCP or with no protocol
abbrev pub declares : ℕ → ContainerPort → Bool
declares q p = tcp_or_none p.protocol && port_number p == q

module _ (server_rx : ℕ) (kubelet : KubeletIps) where
  new_port-IsExtracted :
      (name : Option String) (p : ℕ) (st : Extracted)
      → IsExtracted server_rx kubelet st
      → get p st.ports.by_port ≡ none
      → p < 65536
      → IsExtracted server_rx kubelet (new_port server_rx kubelet name p st)
  unfolding new_port channel
  new_port-IsExtracted name p st ok h low =
      let port : Port = record { server_name = none; server_tx = st.links.next } in
      let rx : Rx = record { kubelet = kubelet; rx = st.links.next } in
      let at = λ (q : ℕ). get-insert p q port st.ports.by_port in
      let seen = λ (q : ℕ). get-insert p q rx st.lookups in
      record {
        synced = λ q. ground (arith, at q, seen q, ok.synced q);
        distinct = insert-Distinct p rx st.lookups ok.distinct;
        own = λ q q' tx k k'. ground (
          arith,
          at q,
          at q',
          nat_eq.beq_iff p q,
          nat_eq.beq_iff p q',
          ok.own q q' tx,
          ok.opened q tx,
          ok.opened q' tx,
        );
        opened = λ q tx k. ground (arith, at q, ok.opened q tx);
        unlinked = λ q port' k. ground (arith, at q, ok.unlinked q port');
        default = λ q tx k.
            ground
              (arith, at q, borrow-channel server_rx st.links tx, ok.default q tx, ok.opened q tx);
        from_kubelet = λ q r k. ground (arith, seen q, ok.from_kubelet q r);
        bounded = λ q r k. ground (arith, seen q, ok.bounded q r, nat_eq.beq_iff p q, low);
      }

  add_port-IsExtracted :
      (p : ContainerPort) (st : Extracted)
      → IsExtracted server_rx kubelet st
      → IsExtracted server_rx kubelet (add_port server_rx kubelet p st)
  unfolding add_port
  add_port-IsExtracted p st ok = elim (Bool-cases (is_tcp p.protocol)) [
    | inl tcp ↦ elim (Option-cases (get (port_number p) st.ports.by_port)) [
      | inl e ↦ rw (tcp, e) (new_port-IsExtracted p.name (port_number p) st ok e (omega arith))
      | inr (port, e) ↦ rw (tcp, e) ok
    ]
    | inr other ↦ rw other ok
  ]

  add_ports-IsExtracted :
      (ps : List ContainerPort) (st : Extracted)
      → IsExtracted server_rx kubelet st
      → IsExtracted server_rx kubelet (add_ports server_rx kubelet ps st)
  unfolding add_ports
  add_ports-IsExtracted [] st ok = ok
  add_ports-IsExtracted (p ∷ ps) st ok = add_ports-IsExtracted ps _ (add_port-IsExtracted p st ok)

  add_containers-IsExtracted :
      (cs : List Container) (st : Extracted)
      → IsExtracted server_rx kubelet st
      → IsExtracted server_rx kubelet (add_containers server_rx kubelet cs st)
  unfolding add_containers
  add_containers-IsExtracted [] st ok = ok
  add_containers-IsExtracted (c ∷ cs) st ok =
      add_containers-IsExtracted cs _ (add_ports-IsExtracted c.ports st ok)

  -- What is extracted from a specification is well formed: the lookups hold the receivers of exactly
  -- the ports, with the addresses of the kubelet; each port is less than 65536 and has an open channel
  -- of its own, which holds the pod's default; and no port has a server yet.
  pub extract_ports-IsExtracted :
      (spec : PodSpec) (links : Links)
      → IsExtracted server_rx kubelet (extract_ports spec server_rx kubelet links)
  unfolding extract_ports
  extract_ports-IsExtracted spec links = add_containers-IsExtracted spec.containers _ (record {
    synced = λ p. unfold get in refl;
    distinct = tt;
    own = λ p q tx h k. unfold get in cc;
    opened = λ p tx h. unfold get in cc;
    unlinked = λ p port h. unfold get in cc;
    default = λ p tx h. unfold get in cc;
    from_kubelet = λ p r h. unfold get in cc;
    bounded = λ p r h. unfold get in cc;
  })

  add_port-has :
      (q : ℕ) (p : ContainerPort) (st : Extracted)
      → is_some (get q (add_port server_rx kubelet p st).ports.by_port)
        ≡ (is_some (get q st.ports.by_port) || declares q p)
  unfolding add_port new_port channel is_tcp
  add_port-has q p st = ground (
    arith,
    nat_eq.beq_iff (port_number p) q,
    get-insert (port_number p) q (record { server_name = none; server_tx = st.links.next })
        st.ports.by_port,
  )

  add_ports-has :
      (q : ℕ) (ps : List ContainerPort) (st : Extracted)
      → is_some (get q (add_ports server_rx kubelet ps st).ports.by_port)
        ≡ (is_some (get q st.ports.by_port) || any (declares q) ps)
  unfolding add_ports
  add_ports-has q [] st = ground arith
  add_ports-has q (p ∷ ps) st =
      ground (arith, add_ports-has q ps (add_port server_rx kubelet p st), add_port-has q p st)

  add_containers-has :
      (q : ℕ) (cs : List Container) (st : Extracted)
      → is_some (get q (add_containers server_rx kubelet cs st).ports.by_port)
        ≡ (is_some (get q st.ports.by_port) || any (λ c. any (declares q) c.ports) cs)
  unfolding add_containers
  add_containers-has q [] st = ground arith
  add_containers-has q (c ∷ cs) st = ground (
    arith,
    add_containers-has q cs (add_ports server_rx kubelet c.ports st),
    add_ports-has q c.ports st,
  )

  -- A pod has exactly the ports that some container of its declares for TCP, or with no protocol; a
  -- number is taken modulo 2^16.
  pub extract_ports-declared :
      (spec : PodSpec) (links : Links) (q : ℕ)
      → is_some (get q (extract_ports spec server_rx kubelet links).ports.by_port)
        ≡ any (λ (c : Container). any (declares q) c.ports) spec.containers
  unfolding extract_ports get
  extract_ports-declared spec links q =
      add_containers-has q spec.containers
        (record { ports = record { by_port = []; by_name = [] }; lookups = []; links = links })
