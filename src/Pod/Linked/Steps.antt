-- ===== src/Pod/Linked/Steps.antt =====
-- The operations on the ports of a pod link them.
use polixy.Prelude.{
  ℕ, String, ◌≡◌, ◌≢◌, refl, ap, Option, none, some, List, [], ◌∷◌, inl, inr, arith, nat_eq,
  string_eq, ==_refl, Bool-cases, All,
}
use polixy.K8s.{PortRef}
use polixy.Labels.{Labels, matches}
use polixy.Map.{Map, keys, get}
use polixy.Map.Keys.{Distinct}
use polixy.Core.{Ipnet}
use polixy.Watch.{borrow, send}
use polixy.Server.Kept.{rx_of, Extends}
use polixy.Server.{Server, SrvIndex, iter_matching}
use polixy.Pod.{
  Port, PodPorts, Pod, Links, Ports, Linking, assign, link_entry, link_server_port, link_port,
  link_ports, link_matching, clear_entry, clear_port, clear_ports, collect_port, link_servers,
}
use polixy.Map.{contains_key}
use polixy.Watch.Laws.{borrow-send}
use polixy.Pod.Linked.{
  expected, Linked, PortEffect, same-PortEffect, then-PortEffect, set-PortEffect,
}

pub send_self : (i rx : ℕ) (links : Links) → borrow i (send i rx links) ≡ rx
send_self i rx links = rw (borrow-send rx links i i, ==_refl i) refl

pub send_other :
    (i tx rx : ℕ) (links : Links) → i ≢ tx → borrow i (send tx rx links) ≡ borrow i links
send_other i tx rx links ne = ground (arith, borrow-send rx links tx i, nat_eq.beq_iff tx i)

pub next-send : (tx rx : ℕ) (links : Links) → (send tx rx links).next ≡ links.next
unfolding send
next-send tx rx links = refl

module _ {ip : Ipnet} where
  -- a matching server's channel
  abbrev Known : SrvIndex ip → String × PortRef × ℕ → Type 0
  Known servers (name, m, rx) = rx_of (get name servers) ≡ some rx

  iter_matching-Known :
      (servers rest : SrvIndex ip) (labels : Labels)
      → ((n : String) (srv : Server ip) → get n rest ≡ some srv → get n servers ≡ some srv)
      → Distinct rest
      → All (Known servers) (iter_matching labels rest)
  unfolding iter_matching get
  iter_matching-Known servers [] labels sub d = tt
  iter_matching-Known servers ((s, srv) ∷ rest) labels sub (fresh, d) =
      let tail =
        iter_matching-Known servers rest labels
          (λ n x h. sub n x (
            ground (
              arith,
              h,
              fresh,
              string_eq.beq_iff s n,
              ap (λ k. contains_key k rest) {x = s} {y = n},
            )))
          d in
      elim (Bool-cases (matches srv.meta.pod_selector labels)) [
        | inl e ↦ rw e (ap rx_of (sub s srv (rw (==_refl s) refl)), tail)
        | inr e ↦ rw e tail
      ]

  module _ (servers : SrvIndex ip) (d : ℕ) where
    assign-PortEffect :
        (p : ℕ) (name : String) (rx : ℕ) (port : Port) (o : Option String) (st : Ports)
        → get p st.0 ≡ some port
        → rx_of (get name servers) ≡ some rx
        → Linked servers d st.0 st.1
        → PortEffect servers d st.0 st.1
            (assign p name rx port o st).0
            (assign p name rx port o st).1
    unfolding assign
    assign-PortEffect p name rx port none st h e l =
        set-PortEffect servers d p port (some name) rx st.0 st.1 h e l
    assign-PortEffect p name rx port (some sn) st h e l = same-PortEffect servers d st.0 st.1 l

    link_entry-PortEffect :
        (p : ℕ) (name : String) (rx : ℕ) (o : Option Port) (st : Ports)
        → get p st.0 ≡ o
        → rx_of (get name servers) ≡ some rx
        → Linked servers d st.0 st.1
        → PortEffect servers d st.0 st.1 (link_entry p name rx o st).0 (link_entry p name rx o st).1
    unfolding link_entry
    link_entry-PortEffect p name rx none st h e l = same-PortEffect servers d st.0 st.1 l
    link_entry-PortEffect p name rx (some port) st h e l =
        assign-PortEffect p name rx port port.server_name st h e l

    link_ports-PortEffect :
        (name : String) (rx : ℕ) (ps : List ℕ) (st : Linking)
        → rx_of (get name servers) ≡ some rx
        → Linked servers d st.ports.0 st.ports.1
        → PortEffect servers d st.ports.0 st.ports.1
            (link_ports name rx ps st).ports.0
            (link_ports name rx ps st).ports.1
    unfolding link_ports link_port link_server_port
    link_ports-PortEffect name rx [] st e l = same-PortEffect servers d _ _ l
    link_ports-PortEffect name rx (p ∷ ps) st e l =
        then-PortEffect servers d _ _ _ _ _ _ (link_entry-PortEffect p name rx _ st.ports refl e l)
          (link_ports-PortEffect name rx ps (link_port name rx p st) e)

    link_matching-PortEffect :
        (ports : PodPorts) (ms : List (String × PortRef × ℕ)) (st : Linking)
        → All (Known servers) ms
        → Linked servers d st.ports.0 st.ports.1
        → PortEffect servers d st.ports.0 st.ports.1
            (link_matching ports ms st).ports.0
            (link_matching ports ms st).ports.1
    unfolding link_matching
    link_matching-PortEffect ports [] st known l = same-PortEffect servers d _ _ l
    link_matching-PortEffect ports ((name, m, rx) ∷ ms) st (e, known) l =
        then-PortEffect servers d _ _ _ _ _ _
          (link_ports-PortEffect name rx (collect_port ports m) st e l)
          (link_matching-PortEffect ports ms (link_ports name rx (collect_port ports m) st) known)

    clear_entry-PortEffect :
        (p : ℕ) (o : Option Port) (st : Ports)
        → get p st.0 ≡ o
        → Linked servers d st.0 st.1
        → PortEffect servers d st.0 st.1 (clear_entry d p o st).0 (clear_entry d p o st).1
    unfolding clear_entry
    clear_entry-PortEffect p none st h l = same-PortEffect servers d st.0 st.1 l
    clear_entry-PortEffect p (some port) st h l =
        set-PortEffect servers d p port none d st.0 st.1 h refl l

    clear_ports-PortEffect :
        (ps : List ℕ) (st : Ports)
        → Linked servers d st.0 st.1
        → PortEffect servers d st.0 st.1 (clear_ports d ps st).0 (clear_ports d ps st).1
    unfolding clear_ports clear_port
    clear_ports-PortEffect [] st l = same-PortEffect servers d _ _ l
    clear_ports-PortEffect (p ∷ ps) st l =
        then-PortEffect servers d _ _ _ _ _ _ (clear_entry-PortEffect p _ st refl l)
          (clear_ports-PortEffect ps (clear_port d p st))

  -- `Pod::link_servers` links, for servers by distinct names.
  pub link_servers-PortEffect :
      (servers : SrvIndex ip) (pod : Pod) (links : Links)
      → Distinct servers
      → Linked servers pod.default_allow_rx pod.ports.by_port links
      → PortEffect servers pod.default_allow_rx pod.ports.by_port links
          (link_servers servers pod links).0.ports.by_port
          (link_servers servers pod links).1
  unfolding link_servers
  link_servers-PortEffect servers pod links dist l =
      then-PortEffect servers _ _ _ _ _ _ _
        (link_matching-PortEffect servers _ pod.ports _
          (record { ports = (pod.ports.by_port, links); remaining = keys pod.ports.by_port })
          (iter_matching-Known servers servers pod.labels (λ n srv h. h) dist) l)
        (clear_ports-PortEffect servers _ _ _)

  pub Extends-Linked :
      (servers servers' : SrvIndex ip) (d : ℕ) (ports : Map ℕ Port) (links : Links)
      → Extends servers servers'
      → Linked servers d ports links
      → Linked servers' d ports links
  Extends-Linked servers servers' d [] links ext l = tt
  Extends-Linked servers servers' d ((p, port) ∷ ports) links ext (reads, opened, own, l) = (
    expected_lem port.server_name (borrow port.server_tx links) reads,
    opened,
    own,
    Extends-Linked servers servers' d ports links ext l,
  )
    where
      expected_lem :
          (o : Option String) (v : ℕ)
          → expected servers d o ≡ some v
          → expected servers' d o ≡ some v
      expected_lem none v h = h
      expected_lem (some n) v h = ext n v h
