-- ===== src/Pod/Linked/Fresh.antt =====
-- The ports taken from a new pod are linked, to the pod's default, by new channels.
use polixy.Prelude.{
  ℕ, String, ◌≡◌, ◌≢◌, ◌≤◌, ◌<◌, ◌+◌, refl, sym, ap, ◌∙◌, false, Option, none, some, List, [], ◌∷◌,
  inl, inr, arith, ◌==◌, nat_eq, string_eq, ==_refl, Bool-cases, Option-cases,
}
use polixy.Map.{Map, get, insert}
use polixy.Core.{Ipnet}
use polixy.Watch.{borrow}
use polixy.Server.{SrvIndex}
use polixy.Pod.{Port, Links}
use polixy.Pod.Linked.{has_tx, expected, Linked}
use polixy.Node.{KubeletIps}
use polixy.K8s.{ContainerPort, Container, PodSpec}
use polixy.Watch.{channel}
use polixy.Pod.{
  Extracted, is_tcp, new_port, port_number, add_port, add_ports, add_containers, extract_ports,
}

some_not_none : {port : Port} → some port ≢ none
some_not_none h = cc

module _ {ip : Ipnet} (servers : SrvIndex ip) (d : ℕ) (start : Links) where
  -- linked by channels that were not open at the start, with nothing sent on the others
  pub record IsFresh (ports : Map ℕ Port) (links : Links) : Type 0 where
    pub linked : Linked servers d ports links
    pub grows : start.next ≤ links.next
    pub txs : (i : ℕ) → i < start.next → has_tx i ports ≡ false
    pub frame : (i : ℕ) → i < start.next → borrow i links ≡ borrow i start

  has_tx-append :
      (i p : ℕ) (port : Port) (ports : Map ℕ Port)
      → i ≢ port.server_tx
      → has_tx i ports ≡ false
      → has_tx i (insert p port ports) ≡ false
  unfolding insert
  has_tx-append i p port [] ne h = ground (arith, nat_eq.beq_iff port.server_tx i)
  has_tx-append i p port ((q, old) ∷ ports) ne h =
      ground (arith, nat_eq.beq_iff port.server_tx i, has_tx-append i p port ports ne)

  append-Linked :
      (p : ℕ) (port : Port) (ports : Map ℕ Port) (links links' : Links)
      → get p ports ≡ none
      → port.server_tx ≡ links.next
      → links'.next ≡ links.next + 1
      → expected servers d port.server_name ≡ some (borrow port.server_tx links')
      → ((i : ℕ) → i < links.next → borrow i links' ≡ borrow i links)
      → Linked servers d ports links
      → Linked servers d (insert p port ports) links'
  unfolding get insert
  append-Linked p port [] links links' h tx next reads older l =
      (reads, omega (arith, tx, next), refl, tt)
  append-Linked p port ((q, old) ∷ ports) links links' h tx next reads older (r, opened, own, l) =
      elim (Bool-cases (q == p)) [
        | inl here ↦ elim (some_not_none (rw here at h)) [ ]
        | inr other ↦ rw other (
          r ∙ ap some (sym (older old.server_tx opened)),
          omega (arith, opened, next),
          has_tx-append old.server_tx p port ports (omega (arith, opened, tx)) own,
          append-Linked p port ports links links' (rw other at h) tx next reads older l,
        )
      ]

  new_port-IsFresh :
      (kubelet : KubeletIps) (name : Option String) (p : ℕ) (st : Extracted)
      → get p st.ports.by_port ≡ none
      → IsFresh st.ports.by_port st.links
      → IsFresh (new_port d kubelet name p st).ports.by_port (new_port d kubelet name p st).links
  unfolding new_port channel borrow
  new_port-IsFresh kubelet name p st h f = record {
    linked =
        append-Linked p _ st.ports.by_port st.links _ h refl refl (rw (==_refl st.links.next) refl)
          (λ i lt. ground arith) f.linked;
    grows = omega (arith, f.grows);
    txs = λ i lt. has_tx-append i p _ st.ports.by_port (omega (arith, lt, f.grows)) (f.txs i lt);
    frame = λ i lt. ground (arith, f.frame i lt, f.grows);
  }

  add_port-IsFresh :
      (kubelet : KubeletIps) (p : ContainerPort) (st : Extracted)
      → IsFresh st.ports.by_port st.links
      → IsFresh (add_port d kubelet p st).ports.by_port (add_port d kubelet p st).links
  unfolding add_port
  add_port-IsFresh kubelet p st f = elim (Bool-cases (is_tcp p.protocol)) [
    | inl tcp ↦ elim (Option-cases (get (port_number p) st.ports.by_port)) [
      | inl e ↦ rw (tcp, e) (new_port-IsFresh kubelet p.name (port_number p) st e f)
      | inr (port, e) ↦ rw (tcp, e) f
    ]
    | inr other ↦ rw other f
  ]

  add_ports-IsFresh :
      (kubelet : KubeletIps) (ps : List ContainerPort) (st : Extracted)
      → IsFresh st.ports.by_port st.links
      → IsFresh (add_ports d kubelet ps st).ports.by_port (add_ports d kubelet ps st).links
  unfolding add_ports
  add_ports-IsFresh kubelet [] st f = f
  add_ports-IsFresh kubelet (p ∷ ps) st f =
      add_ports-IsFresh kubelet ps (add_port d kubelet p st) (add_port-IsFresh kubelet p st f)

  add_containers-IsFresh :
      (kubelet : KubeletIps) (cs : List Container) (st : Extracted)
      → IsFresh st.ports.by_port st.links
      → IsFresh
          (add_containers d kubelet cs st).ports.by_port
          (add_containers d kubelet cs st).links
  unfolding add_containers
  add_containers-IsFresh kubelet [] st f = f
  add_containers-IsFresh kubelet (c ∷ cs) st f =
      add_containers-IsFresh kubelet cs (add_ports d kubelet c.ports st)
        (add_ports-IsFresh kubelet c.ports st f)

  pub extract_ports-IsFresh :
      (spec : PodSpec) (kubelet : KubeletIps)
      → IsFresh
          (extract_ports spec d kubelet start).ports.by_port
          (extract_ports spec d kubelet start).links
  unfolding extract_ports
  extract_ports-IsFresh spec kubelet =
      add_containers-IsFresh kubelet spec.containers _
        (record { linked = tt; grows = omega arith; txs = λ i lt. refl; frame = λ i lt. refl })
