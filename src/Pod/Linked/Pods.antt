-- ===== src/Pod/Linked/Pods.antt =====
-- The pods of a namespace: their ports are linked by channels of their own.
use polixy.Prelude.{
  ℕ, String, ◌≡◌, ◌≤◌, ◌<◌, refl, sym, subst, ◌∙◌, Bool, true, false, ◌||◌, some, [], ◌∷◌, inl, inr,
  arith, ◌==◌, nat_eq, string_eq, Bool-cases,
}
use mathlib.Core.Option.{some-injective}
use polixy.Map.{Map, get, remove}
use polixy.Map.Keys.{Distinct}
use polixy.Core.{Ipnet}
use polixy.Watch.{borrow}
use polixy.Server.Kept.{Extends}
use polixy.Server.{SrvIndex}
use polixy.Pod.{Port, Pod, Links, link_servers, reset_ports}
use polixy.Pod.Linked.{has_tx, Linked, PortEffect, frame-Linked}
use polixy.Pod.{PodIndex, with_ports, link_pods, reset_server}
use polixy.Pod.Linked.Steps.{link_servers-PortEffect, Extends-Linked}
use polixy.Pod.Linked.Reset.{reset_ports-PortEffect}

-- whether a port of a pod has the channel
abbrev pub has_pod_tx : ℕ → PodIndex → Bool
has_pod_tx i [] = false
has_pod_tx i ((n, pod) ∷ pods) = has_tx i pod.ports.by_port || has_pod_tx i pods

pub default-link_servers :
    {ip : Ipnet} (servers : SrvIndex ip) (pod : Pod) (links : Links)
    → (link_servers servers pod links).0.default_allow_rx ≡ pod.default_allow_rx
unfolding link_servers
default-link_servers servers pod links = refl

-- `IsDefault` holds of the channel that a pod takes for its default
module _ {ip : Ipnet} (IsDefault : ℕ → Type 0) where
  abbrev pub LinkedPods : SrvIndex ip → PodIndex → Links → Type 0
  LinkedPods servers [] links = Unit
  LinkedPods servers ((n, pod) ∷ pods) links =
      Linked servers pod.default_allow_rx pod.ports.by_port links
      × IsDefault pod.default_allow_rx
      × ((i : ℕ) → has_tx i pod.ports.by_port ≡ true → has_pod_tx i pods ≡ false)
      × LinkedPods servers pods links

  -- What an operation on the pods of one namespace does to the channels.
  pub record PodsEffect (servers : SrvIndex ip) (pods : PodIndex) (links : Links) (pods' : PodIndex)
      (links' : Links) : Type 0 where
    pub linked : LinkedPods servers pods' links'
    pub grows : links.next ≤ links'.next
    pub txs : (i : ℕ) → i < links.next → has_pod_tx i pods ≡ false → has_pod_tx i pods' ≡ false
    pub frame :
        (i : ℕ) → i < links.next → has_pod_tx i pods ≡ false → borrow i links' ≡ borrow i links

  pub frame-LinkedPods :
      (servers : SrvIndex ip) (pods : PodIndex) (links links' : Links)
      → ((i : ℕ) → has_pod_tx i pods ≡ true → borrow i links' ≡ borrow i links)
      → links.next ≤ links'.next
      → LinkedPods servers pods links
      → LinkedPods servers pods links'
  frame-LinkedPods servers [] links links' same le l = tt
  frame-LinkedPods servers ((n, pod) ∷ pods) links links' same le (l, default, apart, ls) = (
    frame-Linked servers _ _ links links' (λ i h. same i (ground arith)) le l,
    default,
    apart,
    frame-LinkedPods servers pods links links' (λ i h. same i (ground arith)) le ls,
  )

  pub has_tx-lt :
      (servers : SrvIndex ip) (d i : ℕ) (ports : Map ℕ Port) (links : Links)
      → Linked servers d ports links
      → has_tx i ports ≡ true
      → i < links.next
  has_tx-lt servers d i [] links l h = cc
  has_tx-lt servers d i ((p, port) ∷ ports) links (reads, opened, own, l) h =
      ground (arith, nat_eq.beq_iff port.server_tx i, has_tx-lt servers d i ports links l)

  pub has_pod_tx-lt :
      (servers : SrvIndex ip) (i : ℕ) (pods : PodIndex) (links : Links)
      → LinkedPods servers pods links
      → has_pod_tx i pods ≡ true
      → i < links.next
  has_pod_tx-lt servers i [] links l h = cc
  has_pod_tx-lt servers i ((n, pod) ∷ pods) links (l, default, apart, ls) h = ground (
    arith,
    has_tx-lt servers pod.default_allow_rx i pod.ports.by_port links l,
    has_pod_tx-lt servers i pods links ls,
  )

  pub Extends-LinkedPods :
      (servers servers' : SrvIndex ip) (pods : PodIndex) (links : Links)
      → Extends servers servers'
      → LinkedPods servers pods links
      → LinkedPods servers' pods links
  Extends-LinkedPods servers servers' [] links ext l = tt
  Extends-LinkedPods servers servers' ((n, pod) ∷ pods) links ext (l, default, apart, ls) = (
    Extends-Linked servers servers' _ _ links ext l,
    default,
    apart,
    Extends-LinkedPods servers servers' pods links ext ls,
  )

  -- an operation on the first pod, and then on the others
  pub cons-PodsEffect :
      (servers : SrvIndex ip) (n : String) (pod pod' : Pod) (pods pods' : PodIndex)
      (links links1 links2 : Links)
      → pod'.default_allow_rx ≡ pod.default_allow_rx
      → IsDefault pod.default_allow_rx
      → ((i : ℕ) → has_tx i pod.ports.by_port ≡ true → has_pod_tx i pods ≡ false)
      → PortEffect servers pod'.default_allow_rx pod.ports.by_port links pod'.ports.by_port links1
      → PodsEffect servers pods links1 pods' links2
      → PodsEffect servers ((n, pod) ∷ pods) links ((n, pod') ∷ pods') links2
  cons-PodsEffect servers n pod pod' pods pods' links links1 links2 d default apart e rest =
      let lt =
        λ (i : ℕ). has_tx-lt servers pod'.default_allow_rx i pod'.ports.by_port links1 e.linked in
      record {
        linked = (
          frame-Linked servers _ _ links1 links2
              (λ i h. rest.frame i (lt i h) (apart i (sym (e.txs i) ∙ h))) rest.grows e.linked,
          subst IsDefault (sym d) default,
          λ i h. rest.txs i (lt i h) (apart i (sym (e.txs i) ∙ h)),
          rest.linked,
        );
        grows = omega (arith, e.next, rest.grows);
        txs = λ i l h. ground (arith, e.txs i, e.next, rest.txs i);
        frame = λ i l h.
            rest.frame i (omega (arith, l, e.next)) (ground arith) ∙ e.frame i (ground arith);
      }

  -- the pods behind one whose ports are changed
  pub rest-LinkedPods :
      (servers servers' : SrvIndex ip) (d : ℕ) (ports ports' : Map ℕ Port) (pods : PodIndex)
      (links links1 : Links)
      → ((i : ℕ) → has_tx i ports ≡ true → has_pod_tx i pods ≡ false)
      → PortEffect servers' d ports links ports' links1
      → LinkedPods servers pods links
      → LinkedPods servers pods links1
  rest-LinkedPods servers servers' d ports ports' pods links links1 apart e ls =
      frame-LinkedPods servers pods links links1 (λ i h. e.frame i (ground (arith, apart i)))
        (omega (arith, e.next)) ls

  pub link_pods-PodsEffect :
      (servers : SrvIndex ip) (pods : PodIndex) (links : Links)
      → Distinct servers
      → LinkedPods servers pods links
      → PodsEffect servers pods links
          (link_pods servers pods links).0
          (link_pods servers pods links).1
  unfolding link_pods
  link_pods-PodsEffect servers [] links dist l = record {
    linked = tt;
    grows = omega arith;
    txs = λ i lt h. h;
    frame = λ i lt h. refl;
  }
  link_pods-PodsEffect servers ((n, pod) ∷ pods) links dist (l, default, apart, ls) =
      let e = link_servers-PortEffect servers pod links dist l in
      let links1 = (link_servers servers pod links).1 in
      cons-PodsEffect servers n pod _ pods _ links links1 _ (default-link_servers servers pod links)
        default apart
        (subst
          (λ d.
            PortEffect servers d pod.ports.by_port links
              (link_servers servers pod links).0.ports.by_port links1)
          (sym (default-link_servers servers pod links)) e)
        (link_pods-PodsEffect servers pods links1 dist
          (rest-LinkedPods servers servers _ _ _ pods links links1 apart e ls))

  pub reset_server-PodsEffect :
      (servers : SrvIndex ip) (s : String) (pods : PodIndex) (links : Links)
      → LinkedPods servers pods links
      → PodsEffect
          (remove s servers)
          pods
          links
          (reset_server s pods links).0
          (reset_server s pods links).1
  unfolding reset_server
  reset_server-PodsEffect servers s [] links l = record {
    linked = tt;
    grows = omega arith;
    txs = λ i lt h. h;
    frame = λ i lt h. refl;
  }
  reset_server-PodsEffect servers s ((n, pod) ∷ pods) links (l, default, apart, ls) =
      let e = reset_ports-PortEffect servers s pod.default_allow_rx pod.ports.by_port links l in
      let (by_port, links1) = reset_ports s pod.default_allow_rx pod.ports.by_port links in
      cons-PodsEffect (remove s servers) n pod (with_ports pod by_port) pods _ links links1 _ refl
        default apart e
        (reset_server-PodsEffect servers s pods links1
          (rest-LinkedPods servers (remove s servers) _ _ _ pods links links1 apart e ls))

  pub get-LinkedPods :
      (servers : SrvIndex ip) (n : String) (pod : Pod) (pods : PodIndex) (links : Links)
      → get n pods ≡ some pod
      → LinkedPods servers pods links
      → Linked servers pod.default_allow_rx pod.ports.by_port links × IsDefault pod.default_allow_rx
  unfolding get
  get-LinkedPods servers n pod [] links h ls = cc
  get-LinkedPods servers n pod ((m, first) ∷ pods) links h (l, default, apart, ls) =
      elim (Bool-cases (m == n)) [
        | inl here ↦
            subst
              (λ (x : Pod).
                Linked servers x.default_allow_rx x.ports.by_port links
                × IsDefault x.default_allow_rx)
              (some-injective first pod (rw here at h)) (l, default)
        | inr other ↦ get-LinkedPods servers n pod pods links (rw other at h) ls
      ]
