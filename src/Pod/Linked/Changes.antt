-- ===== src/Pod/Linked/Changes.antt =====
-- A pod is added to its namespace, replaced there or removed.
use polixy.Prelude.{
  ℕ, String, ◌≡◌, ◌≢◌, ◌≤◌, ◌<◌, refl, sym, ap, subst, ◌∙◌, true, false, none, some, [], ◌∷◌, inl,
  inr, arith, ◌==◌, nat_eq, string_eq, Bool-cases,
}
use mathlib.Core.Option.{some-injective}
use polixy.K8s.{PodSpec}
use polixy.Labels.{Labels}
use polixy.Map.{get, insert, remove}
use polixy.Map.Keys.{Distinct}
use polixy.Core.{Ipnet}
use polixy.Node.{KubeletIps}
use polixy.Watch.{borrow}
use polixy.Server.{SrvIndex}
use polixy.Pod.{Pod, PodIndex, Links, extract_ports, link_servers}
use polixy.Pod.Linked.{has_tx, Linked, PortEffect, frame-Linked, same-PortEffect}
use polixy.Pod.Linked.Fresh.{extract_ports-IsFresh}
use polixy.Pod.Linked.Steps.{link_servers-PortEffect}
use polixy.Pod.Linked.Pods.{
  has_pod_tx, LinkedPods, PodsEffect, cons-PodsEffect, rest-LinkedPods, has_pod_tx-lt,
  default-link_servers,
}

some_not_none : {pod : Pod} → some pod ≢ none
some_not_none h = cc

has_pod_tx-append :
    (i : ℕ) (name : String) (new : Pod) (pods : PodIndex)
    → has_tx i new.ports.by_port ≡ false
    → has_pod_tx i pods ≡ false
    → has_pod_tx i (insert name new pods) ≡ false
unfolding insert
has_pod_tx-append i name new [] h k = ground arith
has_pod_tx-append i name new ((n, pod) ∷ pods) h k =
    ground (arith, has_pod_tx-append i name new pods)

has_pod_tx-remove :
    (i : ℕ) (name : String) (pods : PodIndex)
    → has_pod_tx i pods ≡ false
    → has_pod_tx i (remove name pods) ≡ false
unfolding remove
has_pod_tx-remove i name [] h = refl
has_pod_tx-remove i name ((n, pod) ∷ pods) h = ground (arith, has_pod_tx-remove i name pods)

has_pod_tx_of_get :
    (i : ℕ) (name : String) (old : Pod) (pods : PodIndex)
    → get name pods ≡ some old
    → has_tx i old.ports.by_port ≡ true
    → has_pod_tx i pods ≡ true
unfolding get
has_pod_tx_of_get i name old [] h k = cc
has_pod_tx_of_get i name old ((n, pod) ∷ pods) h k = elim (Bool-cases (n == name)) [
  | inl here ↦
      let same : pod ≡ old = some-injective pod old (rw here at h) in
      ground (arith, k, ap (λ (x : Pod). has_tx i x.ports.by_port) same)
  | inr other ↦ ground (arith, has_pod_tx_of_get i name old pods (rw other at h) k)
]

module _ {ip : Ipnet} (IsDefault : ℕ → Type 0) (servers : SrvIndex ip) where
  append-LinkedPods :
      (name : String) (new : Pod) (pods : PodIndex) (links links' : Links)
      → get name pods ≡ none
      → Linked servers new.default_allow_rx new.ports.by_port links'
      → IsDefault new.default_allow_rx
      → ((i : ℕ) → i < links.next → has_tx i new.ports.by_port ≡ false)
      → ((i : ℕ) → i < links.next → borrow i links' ≡ borrow i links)
      → links.next ≤ links'.next
      → LinkedPods IsDefault servers pods links
      → LinkedPods IsDefault servers (insert name new pods) links'
  unfolding get insert
  append-LinkedPods name new [] links links' h l default fresh older le ls =
      (l, default, λ i k. refl, tt)
  append-LinkedPods name new ((n, pod) ∷ pods) links links' h l default fresh older le
        (lp, dp, apart, ls) =
      let lt = λ (i : ℕ) (k : has_tx i pod.ports.by_port ≡ true).
        has_pod_tx-lt IsDefault servers i ((n, pod) ∷ pods) links (lp, dp, apart, ls)
          (ground arith) in
      elim (Bool-cases (n == name)) [
        | inl here ↦ elim (some_not_none (rw here at h)) [ ]
        | inr other ↦ rw other (
          frame-Linked servers _ _ links links' (λ i k. older i (lt i k)) le lp,
          dp,
          λ i k. has_pod_tx-append i name new pods (fresh i (lt i k)) (apart i k),
          append-LinkedPods name new pods links links' (rw other at h) l default fresh older le ls,
        )
      ]

  -- the channels of a new pod are new, and no other changes
  pub new-frame :
      (spec : PodSpec) (d : ℕ) (kubelet : KubeletIps) (labels : Labels) (links : Links)
      → Distinct servers
      → let found = extract_ports spec d kubelet links in
        let links' =
          (link_servers servers
            (record { ports = found.ports; labels = labels; default_allow_rx = d })
            found.links).1 in
        (links.next ≤ links'.next) × ((i : ℕ) → i < links.next → borrow i links' ≡ borrow i links)
  new-frame spec d kubelet labels links dist =
      let found = extract_ports spec d kubelet links in
      let entry : Pod = record { ports = found.ports; labels = labels; default_allow_rx = d } in
      let fresh = extract_ports-IsFresh servers d links spec kubelet in
      let e = link_servers-PortEffect servers entry found.links dist fresh.linked in
      (omega (arith, fresh.grows, e.next), λ i lt. e.frame i (fresh.txs i lt) ∙ fresh.frame i lt)

  -- the vacant entry of `PodIndex::apply`
  pub new-PodsEffect :
      (name : String) (spec : PodSpec) (d : ℕ) (kubelet : KubeletIps) (labels : Labels)
      (pods : PodIndex) (links : Links)
      → get name pods ≡ none
      → IsDefault d
      → Distinct servers
      → LinkedPods IsDefault servers pods links
      → let found = extract_ports spec d kubelet links in
        let linked =
          link_servers servers
            (record { ports = found.ports; labels = labels; default_allow_rx = d })
            found.links in
        PodsEffect IsDefault servers pods links (insert name linked.0 pods) linked.1
  new-PodsEffect name spec d kubelet labels pods links h default dist ls =
      let found = extract_ports spec d kubelet links in
      let entry : Pod = record { ports = found.ports; labels = labels; default_allow_rx = d } in
      let fresh = extract_ports-IsFresh servers d links spec kubelet in
      let e = link_servers-PortEffect servers entry found.links dist fresh.linked in
      let linked = (link_servers servers entry found.links).0 in
      let same = default-link_servers servers entry found.links in
      let older : (i : ℕ)
          → i < links.next
          → borrow i (link_servers servers entry found.links).1 ≡ borrow i links =
        λ i lt. e.frame i (fresh.txs i lt) ∙ fresh.frame i lt in
      let new : (i : ℕ) → i < links.next → has_tx i linked.ports.by_port ≡ false =
        λ i lt. e.txs i ∙ fresh.txs i lt in
      record {
        linked =
            append-LinkedPods name linked pods links _ h
              (subst
                (λ x.
                  Linked servers x linked.ports.by_port (link_servers servers entry found.links).1)
                (sym same) e.linked)
              (subst IsDefault (sym same) default) new older (omega (arith, fresh.grows, e.next))
              ls;
        grows = omega (arith, fresh.grows, e.next);
        txs = λ i lt k. has_pod_tx-append i name linked pods (new i lt) k;
        frame = λ i lt k. older i lt;
      }

  pub same-PodsEffect :
      (pods : PodIndex) (links : Links)
      → LinkedPods IsDefault servers pods links
      → PodsEffect IsDefault servers pods links pods links
  same-PodsEffect pods links ls = record {
    linked = ls;
    grows = omega arith;
    txs = λ i lt h. h;
    frame = λ i lt h. refl;
  }

  -- a pod's ports are changed
  pub replace-PodsEffect :
      (name : String) (new old : Pod) (pods : PodIndex) (links links' : Links)
      → get name pods ≡ some old
      → new.default_allow_rx ≡ old.default_allow_rx
      → (Linked servers old.default_allow_rx old.ports.by_port links
          → PortEffect servers new.default_allow_rx old.ports.by_port links new.ports.by_port
              links')
      → LinkedPods IsDefault servers pods links
      → PodsEffect IsDefault servers pods links (insert name new pods) links'
  unfolding get insert
  replace-PodsEffect name new old [] links links' h same e ls = cc
  replace-PodsEffect name new old ((n, pod) ∷ pods) links links' h same e (lp, dp, apart, ls) =
      elim (Bool-cases (n == name)) [
        | inl here ↦
            let q : pod ≡ old = some-injective pod old (rw here at h) in
            let lo =
              subst (λ (x : Pod). Linked servers x.default_allow_rx x.ports.by_port links) q lp in
            let f =
              subst
                (λ (x : Pod).
                  PortEffect servers new.default_allow_rx x.ports.by_port links new.ports.by_port
                    links')
                (sym q) (e lo) in
            rw (here, ← (string_eq.beq_iff n name).0 here)
              (cons-PodsEffect IsDefault servers n pod new pods pods links links' links'
                (same ∙ ap (λ (x : Pod). x.default_allow_rx) (sym q)) dp apart f
                (same-PodsEffect pods links'
                  (rest-LinkedPods IsDefault servers servers _ _ _ pods links links' apart f ls)))
        | inr other ↦ rw other (
            cons-PodsEffect IsDefault servers n pod pod pods _ links links links' refl dp apart
              (same-PortEffect servers _ _ links lp)
              (replace-PodsEffect name new old pods links links' (rw other at h) same e ls))
      ]

  remove-LinkedPods :
      (name : String) (pods : PodIndex) (links : Links)
      → LinkedPods IsDefault servers pods links
      → LinkedPods IsDefault servers (remove name pods) links
  unfolding remove
  remove-LinkedPods name [] links ls = tt
  remove-LinkedPods name ((n, pod) ∷ pods) links (lp, dp, apart, ls) =
      elim (Bool-cases (n == name)) [
        | inl here ↦ rw here (remove-LinkedPods name pods links ls)
        | inr other ↦ rw other (
          lp,
          dp,
          λ i k. has_pod_tx-remove i name pods (apart i k),
          remove-LinkedPods name pods links ls,
        )
      ]

  pub remove-PodsEffect :
      (name : String) (pods : PodIndex) (links : Links)
      → LinkedPods IsDefault servers pods links
      → PodsEffect IsDefault servers pods links (remove name pods) links
  remove-PodsEffect name pods links ls = record {
    linked = remove-LinkedPods name pods links ls;
    grows = omega arith;
    txs = λ i lt h. has_pod_tx-remove i name pods h;
    frame = λ i lt h. refl;
  }

  -- the occupied entry of `PodIndex::apply`
  pub old-PodsEffect :
      (name : String) (labels : Labels) (old : Pod) (pods : PodIndex) (links : Links)
      → get name pods ≡ some old
      → Distinct servers
      → LinkedPods IsDefault servers pods links
      → let linked = link_servers servers (record old { labels = labels }) links in
        PodsEffect IsDefault servers pods links (insert name linked.0 pods) linked.1
  old-PodsEffect name labels old pods links h dist ls =
      let entry : Pod = record old { labels = labels } in
      let linked = link_servers servers entry links in
      let same = default-link_servers servers entry links in
      replace-PodsEffect name linked.0 old pods links linked.1 h same
        (λ l.
          subst (λ d. PortEffect servers d old.ports.by_port links linked.0.ports.by_port linked.1)
            (sym same) (link_servers-PortEffect servers entry links dist l))
        ls
