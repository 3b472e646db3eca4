-- ===== src/Index/Run/Served.antt =====
-- What `get_inbound_server` of controller/k8s/index/src/lookup.rs gives in the states of the index.
pub mod Ports
use polixy.Prelude.{
  ℕ, String, ◌≡◌, refl, sym, ap, ◌∙◌, Option, none, some, List, inl, inr, arith, Option-cases,
  string_eq, nat_eq,
}
use mathlib.Core.Option.{some-injective}
use polixy.Map.{Map, get}
use polixy.Core.{Ipnet, InboundServer, detect}
use polixy.DefaultAllow.{DefaultAllow, get_rx}
use polixy.DefaultAllow.Modes.{allowed}
use polixy.Watch.{borrow}
use polixy.Lookup.{Rx, ByPort, find, lookup, rx_get, get_inbound_server, mk_server}
use polixy.Server.{Server, SrvIndex}
use polixy.Server.Updates.{config_of}
use polixy.Pod.{Port, Pod}
use polixy.Pod.Senders.{sender}
use polixy.Pod.Extract.{receiver}
use polixy.Pod.Linked.{expected}
use polixy.Index.{Namespace, Index, new}
use polixy.Index.Run.{Update, run}
use polixy.Index.Run.Synced.{run-Synced}
use polixy.Index.Run.Synced.Matching.{Match, find_pod, find_pod-there}
use polixy.Index.Run.Published.{run-published, run-modes}
use polixy.Index.Run.Linked.{run-linked}
use polixy.Index.Run.Served.Ports.{Match-lookup, lookup-Match}

module _ {ip : Ipnet} where
  expected-some :
      (servers : SrvIndex ip) (d : ℕ) (o : Option String) (n : String) (v : ℕ)
      → o ≡ some n
      → expected servers d o ≡ some v
      → (srv : Server ip) × (get n servers ≡ some srv) × (srv.rx ≡ v)
  expected-some servers d o n v h e = elim (Option-cases (get n servers)) [
    | inl q ↦ ground (arith, rw (h, q) at e)
    | inr (srv, q) ↦ (srv, q, some-injective srv.rx v (rw (h, q) at e))
  ]

  pub find_pod-some :
      (name pod_name : String) (pod : Pod) (index : Map String (Namespace ip))
      → find_pod name pod_name index ≡ some pod
      → (ns : Namespace ip) × (get name index ≡ some ns) × (get pod_name ns.pods ≡ some pod)
  find_pod-some name pod_name pod index h = elim (Option-cases (get name index)) [
    | inl e ↦ ground (arith, rw (e, find_pod) at h)
    | inr (ns, e) ↦ (ns, e, sym (find_pod-there name pod_name ns index e) ∙ h)
  ]

  -- the answer for a port of an indexed pod, by what its channel holds
  answer_lem :
      (idx : Index ip) (name pod_name : String) (pod : Pod) (p : ℕ) (port : Port) (v : ℕ)
      → Match (find_pod name pod_name idx.namespaces.index) (find name pod_name idx.lookups)
      → find_pod name pod_name idx.namespaces.index ≡ some pod
      → get p pod.ports.by_port ≡ some port
      → borrow port.server_tx idx.links ≡ v
      → (rx : Rx) × (lookup name pod_name p idx.lookups ≡ some rx)
        × (get_inbound_server idx.links idx.configs (name, pod_name, p) idx.lookups
            ≡ some (mk_server rx.kubelet (borrow v idx.configs)))
  unfolding lookup get_inbound_server rx_get
  answer_lem idx name pod_name pod p port v m h k e =
      let (ports, rx, found, there, same) =
        Match-lookup (find_pod name pod_name idx.namespaces.index) (find name pod_name idx.lookups)
          pod p port h k m in
      let at : lookup name pod_name p idx.lookups ≡ some rx = rw (found, there, lookup) refl in
      (
        rx,
        at,
        rw (found, there, lookup, get_inbound_server)
            (ap (λ i. some (mk_server rx.kubelet (borrow i idx.configs)))
              (ap (λ i. borrow i idx.links) same ∙ e)),
      )

  -- In every state that a new index reaches, by any updates in any order, a request for a port that
  -- has the name of a server is answered: that server is in the pod's namespace, and the answer is
  -- its protocol and authorizations, and access for the kubelet.
  pub run-served :
      (nets : List ip.IpNet) (domain : String) (mode : DefaultAllow) (timeout : ℕ)
      (us : List Update) (name : String) (ns : Namespace ip) (pod_name : String) (pod : Pod) (p : ℕ)
      (port : Port) (srv_name : String)
      → get name (run us (new {ip = ip} nets domain mode timeout)).namespaces.index ≡ some ns
      → get pod_name ns.pods ≡ some pod
      → get p pod.ports.by_port ≡ some port
      → port.server_name ≡ some srv_name
      → let idx = run us (new {ip = ip} nets domain mode timeout) in
        (srv : Server ip) × (rx : Rx) × (get srv_name ns.servers ≡ some srv)
        × (lookup name pod_name p idx.lookups ≡ some rx)
        × (get_inbound_server idx.links idx.configs (name, pod_name, p) idx.lookups
            ≡ some (mk_server rx.kubelet (config_of srv)))
  run-served nets domain mode timeout us name ns pod_name pod p port srv_name h k l n =
      let idx = run us (new {ip = ip} nets domain mode timeout) in
      let (linked, default) =
        run-linked {ip = ip} nets domain mode timeout us name ns pod_name pod p port h k l in
      let (srv, there, reads) =
        expected-some ns.servers pod.default_allow_rx port.server_name srv_name _ n linked in
      let (rx, found, answer) =
        answer_lem idx name pod_name pod p port srv.rx
          (run-Synced ip nets domain mode timeout us name pod_name)
          (find_pod-there name pod_name ns idx.namespaces.index h ∙ k) l (sym reads) in
      (
        srv,
        rx,
        there,
        found,
        answer
            ∙ ap (λ c. some (mk_server rx.kubelet c))
                (run-published nets domain mode timeout us name ns srv_name srv h there),
      )

  -- In every state that a new index reaches a request for a port that has no server is answered with a default mode: the
  -- protocol is to be detected, and the authorizations are those of the mode, and access for the
  -- kubelet. The channel of the mode is the one that the pod has for its default.
  pub run-served_default :
      (nets : List ip.IpNet) (domain : String) (mode : DefaultAllow) (timeout : ℕ)
      (us : List Update) (name : String) (ns : Namespace ip) (pod_name : String) (pod : Pod) (p : ℕ)
      (port : Port)
      → get name (run us (new {ip = ip} nets domain mode timeout)).namespaces.index ≡ some ns
      → get pod_name ns.pods ≡ some pod
      → get p pod.ports.by_port ≡ some port
      → port.server_name ≡ none
      → let idx = run us (new {ip = ip} nets domain mode timeout) in
        (m : DefaultAllow) × (rx : Rx) × (pod.default_allow_rx ≡ get_rx idx.default_allows m)
        × (lookup name pod_name p idx.lookups ≡ some rx)
        × (get_inbound_server idx.links idx.configs (name, pod_name, p) idx.lookups
            ≡ some (
                mk_server rx.kubelet
                  (record { protocol = detect timeout; authorizations = allowed nets m })))
  run-served_default nets domain mode timeout us name ns pod_name pod p port h k l n =
      let idx = run us (new {ip = ip} nets domain mode timeout) in
      let (linked, by_mode) =
        run-linked {ip = ip} nets domain mode timeout us name ns pod_name pod p port h k l in
      let (m, default) = by_mode in
      let (rx, found, answer) =
        answer_lem idx name pod_name pod p port (get_rx idx.default_allows m)
          (run-Synced ip nets domain mode timeout us name pod_name)
          (find_pod-there name pod_name ns idx.namespaces.index h ∙ k) l
          (sym (
              some-injective pod.default_allow_rx (borrow port.server_tx idx.links)
                (rw n at linked))
            ∙ default) in
      (
        m,
        rx,
        default,
        found,
        answer
            ∙ ap (λ c. some (mk_server rx.kubelet c))
                (run-modes {ip = ip} nets domain mode timeout us m),
      )

  -- In every state that a new index reaches only requests for the ports of indexed pods are answered.
  pub run-indexed :
      (nets : List ip.IpNet) (domain : String) (mode : DefaultAllow) (timeout : ℕ)
      (us : List Update) (name pod_name : String) (p : ℕ) (s : InboundServer ip)
      → (let idx = run us (new {ip = ip} nets domain mode timeout) in
          get_inbound_server idx.links idx.configs (name, pod_name, p) idx.lookups ≡ some s)
      → (ns : Namespace ip) × (pod : Pod) × (port : Port) × (get name
            (run us (new {ip = ip} nets domain mode timeout)).namespaces.index
          ≡ some ns)
        × (get pod_name ns.pods ≡ some pod)
        × (get p pod.ports.by_port ≡ some port)
  unfolding get_inbound_server lookup
  run-indexed nets domain mode timeout us name pod_name p s h =
      let idx = run us (new {ip = ip} nets domain mode timeout) in
      elim (Option-cases (find name pod_name idx.lookups)) [
        | inl e ↦ ground (arith, rw (e, lookup, get_inbound_server) at h)
        | inr (ports, e) ↦ elim (Option-cases (get p ports)) [
          | inl q ↦ ground (arith, rw (e, q, lookup, get_inbound_server) at h)
          | inr (rx, q) ↦
              let (pod, port, there, at, same_tx) =
                lookup-Match (find_pod name pod_name idx.namespaces.index)
                  (find name pod_name idx.lookups) p ports rx e q
                  (run-Synced ip nets domain mode timeout us name pod_name) in
              let (ns, in_it, got) = find_pod-some name pod_name pod idx.namespaces.index there in
              (ns, pod, port, in_it, got, at)
        ]
      ]
