-- ===== src/Index/Run/Bounded.antt =====
-- The ports of the lookups are numbers of 16 bits.
use polixy.Prelude.{
  ℕ, String, ◌≡◌, ◌<◌, sym, subst, ◌∙◌, Option, none, some, List, inl, inr, arith, ◌&&◌, ◌==◌,
  Bool-cases, Option-cases, string_eq, nat_eq,
}
use mathlib.Core.Option.{some-injective}
use polixy.Result.{Result, ok, err, panic}
use polixy.Map.{get, collect}
use polixy.Map.Keys.{get-collect}
use polixy.Core.{Ipnet, InboundServer}
use polixy.K8s
use polixy.K8s.{PodSpec}
use polixy.Node.{KubeletIps}
use polixy.Labels.{Labels-discrete}
use polixy.DefaultAllow.{DefaultAllow, get_rx}
use polixy.Lookup.{Rx, ByPort, ByNs, find, lookup, get_inbound_server, set, unset}
use polixy.Lookup.Laws.{find-set, set_exists, find-unset, unset_missing}
use polixy.Authz.{Authz}
use polixy.Server.{eqb}
use polixy.Pod.{Pod, extract_ports}
use polixy.Pod.Extract.{extract_ports-IsExtracted}
use polixy.Index.{Namespace, Index, new}
use polixy.Index.Pods
use polixy.Index.Pods.{
  apply_pod, default_mode, add_pod, new_pod, old_pod, with_spec, when_ready, rm_indexed, store_pod,
  after_unset, unset_pod,
}
use polixy.Index.Servers
use polixy.Index.Servers.{apply_server, rm_server}
use polixy.Index.Authzs
use polixy.Index.Authzs.{apply_made, apply_authz, rm_authz, store_entry}
use polixy.Index.Run.{Update, run}
use polixy.Index.Run.Induction.{Keeps, KeepsEach, with_namespace-Keeps, run-Keeps}
use polixy.Index.Run.Synced.{store_entry-same}

abbrev AllLow : ByPort → Type 0
AllLow ports = (p : ℕ) (rx : Rx) → get p ports ≡ some rx → p < 65536

abbrev IsBounded : ByNs → Type 0
IsBounded w = (ns pod : String) (ports : ByPort) → find ns pod w ≡ some ports → AllLow ports

set-IsBounded :
    (ns pod : String) (ports : List (ℕ × Rx)) (w : ByNs)
    → AllLow (collect ports)
    → IsBounded w
    → IsBounded (set ns pod ports w).1
set-IsBounded ns pod ports w low all ns' pod' ports' h = elim (Option-cases (find ns pod w)) [
  | inl e ↦
      let at = (find-set ns pod ports w e).1 ns' pod' in
      elim (Bool-cases (ns == ns' && pod == pod')) [
        | inl here ↦
            subst AllLow (some-injective (collect ports) ports' (sym (rw here at at) ∙ h)) low
        | inr other ↦ all ns' pod' ports' (sym (rw other at at) ∙ h)
      ]
  | inr (old, e) ↦ all ns' pod' ports' (rw (set_exists ns pod ports w e) at h)
]

unset-IsBounded : (ns pod : String) (w : ByNs) → IsBounded w → IsBounded (unset ns pod w).1
unset-IsBounded ns pod w all ns' pod' ports' h = elim (Option-cases (find ns pod w)) [
  | inl e ↦
      all ns' pod' ports'
        (subst (λ x. find ns' pod' x ≡ some ports') (unset_missing ns pod w e).1 h)
  | inr (ports, e) ↦ ground (arith, (find-unset ns pod w e).1 ns' pod', all ns' pod' ports')
]

module _ {ip : Ipnet} where
  abbrev LowPorts : Index ip → Type 0
  LowPorts idx = IsBounded idx.lookups

  store_pod-LowPorts :
      (name : String) (ns : Namespace ip) (idx : Index ip) (r : Result (Unit {0}))
      → LowPorts idx
      → LowPorts (store_pod name ns idx r).1
  unfolding store_pod
  store_pod-LowPorts name ns idx (ok _) all = all
  store_pod-LowPorts name ns idx (err e) all = all
  store_pod-LowPorts name ns idx panic all = all

  with_spec-LowPorts :
      (name : String) (ns : Namespace ip) (pod : K8s.Pod) (ips : KubeletIps) (o : Option PodSpec)
      → Keeps LowPorts (with_spec name ns pod ips o)
  unfolding with_spec add_pod
  with_spec-LowPorts name ns pod ips none idx all = all
  with_spec-LowPorts name ns pod ips (some spec) idx all =
      let rx = get_rx idx.default_allows (default_mode ns pod.metadata) in
      let found = extract_ports spec rx ips idx.links in
      let good = extract_ports-IsExtracted rx ips spec idx.links in
      store_pod-LowPorts name _ _ _ (
        set-IsBounded name pod.metadata.name found.lookups idx.lookups
          (λ p r h. good.bounded p r (sym (get-collect p found.lookups good.distinct) ∙ h)) all)

  when_ready-LowPorts :
      (name : String) (ns : Namespace ip) (o : Option (K8s.Pod × KubeletIps))
      → Keeps LowPorts (when_ready name ns o)
  unfolding when_ready
  when_ready-LowPorts name ns none idx all = all
  when_ready-LowPorts name ns (some (pod, ips)) idx all =
      with_spec-LowPorts name ns pod ips pod.spec idx all

  apply_entry-LowPorts :
      (name : String) (ns : Namespace ip) (pod : K8s.Pod) (o : Option Pod)
      → Keeps LowPorts (Pods.apply_entry name ns pod o)
  unfolding Pods.apply_entry new_pod old_pod
  apply_entry-LowPorts name ns pod none idx all = when_ready-LowPorts name ns _ _ all
  apply_entry-LowPorts name ns pod (some entry) idx all =
      elim (Bool-cases (eqb Labels-discrete entry.labels pod.metadata.labels)) [
        | inl e ↦ rw (e, old_pod) all
        | inr e ↦ rw (e, old_pod) all
      ]

  apply_pod-LowPorts : (pod : K8s.Pod) → Keeps LowPorts (apply_pod pod)
  unfolding apply_pod Pods.apply_in
  apply_pod-LowPorts pod =
      with_namespace-Keeps LowPorts pod.metadata.namespace _
        λ name idx all. apply_entry-LowPorts name _ pod _ _ all

  after_unset-LowPorts : (r : Result ByPort) → Keeps LowPorts (after_unset r)
  unfolding after_unset
  after_unset-LowPorts (ok _) idx all = all
  after_unset-LowPorts (err e) idx all = all
  after_unset-LowPorts panic idx all = all

  rm_from-LowPorts :
      (name pod : String) (o : Option (Namespace ip)) → Keeps LowPorts (Pods.rm_from name pod o)
  unfolding Pods.rm_from Pods.rm_entry unset_pod
  rm_from-LowPorts name pod none idx all = all
  rm_from-LowPorts name pod (some ns) idx all = elim (Option-cases (get pod ns.pods)) [
    | inl e ↦ rw e all
    | inr (entry, e) ↦ rw e (after_unset-LowPorts _ _ (unset-IsBounded name pod idx.lookups all))
  ]

  apply_server-LowPorts : (srv : K8s.Server) → Keeps LowPorts (apply_server srv)
  unfolding apply_server Servers.apply_in
  apply_server-LowPorts srv =
      with_namespace-Keeps LowPorts srv.metadata.namespace _ λ name idx all. all

  rm_server_from-LowPorts :
      (name srv : String) (o : Option (Namespace ip)) → Keeps LowPorts (Servers.rm_from name srv o)
  unfolding Servers.rm_from Servers.rm_entry
  rm_server_from-LowPorts name srv none idx all = all
  rm_server_from-LowPorts name srv (some ns) idx all = elim (Option-cases (get srv ns.servers)) [
    | inl e ↦ rw e all
    | inr (entry, e) ↦ rw e all
  ]

  apply_made-LowPorts :
      (name : String) (ns : Namespace ip) (authz : String) (r : Result (Authz ip))
      → Keeps LowPorts (apply_made name ns authz r)
  unfolding apply_made Authzs.store_authz
  apply_made-LowPorts name ns authz (ok a) idx all =
      subst IsBounded (sym (store_entry-same authz a ns (get authz ns.authzs) idx).0) all
  apply_made-LowPorts name ns authz (err e) idx all = all
  apply_made-LowPorts name ns authz panic idx all = all

  apply_authz-LowPorts : (a : K8s.ServerAuthorization) → Keeps LowPorts (apply_authz a)
  unfolding apply_authz Authzs.apply_in
  apply_authz-LowPorts a =
      with_namespace-Keeps LowPorts a.metadata.namespace _
        λ name idx all. apply_made-LowPorts name _ _ _ idx all

  rm_authz_from-LowPorts :
      (name authz : String) (o : Option (Namespace ip)) (idx : Index ip)
      → LowPorts idx
      → LowPorts (Authzs.rm_from name authz o idx)
  unfolding Authzs.rm_from
  rm_authz_from-LowPorts name authz none idx all = all
  rm_authz_from-LowPorts name authz (some ns) idx all = all

  operations-LowPorts : KeepsEach LowPorts
  unfolding rm_indexed rm_server rm_authz
  operations-LowPorts = record {
    on_nodes = λ idx nodes all. all;
    on_apply_pod = apply_pod-LowPorts;
    on_rm_pod = λ name pod idx all. rm_from-LowPorts name pod _ idx all;
    on_apply_server = apply_server-LowPorts;
    on_rm_server = λ name srv idx all. rm_server_from-LowPorts name srv _ idx all;
    on_apply_authz = apply_authz-LowPorts;
    on_rm_authz = λ name authz idx all. rm_authz_from-LowPorts name authz _ idx all;
  }

-- a port that is found is less than 65536, in every state that a new index reaches
run-lookup :
    (ip : Ipnet) (nets : List ip.IpNet) (domain : String) (mode : DefaultAllow) (timeout : ℕ)
    (us : List Update) (name pod_name : String) (p : ℕ) (rx : Rx)
    → lookup name pod_name p (run us (new {ip = ip} nets domain mode timeout)).lookups ≡ some rx
    → p < 65536
unfolding new lookup get
run-lookup ip nets domain mode timeout us name pod_name p rx h =
    let all =
      run-Keeps (λ (idx : Index ip). IsBounded idx.lookups) operations-LowPorts us
        (new {ip = ip} nets domain mode timeout) (λ n q ports e. cc) in
    let idx = run us (new {ip = ip} nets domain mode timeout) in
    elim (Option-cases (find name pod_name idx.lookups)) [
      | inl e ↦ ground (arith, rw (e, lookup) at h)
      | inr (ports, e) ↦ all name pod_name ports e p rx (rw (e, lookup) at h)
    ]

pub answered-lt :
    (ip : Ipnet) (nets : List ip.IpNet) (domain : String) (mode : DefaultAllow) (timeout : ℕ)
    (us : List Update) (name pod_name : String) (p : ℕ) (s : InboundServer ip)
    → (let idx = run us (new {ip = ip} nets domain mode timeout) in
        get_inbound_server idx.links idx.configs (name, pod_name, p) idx.lookups ≡ some s)
    → p < 65536
unfolding get_inbound_server
answered-lt ip nets domain mode timeout us name pod_name p s h =
    let idx = run us (new {ip = ip} nets domain mode timeout) in
    elim (Option-cases (lookup name pod_name p idx.lookups)) [
      | inl e ↦ ground (arith, rw (e, get_inbound_server) at h)
      | inr (rx, e) ↦ run-lookup ip nets domain mode timeout us name pod_name p rx e
    ]
