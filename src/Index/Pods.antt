-- ===== src/Index/Pods.antt =====
-- The pod operations of controller/k8s/index/src/pod.rs.
use polixy.Prelude.{String, Option, none, some, List, map, string_eq, if◌then◌else◌}
use polixy.Result.{Result, ok, err, panic, pod_missing_spec, missing_namespace, missing_pod}
use polixy.Map.{get, insert, remove}
use polixy.Core.{Ipnet}
use polixy.K8s
use polixy.K8s.{PodSpec}
use polixy.Labels.{Labels-discrete}
use polixy.DefaultAllow.{DefaultAllow, from_annotation, get_rx}
use polixy.Node.{KubeletIps, get_or_push_pending, clear_pending_pod, clear_pending_pods}
use polixy.Lookup.{ByPort, set, unset}
use polixy.Server.{eqb}
use polixy.Pod.{Pod, extract_ports, link_servers}
use polixy.Index.{
  Namespace, Index, Exec, with_namespace, namespace_or_new, put_ns, for_all, and_then, prior_names,
  forget_all, defunct,
}

module _ {ip : Ipnet} where
  -- the mode of the annotation, or the namespace's where there is none or it is invalid
  unfoldable pub default_mode : Namespace ip → K8s.ObjectMeta → DefaultAllow
  default_mode ns meta = elim (from_annotation meta) [
    | ok (some mode) ↦ mode
    | _ ↦ ns.default_allow
  ]

  -- `lookups.set(…).expect("pod must not already exist")`, then the pod's entry
  unfoldable pub store_pod :
      String → Namespace ip → Index ip → Result (Unit {0}) → Result (Unit {0}) × Index ip
  store_pod ns_name ns idx (ok _) = (ok tt, put_ns ns_name ns idx)
  store_pod ns_name ns idx _ = (panic, idx)

  -- the vacant entry of `PodIndex::apply`, for a pod whose node is known
  unfoldable pub add_pod :
      String
      → Namespace ip
      → K8s.Pod
      → PodSpec
      → KubeletIps
      → Index ip
      → Result (Unit {0}) × Index ip
  add_pod ns_name ns pod spec ips idx =
      let default_rx = get_rx idx.default_allows (default_mode ns pod.metadata) in
      let found = extract_ports spec default_rx ips idx.links in
      let entry : Pod = record {
        ports = found.ports;
        labels = pod.metadata.labels;
        default_allow_rx = default_rx;
      } in
      let (linked, links) = link_servers ns.servers entry found.links in
      let (stored, lookups) = set ns_name pod.metadata.name found.lookups idx.lookups in
      store_pod ns_name (record ns { pods = insert pod.metadata.name linked ns.pods })
        (record idx { links = links; lookups = lookups }) stored

  unfoldable pub with_spec :
      String
      → Namespace ip
      → K8s.Pod
      → KubeletIps
      → Option PodSpec
      → Index ip
      → Result (Unit {0}) × Index ip
  with_spec ns_name ns pod ips none idx = (err pod_missing_spec, idx)
  with_spec ns_name ns pod ips (some spec) idx = add_pod ns_name ns pod spec ips idx

  unfoldable pub when_ready :
      String
      → Namespace ip
      → Option (K8s.Pod × KubeletIps)
      → Index ip
      → Result (Unit {0}) × Index ip
  unfolding with_spec
  when_ready ns_name ns none idx = (ok tt, idx)
  when_ready ns_name ns (some (pod, ips)) idx = with_spec ns_name ns pod ips pod.spec idx

  -- the vacant entry of `PodIndex::apply`
  unfoldable pub new_pod : String → Namespace ip → K8s.Pod → Index ip → Result (Unit {0}) × Index ip
  unfolding when_ready
  new_pod ns_name ns pod idx =
      let (awaited, nodes) = get_or_push_pending pod idx.nodes in
      when_ready ns_name ns awaited (record idx { nodes = nodes })

  -- the occupied entry of `PodIndex::apply`
  unfoldable pub old_pod :
      String → Namespace ip → K8s.Pod → Pod → Index ip → Result (Unit {0}) × Index ip
  old_pod ns_name ns pod entry idx =
      let (linked, links) =
        link_servers ns.servers (record entry { labels = pod.metadata.labels }) idx.links in
      if eqb Labels-discrete entry.labels pod.metadata.labels then (ok tt, idx) else (
        ok tt,
        put_ns ns_name (record ns { pods = insert pod.metadata.name linked ns.pods })
            (record idx { links = links }),
      )

  unfoldable pub apply_entry :
      String → Namespace ip → K8s.Pod → Option Pod → Index ip → Result (Unit {0}) × Index ip
  apply_entry ns_name ns pod none idx = new_pod ns_name ns pod idx
  apply_entry ns_name ns pod (some entry) idx = old_pod ns_name ns pod entry idx

  -- `PodIndex::apply`
  unfoldable pub apply_in :
      String → Namespace ip → K8s.Pod → Index ip → Result (Unit {0}) × Index ip
  unfolding apply_entry
  apply_in ns_name ns pod idx = apply_entry ns_name ns pod (get pod.metadata.name ns.pods) idx

  -- `Index::apply_pod`
  unfoldable pub apply_pod : K8s.Pod → Exec ip
  apply_pod pod = with_namespace pod.metadata.namespace λ ns_name idx.
      let ns = namespace_or_new ns_name idx.namespaces in
      apply_in ns_name ns pod (put_ns ns_name ns idx)

  -- `?` passes an error of `unset` on
  unfoldable pub after_unset : Result ByPort → Exec ip
  after_unset (ok _) idx = (ok tt, idx)
  after_unset (err e) idx = (err e, idx)
  after_unset panic idx = (panic, idx)

  unfoldable pub unset_pod : String → String → Exec ip
  unfolding after_unset
  unset_pod ns_name pod idx =
      let (gone, lookups) = unset ns_name pod idx.lookups in
      after_unset gone (record idx { lookups = lookups })

  unfoldable pub rm_entry : String → String → Namespace ip → Option Pod → Exec ip
  unfolding unset_pod
  rm_entry ns_name pod ns none idx = (err (missing_pod pod), idx)
  rm_entry ns_name pod ns (some _) idx =
      unset_pod ns_name pod (put_ns ns_name (record ns { pods = remove pod ns.pods }) idx)

  unfoldable pub rm_from : String → String → Option (Namespace ip) → Exec ip
  unfolding rm_entry
  rm_from ns_name pod none idx = (err (missing_namespace ns_name), idx)
  rm_from ns_name pod (some ns) idx = rm_entry ns_name pod ns (get pod ns.pods) idx

  -- `Index::rm_pod`, for a pod that does not wait for its node
  unfoldable pub rm_indexed : String → String → Exec ip
  unfolding rm_from
  rm_indexed ns_name pod idx = rm_from ns_name pod (get ns_name idx.namespaces.index) idx

  -- `Index::rm_pod`
  unfoldable pub rm_pod : String → String → Exec ip
  rm_pod ns_name pod idx =
      let (cleared, nodes) = clear_pending_pod ns_name pod idx.nodes in
      if cleared then (ok tt, record idx { nodes = nodes }) else rm_indexed ns_name pod idx

  -- `Index::delete_pod`
  unfoldable pub delete_pod : K8s.Pod → Exec ip
  delete_pod pod =
      with_namespace pod.metadata.namespace λ ns_name idx. rm_pod ns_name pod.metadata.name idx

  unfoldable pub rm_defunct : String × String → Exec ip
  rm_defunct (ns_name, pod) idx = rm_pod ns_name pod idx

  -- `Index::reset_pods`
  unfoldable pub reset_pods : List K8s.Pod → Exec ip
  unfolding rm_defunct
  reset_pods pods idx =
      let prior = prior_names (λ (ns : Namespace ip). ns.pods) idx.namespaces.index in
      let gone = defunct (forget_all (map (λ (p : K8s.Pod). p.metadata) pods) prior) in
      and_then
        (for_all apply_pod pods (ok tt) (record idx { nodes = clear_pending_pods idx.nodes }))
        (λ result. for_all rm_defunct gone result)
