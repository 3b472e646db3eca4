-- ===== src/Index/Run/Sends/Pods.antt =====
-- What applying or removing a pod sends.
use polixy.Prelude.{
  String, ◌≡◌, ◌<◌, refl, Option, none, some, inl, inr, arith, nat_eq, string_eq, Bool-cases,
}
use polixy.Result.{Result, ok, err, panic}
use polixy.Map.{get}
use polixy.Core.{Ipnet, InboundServer}
use polixy.K8s
use polixy.K8s.{PodSpec}
use polixy.Node.{KubeletIps, get_or_push_pending}
use polixy.Lookup.{ByPort}
use polixy.Labels.{Labels-discrete}
use polixy.DefaultAllow.{DefaultAllow, get_rx}
use polixy.Watch.Moves.{Moves-refl, Moves-trans}
use polixy.Server.{eqb}
use polixy.Server.Publishing.{Published}
use polixy.Pod.{Pod, extract_ports}
use polixy.Pod.Moves.{get-DefaultsHave, extract_ports-Moves, link_servers-Moves}
use polixy.Index.{Namespace, Index, Exec, with_namespace, namespace_or_new, put_ns}
use polixy.Index.Pods
use polixy.Index.Pods.{
  apply_pod, add_pod, new_pod, old_pod, with_spec, when_ready, rm_indexed, store_pod, default_mode,
  after_unset, unset_pod,
}
use polixy.Index.Run.Published.Channels.{namespace-servers}
use polixy.Index.Run.Published.PodSteps.{put_ns-InChannels}
use polixy.Index.Run.Linked.Channels.{namespace-at}
use polixy.Index.Run.Linked.PodSteps.{At, put_ns-At, put_ns-InLinks}
use polixy.Index.Run.Sends.{Before, Sent, none-Sent, servers_lem, pods_lem, Published-ServersHave}

module _ {ip : Ipnet} (config : DefaultAllow → InboundServer ip) where
  store_pod-Sent :
      (name : String) (ns : Namespace ip) (idx0 idx : Index ip) (r : Result (Unit {0}))
      → Sent config idx0 idx
      → Sent config idx0 (store_pod name ns idx r).1
  unfolding store_pod
  store_pod-Sent name ns idx0 idx (ok _) s = record { links = s.links; configs = s.configs }
  store_pod-Sent name ns idx0 idx (err e) s = s
  store_pod-Sent name ns idx0 idx panic s = s

  with_spec-Sent :
      (name : String) (ns : Namespace ip) (pod : K8s.Pod) (ips : KubeletIps) (o : Option PodSpec)
      (idx : Index ip)
      → Published ns.servers idx.configs
      → ((m : DefaultAllow) → get_rx idx.default_allows m < idx.configs.next)
      → Sent config idx (with_spec name ns pod ips o idx).1
  unfolding with_spec add_pod
  with_spec-Sent name ns pod ips none idx servers below = none-Sent config idx
  with_spec-Sent name ns pod ips (some spec) idx servers below =
      let d = get_rx idx.default_allows (default_mode ns pod.metadata) in
      let lt = below (default_mode ns pod.metadata) in
      store_pod-Sent name _ idx _ _ (record {
        links = Moves-trans _ _ _ _ (extract_ports-Moves _ spec d ips idx.links lt) (
            link_servers-Moves _ ns.servers
              (record {
                ports = (extract_ports spec d ips idx.links).ports;
                labels = pod.metadata.labels;
                default_allow_rx = d;
              })
              (extract_ports spec d ips idx.links).links
              (Published-ServersHave ns.servers idx.configs servers) lt);
        configs = Moves-refl _ idx.configs;
      })

  when_ready-Sent :
      (name : String) (ns : Namespace ip) (o : Option (K8s.Pod × KubeletIps)) (idx : Index ip)
      → Published ns.servers idx.configs
      → ((m : DefaultAllow) → get_rx idx.default_allows m < idx.configs.next)
      → Sent config idx (when_ready name ns o idx).1
  unfolding when_ready
  when_ready-Sent name ns none idx servers below = none-Sent config idx
  when_ready-Sent name ns (some (pod, ips)) idx servers below =
      with_spec-Sent name ns pod ips pod.spec idx servers below

  old_pod-Sent :
      (name : String) (ns : Namespace ip) (pod : K8s.Pod) (entry : Pod) (idx : Index ip)
      → Published ns.servers idx.configs
      → entry.default_allow_rx < idx.configs.next
      → Sent config idx (old_pod name ns pod entry idx).1
  unfolding old_pod
  old_pod-Sent name ns pod entry idx servers lt =
      elim (Bool-cases (eqb Labels-discrete entry.labels pod.metadata.labels)) [
        | inl e ↦ rw (e, old_pod) (none-Sent config idx)
        | inr e ↦
            rw (e, old_pod)
              (record {
                links =
                    link_servers-Moves _ ns.servers (record entry { labels = pod.metadata.labels })
                      idx.links (Published-ServersHave ns.servers idx.configs servers) lt;
                configs = Moves-refl _ idx.configs;
              })
      ]

  apply_entry-Sent :
      (name : String) (ns : Namespace ip) (pod : K8s.Pod) (o : Option Pod) (idx : Index ip)
      → get pod.metadata.name ns.pods ≡ o
      → At name ns idx
      → Before config idx
      → Sent config idx (Pods.apply_entry name ns pod o idx).1
  unfolding Pods.apply_entry new_pod
  apply_entry-Sent name ns pod none idx h from b =
      let s =
        when_ready-Sent name ns (get_or_push_pending pod idx.nodes).0
          (record idx { nodes = (get_or_push_pending pod idx.nodes).1 })
          (servers_lem config name ns idx from b) b.channels.below in
      record { links = s.links; configs = s.configs }
  apply_entry-Sent name ns pod (some entry) idx h from b =
      old_pod-Sent name ns pod entry idx (servers_lem config name ns idx from b) (
        get-DefaultsHave _ pod.metadata.name entry ns.pods h
          (pods_lem config idx.configs.next name ns idx (omega arith) from b))

  pub with_namespace-Sent :
      (o : Option String) (f : String → Exec ip)
      → ((name : String) (idx : Index ip) → Before config idx → Sent config idx (f name idx).1)
      → (idx : Index ip) → Before config idx
      → Sent config idx (with_namespace o f idx).1
  unfolding with_namespace
  with_namespace-Sent none f h idx b = none-Sent config idx
  with_namespace-Sent (some name) f h idx b = h name idx b

  pub apply_pod-Sent :
      (pod : K8s.Pod) (idx : Index ip) → Before config idx → Sent config idx (apply_pod pod idx).1
  unfolding apply_pod Pods.apply_in
  apply_pod-Sent pod = with_namespace-Sent pod.metadata.namespace _ λ name idx b.
      let ns = namespace_or_new name idx.namespaces in
      let s =
        apply_entry-Sent name ns pod (get pod.metadata.name ns.pods) (put_ns name ns idx) refl
          (put_ns-At name ns idx)
          (record {
            channels =
                put_ns-InChannels config name ns idx (namespace-servers name idx.namespaces)
                  b.channels;
            linked =
                put_ns-InLinks name ns ns idx (namespace-at name idx.namespaces) refl refl b.linked;
          }) in
      record { links = s.links; configs = s.configs }

  -- nothing is sent
  after_unset-Sent : (r : Result ByPort) (idx : Index ip) → Sent config idx (after_unset r idx).1
  unfolding after_unset
  after_unset-Sent (ok _) idx = none-Sent config idx
  after_unset-Sent (err e) idx = none-Sent config idx
  after_unset-Sent panic idx = none-Sent config idx

  rm_entry-Sent :
      (name pod : String) (ns : Namespace ip) (o : Option Pod) (idx : Index ip)
      → Sent config idx (Pods.rm_entry name pod ns o idx).1
  unfolding Pods.rm_entry unset_pod
  rm_entry-Sent name pod ns none idx = none-Sent config idx
  rm_entry-Sent name pod ns (some _) idx =
      let s = after_unset-Sent _ _ in record { links = s.links; configs = s.configs }

  pub rm_from-Sent :
      (name pod : String) (o : Option (Namespace ip)) (idx : Index ip)
      → Sent config idx (Pods.rm_from name pod o idx).1
  unfolding Pods.rm_from
  rm_from-Sent name pod none idx = none-Sent config idx
  rm_from-Sent name pod (some ns) idx = rm_entry-Sent name pod ns _ idx
