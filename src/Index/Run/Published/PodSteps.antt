-- ===== src/Index/Run/Published/PodSteps.antt =====
-- Every operation on pods keeps the channels of the servers and of the default modes.
use polixy.Prelude.{
  String, ◌≡◌, refl, sym, ap, ◌∙◌, Option, none, some, inl, inr, nat_eq, string_eq, Bool-cases,
  ==_refl,
}
use polixy.Result.{Result, ok, err, panic}
use polixy.Map.{Map, get}
use polixy.Core.{Ipnet, InboundServer}
use polixy.K8s
use polixy.K8s.{PodSpec}
use polixy.Node.{KubeletIps}
use polixy.Lookup.{ByPort}
use polixy.Labels.{Labels-discrete}
use polixy.DefaultAllow.{DefaultAllow}
use polixy.Server.{eqb}
use polixy.Pod.{Pod}
use polixy.Index.{Namespace, Index, namespace_or_new, put_ns}
use polixy.Index.Pods
use polixy.Index.Pods.{
  apply_pod, add_pod, new_pod, old_pod, with_spec, when_ready, rm_indexed, store_pod, after_unset,
  unset_pod,
}
use polixy.Index.Run.Induction.{Keeps, with_namespace-Keeps}
use polixy.Index.Run.Published.Channels.{
  servers_in, servers_of, servers_of-insert, namespace-servers, AllPublished, same-AllPublished,
}

module _ {ip : Ipnet} (config : DefaultAllow → InboundServer ip) where
  abbrev pub InChannels : Index ip → Type 0
  InChannels idx = AllPublished config idx.default_allows idx.namespaces.index idx.configs

  -- a namespace is replaced by one with its servers
  pub put_ns-InChannels :
      (name : String) (ns : Namespace ip) (idx : Index ip)
      → ns.servers ≡ servers_of name idx.namespaces.index
      → InChannels idx
      → InChannels (put_ns name ns idx)
  put_ns-InChannels name ns idx from all = same-AllPublished config _ _ _ name ns from all

  store_pod-InChannels :
      (name : String) (ns : Namespace ip) (idx : Index ip) (r : Result (Unit {0}))
      → ns.servers ≡ servers_of name idx.namespaces.index
      → InChannels idx
      → InChannels (store_pod name ns idx r).1
  unfolding store_pod
  store_pod-InChannels name ns idx (ok _) from all = put_ns-InChannels name ns idx from all
  store_pod-InChannels name ns idx (err e) from all = all
  store_pod-InChannels name ns idx panic from all = all

  with_spec-InChannels :
      (name : String) (ns : Namespace ip) (pod : K8s.Pod) (ips : KubeletIps) (o : Option PodSpec)
      (idx : Index ip)
      → ns.servers ≡ servers_of name idx.namespaces.index
      → InChannels idx
      → InChannels (with_spec name ns pod ips o idx).1
  unfolding with_spec add_pod
  with_spec-InChannels name ns pod ips none idx from all = all
  with_spec-InChannels name ns pod ips (some spec) idx from all =
      store_pod-InChannels name _ _ _ from all

  when_ready-InChannels :
      (name : String) (ns : Namespace ip) (o : Option (K8s.Pod × KubeletIps)) (idx : Index ip)
      → ns.servers ≡ servers_of name idx.namespaces.index
      → InChannels idx
      → InChannels (when_ready name ns o idx).1
  unfolding when_ready
  when_ready-InChannels name ns none idx from all = all
  when_ready-InChannels name ns (some (pod, ips)) idx from all =
      with_spec-InChannels name ns pod ips pod.spec idx from all

  old_pod-InChannels :
      (name : String) (ns : Namespace ip) (pod : K8s.Pod) (entry : Pod) (idx : Index ip)
      → ns.servers ≡ servers_of name idx.namespaces.index
      → InChannels idx
      → InChannels (old_pod name ns pod entry idx).1
  unfolding old_pod
  old_pod-InChannels name ns pod entry idx from all =
      elim (Bool-cases (eqb Labels-discrete entry.labels pod.metadata.labels)) [
        | inl e ↦ rw (e, old_pod) all
        | inr e ↦ rw (e, old_pod) (same-AllPublished config _ _ _ name _ from all)
      ]

  apply_entry-InChannels :
      (name : String) (ns : Namespace ip) (pod : K8s.Pod) (o : Option Pod) (idx : Index ip)
      → ns.servers ≡ servers_of name idx.namespaces.index
      → InChannels idx
      → InChannels (Pods.apply_entry name ns pod o idx).1
  unfolding Pods.apply_entry new_pod
  apply_entry-InChannels name ns pod none idx from all = when_ready-InChannels name ns _ _ from all
  apply_entry-InChannels name ns pod (some entry) idx from all =
      old_pod-InChannels name ns pod entry idx from all

  pub apply_pod-InChannels : (pod : K8s.Pod) → Keeps {ip = ip} InChannels (apply_pod pod)
  unfolding apply_pod Pods.apply_in
  apply_pod-InChannels pod =
      with_namespace-Keeps InChannels pod.metadata.namespace _ λ name idx all.
        let ns = namespace_or_new name idx.namespaces in
        let from = namespace-servers name idx.namespaces in
        apply_entry-InChannels name ns pod _ (put_ns name ns idx)
          (sym (servers_of-insert name name ns idx.namespaces.index ∙ rw (==_refl name) refl))
          (put_ns-InChannels name ns idx from all)

  after_unset-InChannels : (r : Result ByPort) → Keeps {ip = ip} InChannels (after_unset r)
  unfolding after_unset
  after_unset-InChannels (ok _) idx all = all
  after_unset-InChannels (err e) idx all = all
  after_unset-InChannels panic idx all = all

  -- the servers of a namespace that is there
  pub there_lem :
      (name : String) (ns : Namespace ip) (index : Map String (Namespace ip))
      → get name index ≡ some ns
      → ns.servers ≡ servers_of name index
  there_lem name ns index h = ap servers_in (sym h)

  rm_entry-InChannels :
      (name pod : String) (ns : Namespace ip) (o : Option Pod) (idx : Index ip)
      → get name idx.namespaces.index ≡ some ns
      → InChannels idx
      → InChannels (Pods.rm_entry name pod ns o idx).1
  unfolding Pods.rm_entry unset_pod
  rm_entry-InChannels name pod ns none idx h all = all
  rm_entry-InChannels name pod ns (some _) idx h all =
      after_unset-InChannels _ _ (same-AllPublished config _ _ _ name _ (there_lem name ns _ h) all)

  pub rm_from-InChannels :
      (name pod : String) (o : Option (Namespace ip)) (idx : Index ip)
      → get name idx.namespaces.index ≡ o
      → InChannels idx
      → InChannels (Pods.rm_from name pod o idx).1
  unfolding Pods.rm_from
  rm_from-InChannels name pod none idx h all = all
  rm_from-InChannels name pod (some ns) idx h all = rm_entry-InChannels name pod ns _ idx h all
