-- ===== src/Index/Run/Linked/PodSteps.antt =====
-- Every operation on pods keeps the ports of the pods linked.
use polixy.Prelude.{
  String, ◌≡◌, refl, sym, subst, ◌∙◌, Option, none, some, inl, inr, nat_eq, string_eq, Bool-cases,
  ==_refl,
}
use polixy.Result.{Result, ok, err, panic}
use polixy.Map.{get}
use polixy.Map.Keys.{Distinct}
use polixy.Core.{Ipnet}
use polixy.K8s
use polixy.K8s.{PodSpec}
use polixy.Node.{KubeletIps}
use polixy.Node.Pending.{get_or_push_pending-known}
use polixy.Lookup.{ByPort}
use polixy.Labels.{Labels-discrete}
use polixy.DefaultAllow.{get_rx}
use polixy.Server.{eqb}
use polixy.Pod.{Pod}
use polixy.Pod.Linked.Changes.{
  new-frame, new-PodsEffect, same-PodsEffect, old-PodsEffect, remove-PodsEffect,
}
use polixy.Index.{Namespace, Index, namespace_or_new, put_ns}
use polixy.Index.Pods
use polixy.Index.Pods.{
  apply_pod, add_pod, new_pod, old_pod, with_spec, when_ready, rm_indexed, store_pod, default_mode,
  after_unset, unset_pod,
}
use polixy.Index.Run.Induction.{Keeps, with_namespace-Keeps}
use polixy.Index.Run.Linked.Channels.{
  IsMode, at, at-insert, at_there, namespace-at, AllLinked, put_from-AllLinked, frame-AllLinked,
}

module _ {ip : Ipnet} where
  abbrev pub InLinks : Index ip → Type 0
  InLinks idx =
      AllLinked (IsMode idx.default_allows) idx.namespaces.default_allow idx.namespaces.index
        idx.links

  abbrev pub At : String → Namespace ip → Index ip → Type 0
  At name ns idx = ns ≡ at idx.namespaces.default_allow name idx.namespaces.index

  pub put_ns-At :
      (name : String) (ns : Namespace ip) (idx : Index ip) → At name ns (put_ns name ns idx)
  put_ns-At name ns idx = sym (
      at-insert idx.namespaces.default_allow name name ns idx.namespaces.index
      ∙ rw (==_refl name) refl)

  -- a namespace is put back with its servers and its pods
  pub put_ns-InLinks :
      (name : String) (ns ns' : Namespace ip) (idx : Index ip)
      → At name ns idx
      → ns'.servers ≡ ns.servers
      → ns'.pods ≡ ns.pods
      → InLinks idx
      → InLinks (put_ns name ns' idx)
  put_ns-InLinks name ns ns' idx from servers pods all =
      put_from-AllLinked _ _ _ idx.links idx.links name ns ns' from
        (λ d l. rw (servers, pods) (d, same-PodsEffect _ ns.servers ns.pods idx.links l)) all

  store_pod-InLinks :
      (name : String) (ns : Namespace ip) (idx : Index ip) (r : Result (Unit {0}))
      → InLinks idx
      → InLinks (put_ns name ns idx)
      → InLinks (store_pod name ns idx r).1
  unfolding store_pod
  store_pod-InLinks name ns idx (ok _) old new = new
  store_pod-InLinks name ns idx (err e) old new = old
  store_pod-InLinks name ns idx panic old new = old

  with_spec-InLinks :
      (name : String) (ns : Namespace ip) (pod : K8s.Pod) (ips : KubeletIps) (o : Option PodSpec)
      (idx : Index ip)
      → At name ns idx
      → get pod.metadata.name ns.pods ≡ none
      → InLinks idx
      → InLinks (with_spec name ns pod ips o idx).1
  unfolding with_spec add_pod
  with_spec-InLinks name ns pod ips none idx from vacant all = all
  with_spec-InLinks name ns pod ips (some spec) idx from vacant all =
      let d = get_rx idx.default_allows (default_mode ns pod.metadata) in
      let distinct =
        subst (λ (x : Namespace ip). Distinct x.servers) (sym from) (all.distinct name) in
      let (le, same) =
        new-frame (IsMode idx.default_allows) ns.servers spec d ips pod.metadata.labels idx.links
          distinct in
      store_pod-InLinks name _ _ _ (frame-AllLinked _ _ _ idx.links _ le same all) (
        put_from-AllLinked _ _ _ idx.links _ name ns _ from
          (λ dist l. (
            dist,
            new-PodsEffect _ ns.servers pod.metadata.name spec d ips pod.metadata.labels ns.pods
                idx.links vacant (default_mode ns pod.metadata, refl) dist l,
          ))
          all)

  when_ready-InLinks :
      (name : String) (ns : Namespace ip) (pod : K8s.Pod) (o : Option (K8s.Pod × KubeletIps))
      (idx : Index ip)
      → ((p : K8s.Pod) (ips : KubeletIps) → o ≡ some (p, ips) → p ≡ pod)
      → At name ns idx
      → get pod.metadata.name ns.pods ≡ none
      → InLinks idx
      → InLinks (when_ready name ns o idx).1
  unfolding when_ready
  when_ready-InLinks name ns pod none idx it from vacant all = all
  when_ready-InLinks name ns pod (some (p, ips)) idx it from vacant all =
      with_spec-InLinks name ns p ips p.spec idx from (rw (it p ips refl) vacant) all

  old_pod-InLinks :
      (name : String) (ns : Namespace ip) (pod : K8s.Pod) (entry : Pod) (idx : Index ip)
      → At name ns idx
      → get pod.metadata.name ns.pods ≡ some entry
      → InLinks idx
      → InLinks (old_pod name ns pod entry idx).1
  unfolding old_pod
  old_pod-InLinks name ns pod entry idx from there all =
      elim (Bool-cases (eqb Labels-discrete entry.labels pod.metadata.labels)) [
        | inl e ↦ rw (e, old_pod) all
        | inr e ↦
            rw (e, old_pod)
              (put_from-AllLinked _ _ _ idx.links _ name ns _ from
                (λ dist l. (
                  dist,
                  old-PodsEffect _ ns.servers pod.metadata.name pod.metadata.labels entry ns.pods
                      idx.links there dist l,
                ))
                all)
      ]

  apply_entry-InLinks :
      (name : String) (ns : Namespace ip) (pod : K8s.Pod) (o : Option Pod) (idx : Index ip)
      → get pod.metadata.name ns.pods ≡ o
      → At name ns idx
      → InLinks idx
      → InLinks (Pods.apply_entry name ns pod o idx).1
  unfolding Pods.apply_entry new_pod
  apply_entry-InLinks name ns pod none idx h from all =
      when_ready-InLinks name ns pod _ _
        (λ p ips e. (get_or_push_pending-known pod p ips idx.nodes e).0) from h all
  apply_entry-InLinks name ns pod (some entry) idx h from all =
      old_pod-InLinks name ns pod entry idx from h all

  pub apply_pod-InLinks : (pod : K8s.Pod) → Keeps {ip = ip} InLinks (apply_pod pod)
  unfolding apply_pod Pods.apply_in
  apply_pod-InLinks pod = with_namespace-Keeps InLinks pod.metadata.namespace _ λ name idx all.
      let ns = namespace_or_new name idx.namespaces in
      apply_entry-InLinks name ns pod _ (put_ns name ns idx) refl (put_ns-At name ns idx)
        (put_ns-InLinks name ns ns idx (namespace-at name idx.namespaces) refl refl all)

  after_unset-InLinks : (r : Result ByPort) → Keeps {ip = ip} InLinks (after_unset r)
  unfolding after_unset
  after_unset-InLinks (ok _) idx all = all
  after_unset-InLinks (err e) idx all = all
  after_unset-InLinks panic idx all = all

  -- a namespace that is there
  pub there-At :
      (name : String) (ns : Namespace ip) (idx : Index ip)
      → get name idx.namespaces.index ≡ some ns
      → At name ns idx
  there-At name ns idx h =
      sym (at_there idx.namespaces.default_allow name ns idx.namespaces.index h)

  rm_entry-InLinks :
      (name pod : String) (ns : Namespace ip) (o : Option Pod) (idx : Index ip)
      → At name ns idx
      → InLinks idx
      → InLinks (Pods.rm_entry name pod ns o idx).1
  unfolding Pods.rm_entry unset_pod
  rm_entry-InLinks name pod ns none idx from all = all
  rm_entry-InLinks name pod ns (some _) idx from all = after_unset-InLinks _ _ (
      put_from-AllLinked _ _ _ idx.links _ name ns _ from
        (λ dist l. (dist, remove-PodsEffect _ ns.servers pod ns.pods idx.links l)) all)

  pub rm_from-InLinks :
      (name pod : String) (o : Option (Namespace ip)) (idx : Index ip)
      → get name idx.namespaces.index ≡ o
      → InLinks idx
      → InLinks (Pods.rm_from name pod o idx).1
  unfolding Pods.rm_from
  rm_from-InLinks name pod none idx h all = all
  rm_from-InLinks name pod (some ns) idx h all =
      rm_entry-InLinks name pod ns _ idx (there-At name ns idx h) all
