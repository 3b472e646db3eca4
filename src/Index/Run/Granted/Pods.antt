-- ===== src/Index/Run/Granted/Pods.antt =====
-- Namespaces whose servers have their authorizations, and that applying or removing a pod leaves them.
use polixy.Prelude.{String, ◌≡◌, refl, Option, none, some, inl, inr, string_eq, Bool-cases}
use polixy.Result.{Result, ok, err, panic}
use polixy.Map.{get}
use polixy.Map.Keys.{Distinct}
use polixy.Map.Values.{Each, insert-Each}
use polixy.Core.{Ipnet}
use polixy.K8s
use polixy.K8s.{PodSpec}
use polixy.Node.{KubeletIps}
use polixy.Lookup.{ByPort}
use polixy.Labels.{Labels-discrete}
use polixy.DefaultAllow.{DefaultAllow}
use polixy.Server.{eqb}
use polixy.Server.Authorizations.{AllGranted}
use polixy.Pod.{Pod}
use polixy.Index.{Namespace, Index, or_new, namespace_or_new}
use polixy.Index.Pods
use polixy.Index.Pods.{
  apply_pod, add_pod, new_pod, old_pod, with_spec, when_ready, rm_indexed, store_pod, after_unset,
}
use polixy.Index.Run.Induction.{Keeps, with_namespace-Keeps}

module _ {ip : Ipnet} where
  -- the authorizations of the namespace, by distinct names, and its servers are in step
  abbrev pub InStep : Namespace ip → Type 0
  InStep ns = Distinct ns.authzs × AllGranted ns.authzs ns.servers

  abbrev pub AllInStep : Index ip → Type 0
  AllInStep idx = Each InStep idx.namespaces.index

  or_new-InStep :
      (mode : DefaultAllow) (o : Option (Namespace ip))
      → ((ns : Namespace ip) → o ≡ some ns → InStep ns)
      → InStep (or_new mode o)
  unfolding or_new
  or_new-InStep mode none h = (tt, λ n srv e. unfold get in cc)
  or_new-InStep mode (some ns) h = h ns refl

  -- the namespace that an operation begins with
  pub namespace-InStep :
      (name : String) (idx : Index ip)
      → AllInStep idx
      → InStep (namespace_or_new name idx.namespaces)
  unfolding namespace_or_new
  namespace-InStep name idx all = or_new-InStep _ _ (all.at name)

  store_pod-InStep :
      (name : String) (ns : Namespace ip) (idx : Index ip) (r : Result (Unit {0}))
      → AllInStep idx
      → InStep ns
      → AllInStep (store_pod name ns idx r).1
  unfolding store_pod
  store_pod-InStep name ns idx (ok _) all p = insert-Each name ns all p
  store_pod-InStep name ns idx (err e) all p = all
  store_pod-InStep name ns idx panic all p = all

  with_spec-InStep :
      (name : String) (ns : Namespace ip) (pod : K8s.Pod) (ips : KubeletIps) (o : Option PodSpec)
      (idx : Index ip)
      → AllInStep idx
      → InStep ns
      → AllInStep (with_spec name ns pod ips o idx).1
  unfolding with_spec add_pod
  with_spec-InStep name ns pod ips none idx all p = all
  with_spec-InStep name ns pod ips (some spec) idx all p = store_pod-InStep name _ _ _ all p

  when_ready-InStep :
      (name : String) (ns : Namespace ip) (o : Option (K8s.Pod × KubeletIps)) (idx : Index ip)
      → AllInStep idx
      → InStep ns
      → AllInStep (when_ready name ns o idx).1
  unfolding when_ready
  when_ready-InStep name ns none idx all p = all
  when_ready-InStep name ns (some (pod, ips)) idx all p =
      with_spec-InStep name ns pod ips pod.spec idx all p

  old_pod-InStep :
      (name : String) (ns : Namespace ip) (pod : K8s.Pod) (entry : Pod) (idx : Index ip)
      → AllInStep idx
      → InStep ns
      → AllInStep (old_pod name ns pod entry idx).1
  unfolding old_pod
  old_pod-InStep name ns pod entry idx all p =
      elim (Bool-cases (eqb Labels-discrete entry.labels pod.metadata.labels)) [
        | inl e ↦ rw (e, old_pod) all
        | inr e ↦ rw (e, old_pod) (insert-Each name _ all p)
      ]

  apply_entry-InStep :
      (name : String) (ns : Namespace ip) (pod : K8s.Pod) (o : Option Pod) (idx : Index ip)
      → AllInStep idx
      → InStep ns
      → AllInStep (Pods.apply_entry name ns pod o idx).1
  unfolding Pods.apply_entry new_pod
  apply_entry-InStep name ns pod none idx all p = when_ready-InStep name ns _ _ all p
  apply_entry-InStep name ns pod (some entry) idx all p = old_pod-InStep name ns pod entry idx all p

  pub apply_pod-InStep : (pod : K8s.Pod) → Keeps AllInStep (apply_pod pod)
  unfolding apply_pod Pods.apply_in
  apply_pod-InStep pod = with_namespace-Keeps AllInStep pod.metadata.namespace _ λ name idx all.
      let p = namespace-InStep name idx all in
      apply_entry-InStep name _ pod _ _ (insert-Each name _ all p) p

  after_unset-InStep : (r : Result ByPort) → Keeps AllInStep (after_unset r)
  unfolding after_unset
  after_unset-InStep (ok _) idx all = all
  after_unset-InStep (err e) idx all = all
  after_unset-InStep panic idx all = all

  rm_entry-InStep :
      (name pod : String) (ns : Namespace ip) (o : Option Pod)
      → InStep ns
      → Keeps AllInStep (Pods.rm_entry name pod ns o)
  unfolding Pods.rm_entry
  rm_entry-InStep name pod ns none p idx all = all
  rm_entry-InStep name pod ns (some _) p idx all = after_unset-InStep _ _ (insert-Each name _ all p)

  pub rm_from-InStep :
      (name pod : String) (o : Option (Namespace ip)) (idx : Index ip)
      → ((ns : Namespace ip) → o ≡ some ns → InStep ns)
      → AllInStep idx
      → AllInStep (Pods.rm_from name pod o idx).1
  unfolding Pods.rm_from
  rm_from-InStep name pod none idx h all = all
  rm_from-InStep name pod (some ns) idx h all = rm_entry-InStep name pod ns _ (h ns refl) idx all
