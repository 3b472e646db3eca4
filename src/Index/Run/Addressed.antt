-- ===== src/Index/Run/Addressed.antt =====
-- The kubelet's addresses that a pod comes to the lookups with.
use polixy.Prelude.{
  ℕ, String, ◌≡◌, ◌⊎◌, sym, ap, subst, ◌∙◌, Option, none, some, List, inl, inr, arith, ◌&&◌, ◌==◌,
  Bool-cases, Option-cases, string_eq, nat_eq,
}
use polixy.Result.{Result, ok, err, panic}
use polixy.Map.{get, collect}
use polixy.Map.Keys.{get-collect}
use polixy.Core.{Ipnet}
use polixy.K8s
use polixy.K8s.{PodSpec}
use polixy.Node.{KubeletIps, known, node_of, get_or_push_pending}
use polixy.Node.Pending.{get_or_push_pending-known}
use polixy.Labels.{Labels-discrete}
use polixy.DefaultAllow.{get_rx}
use polixy.Lookup.{Rx, ByNs, find, lookup, set}
use polixy.Lookup.Laws.{find-set, set_exists}
use polixy.Server.{eqb}
use polixy.Pod.{Pod, extract_ports}
use polixy.Pod.Extract.{extract_ports-IsExtracted}
use polixy.Index.{Namespace, Index, put_ns, with_namespace, namespace_or_new}
use polixy.Index.Run.Synced.{with_namespace-some}
use polixy.Index.Pods
use polixy.Index.Pods.{
  apply_pod, default_mode, add_pod, new_pod, old_pod, with_spec, when_ready, store_pod,
}

-- a port is looked up as before, or it is one of the pod, with these addresses
abbrev pub Adds : String → String → (KubeletIps → Type 0) → ByNs → ByNs → Type 0
Adds name pod Good w w' =
    (n q : String) (p : ℕ) (rx : Rx)
    → lookup n q p w' ≡ some rx
    → (lookup n q p w ≡ some rx) ⊎ ((name ≡ n) × (pod ≡ q) × Good rx.kubelet)

set-Adds :
    (name pod : String) (ports : List (ℕ × Rx)) (Good : KubeletIps → Type 0) (w : ByNs)
    → ((p : ℕ) (rx : Rx) → get p (collect ports) ≡ some rx → Good rx.kubelet)
    → Adds name pod Good w (set name pod ports w).1
unfolding lookup
set-Adds name pod ports Good w good n q p rx h = elim (Option-cases (find name pod w)) [
  | inl e ↦
      let at = (find-set name pod ports w e).1 n q in
      elim (Bool-cases (name == n && pod == q)) [
        | inl here ↦ inr (
          (string_eq.beq_iff name n).0 (ground arith),
          (string_eq.beq_iff pod q).0 (ground arith),
          good p rx (rw (rw here at at, lookup) at h),
        )
        | inr other ↦ inl (rw (rw other at at, lookup) at h)
      ]
  | inr (old, e) ↦ inl (rw (set_exists name pod ports w e) at h)
]

module _ {ip : Ipnet} where
  store_pod-Adds :
      (name pod : String) (Good : KubeletIps → Type 0) (ns : Namespace ip) (w : ByNs)
      (idx : Index ip) (r : Result (Unit {0}))
      → Adds name pod Good w idx.lookups
      → Adds name pod Good w (store_pod name ns idx r).1.lookups
  unfolding store_pod
  store_pod-Adds name pod Good ns w idx (ok _) all = all
  store_pod-Adds name pod Good ns w idx (err e) all = all
  store_pod-Adds name pod Good ns w idx panic all = all

  with_spec-Adds :
      (name : String) (ns : Namespace ip) (pod : K8s.Pod) (ips : KubeletIps) (o : Option PodSpec)
      (idx : Index ip)
      → Adds name pod.metadata.name
          (λ a. a ≡ ips)
          idx.lookups
          (with_spec name ns pod ips o idx).1.lookups
  unfolding with_spec add_pod
  with_spec-Adds name ns pod ips none idx = λ n q p rx h. inl h
  with_spec-Adds name ns pod ips (some spec) idx =
      let d = get_rx idx.default_allows (default_mode ns pod.metadata) in
      let found = extract_ports spec d ips idx.links in
      let good = extract_ports-IsExtracted d ips spec idx.links in
      store_pod-Adds name pod.metadata.name (λ a. a ≡ ips) _ idx.lookups _ _
        (set-Adds name pod.metadata.name found.lookups (λ a. a ≡ ips) idx.lookups
          (λ p r h. good.from_kubelet p r (sym (get-collect p found.lookups good.distinct) ∙ h)))

  -- the addresses are of the pod's node
  abbrev pub IsOfNode : K8s.Pod → Index ip → KubeletIps → Type 0
  IsOfNode pod idx ips =
      (node : String) × (node_of pod ≡ some node) × (get node idx.nodes ≡ some (known ips))

  new_pod-Adds :
      (name : String) (ns : Namespace ip) (pod : K8s.Pod) (idx : Index ip)
      → Adds name pod.metadata.name
          (IsOfNode pod idx)
          idx.lookups
          (new_pod name ns pod idx).1.lookups
  unfolding new_pod when_ready
  new_pod-Adds name ns pod idx n q p rx h =
      elim (Option-cases (get_or_push_pending pod idx.nodes).0) [
        | inl e ↦ inl (rw (e, new_pod) at h)
        | inr ((pod', ips), e) ↦
            let (same, node, on, at) = get_or_push_pending-known pod pod' ips idx.nodes e in
            elim (with_spec-Adds name ns pod' ips pod'.spec _ n q p rx (rw (e, new_pod) at h)) [
              | inl k ↦ inl k
              | inr (here, this, from) ↦ inr (
                here,
                ap (λ (x : K8s.Pod). x.metadata.name) (sym same) ∙ this,
                (node, on, at ∙ ap (λ a. some (known a)) (sym from)),
              )
            ]
      ]

  apply_entry-Adds :
      (name : String) (ns : Namespace ip) (pod : K8s.Pod) (o : Option Pod) (idx : Index ip)
      → Adds name pod.metadata.name
          (IsOfNode pod idx)
          idx.lookups
          (Pods.apply_entry name ns pod o idx).1.lookups
  unfolding Pods.apply_entry old_pod
  apply_entry-Adds name ns pod none idx n q p rx h = new_pod-Adds name ns pod idx n q p rx h
  apply_entry-Adds name ns pod (some entry) idx n q p rx h =
      elim (Bool-cases (eqb Labels-discrete entry.labels pod.metadata.labels)) [
        | inl e ↦ inl (rw (e, old_pod) at h)
        | inr e ↦ inl (rw (e, old_pod) at h)
      ]

  pub apply_pod-Adds :
      (pod : K8s.Pod) (idx : Index ip) (name q : String) (p : ℕ) (rx : Rx)
      → lookup name q p (apply_pod pod idx).1.lookups ≡ some rx
      → (lookup name q p idx.lookups ≡ some rx)
        ⊎ ((pod.metadata.namespace ≡ some name)
            × (pod.metadata.name ≡ q)
            × IsOfNode pod idx rx.kubelet)
  unfolding apply_pod Pods.apply_in with_namespace
  apply_pod-Adds pod idx name q p rx h = elim (Option-cases pod.metadata.namespace) [
    | inl e ↦ inl (rw (e, with_namespace) at h)
    | inr (own, e) ↦
        let ns = namespace_or_new own idx.namespaces in
        let h' =
          subst (λ r. lookup name q p r.1.lookups ≡ some rx)
            (with_namespace-some ip pod.metadata.namespace own _ idx e) h in
        elim (apply_entry-Adds own ns pod (get pod.metadata.name ns.pods) (put_ns own ns idx) name q
          p rx h') [ inl k ↦ inl k | inr (here, this, good) ↦ inr (e ∙ ap some here, this, good) ]
  ]
