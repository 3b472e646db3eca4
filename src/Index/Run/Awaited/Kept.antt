-- ===== src/Index/Run/Awaited/Kept.antt =====
-- Applying a pod leaves the indexed pods and the known nodes in place.
use polixy.Prelude.{
  String, ◌≡◌, ap, ◌∙◌, true, Option, none, some, inl, inr, arith, is_some, string_eq, Bool-cases,
  Option-cases,
}
use polixy.Result.{Result, ok, err, panic}
use polixy.Map.{get, insert}
use polixy.Map.Laws.{get-insert}
use polixy.Core.{Ipnet}
use polixy.K8s
use polixy.K8s.{PodSpec}
use polixy.Node.{KubeletIps, known}
use polixy.Node.Pending.{get_or_push_pending-kept}
use polixy.Labels.{Labels-discrete}
use polixy.Server.{eqb}
use polixy.Pod.{Pod}
use polixy.Index.{Namespace, Index, namespace_or_new, put_ns}
use polixy.Index.Pods
use polixy.Index.Pods.{apply_pod, add_pod, new_pod, old_pod, with_spec, when_ready, store_pod}
use polixy.Index.Run.Induction.{Keeps, with_namespace-Keeps}
use polixy.Index.Run.Synced.Matching.{find_pod, find_pod-insert, namespace-pods}

module _ {ip : Ipnet} where
  -- the index has the pod
  abbrev pub IsIndexed : String → String → Index ip → Type 0
  IsIndexed name p idx = is_some (find_pod name p idx.namespaces.index) ≡ true

  -- the namespace has the pods that the index has in it
  abbrev pub HasPods : String → Namespace ip → Index ip → Type 0
  HasPods name ns idx =
      (p : String)
      → is_some (find_pod name p idx.namespaces.index) ≡ true
      → is_some (get p ns.pods) ≡ true

  pub namespace-HasPods :
      (name : String) (idx : Index ip) → HasPods name (namespace_or_new name idx.namespaces) idx
  namespace-HasPods name idx p h = ap is_some (namespace-pods name idx p) ∙ h

  pub put-IsIndexed :
      (name : String) (ns : Namespace ip) (idx : Index ip) (n p : String)
      → HasPods name ns idx
      → IsIndexed n p idx
      → IsIndexed n p (put_ns name ns idx)
  put-IsIndexed name ns idx n p has h =
      ground
        (arith, find_pod-insert name n p ns idx.namespaces.index, has p, string_eq.beq_iff name n)

  -- one more pod
  pub insert-HasPods :
      (name q : String) (pod : Pod) (ns : Namespace ip) (idx : Index ip)
      → HasPods name ns idx
      → HasPods name (record ns { pods = insert q pod ns.pods }) idx
  insert-HasPods name q pod ns idx has p h = ground (arith, get-insert q p pod ns.pods, has p h)

  module _ (n p : String) where
    store_pod-IsIndexed :
        (name : String) (ns : Namespace ip) (idx : Index ip) (r : Result (Unit {0}))
        → HasPods name ns idx
        → IsIndexed n p idx
        → IsIndexed n p (store_pod name ns idx r).1
    unfolding store_pod
    store_pod-IsIndexed name ns idx (ok _) has h = put-IsIndexed name ns idx n p has h
    store_pod-IsIndexed name ns idx (err e) has h = h
    store_pod-IsIndexed name ns idx panic has h = h

    when_ready-IsIndexed :
        (name : String) (ns : Namespace ip) (o : Option (K8s.Pod × KubeletIps)) (idx : Index ip)
        → HasPods name ns idx
        → IsIndexed n p idx
        → IsIndexed n p (when_ready name ns o idx).1
    unfolding when_ready with_spec add_pod
    when_ready-IsIndexed name ns none idx has h = h
    when_ready-IsIndexed name ns (some (pod, a)) idx has h = elim (Option-cases pod.spec) [
      | inl e ↦ rw e h
      | inr (spec, e) ↦ rw e (store_pod-IsIndexed name _ _ _ (insert-HasPods name _ _ ns idx has) h)
    ]

    apply_entry-IsIndexed :
        (name : String) (ns : Namespace ip) (pod : K8s.Pod) (o : Option Pod) (idx : Index ip)
        → HasPods name ns idx
        → IsIndexed n p idx
        → IsIndexed n p (Pods.apply_entry name ns pod o idx).1
    unfolding Pods.apply_entry new_pod old_pod
    apply_entry-IsIndexed name ns pod none idx has h = when_ready-IsIndexed name ns _ _ has h
    apply_entry-IsIndexed name ns pod (some entry) idx has h =
        elim (Bool-cases (eqb Labels-discrete entry.labels pod.metadata.labels)) [
          | inl e ↦ rw (e, old_pod) h
          | inr e ↦
              rw (e, old_pod) (put-IsIndexed name _ idx n p (insert-HasPods name _ _ ns idx has) h)
        ]

    -- a pod stays indexed
    pub apply_pod-IsIndexed : (pod : K8s.Pod) → Keeps (IsIndexed n p) (apply_pod pod)
    unfolding apply_pod Pods.apply_in
    apply_pod-IsIndexed pod =
        with_namespace-Keeps (IsIndexed n p) pod.metadata.namespace _ λ name idx h.
          let ns = namespace_or_new name idx.namespaces in
          let has = namespace-HasPods name idx in
          apply_entry-IsIndexed name ns pod (get pod.metadata.name ns.pods) (put_ns name ns idx)
            (λ q k. ground (
              arith,
              find_pod-insert name name q ns idx.namespaces.index,
              string_eq.beq_iff name name,
            ))
            (put-IsIndexed name ns idx n p has h)

  -- a known node stays known
  module _ (node : String) (ips : KubeletIps) where
    abbrev pub IsKnown : Index ip → Type 0
    IsKnown idx = get node idx.nodes ≡ some (known ips)

    store_pod-IsKnown :
        (name : String) (ns : Namespace ip) (r : Result (Unit {0})) (idx : Index ip)
        → IsKnown idx
        → IsKnown (store_pod name ns idx r).1
    unfolding store_pod
    store_pod-IsKnown name ns (ok _) idx h = h
    store_pod-IsKnown name ns (err e) idx h = h
    store_pod-IsKnown name ns panic idx h = h

    when_ready-IsKnown :
        (name : String) (ns : Namespace ip) (o : Option (K8s.Pod × KubeletIps))
        → Keeps IsKnown (when_ready name ns o)
    unfolding when_ready with_spec add_pod
    when_ready-IsKnown name ns none idx h = h
    when_ready-IsKnown name ns (some (pod, a)) idx h = elim (Option-cases pod.spec) [
      | inl e ↦ rw e h
      | inr (spec, e) ↦ rw e (store_pod-IsKnown name _ _ _ h)
    ]

    apply_entry-IsKnown :
        (name : String) (ns : Namespace ip) (pod : K8s.Pod) (o : Option Pod)
        → Keeps IsKnown (Pods.apply_entry name ns pod o)
    unfolding Pods.apply_entry new_pod old_pod
    apply_entry-IsKnown name ns pod none idx h =
        when_ready-IsKnown name ns _ _ (get_or_push_pending-kept pod idx.nodes node ips h)
    apply_entry-IsKnown name ns pod (some entry) idx h =
        elim (Bool-cases (eqb Labels-discrete entry.labels pod.metadata.labels)) [
          | inl e ↦ rw (e, old_pod) h
          | inr e ↦ rw (e, old_pod) h
        ]

    pub apply_pod-IsKnown : (pod : K8s.Pod) → Keeps IsKnown (apply_pod pod)
    unfolding apply_pod Pods.apply_in
    apply_pod-IsKnown pod =
        with_namespace-Keeps IsKnown pod.metadata.namespace _
          λ name idx h. apply_entry-IsKnown name _ pod _ _ h
