-- ===== src/Index/Run/Awaited.antt =====
-- A pod that is reported before its node is indexed when the node is.
pub mod Kept
pub mod Waiting
pub mod Between
pub mod Operations
pub mod Cleared
pub mod Reported
use polixy.Prelude.{
  String, ◌≡◌, ◌≢◌, ◌⊎◌, refl, sym, ap, subst, ◌∙◌, Bool, true, false, Option, none, some, List, [],
  ◌∷◌, ◌++◌, All, inl, inr, arith, ◌==◌, is_some, string_eq, nat_eq, Bool-cases, Option-cases,
}
use polixy.Result.{Result, ok, err, panic}
use polixy.Result.Inversion.{Result-cases}
use polixy.Map.{get, insert}
use polixy.Map.Laws.{get-insert}
use polixy.Core.{Ipnet}
use polixy.K8s
use polixy.K8s.{PodSpec}
use polixy.Node.{KubeletIps, known, node_of, get_or_push_pending}
use polixy.Node.Pending.{get_or_push_pending-ready}
use polixy.Labels.{Labels-discrete}
use polixy.DefaultAllow.{get_rx}
use polixy.Lookup.{find}
use polixy.Lookup.Laws.{find-set}
use polixy.Server.{eqb}
use polixy.Pod.{Pod, link_servers, extract_ports}
use polixy.Index.{Namespace, Index, for_all, namespace_or_new, put_ns}
use polixy.Index.Pods
use polixy.Index.Pods.{
  apply_pod, default_mode, add_pod, new_pod, old_pod, with_spec, when_ready, store_pod,
}
use polixy.Index.Run.Induction.{for_all-Keeps}
use polixy.Index.Run.Synced.{with_namespace-some, apply_fine}
use polixy.Index.Run.Synced.Matching.{
  find_pod, find_pod-insert, namespace-pods, NsSynced, Synced, Match-none, put_ns-Synced,
  namespace-NsSynced,
}
use polixy.Index.Run.Synced.PodSteps.{apply_in-Synced, apply_pod-Synced}
use polixy.Index.Run.Awaited.Kept.{IsIndexed, IsKnown, apply_pod-IsIndexed, apply_pod-IsKnown}

-- the pod is one of a list
abbrev pub IsAmong : K8s.Pod → List K8s.Pod → Type 0
IsAmong pod [] = ⊥
IsAmong pod (q ∷ qs) = (q ≡ pod) ⊎ IsAmong pod qs

abbrev pub HasNamespace : K8s.Pod → Type 0
HasNamespace q = (n : String) × (q.metadata.namespace ≡ some n)

-- the pod is to run on the node
abbrev pub IsOn : K8s.Pod → PodSpec → String → Type 0
IsOn pod spec node = (pod.spec ≡ some spec) × (spec.node_name ≡ some node)

pub node_of_lem :
    (pod : K8s.Pod) (spec : PodSpec) (node : String) → IsOn pod spec node → node_of pod ≡ some node
unfolding node_of
node_of_lem pod spec node (has_spec, on) = rw (has_spec, node_of) on

module _ {ip : Ipnet} where
  add_pod-IsIndexed :
      (name : String) (ns : Namespace ip) (pod : K8s.Pod) (spec : PodSpec) (ips : KubeletIps)
      (idx : Index ip)
      → NsSynced name ns idx.lookups
      → get pod.metadata.name ns.pods ≡ none
      → IsIndexed name pod.metadata.name (add_pod name ns pod spec ips idx).1
  unfolding add_pod store_pod
  add_pod-IsIndexed name ns pod spec ips idx mine absent =
      let pod_name = pod.metadata.name in
      let rx = get_rx idx.default_allows (default_mode ns pod.metadata) in
      let found = extract_ports spec rx ips idx.links in
      let entry : Pod = record {
        ports = found.ports;
        labels = pod.metadata.labels;
        default_allow_rx = rx;
      } in
      let linked = (link_servers ns.servers entry found.links).0 in
      let free : find name pod_name idx.lookups ≡ none =
        Match-none _ (rw absent at (mine pod_name)) in
      let (stored, at) = find-set name pod_name found.lookups idx.lookups free in
      rw stored (
        ground (
          arith,
          find_pod-insert name name pod_name (record ns { pods = insert pod_name linked ns.pods })
              idx.namespaces.index,
          get-insert pod_name pod_name linked ns.pods,
          string_eq.beq_iff name name,
          string_eq.beq_iff pod_name pod_name,
        ))

  -- a pod whose node is known
  module _ (pod : K8s.Pod) (spec : PodSpec) (node : String) (ips : KubeletIps)
      (is_on : IsOn pod spec node) where
    apply_entry-IsIndexed :
        (name : String) (ns : Namespace ip) (o : Option Pod) (idx : Index ip)
        → get pod.metadata.name ns.pods ≡ o
        → find_pod name pod.metadata.name idx.namespaces.index ≡ o
        → NsSynced name ns idx.lookups
        → IsKnown node ips idx
        → IsIndexed name pod.metadata.name (Pods.apply_entry name ns pod o idx).1
    unfolding Pods.apply_entry new_pod when_ready with_spec old_pod add_pod
    apply_entry-IsIndexed name ns none idx h k mine at =
        rw
          (
            get_or_push_pending-ready pod node ips idx.nodes (node_of_lem pod spec node is_on) at,
            is_on.0,
          )
          (add_pod-IsIndexed name ns pod spec ips idx mine h)
    apply_entry-IsIndexed name ns (some entry) idx h k mine at =
        elim (Bool-cases (eqb Labels-discrete entry.labels pod.metadata.labels)) [
          | inl e ↦ rw (e, old_pod) (ap is_some k)
          | inr e ↦
              rw (e, old_pod)
                (ground (
                  arith,
                  find_pod-insert name name pod.metadata.name
                      (record ns {
                        pods =
                            insert pod.metadata.name
                              (link_servers ns.servers
                                (record entry { labels = pod.metadata.labels }) idx.links).0
                              ns.pods;
                      })
                      idx.namespaces.index,
                  get-insert pod.metadata.name pod.metadata.name
                      (link_servers ns.servers (record entry { labels = pod.metadata.labels })
                        idx.links).0
                      ns.pods,
                  string_eq.beq_iff name name,
                  string_eq.beq_iff pod.metadata.name pod.metadata.name,
                ))
        ]

    apply_pod-makes :
        (name : String) (idx : Index ip)
        → pod.metadata.namespace ≡ some name
        → Synced idx
        → IsKnown node ips idx
        → IsIndexed name pod.metadata.name (apply_pod pod idx).1
    unfolding apply_pod Pods.apply_in
    apply_pod-makes name idx h all at =
        let ns = namespace_or_new name idx.namespaces in
        let mine = namespace-NsSynced name idx all in
        subst (λ r. IsIndexed name pod.metadata.name r.1)
          (sym (with_namespace-some ip pod.metadata.namespace name _ idx h))
          (apply_entry-IsIndexed name ns (get pod.metadata.name ns.pods) (put_ns name ns idx) refl
            (ground (
              arith,
              find_pod-insert name name pod.metadata.name ns idx.namespaces.index,
              string_eq.beq_iff name name,
            ))
            mine at)

    pub for_all-makes :
        (name : String) (qs : List K8s.Pod) (r : Result (Unit {0})) (idx : Index ip)
        → pod.metadata.namespace ≡ some name
        → IsAmong pod qs
        → All HasNamespace qs
        → Synced idx
        → IsKnown node ips idx
        → IsIndexed name pod.metadata.name (for_all apply_pod qs r idx).1
    unfolding for_all
    for_all-makes name [] r idx h among named all at = elim among [ ]
    for_all-makes name (q ∷ qs) r idx h (inl this) named all at =
        let done =
          subst (λ (x : K8s.Pod). IsIndexed name pod.metadata.name (apply_pod x idx).1) (sym this)
            (apply_pod-makes name idx h all at) in
        let keep = λ (r' : Result (Unit {0})).
          for_all-Keeps (IsIndexed name pod.metadata.name) apply_pod
            (λ x. apply_pod-IsIndexed name pod.metadata.name x) qs r' (apply_pod q idx).1 done in
        elim (Result-cases (apply_pod q idx).0) [
          | inl (u, e) ↦ rw (e, for_all) (keep r)
          | inr (inl (x, e)) ↦ rw (e, for_all) (keep (err x))
          | inr (inr e) ↦ rw (e, for_all) done
        ]
    for_all-makes name (q ∷ qs) r idx h (inr later) (named, all_named) all at =
        let idx' = (apply_pod q idx).1 in
        let rest = λ (r' : Result (Unit {0})).
          for_all-makes name qs r' idx' h later all_named (apply_pod-Synced q idx all)
            (apply_pod-IsKnown node ips q idx at) in
        elim (Result-cases (apply_pod q idx).0) [
          | inl (u, e) ↦ rw (e, for_all) (rest r)
          | inr (inl (x, e)) ↦ rw (e, for_all) (rest (err x))
          | inr (inr e) ↦ elim (apply_fine ip q named.0 idx named.1 all e) [ ]
        ]
