-- ===== src/Index/Run/Awaited/Reported.antt =====
-- A pod that is reported before its node, whatever is reported in between.
use polixy.Prelude.{
  ℕ, String, ◌≡◌, refl, ap, ◌∙◌, true, false, Option, none, some, List, [], ◌∷◌, All, inl, inr,
  arith, is_some, string_eq, nat_eq, Option-cases,
}
use polixy.Result.{ok}
use polixy.Map.{get, insert}
use polixy.Map.Laws.{get-insert}
use polixy.Core.{Ipnet}
use polixy.K8s
use polixy.K8s.{PodSpec}
use polixy.DefaultAllow.{DefaultAllow}
use polixy.Node.{
  State, pending, known, NodeIndex, KubeletIps, Waiting, push_pending, get_or_push_pending,
  try_from_node,
}
use polixy.Node.Pending.{get_or_push_pending-vacant, get_or_push_pending-waits}
use polixy.Index.{Index, new}
use polixy.Index.Nodes.{apply_node, learn_node, is_known, pods_to_apply, waiting_pods, pods_of}
use polixy.Index.Pods
use polixy.Index.Pods.{apply_pod, new_pod, when_ready}
use polixy.Index.Run.{Update, node, pod, applied, handle, run}
use polixy.Index.Run.Synced.{run-Synced, with_namespace-some}
use polixy.Index.Run.Synced.Matching.{Synced, find_pod, namespace-pods}
use polixy.Index.Run.Synced.PodSteps.{apply_pod-Synced}
use polixy.Index.Run.Awaited.{IsAmong, HasNamespace, IsOn, node_of_lem, for_all-makes}
use polixy.Index.Run.Awaited.Kept.{IsIndexed}
use polixy.Index.Run.Awaited.Waiting.{push_pending-All}
use polixy.Index.{with_namespace}
use polixy.Prelude.{◌≢◌, subst, sym}
use polixy.Node.{or_default}
use polixy.Index.Pods.{delete_pod}
use polixy.Index.Run.{deleted, restarted, server, authz}
use polixy.Index.Run.Induction.{Keeps, server-Keeps, authz-Keeps, run-Keeps}
use polixy.Index.Run.Synced.{operations-Synced}
use polixy.Index.Run.Awaited.Waiting.{waiting_pods-IsAmong, pods_of-IsAmong}
use polixy.Index.Run.Awaited.Between.{Holds, IsWaiting}
use polixy.Index.Run.Awaited.Operations.{
  apply_pod-Waits, apply_node-Waits, delete_node-Waits, policy-Waits,
}
use polixy.Index.Run.Awaited.Cleared.{rm_pod-Waits}

-- an update that does not take the pod from those that wait, nor makes the node known
abbrev pub Leaves : String → String → String → Update → Type 0
Leaves n name pod_name (pod (applied q)) = Unit
Leaves n name pod_name (pod (deleted q)) =
    q.metadata.namespace ≡ some name → q.metadata.name ≢ pod_name
Leaves n name pod_name (pod (restarted qs)) = ⊥
Leaves n name pod_name (node (applied m)) = m.metadata.name ≢ n
Leaves n name pod_name (node (deleted m)) = m.metadata.name ≢ n
Leaves n name pod_name (node (restarted ms)) = ⊥
Leaves n name pod_name (server e) = Unit
Leaves n name pod_name (authz e) = Unit

pushed-Holds :
    (p : K8s.Pod) (spec : PodSpec) (n name : String) (w : Waiting)
    → IsOn p spec n
    → p.metadata.namespace ≡ some name
    → Holds n name p.metadata.name (push_pending w name p)
unfolding push_pending
pushed-Holds p spec n name w is_on named =
    let pods = insert p.metadata.name p (or_default (get name w)) in
    record {
      pods = pods;
      entry = p;
      spec = spec;
      there = ground (arith, get-insert name name pods w, string_eq.beq_iff name name);
      here = ground (
        arith,
        get-insert p.metadata.name p.metadata.name p (or_default (get name w)),
        string_eq.beq_iff p.metadata.name p.metadata.name,
      );
      is_on = is_on;
      named = named;
      same = refl;
    }

module _ {ip : Ipnet} where
  module _ (n name pod_name : String) where
    delete_pod-Waits :
        (q : K8s.Pod)
        → (q.metadata.namespace ≡ some name → q.metadata.name ≢ pod_name)
        → Keeps {ip = ip} (IsWaiting n name pod_name) (delete_pod q)
    unfolding delete_pod with_namespace
    delete_pod-Waits q other idx h = elim (Option-cases q.metadata.namespace) [
      | inl e ↦ rw (e, with_namespace) h
      | inr (ns, e) ↦
          subst (λ r. IsWaiting n name pod_name r.1)
            (sym (with_namespace-some ip q.metadata.namespace ns _ idx e))
            (rm_pod-Waits n name pod_name ns q.metadata.name (λ s. other (e ∙ ap some s)) idx h)
    ]

    handle-Waits :
        (u : Update)
        → Leaves n name pod_name u
        → Keeps {ip = ip} (IsWaiting n name pod_name) (handle u)
    unfolding handle
    handle-Waits (pod (applied q)) l = apply_pod-Waits n name pod_name q
    handle-Waits (pod (deleted q)) l = delete_pod-Waits q l
    handle-Waits (pod (restarted qs)) l = elim l [ ]
    handle-Waits (node (applied m)) l = apply_node-Waits n name pod_name m l
    handle-Waits (node (deleted m)) l = delete_node-Waits n name pod_name m.metadata.name l
    handle-Waits (node (restarted ms)) l = elim l [ ]
    handle-Waits (server e) l =
        server-Keeps (IsWaiting n name pod_name) (policy-Waits n name pod_name) e
    handle-Waits (authz e) l =
        authz-Keeps (IsWaiting n name pod_name) (policy-Waits n name pod_name) e

    run-Waits :
        (us : List Update) (idx : Index ip)
        → All (Leaves n name pod_name) us
        → IsWaiting n name pod_name idx
        → IsWaiting n name pod_name (run us idx)
    unfolding run
    run-Waits [] idx all h = h
    run-Waits (u ∷ us) idx (l, all) h = run-Waits us (handle u idx).1 all (handle-Waits u l idx h)

  module _ (p : K8s.Pod) (spec : PodSpec) (n : K8s.Node) (name : String) (ips : KubeletIps)
      (is_on : IsOn p spec n.metadata.name) (named : p.metadata.namespace ≡ some name)
      (good : try_from_node ip n ≡ ok ips) where
    -- the node comes while the pod waits for it
    apply_node-makes :
        (w : Waiting) (idx : Index ip)
        → get n.metadata.name idx.nodes ≡ some (pending w)
        → IsAmong p (waiting_pods w)
        → All HasNamespace (waiting_pods w)
        → Synced idx
        → IsIndexed name p.metadata.name (apply_node n idx).1
    unfolding apply_node learn_node is_known pods_to_apply
    apply_node-makes w idx e among all synced =
        rw (e, good, apply_node)
          (for_all-makes p spec n.metadata.name ips is_on name (waiting_pods w) (ok tt)
            (record idx { nodes = insert n.metadata.name (known ips) idx.nodes }) named among all
            synced
            (ground (
              arith,
              get-insert n.metadata.name n.metadata.name (known ips) idx.nodes,
              string_eq.beq_iff n.metadata.name n.metadata.name,
            )))

    nodes-apply_pod :
        (nodes : NodeIndex) (idx : Index ip)
        → get_or_push_pending p idx.nodes ≡ (none, nodes)
        → find_pod name p.metadata.name idx.namespaces.index ≡ none
        → (apply_pod p idx).1.nodes ≡ nodes
    unfolding apply_pod Pods.apply_in Pods.apply_entry new_pod when_ready
    nodes-apply_pod nodes idx e absent =
        ap (λ r. r.1.nodes) (with_namespace-some ip p.metadata.namespace name _ idx named)
        ∙ rw (namespace-pods name idx p.metadata.name ∙ absent, e) refl

    -- the pod comes before its node
    apply_pod-waits :
        (o : Option State) (idx : Index ip)
        → get n.metadata.name idx.nodes ≡ o
        → is_known o ≡ false
        → All HasNamespace (pods_to_apply o)
        → find_pod name p.metadata.name idx.namespaces.index ≡ none
        → IsWaiting n.metadata.name name p.metadata.name (apply_pod p idx).1
    unfolding is_known pods_to_apply waiting_pods pods_of push_pending insert get
    apply_pod-waits none idx e k all absent =
        let w : Waiting = (name, (p.metadata.name, p) ∷ []) ∷ [] in
        let nodes =
          nodes-apply_pod _ idx
            (get_or_push_pending-vacant p n.metadata.name name idx.nodes
              (node_of_lem p spec n.metadata.name is_on) named e)
            absent in
        record {
          waiting = w;
          unknown =
              ap (get n.metadata.name) nodes
              ∙ ground (
                arith,
                get-insert n.metadata.name n.metadata.name (pending w) idx.nodes,
                string_eq.beq_iff n.metadata.name n.metadata.name,
              );
          holds = pushed-Holds p spec n.metadata.name name [] is_on named;
          named = ((name, named), tt);
        }
    apply_pod-waits (some (pending w)) idx e k all absent =
        let nodes =
          nodes-apply_pod _ idx
            (get_or_push_pending-waits p n.metadata.name name w idx.nodes
              (node_of_lem p spec n.metadata.name is_on) named e)
            absent in
        record {
          waiting = push_pending w name p;
          unknown =
              ap (get n.metadata.name) nodes
              ∙ ground (
                arith,
                get-insert n.metadata.name n.metadata.name (pending (push_pending w name p))
                    idx.nodes,
                string_eq.beq_iff n.metadata.name n.metadata.name,
              );
          holds = pushed-Holds p spec n.metadata.name name w is_on named;
          named = push_pending-All HasNamespace w name p (name, named) all;
        }
    apply_pod-waits (some (known a)) idx e k all absent = cc

  -- the node comes while some such pod waits for it
  learned :
      (n : K8s.Node) (name pod_name : String) (ips : KubeletIps) (idx : Index ip)
      → try_from_node ip n ≡ ok ips
      → IsWaiting n.metadata.name name pod_name idx
      → Synced idx
      → IsIndexed name pod_name (apply_node n idx).1
  learned n name pod_name ips idx good h synced =
      let own = h.holds in
      subst (λ q. IsIndexed name q (apply_node n idx).1) own.same
        (apply_node-makes own.entry own.spec n name ips own.is_on own.named good h.waiting idx
          h.unknown
          (waiting_pods-IsAmong name own.entry own.pods h.waiting own.there
            (pods_of-IsAmong pod_name own.entry own.pods own.here))
          h.named synced)

-- A pod that names its namespace and its node, and that is applied, in any state that a new index
-- reaches, while it is not indexed and its node is not known, is indexed when the node is applied later, if
-- the node gives its kubelet's addresses. In between anything may happen but that the watches of the pods
-- or of the nodes restart, that the pod is deleted, or that its node is applied or deleted. The pods that
-- wait for the node in the first state are to name their namespaces.
pub run-awaited :
    (ip : Ipnet) (nets : List ip.IpNet) (domain : String) (mode : DefaultAllow) (timeout : ℕ)
    (us : List Update) (p : K8s.Pod) (spec : PodSpec) (between : List Update) (n : K8s.Node)
    (name : String) (ips : KubeletIps)
    → IsOn p spec n.metadata.name
    → p.metadata.namespace ≡ some name
    → try_from_node ip n ≡ ok ips
    → (let idx = run us (new {ip = ip} nets domain mode timeout) in
        (find_pod name p.metadata.name idx.namespaces.index ≡ none)
        × (is_known (get n.metadata.name idx.nodes) ≡ false)
        × All HasNamespace (pods_to_apply (get n.metadata.name idx.nodes)))
    → All (Leaves n.metadata.name name p.metadata.name) between
    → let reported =
        (handle (pod (applied p)) (run us (new {ip = ip} nets domain mode timeout))).1 in
      is_some (
        find_pod name p.metadata.name
          (handle (node (applied n)) (run between reported)).1.namespaces.index)
      ≡ true
unfolding handle
run-awaited ip nets domain mode timeout us p spec between n name ips is_on named good
      (absent, unknown, all) leaves =
    let idx = run us (new {ip = ip} nets domain mode timeout) in
    let reported = (apply_pod p idx).1 in
    learned n name p.metadata.name ips (run between reported) good
      (run-Waits n.metadata.name name p.metadata.name between reported leaves (
        apply_pod-waits p spec n name ips is_on named good (get n.metadata.name idx.nodes) idx refl
          unknown all absent))
      (run-Keeps Synced operations-Synced between reported
        (apply_pod-Synced p idx (run-Synced ip nets domain mode timeout us)))
