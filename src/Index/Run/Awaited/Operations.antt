-- ===== src/Index/Run/Awaited/Operations.antt =====
-- The operations that a pod which waits for its node stays there through.
use polixy.Prelude.{
  String, ◌≢◌, Option, none, some, List, inl, inr, arith, string_eq, Bool-cases, Option-cases,
}
use polixy.Result.{Result, ok, err, panic}
use polixy.Map.{get, contains_key}
use polixy.Map.Laws.{get-remove}
use polixy.Core.{Ipnet}
use polixy.K8s
use polixy.K8s.{PodSpec}
use polixy.Node.{KubeletIps, known, try_from_node}
use polixy.Labels.{Labels-discrete}
use polixy.Server.{Server, eqb}
use polixy.Pod.{Pod}
use polixy.Authz.{Authz, Authz-discrete}
use polixy.Index.{Namespace, Index}
use polixy.Index.Pods
use polixy.Index.Pods.{apply_pod, add_pod, new_pod, old_pod, with_spec, when_ready, store_pod}
use polixy.Index.Nodes.{apply_node, delete_node, learn_node, is_known}
use polixy.Index.Servers
use polixy.Index.Servers.{apply_server, rm_server}
use polixy.Index.Authzs
use polixy.Index.Authzs.{apply_authz, apply_made, store_entry, rm_authz}
use polixy.Index.Run.Induction.{Keeps, KeepsPolicy, for_all-Keeps, with_namespace-Keeps}
use polixy.Index.Run.Awaited.Between.{IsWaiting, insert-Waits, get_or_push_pending-Waits}

module _ (n name pod_name : String) where
  module _ {ip : Ipnet} where
    store_pod-Waits :
        (ns_name : String) (ns : Namespace ip) (r : Result (Unit {0})) (idx : Index ip)
        → IsWaiting n name pod_name idx
        → IsWaiting n name pod_name (store_pod ns_name ns idx r).1
    unfolding store_pod
    store_pod-Waits ns_name ns (ok _) idx h = h
    store_pod-Waits ns_name ns (err e) idx h = h
    store_pod-Waits ns_name ns panic idx h = h

    when_ready-Waits :
        (ns_name : String) (ns : Namespace ip) (o : Option (K8s.Pod × KubeletIps))
        → Keeps {ip = ip} (IsWaiting n name pod_name) (when_ready ns_name ns o)
    unfolding when_ready with_spec add_pod
    when_ready-Waits ns_name ns none idx h = h
    when_ready-Waits ns_name ns (some (p, a)) idx h = elim (Option-cases p.spec) [
      | inl e ↦ rw e h
      | inr (spec, e) ↦ rw e (store_pod-Waits ns_name _ _ _ h)
    ]

    apply_entry-Waits :
        (ns_name : String) (ns : Namespace ip) (p : K8s.Pod) (o : Option Pod)
        → Keeps {ip = ip} (IsWaiting n name pod_name) (Pods.apply_entry ns_name ns p o)
    unfolding Pods.apply_entry new_pod old_pod
    apply_entry-Waits ns_name ns p none idx h =
        when_ready-Waits ns_name ns _ _ (get_or_push_pending-Waits n name pod_name p idx.nodes h)
    apply_entry-Waits ns_name ns p (some entry) idx h =
        elim (Bool-cases (eqb Labels-discrete entry.labels p.metadata.labels)) [
          | inl e ↦ rw (e, old_pod) h
          | inr e ↦ rw (e, old_pod) h
        ]

    pub apply_pod-Waits : (p : K8s.Pod) → Keeps {ip = ip} (IsWaiting n name pod_name) (apply_pod p)
    unfolding apply_pod Pods.apply_in
    apply_pod-Waits p =
        with_namespace-Keeps (IsWaiting n name pod_name) p.metadata.namespace _
          λ ns_name idx h. apply_entry-Waits ns_name _ p _ _ h

    apply_server-Waits :
        (s : K8s.Server) → Keeps {ip = ip} (IsWaiting n name pod_name) (apply_server s)
    unfolding apply_server Servers.apply_in
    apply_server-Waits s =
        with_namespace-Keeps (IsWaiting n name pod_name) s.metadata.namespace _ λ ns_name idx h. h

    rm_server_entry-Waits :
        (ns_name s : String) (ns : Namespace ip) (o : Option (Server ip))
        → Keeps {ip = ip} (IsWaiting n name pod_name) (Servers.rm_entry ns_name s ns o)
    unfolding Servers.rm_entry
    rm_server_entry-Waits ns_name s ns none idx h = h
    rm_server_entry-Waits ns_name s ns (some _) idx h = h

    rm_server_from-Waits :
        (ns_name s : String) (o : Option (Namespace ip))
        → Keeps {ip = ip} (IsWaiting n name pod_name) (Servers.rm_from ns_name s o)
    unfolding Servers.rm_from
    rm_server_from-Waits ns_name s none idx h = h
    rm_server_from-Waits ns_name s (some ns) idx h = rm_server_entry-Waits ns_name s ns _ idx h

    store_entry-Waits :
        (ns_name a_name : String) (a : Authz ip) (ns : Namespace ip) (o : Option (Authz ip))
        (idx : Index ip)
        → IsWaiting n name pod_name idx
        → IsWaiting n name pod_name (store_entry a_name a ns o idx).1
    unfolding store_entry
    store_entry-Waits ns_name a_name a ns none idx h = h
    store_entry-Waits ns_name a_name a ns (some old) idx h =
        elim (Bool-cases (eqb (Authz-discrete ip) old a)) [
          | inl e ↦ rw (e, store_entry) h
          | inr e ↦ rw (e, store_entry) h
        ]

    apply_made-Waits :
        (ns_name : String) (ns : Namespace ip) (a_name : String) (r : Result (Authz ip))
        → Keeps {ip = ip} (IsWaiting n name pod_name) (apply_made ns_name ns a_name r)
    unfolding apply_made Authzs.store_authz
    apply_made-Waits ns_name ns a_name (ok a) idx h = store_entry-Waits ns_name a_name a ns _ idx h
    apply_made-Waits ns_name ns a_name (err e) idx h = h
    apply_made-Waits ns_name ns a_name panic idx h = h

    apply_authz-Waits :
        (a : K8s.ServerAuthorization) → Keeps {ip = ip} (IsWaiting n name pod_name) (apply_authz a)
    unfolding apply_authz Authzs.apply_in
    apply_authz-Waits a =
        with_namespace-Keeps (IsWaiting n name pod_name) a.metadata.namespace _
          λ ns_name idx h. apply_made-Waits ns_name _ _ _ idx h

    rm_authz_from-Waits :
        (ns_name a : String) (o : Option (Namespace ip)) (idx : Index ip)
        → IsWaiting n name pod_name idx
        → IsWaiting n name pod_name (Authzs.rm_from ns_name a o idx)
    unfolding Authzs.rm_from
    rm_authz_from-Waits ns_name a none idx h = h
    rm_authz_from-Waits ns_name a (some ns) idx h = h

    pub policy-Waits : KeepsPolicy {ip = ip} (IsWaiting n name pod_name)
    unfolding rm_server rm_authz
    policy-Waits = record {
      on_apply_server = apply_server-Waits;
      on_rm_server = λ ns_name s idx h. rm_server_from-Waits ns_name s _ idx h;
      on_apply_authz = apply_authz-Waits;
      on_rm_authz = λ ns_name a idx h. rm_authz_from-Waits ns_name a _ idx h;
    }

    -- another node becomes known
    learn_node-Waits :
        (m : String) (waiting : List K8s.Pod) (r : Result KubeletIps)
        → m ≢ n
        → Keeps {ip = ip} (IsWaiting n name pod_name) (learn_node m waiting r)
    unfolding learn_node
    learn_node-Waits m waiting (ok a) ne idx h =
        for_all-Keeps (IsWaiting n name pod_name) apply_pod apply_pod-Waits waiting (ok tt) _
          (insert-Waits n name pod_name m (known a) idx.nodes ne h)
    learn_node-Waits m waiting (err e) ne idx h = h
    learn_node-Waits m waiting panic ne idx h = h

    pub apply_node-Waits :
        (m : K8s.Node)
        → m.metadata.name ≢ n
        → Keeps {ip = ip} (IsWaiting n name pod_name) (apply_node m)
    unfolding apply_node
    apply_node-Waits m ne idx h = elim (Bool-cases (is_known (get m.metadata.name idx.nodes))) [
      | inl e ↦ rw e h
      | inr e ↦ rw e (learn_node-Waits m.metadata.name _ (try_from_node ip m) ne idx h)
    ]

    pub delete_node-Waits :
        (m : String) → m ≢ n → Keeps {ip = ip} (IsWaiting n name pod_name) (delete_node m)
    unfolding delete_node
    delete_node-Waits m ne idx h = elim (Bool-cases (contains_key m idx.nodes)) [
      | inl e ↦ rw e (record {
        waiting = h.waiting;
        unknown = ground (arith, get-remove m n idx.nodes, string_eq.beq_iff m n, h.unknown);
        holds = h.holds;
        named = h.named;
      })
      | inr e ↦ rw e h
    ]
