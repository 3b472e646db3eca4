-- ===== src/Index/Run/Induction.antt =====
-- What the operations on single resources keep, every update keeps.
use polixy.Prelude.{
  String, string_eq, Option, none, some, List, [], ◌∷◌, Bool-cases, inl, inr, contains, without,
}
use polixy.Result.{Result, ok, err, panic}
use polixy.Result.Inversion.{Result-cases}
use polixy.Core.{Ipnet}
use polixy.K8s
use polixy.Map.{get, contains_key}
use polixy.Node.{NodeIndex, KubeletIps, try_from_node, clear_pending_pods, clear_pending_pod}
use polixy.Index.{Index, Exec, with_namespace, for_all, and_then}
use polixy.Index.Nodes.{
  apply_node, delete_node, reset_nodes, learn_node, apply_nodes, known_names, is_known,
}
use polixy.Index.Pods.{apply_pod, rm_indexed, rm_pod, delete_pod, rm_defunct, reset_pods}
use polixy.Index.Servers
use polixy.Index.Servers.{apply_server, rm_server, delete_server, reset_servers}
use polixy.Index.Authzs
use polixy.Index.Authzs.{apply_authz, rm_authz, delete_authz, reset_authzs}
use polixy.Index.Run.{
  Update, Event, applied, deleted, restarted, node, pod, server, authz, handle, run,
}

module _ {ip : Ipnet} (Q : Index ip → Type 0) where
  -- an operation keeps `Q`, whatever its result
  abbrev pub Keeps : Exec ip → Type 0
  Keeps f = (idx : Index ip) → Q idx → Q (f idx).1

  -- the operations on one server or authorization
  pub record KeepsPolicy : Type 0 where
    pub on_apply_server : (s : K8s.Server) → Keeps (apply_server s)
    pub on_rm_server : (ns s : String) → Keeps (rm_server ns s)
    pub on_apply_authz : (a : K8s.ServerAuthorization) → Keeps (apply_authz a)
    pub on_rm_authz : (ns a : String) (idx : Index ip) → Q idx → Q (rm_authz ns a idx)

  -- the operations on one resource
  pub record KeepsEach : Type 0 where
    pub on_nodes : (idx : Index ip) (ns : NodeIndex) → Q idx → Q (record idx { nodes = ns })
    pub on_apply_pod : (p : K8s.Pod) → Keeps (apply_pod p)
    pub on_rm_pod : (ns p : String) → Keeps (rm_indexed ns p)
    pub on_apply_server : (s : K8s.Server) → Keeps (apply_server s)
    pub on_rm_server : (ns s : String) → Keeps (rm_server ns s)
    pub on_apply_authz : (a : K8s.ServerAuthorization) → Keeps (apply_authz a)
    pub on_rm_authz : (ns a : String) (idx : Index ip) → Q idx → Q (rm_authz ns a idx)

  pub for_all-Keeps {ℓ} :
      {A : Type ℓ} (f : A → Exec ip)
      → ((x : A) → Keeps (f x))
      → (xs : List A) (r : Result (Unit {0})) → Keeps (for_all f xs r)
  unfolding for_all
  for_all-Keeps f k [] r idx q = q
  for_all-Keeps f k (x ∷ xs) r idx q =
      let q' = k x idx q in
      elim (Result-cases (f x idx).0) [
        | inl (u, e) ↦ rw (e, for_all) (for_all-Keeps f k xs r (f x idx).1 q')
        | inr (inl (x', e)) ↦ rw (e, for_all) (for_all-Keeps f k xs (err x') (f x idx).1 q')
        | inr (inr e) ↦ rw (e, for_all) q'
      ]

  pub with_namespace-Keeps :
      (o : Option String) (f : String → Exec ip)
      → ((ns : String) → Keeps (f ns))
      → Keeps (with_namespace o f)
  unfolding with_namespace
  with_namespace-Keeps none f k idx q = q
  with_namespace-Keeps (some ns) f k idx q = k ns idx q

  and_then-Keeps :
      (m : Result (Unit {0}) × Index ip) (f : Result (Unit {0}) → Exec ip)
      → ((r : Result (Unit {0})) → Keeps (f r))
      → Q m.1
      → Q (and_then m f).1
  unfolding and_then
  and_then-Keeps (ok u, idx) f k q = k (ok u) idx q
  and_then-Keeps (err e, idx) f k q = k (err e) idx q
  and_then-Keeps (panic, idx) f k q = q

  module _ (policy : KeepsPolicy) where
    delete_server-Keeps : (s : K8s.Server) → Keeps (delete_server s)
    unfolding delete_server
    delete_server-Keeps s =
        with_namespace-Keeps s.metadata.namespace _ (λ ns. policy.on_rm_server ns s.metadata.name)

    reset_servers-Keeps : (ss : List K8s.Server) → Keeps (reset_servers ss)
    unfolding reset_servers
    reset_servers-Keeps ss idx q =
        and_then-Keeps _ _
          (λ r. for_all-Keeps Servers.rm_defunct (λ x. policy.on_rm_server x.0 x.1) _ r)
          (for_all-Keeps apply_server policy.on_apply_server ss (ok tt) idx q)

    delete_authz-Keeps : (a : K8s.ServerAuthorization) → Keeps (delete_authz a)
    unfolding delete_authz
    delete_authz-Keeps a =
        with_namespace-Keeps a.metadata.namespace _ (λ ns. policy.on_rm_authz ns a.metadata.name)

    reset_authzs-Keeps : (az : List K8s.ServerAuthorization) → Keeps (reset_authzs az)
    unfolding reset_authzs
    reset_authzs-Keeps az idx q =
        and_then-Keeps _ _
          (λ r. for_all-Keeps Authzs.rm_defunct (λ x. policy.on_rm_authz x.0 x.1) _ r)
          (for_all-Keeps apply_authz policy.on_apply_authz az (ok tt) idx q)

    pub server-Keeps : (e : Event K8s.Server) → Keeps (handle (server e))
    unfolding handle
    server-Keeps (applied s) = policy.on_apply_server s
    server-Keeps (deleted s) = delete_server-Keeps s
    server-Keeps (restarted ss) = reset_servers-Keeps ss

    pub authz-Keeps : (e : Event K8s.ServerAuthorization) → Keeps (handle (authz e))
    unfolding handle
    authz-Keeps (applied a) = policy.on_apply_authz a
    authz-Keeps (deleted a) = delete_authz-Keeps a
    authz-Keeps (restarted az) = reset_authzs-Keeps az

  module _ (each : KeepsEach) where
    policy_of : KeepsPolicy
    policy_of = record {
      on_apply_server = each.on_apply_server;
      on_rm_server = each.on_rm_server;
      on_apply_authz = each.on_apply_authz;
      on_rm_authz = each.on_rm_authz;
    }

    rm_pod-Keeps : (ns p : String) → Keeps (rm_pod ns p)
    unfolding rm_pod
    rm_pod-Keeps ns p idx q = elim (Bool-cases (clear_pending_pod ns p idx.nodes).0) [
      | inl e ↦ rw e (each.on_nodes idx (clear_pending_pod ns p idx.nodes).1 q)
      | inr e ↦ rw e (each.on_rm_pod ns p idx q)
    ]

    delete_pod-Keeps : (p : K8s.Pod) → Keeps (delete_pod p)
    unfolding delete_pod
    delete_pod-Keeps p =
        with_namespace-Keeps p.metadata.namespace _ (λ ns. rm_pod-Keeps ns p.metadata.name)

    reset_pods-Keeps : (ps : List K8s.Pod) → Keeps (reset_pods ps)
    unfolding reset_pods
    reset_pods-Keeps ps idx q =
        and_then-Keeps _ _ (λ r. for_all-Keeps rm_defunct (λ x. rm_pod-Keeps x.0 x.1) _ r)
          (for_all-Keeps apply_pod each.on_apply_pod ps (ok tt) _
            (each.on_nodes idx (clear_pending_pods idx.nodes) q))

    learn_node-Keeps :
        (name : String) (waiting : List K8s.Pod) (r : Result KubeletIps)
        → Keeps (learn_node name waiting r)
    unfolding learn_node
    learn_node-Keeps name waiting (ok ips) idx q =
        for_all-Keeps apply_pod each.on_apply_pod waiting (ok tt) _ (each.on_nodes idx _ q)
    learn_node-Keeps name waiting (err e) idx q = q
    learn_node-Keeps name waiting panic idx q = q

    apply_node-Keeps : (n : K8s.Node) → Keeps (apply_node n)
    unfolding apply_node
    apply_node-Keeps n idx q = elim (Bool-cases (is_known (get n.metadata.name idx.nodes))) [
      | inl e ↦ rw e q
      | inr e ↦ rw e (learn_node-Keeps n.metadata.name _ (try_from_node ip n) idx q)
    ]

    delete_node-Keeps : (name : String) → Keeps (delete_node name)
    unfolding delete_node
    delete_node-Keeps name idx q = elim (Bool-cases (contains_key name idx.nodes)) [
      | inl e ↦ rw e (each.on_nodes idx _ q)
      | inr e ↦ rw e q
    ]

    apply_nodes-Keeps :
        (ns : List K8s.Node) (prior : List String) (r : Result (Unit {0})) (idx : Index ip)
        → Q idx
        → Q (apply_nodes ns prior r idx).2
    unfolding apply_nodes
    apply_nodes-Keeps [] prior r idx q = q
    apply_nodes-Keeps (n ∷ ns) prior r idx q =
        let q' = apply_node-Keeps n idx q in
        elim (Bool-cases (contains prior n.metadata.name)) [
          | inl e ↦
              rw (e, apply_nodes) (apply_nodes-Keeps ns (without n.metadata.name prior) r idx q)
          | inr e ↦ elim (Result-cases (apply_node n idx).0) [
            | inl (u, d) ↦
                rw (e, d, apply_nodes) (apply_nodes-Keeps ns prior r (apply_node n idx).1 q')
            | inr (inl (x, d)) ↦
                rw (e, d, apply_nodes) (apply_nodes-Keeps ns prior (err x) (apply_node n idx).1 q')
            | inr (inr d) ↦ rw (e, d, apply_nodes) q'
          ]
        ]

    reset_nodes-Keeps : (ns : List K8s.Node) → Keeps (reset_nodes ns)
    unfolding reset_nodes
    reset_nodes-Keeps ns idx q =
        and_then-Keeps _ _ (λ r. for_all-Keeps delete_node delete_node-Keeps _ r)
          (apply_nodes-Keeps ns (known_names idx.nodes) (ok tt) idx q)

    pub handle-Keeps : (u : Update) → Keeps (handle u)
    unfolding handle
    handle-Keeps (node (applied n)) = apply_node-Keeps n
    handle-Keeps (node (deleted n)) = delete_node-Keeps n.metadata.name
    handle-Keeps (node (restarted ns)) = reset_nodes-Keeps ns
    handle-Keeps (pod (applied p)) = each.on_apply_pod p
    handle-Keeps (pod (deleted p)) = delete_pod-Keeps p
    handle-Keeps (pod (restarted ps)) = reset_pods-Keeps ps
    handle-Keeps (server e) = server-Keeps policy_of e
    handle-Keeps (authz e) = authz-Keeps policy_of e

    pub run-Keeps : (us : List Update) (idx : Index ip) → Q idx → Q (run us idx)
    unfolding run
    run-Keeps [] idx q = q
    run-Keeps (u ∷ us) idx q = run-Keeps us (handle u idx).1 (handle-Keeps u idx q)
