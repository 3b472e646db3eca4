-- ===== src/Index/Run/Synced/PodSteps.antt =====
-- The operations on pods keep the lookups in step with the index.
use polixy.Prelude.{
  String, ◌≡◌, ◌≢◌, refl, sym, subst, Option, none, some, inl, inr, arith, ◌==◌, nat_eq, string_eq,
  Bool-cases,
}
use polixy.Result.{Result, ok, err, panic}
use polixy.Map.{get, insert, remove}
use polixy.Map.Laws.{get-insert, get-remove}
use polixy.Map.Keys.{get-collect}
use polixy.Core.{Ipnet}
use polixy.K8s
use polixy.K8s.{PodSpec}
use polixy.Node.{KubeletIps, get_or_push_pending}
use polixy.Lookup.{ByPort, find, unset}
use polixy.Lookup.Laws.{find-set, find-unset}
use polixy.Labels.{Labels-discrete}
use polixy.DefaultAllow.{get_rx}
use polixy.Server.{eqb}
use polixy.Pod.{Pod, link_servers, extract_ports}
use polixy.Pod.Senders.{link_servers-SameSenders}
use polixy.Pod.Extract.{extract_ports-IsExtracted}
use polixy.Index.{Namespace, Index, namespace_or_new, put_ns}
use polixy.Index.Pods
use polixy.Index.Pods.{
  apply_pod, apply_in, default_mode, add_pod, new_pod, old_pod, with_spec, when_ready, rm_indexed,
  store_pod, after_unset, unset_pod,
}
use polixy.Node.Pending.{get_or_push_pending-known}
use polixy.Index.Run.Induction.{Keeps, with_namespace-Keeps}
use polixy.Index.Run.Synced.Matching.{
  Match, NsSynced, Synced, Match-none, Match-Similar, find_pod-insert, find_pod-there,
  put_ns-Synced, namespace-NsSynced, there-NsSynced,
}

module _ {ip : Ipnet} where
  -- A new pod goes to the lookups and to the index, and the lookups do not refuse it.
  add_pod-Synced :
      (name : String) (ns : Namespace ip) (pod : K8s.Pod) (spec : PodSpec) (ips : KubeletIps)
      (idx : Index ip)
      → Synced idx
      → NsSynced name ns idx.lookups
      → get pod.metadata.name ns.pods ≡ none
      → Synced (add_pod name ns pod spec ips idx).1 × ((add_pod name ns pod spec ips idx).0 ≡ ok tt)
  unfolding add_pod store_pod
  add_pod-Synced name ns pod spec ips idx all mine absent =
      let pod_name = pod.metadata.name in
      let rx = get_rx idx.default_allows (default_mode ns pod.metadata) in
      let found = extract_ports spec rx ips idx.links in
      let good = extract_ports-IsExtracted rx ips spec idx.links in
      let entry : Pod = record {
        ports = found.ports;
        labels = pod.metadata.labels;
        default_allow_rx = rx;
      } in
      let linked = (link_servers ns.servers entry found.links).0 in
      let same = link_servers-SameSenders ns.servers entry found.links in
      let free : find name pod_name idx.lookups ≡ none =
        Match-none _ (rw absent at (mine pod_name)) in
      let (stored, at) = find-set name pod_name found.lookups idx.lookups free in
      rw stored (
        (λ n p.
            rw
              (
                find_pod-insert name n p (record ns { pods = insert pod_name linked ns.pods })
                    idx.namespaces.index,
                at n p,
                get-insert pod_name p linked ns.pods,
              )
              (elim (Bool-cases (name == n)) [
                | inl here ↦ elim (Bool-cases (pod_name == p)) [
                  | inl this ↦
                      rw (here, this)
                        λ q.
                          ground (
                            arith,
                            get-collect q found.lookups good.distinct,
                            good.synced q,
                            same q,
                          )
                  | inr other ↦ rw (here, other) (rw (← (string_eq.beq_iff name n).0 here) (mine p))
                ]
                | inr other ↦ rw other (all n p)
              ])),
        refl,
      )

  with_spec-Synced :
      (name : String) (ns : Namespace ip) (pod : K8s.Pod) (ips : KubeletIps) (o : Option PodSpec)
      (idx : Index ip)
      → Synced idx
      → NsSynced name ns idx.lookups
      → get pod.metadata.name ns.pods ≡ none
      → Synced (with_spec name ns pod ips o idx).1 × ((with_spec name ns pod ips o idx).0 ≢ panic)
  unfolding with_spec
  with_spec-Synced name ns pod ips none idx all mine absent = (all, ground arith)
  with_spec-Synced name ns pod ips (some spec) idx all mine absent =
      let (kept, fine) = add_pod-Synced name ns pod spec ips idx all mine absent in
      (kept, ground (arith, fine))

  when_ready-Synced :
      (name : String) (ns : Namespace ip) (o : Option (K8s.Pod × KubeletIps)) (idx : Index ip)
      → Synced idx
      → NsSynced name ns idx.lookups
      → ((pod : K8s.Pod) (ips : KubeletIps)
          → o ≡ some (pod, ips)
          → get pod.metadata.name ns.pods ≡ none)
      → Synced (when_ready name ns o idx).1 × ((when_ready name ns o idx).0 ≢ panic)
  unfolding when_ready
  when_ready-Synced name ns none idx all mine h = (all, ground arith)
  when_ready-Synced name ns (some (pod, ips)) idx all mine h =
      with_spec-Synced name ns pod ips pod.spec idx all mine (h pod ips refl)

  old_pod-Synced :
      (name : String) (ns : Namespace ip) (pod : K8s.Pod) (entry : Pod) (idx : Index ip)
      → Synced idx
      → NsSynced name ns idx.lookups
      → get pod.metadata.name ns.pods ≡ some entry
      → Synced (old_pod name ns pod entry idx).1 × ((old_pod name ns pod entry idx).0 ≢ panic)
  unfolding old_pod
  old_pod-Synced name ns pod entry idx all mine there =
      let entry' : Pod = record entry { labels = pod.metadata.labels } in
      let linked = (link_servers ns.servers entry' idx.links).0 in
      let same = link_servers-SameSenders ns.servers entry' idx.links in
      elim (Bool-cases (eqb Labels-discrete entry.labels pod.metadata.labels)) [
        | inl e ↦ rw (e, old_pod) (all, ground arith)
        | inr e ↦
            rw (e, old_pod)
              (
                put_ns-Synced name _
                    (record idx { links = (link_servers ns.servers entry' idx.links).1 }) all
                    (λ p.
                      rw (get-insert pod.metadata.name p linked ns.pods)
                        (elim (Bool-cases (pod.metadata.name == p)) [
                          | inl this ↦ rw this (
                              Match-Similar (some linked) (some entry) _ same (
                                rw there at (
                                  subst (λ n. Match (get n ns.pods) (find name p idx.lookups))
                                    (sym ((string_eq.beq_iff _ p).0 this)) (mine p))))
                          | inr other ↦ rw other (mine p)
                        ])),
                ground arith,
              )
      ]

  apply_entry-Synced :
      (name : String) (ns : Namespace ip) (pod : K8s.Pod) (o : Option Pod) (idx : Index ip)
      → Synced idx
      → NsSynced name ns idx.lookups
      → get pod.metadata.name ns.pods ≡ o
      → Synced (Pods.apply_entry name ns pod o idx).1
        × ((Pods.apply_entry name ns pod o idx).0 ≢ panic)
  unfolding Pods.apply_entry new_pod
  apply_entry-Synced name ns pod none idx all mine h =
      when_ready-Synced name ns _ (record idx { nodes = (get_or_push_pending pod idx.nodes).1 }) all
        mine
        (λ pod' ips e.
          subst (λ (q : K8s.Pod). get q.metadata.name ns.pods ≡ none)
            (sym (get_or_push_pending-known pod pod' ips idx.nodes e).0) h)
  apply_entry-Synced name ns pod (some entry) idx all mine h =
      old_pod-Synced name ns pod entry idx all mine h

  -- A pod in a namespace is applied without a panic, and the lookups keep up with the index.
  pub apply_in-Synced :
      (name : String) (pod : K8s.Pod) (idx : Index ip)
      → Synced idx
      → Synced
          (apply_in name
            (namespace_or_new name idx.namespaces)
            pod
            (put_ns name (namespace_or_new name idx.namespaces) idx)).1
        × ((apply_in name
              (namespace_or_new name idx.namespaces)
              pod
              (put_ns name (namespace_or_new name idx.namespaces) idx)).0
            ≢ panic)
  unfolding apply_in
  apply_in-Synced name pod idx all =
      let mine = namespace-NsSynced name idx all in
      apply_entry-Synced name _ pod _ _ (put_ns-Synced name _ idx all mine) mine refl

  pub apply_pod-Synced : (pod : K8s.Pod) → Keeps {ip = ip} Synced (apply_pod pod)
  unfolding apply_pod
  apply_pod-Synced pod =
      with_namespace-Keeps Synced pod.metadata.namespace _
        λ name idx all. (apply_in-Synced name pod idx all).0

  after_unset-Synced : (r : Result ByPort) → Keeps {ip = ip} Synced (after_unset r)
  unfolding after_unset
  after_unset-Synced (ok _) idx all = all
  after_unset-Synced (err e) idx all = all
  after_unset-Synced panic idx all = all

  rm_entry-Synced :
      (name pod : String) (ns : Namespace ip) (o : Option Pod) (idx : Index ip)
      → get name idx.namespaces.index ≡ some ns
      → get pod ns.pods ≡ o
      → Synced idx
      → Synced (Pods.rm_entry name pod ns o idx).1
  unfolding Pods.rm_entry unset_pod
  rm_entry-Synced name pod ns none idx h k all = all
  rm_entry-Synced name pod ns (some entry) idx h k all = after_unset-Synced _ _ (removed _ refl)
    where
      removed :
          (b : Option ByPort)
          → find name pod idx.lookups ≡ b
          → Synced (record (put_ns name (record ns { pods = remove pod ns.pods }) idx) {
            lookups = (unset name pod idx.lookups).1;
          })
      removed none e n p =
          elim (rw (find_pod-there name pod ns idx.namespaces.index h, k, e) at (all name pod)) [ ]
      removed (some ports) e n p =
          rw
            (
              find_pod-insert name n p (record ns { pods = remove pod ns.pods })
                  idx.namespaces.index,
              (find-unset name pod idx.lookups e).1 n p,
              get-remove pod p ns.pods,
            )
            (elim (Bool-cases (name == n)) [
              | inl here ↦ elim (Bool-cases (pod == p)) [
                | inl this ↦ rw (here, this) tt
                | inr other ↦
                    rw (here, other)
                      (rw (← (string_eq.beq_iff name n).0 here)
                        (there-NsSynced name ns idx h all p))
              ]
              | inr other ↦ rw other (all n p)
            ])

  pub rm_from-Synced :
      (name pod : String) (o : Option (Namespace ip)) (idx : Index ip)
      → get name idx.namespaces.index ≡ o
      → Synced idx
      → Synced (Pods.rm_from name pod o idx).1
  unfolding Pods.rm_from
  rm_from-Synced name pod none idx h all = all
  rm_from-Synced name pod (some ns) idx h all = rm_entry-Synced name pod ns _ idx h refl all
