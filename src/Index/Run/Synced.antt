-- ===== src/Index/Run/Synced.antt =====
-- The lookups hold exactly the indexed pods, with the receivers of their ports.
pub mod Matching
pub mod PodSteps
use polixy.Prelude.{
  ℕ, String, ◌≡◌, ◌≢◌, refl, sym, subst, ap, ◌∙◌, Bool, true, false, Option, none, some, List, [],
  ◌∷◌, inl, inr, arith, ◌==◌, nat_eq, string_eq, Bool-cases, Option-cases, if◌then◌else◌, ◌&&◌,
}
use polixy.Result.{Result, ok, err, panic}
use polixy.Map.{Map, get, insert, remove, collect}
use polixy.Map.Laws.{get-insert, get-remove}
use polixy.Map.Keys.{get-collect}
use polixy.Core.{Ipnet}
use polixy.K8s
use polixy.K8s.{PodSpec}
use polixy.Node.{KubeletIps, NodeIndex, get_or_push_pending}
use polixy.Lookup.{Rx, ByPort, ByNs, find, set, unset}
use polixy.Lookup.Laws.{find-set, find-unset, unset_missing}
use polixy.Labels.{Labels-discrete}
use polixy.DefaultAllow.{DefaultAllow, get_rx}
use polixy.Server.{Server, SrvIndex, eqb}
use polixy.Authz.{Authz, Authz-discrete}
use polixy.Pod.{
  Pod, PodIndex, Links, link_servers, link_pods, reset_ports, reset_server, extract_ports,
}
use polixy.Pod.Senders.{SameSenders, sender, link_servers-SameSenders, reset_ports-SameSenders}
use polixy.Pod.Extract.{receiver, extract_ports-IsExtracted}
use polixy.Index.{
  Namespace, NamespaceIndex, Index, Exec, new, or_new, with_namespace, namespace_or_new, put_ns,
}
use polixy.Index.Pods
use polixy.Index.Pods.{
  apply_pod, apply_in, default_mode, add_pod, new_pod, old_pod, with_spec, when_ready, rm_indexed,
  store_pod, after_unset, unset_pod,
}
use polixy.Index.Servers
use polixy.Index.Servers.{apply_server, rm_server}
use polixy.Index.Authzs
use polixy.Index.Authzs.{apply_made, apply_authz, rm_authz, store_entry}
use polixy.Node.Pending.{get_or_push_pending-known}
use polixy.Index.Run.{Update, run}
use polixy.Index.Run.Induction.{Keeps, KeepsEach, with_namespace-Keeps, run-Keeps}
use polixy.Index.Run.Synced.Matching.{
  Match, Similar, SyncedMaps, NsSynced, Synced, find_pod, Similar-refl, Match-none, Match-Similar,
  link_pods-Similar, reset_server-Similar, find_pod-insert, find_pod-there, put_ns-Synced,
  namespace-NsSynced, there-NsSynced, put-Similar-Synced,
}
use polixy.Index.Run.Synced.PodSteps.{apply_in-Synced, apply_pod-Synced, rm_from-Synced}

module _ {ip : Ipnet} where
  apply_server-Synced : (srv : K8s.Server) → Keeps {ip = ip} Synced (apply_server srv)
  unfolding apply_server Servers.apply_in
  apply_server-Synced srv = with_namespace-Keeps Synced srv.metadata.namespace _ λ name idx all.
      put-Similar-Synced name (namespace_or_new name idx.namespaces) _ idx
        (λ p. link_pods-Similar _ p _ idx.links) (namespace-NsSynced name idx all) all

  rm_server_entry-Synced :
      (name srv : String) (ns : Namespace ip) (o : Option (Server ip)) (idx : Index ip)
      → get name idx.namespaces.index ≡ some ns
      → Synced idx
      → Synced (Servers.rm_entry name srv ns o idx).1
  unfolding Servers.rm_entry
  rm_server_entry-Synced name srv ns none idx h all = all
  rm_server_entry-Synced name srv ns (some _) idx h all =
      put-Similar-Synced name ns _ idx (λ p. reset_server-Similar srv p ns.pods idx.links)
        (there-NsSynced name ns idx h all) all

  rm_server_from-Synced :
      (name srv : String) (o : Option (Namespace ip)) (idx : Index ip)
      → get name idx.namespaces.index ≡ o
      → Synced idx
      → Synced (Servers.rm_from name srv o idx).1
  unfolding Servers.rm_from
  rm_server_from-Synced name srv none idx h all = all
  rm_server_from-Synced name srv (some ns) idx h all =
      rm_server_entry-Synced name srv ns _ idx h all

  pub store_entry-same :
      (name : String) (a : Authz ip) (ns : Namespace ip) (o : Option (Authz ip)) (idx : Index ip)
      → ((store_entry name a ns o idx).1.lookups ≡ idx.lookups)
        × ((store_entry name a ns o idx).1.namespaces ≡ idx.namespaces)
        × ((store_entry name a ns o idx).0.pods ≡ ns.pods)
  unfolding store_entry
  store_entry-same name a ns none idx = (refl, refl, refl)
  store_entry-same name a ns (some old) idx = elim (Bool-cases (eqb (Authz-discrete ip) old a)) [
    | inl e ↦ rw (e, store_entry) (refl, refl, refl)
    | inr e ↦ rw (e, store_entry) (refl, refl, refl)
  ]

  apply_made-Synced :
      (name : String) (ns : Namespace ip) (authz : String) (r : Result (Authz ip)) (idx : Index ip)
      → NsSynced name ns idx.lookups
      → Synced idx
      → Synced (apply_made name ns authz r idx).1
  unfolding apply_made Authzs.store_authz
  apply_made-Synced name ns authz (ok a) idx mine all =
      let (l, m, same) = store_entry-same authz a ns (get authz ns.authzs) idx in
      rw (l, m)
        (put-Similar-Synced name ns (store_entry authz a ns (get authz ns.authzs) idx).0 idx
          (λ p.
            subst (λ pods. Similar (get p pods) (get p ns.pods)) (sym same)
              (Similar-refl (get p ns.pods)))
          mine all)
  apply_made-Synced name ns authz (err e) idx mine all = put_ns-Synced name ns idx all mine
  apply_made-Synced name ns authz panic idx mine all = put_ns-Synced name ns idx all mine

  apply_authz-Synced : (a : K8s.ServerAuthorization) → Keeps {ip = ip} Synced (apply_authz a)
  unfolding apply_authz Authzs.apply_in
  apply_authz-Synced a =
      with_namespace-Keeps Synced a.metadata.namespace _
        λ name idx all. apply_made-Synced name _ _ _ idx (namespace-NsSynced name idx all) all

  rm_authz_from-Synced :
      (name authz : String) (o : Option (Namespace ip)) (idx : Index ip)
      → get name idx.namespaces.index ≡ o
      → Synced idx
      → Synced (Authzs.rm_from name authz o idx)
  unfolding Authzs.rm_from
  rm_authz_from-Synced name authz none idx h all = all
  rm_authz_from-Synced name authz (some ns) idx h all =
      put-Similar-Synced name ns _ idx (λ p. Similar-refl (get p ns.pods))
        (there-NsSynced name ns idx h all) all

  pub operations-Synced : KeepsEach {ip = ip} Synced
  unfolding rm_indexed rm_server rm_authz
  operations-Synced = record {
    on_nodes = λ idx nodes all. all;
    on_apply_pod = apply_pod-Synced;
    on_rm_pod = λ name pod idx all. rm_from-Synced name pod _ idx refl all;
    on_apply_server = apply_server-Synced;
    on_rm_server = λ name srv idx all. rm_server_from-Synced name srv _ idx refl all;
    on_apply_authz = apply_authz-Synced;
    on_rm_authz = λ name authz idx all. rm_authz_from-Synced name authz _ idx refl all;
  }

module _ (ip : Ipnet) where
  -- In every state that a new index reaches, by any updates in any order, a pod is in the lookups
  -- exactly if it is in the index, and the receiver of each port there is that of the port's sender.
  pub run-Synced :
      (nets : List ip.IpNet) (domain : String) (mode : DefaultAllow) (timeout : ℕ)
      (us : List Update)
      → Synced (run us (new {ip = ip} nets domain mode timeout))
  unfolding new get
  run-Synced nets domain mode timeout us =
      run-Keeps Synced operations-Synced us (new nets domain mode timeout) (λ n p. tt)

  pub with_namespace-some :
      (o : Option String) (name : String) (f : String → Exec ip) (idx : Index ip)
      → o ≡ some name
      → with_namespace o f idx ≡ f name idx
  unfolding with_namespace
  with_namespace-some o name f idx h = ap (λ x. with_namespace x f idx) h

  pub apply_fine :
      (pod : K8s.Pod) (name : String) (idx : Index ip)
      → pod.metadata.namespace ≡ some name
      → Synced idx
      → (apply_pod pod idx).0 ≢ panic
  unfolding apply_pod
  apply_fine pod name idx h all =
      subst (λ r. r.0 ≢ panic) (sym (with_namespace-some pod.metadata.namespace name _ idx h))
        (apply_in-Synced name pod idx all).1
