-- ===== src/Index/Run/Granted/Operations.antt =====
-- Each operation of the index leaves the servers with the authorizations that select them.
use polixy.Prelude.{
  String, ◌≡◌, refl, sym, subst, Option, none, some, inl, inr, string_eq, Bool-cases,
}
use polixy.Result.{Result, ok, err, panic}
use polixy.Map.{get}
use polixy.Map.Keys.{insert-Distinct, remove-Distinct}
use polixy.Map.Values.{Each, insert-Each}
use polixy.Core.{Ipnet}
use polixy.K8s
use polixy.K8s.{PodSpec}
use polixy.Authz.{Authz, Authz-discrete}
use polixy.Server.{Server, eqb}
use polixy.Server.Authorizations.{
  add_authz-AllGranted, remove_authz-AllGranted, apply-AllGranted, remove-AllGranted,
}
use polixy.Index.{Namespace, NamespaceIndex, Index}
use polixy.Index.Pods.{rm_indexed}
use polixy.Index.Servers
use polixy.Index.Servers.{apply_server, rm_server}
use polixy.Index.Authzs
use polixy.Index.Authzs.{put_authz, store_entry, apply_made, apply_authz, rm_authz}
use polixy.Index.Run.Induction.{Keeps, KeepsEach, with_namespace-Keeps}
use polixy.Index.Run.Granted.Pods.{
  InStep, AllInStep, namespace-InStep, apply_pod-InStep, rm_from-InStep,
}

module _ {ip : Ipnet} where
  apply_server-InStep : (srv : K8s.Server) → Keeps {ip = ip} AllInStep (apply_server srv)
  unfolding apply_server Servers.apply_in
  apply_server-InStep srv = with_namespace-Keeps AllInStep srv.metadata.namespace _ λ name idx all.
      let (d, g) = namespace-InStep name idx all in
      insert-Each name _ all (d, apply-AllGranted srv _ _ idx.configs d g)

  rm_server_entry-InStep :
      (name srv : String) (ns : Namespace ip) (o : Option (Server ip))
      → InStep ns
      → Keeps {ip = ip} AllInStep (Servers.rm_entry name srv ns o)
  unfolding Servers.rm_entry
  rm_server_entry-InStep name srv ns none p idx all = all
  rm_server_entry-InStep name srv ns (some _) (d, g) idx all =
      insert-Each name _ all (d, remove-AllGranted srv ns.authzs ns.servers g)

  rm_server_from-InStep :
      (name srv : String) (o : Option (Namespace ip)) (idx : Index ip)
      → ((ns : Namespace ip) → o ≡ some ns → InStep ns)
      → AllInStep idx
      → AllInStep (Servers.rm_from name srv o idx).1
  unfolding Servers.rm_from
  rm_server_from-InStep name srv none idx h all = all
  rm_server_from-InStep name srv (some ns) idx h all =
      rm_server_entry-InStep name srv ns _ (h ns refl) idx all

  put_authz-InStep :
      (name : String) (a : Authz ip) (ns : Namespace ip) (idx : Index ip)
      → InStep ns
      → InStep (put_authz name a ns idx).0
  put_authz-InStep name a ns idx (d, g) =
      (insert-Distinct name a ns.authzs d, add_authz-AllGranted name a ns.authzs ns.servers _ g)

  store_entry-InStep :
      (name : String) (a : Authz ip) (ns : Namespace ip) (o : Option (Authz ip)) (idx : Index ip)
      → InStep ns
      → InStep (store_entry name a ns o idx).0
  unfolding store_entry
  store_entry-InStep name a ns none idx p = put_authz-InStep name a ns idx p
  store_entry-InStep name a ns (some old) idx p =
      elim (Bool-cases (eqb (Authz-discrete ip) old a)) [
        | inl e ↦ rw (e, store_entry) p
        | inr e ↦ rw (e, store_entry) (put_authz-InStep name a ns idx p)
      ]

  namespaces-store_entry :
      (name : String) (a : Authz ip) (ns : Namespace ip) (o : Option (Authz ip)) (idx : Index ip)
      → (store_entry name a ns o idx).1.namespaces ≡ idx.namespaces
  unfolding store_entry
  namespaces-store_entry name a ns none idx = refl
  namespaces-store_entry name a ns (some old) idx =
      elim (Bool-cases (eqb (Authz-discrete ip) old a)) [
        | inl e ↦ rw (e, store_entry)
        | inr e ↦ rw (e, store_entry)
      ]

  apply_made-InStep :
      (name : String) (ns : Namespace ip) (authz : String) (r : Result (Authz ip))
      → InStep ns
      → Keeps {ip = ip} AllInStep (apply_made name ns authz r)
  unfolding apply_made Authzs.store_authz
  apply_made-InStep name ns authz (ok a) p idx all =
      insert-Each name _
        (subst (λ (nss : NamespaceIndex ip). Each InStep nss.index)
          (sym (namespaces-store_entry authz a ns (get authz ns.authzs) idx)) all)
        (store_entry-InStep authz a ns _ idx p)
  apply_made-InStep name ns authz (err e) p idx all = insert-Each name ns all p
  apply_made-InStep name ns authz panic p idx all = insert-Each name ns all p

  apply_authz-InStep : (a : K8s.ServerAuthorization) → Keeps {ip = ip} AllInStep (apply_authz a)
  unfolding apply_authz Authzs.apply_in
  apply_authz-InStep a =
      with_namespace-Keeps AllInStep a.metadata.namespace _
        λ name idx all. apply_made-InStep name _ _ _ (namespace-InStep name idx all) idx all

  rm_authz_from-InStep :
      (name authz : String) (o : Option (Namespace ip)) (idx : Index ip)
      → ((ns : Namespace ip) → o ≡ some ns → InStep ns)
      → AllInStep idx
      → AllInStep (Authzs.rm_from name authz o idx)
  unfolding Authzs.rm_from
  rm_authz_from-InStep name authz none idx h all = all
  rm_authz_from-InStep name authz (some ns) idx h all =
      let (d, g) = h ns refl in
      insert-Each name _ all
        (remove-Distinct authz ns.authzs d, remove_authz-AllGranted authz ns.authzs ns.servers _ g)

  pub operations-InStep : KeepsEach {ip = ip} AllInStep
  unfolding rm_indexed rm_server rm_authz
  operations-InStep = record {
    on_nodes = λ idx nodes all. all;
    on_apply_pod = apply_pod-InStep;
    on_rm_pod = λ name pod idx all. rm_from-InStep name pod _ idx (all.at name) all;
    on_apply_server = apply_server-InStep;
    on_rm_server = λ name srv idx all. rm_server_from-InStep name srv _ idx (all.at name) all;
    on_apply_authz = apply_authz-InStep;
    on_rm_authz = λ name authz idx all. rm_authz_from-InStep name authz _ idx (all.at name) all;
  }
