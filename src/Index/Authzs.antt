-- ===== src/Index/Authzs.antt =====
-- The authorization operations of controller/k8s/index/src/authz.rs.
use polixy.Prelude.{String, Option, none, some, List, map, string_eq, if◌then◌else◌}
use polixy.Result.{Result, ok, err, panic}
use polixy.Map.{get, insert, remove}
use polixy.Core.{Ipnet}
use polixy.K8s
use polixy.Authz.{Authz, Authz-discrete, mk_authz}
use polixy.Server.{add_authz, remove_authz, eqb}
use polixy.Index.{
  Namespace, Index, Exec, with_namespace, namespace_or_new, put_ns, for_all, and_then, prior_names,
  forget_all, defunct,
}

module _ {ip : Ipnet} where
  abbrev pub put_authz : String → Authz ip → Namespace ip → Index ip → Namespace ip × Index ip
  put_authz name authz ns idx =
      let (servers, configs) = add_authz name authz.servers authz.clients ns.servers idx.configs in
      (
        record ns { servers = servers; authzs = insert name authz ns.authzs },
        record idx { configs = configs },
      )

  unfoldable pub store_entry :
      String → Authz ip → Namespace ip → Option (Authz ip) → Index ip → Namespace ip × Index ip
  store_entry name authz ns none idx = put_authz name authz ns idx
  store_entry name authz ns (some old) idx =
      if eqb (Authz-discrete ip) old authz then (ns, idx) else put_authz name authz ns idx

  -- the entry of `AuthzIndex::apply`: an authorization that is there unchanged is left alone
  unfoldable pub store_authz : String → Authz ip → Namespace ip → Index ip → Namespace ip × Index ip
  unfolding store_entry
  store_authz name authz ns idx = store_entry name authz ns (get name ns.authzs) idx

  unfoldable pub apply_made : String → Namespace ip → (name : String) → Result (Authz ip) → Exec ip
  apply_made ns_name ns name (ok authz) idx =
      let (ns', idx') = store_authz name authz ns idx in (ok tt, put_ns ns_name ns' idx')
  apply_made ns_name ns name (err e) idx = (err e, put_ns ns_name ns idx)
  apply_made ns_name ns name panic idx = (panic, put_ns ns_name ns idx)

  -- `AuthzIndex::apply`; the namespace has been entered by then
  unfoldable pub apply_in : String → Namespace ip → K8s.ServerAuthorization → Exec ip
  unfolding apply_made
  apply_in ns_name ns srv idx =
      apply_made ns_name ns srv.metadata.name (mk_authz ip srv idx.identity_domain) idx

  -- `Index::apply_authz`
  unfoldable pub apply_authz : K8s.ServerAuthorization → Exec ip
  apply_authz srv =
      with_namespace srv.metadata.namespace
        λ ns_name idx. apply_in ns_name (namespace_or_new ns_name idx.namespaces) srv idx

  unfoldable pub rm_from : String → String → Option (Namespace ip) → Index ip → Index ip
  rm_from ns_name name none idx = idx
  rm_from ns_name name (some ns) idx =
      let (servers, configs) = remove_authz name ns.servers idx.configs in
      put_ns ns_name (record ns { servers = servers; authzs = remove name ns.authzs })
        (record idx { configs = configs })

  -- the body of `delete_authz`, and of the last loop of `reset_authzs`
  unfoldable pub rm_authz : String → String → Index ip → Index ip
  unfolding rm_from
  rm_authz ns_name name idx = rm_from ns_name name (get ns_name idx.namespaces.index) idx

  -- `Index::delete_authz`
  unfoldable pub delete_authz : K8s.ServerAuthorization → Exec ip
  delete_authz srv =
      with_namespace srv.metadata.namespace
        λ ns_name idx. (ok tt, rm_authz ns_name srv.metadata.name idx)

  unfoldable pub rm_defunct : String × String → Exec ip
  rm_defunct (ns_name, name) idx = (ok tt, rm_authz ns_name name idx)

  -- `Index::reset_authzs`
  unfoldable pub reset_authzs : List K8s.ServerAuthorization → Exec ip
  unfolding rm_defunct
  reset_authzs authzs idx =
      let prior = prior_names (λ (ns : Namespace ip). ns.authzs) idx.namespaces.index in
      let gone =
        defunct (forget_all (map (λ (a : K8s.ServerAuthorization). a.metadata) authzs) prior) in
      and_then (for_all apply_authz authzs (ok tt) idx) (λ result. for_all rm_defunct gone result)
