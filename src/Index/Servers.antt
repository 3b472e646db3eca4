-- ===== src/Index/Servers.antt =====
-- The server operations of controller/k8s/index/src/server.rs.
use polixy.Prelude.{String, Option, none, some, List, map, string_eq}
use polixy.Result.{ok, err, missing_namespace, missing_server}
use polixy.Map.{get, remove}
use polixy.Core.{Ipnet}
use polixy.K8s
use polixy.Server.{Server, apply}
use polixy.Pod.{link_pods, reset_server}
use polixy.Index.{
  Namespace, Index, Exec, with_namespace, namespace_or_new, put_ns, for_all, and_then, prior_names,
  forget_all, defunct,
}

module _ {ip : Ipnet} where
  -- `Index::apply_server` in its namespace: the server, then the pods
  unfoldable pub apply_in : String → Namespace ip → K8s.Server → Index ip → Index ip
  apply_in ns_name ns srv idx =
      let (servers, configs) = apply srv ns.authzs ns.servers idx.configs in
      let (pods, links) = link_pods servers ns.pods idx.links in
      put_ns ns_name (record ns { servers = servers; pods = pods })
        (record idx { links = links; configs = configs })

  -- `Index::apply_server`
  unfoldable pub apply_server : K8s.Server → Exec ip
  apply_server srv =
      with_namespace srv.metadata.namespace
        λ ns_name idx. (ok tt, apply_in ns_name (namespace_or_new ns_name idx.namespaces) srv idx)

  unfoldable pub rm_entry : String → String → Namespace ip → Option (Server ip) → Exec ip
  rm_entry ns_name srv_name ns none idx = (err (missing_server srv_name), idx)
  rm_entry ns_name srv_name ns (some _) idx =
      let (pods, links) = reset_server srv_name ns.pods idx.links in
      (
        ok tt,
        put_ns ns_name (record ns { servers = remove srv_name ns.servers; pods = pods })
            (record idx { links = links }),
      )

  unfoldable pub rm_from : String → String → Option (Namespace ip) → Exec ip
  unfolding rm_entry
  rm_from ns_name srv_name none idx = (err (missing_namespace ns_name), idx)
  rm_from ns_name srv_name (some ns) idx =
      rm_entry ns_name srv_name ns (get srv_name ns.servers) idx

  -- `Index::rm_server`
  unfoldable pub rm_server : String → String → Exec ip
  unfolding rm_from
  rm_server ns_name srv_name idx = rm_from ns_name srv_name (get ns_name idx.namespaces.index) idx

  -- `Index::delete_server`
  unfoldable pub delete_server : K8s.Server → Exec ip
  delete_server srv =
      with_namespace srv.metadata.namespace λ ns_name idx. rm_server ns_name srv.metadata.name idx

  unfoldable pub rm_defunct : String × String → Exec ip
  rm_defunct (ns_name, srv_name) idx = rm_server ns_name srv_name idx

  -- `Index::reset_servers`
  unfoldable pub reset_servers : List K8s.Server → Exec ip
  unfolding rm_defunct
  reset_servers srvs idx =
      let prior = prior_names (λ (ns : Namespace ip). ns.servers) idx.namespaces.index in
      let gone = defunct (forget_all (map (λ (s : K8s.Server). s.metadata) srvs) prior) in
      and_then (for_all apply_server srvs (ok tt) idx) (λ result. for_all rm_defunct gone result)
