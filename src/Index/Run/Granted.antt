-- ===== src/Index/Run/Granted.antt =====
-- After any updates, each server has exactly the authorizations that select it.
pub mod Pods
pub mod Operations
use polixy.Prelude.{
  ℕ, String, ◌≡◌, refl, sym, subst, Option, none, some, List, inl, inr, string_eq, Bool-cases,
}
use polixy.Result.{Result, ok, err, panic}
use polixy.Map.{get}
use polixy.Map.Keys.{Distinct, insert-Distinct, remove-Distinct}
use polixy.Map.Values.{Each, empty-Each, insert-Each}
use polixy.Core.{Ipnet}
use polixy.K8s
use polixy.K8s.{PodSpec}
use polixy.Node.{KubeletIps}
use polixy.Lookup.{ByPort}
use polixy.Labels.{Labels-discrete}
use polixy.DefaultAllow.{DefaultAllow}
use polixy.Authz.{Authz, Authz-discrete}
use polixy.Server.{Server, eqb}
use polixy.Server.Authorizations.{
  grant, IsGranted, AllGranted, add_authz-AllGranted, remove_authz-AllGranted, apply-AllGranted,
  remove-AllGranted,
}
use polixy.Pod.{Pod}
use polixy.Index.{Namespace, NamespaceIndex, Index, new, or_new, namespace_or_new}
use polixy.Index.Pods.{
  apply_pod, add_pod, new_pod, old_pod, with_spec, when_ready, rm_indexed, store_pod, after_unset,
}
use polixy.Index.Servers.{apply_server, rm_server}
use polixy.Index.Authzs.{put_authz, store_entry, apply_made, apply_authz, rm_authz}
use polixy.Index.Run.{Update, run}
use polixy.Index.Run.Induction.{Keeps, KeepsEach, with_namespace-Keeps, run-Keeps}
use polixy.Index.Run.Granted.Pods.{AllInStep}
use polixy.Index.Run.Granted.Operations.{operations-InStep}

module _ {ip : Ipnet} where
  pub run-IsGranted :
      (nets : List ip.IpNet) (domain : String) (mode : DefaultAllow) (timeout : ℕ)
      (us : List Update) (name : String) (ns : Namespace ip) (srv_name : String) (srv : Server ip)
      → get name (run us (new nets domain mode timeout)).namespaces.index ≡ some ns
      → get srv_name ns.servers ≡ some srv
      → IsGranted ns.authzs srv_name srv
  unfolding new
  run-IsGranted nets domain mode timeout us name ns srv_name srv h k =
      ((run-Keeps AllInStep operations-InStep us (new nets domain mode timeout) empty-Each).at name
          ns h).1
        srv_name srv k

  -- In every state that a new index reaches, by any updates in any order, of any kind and whether
  -- they succeed or fail, a server has under each name exactly the authorization of its namespace
  -- that selects it by name or by its labels, and nothing where there is none or it does not.
  pub run-granted :
      (nets : List ip.IpNet) (domain : String) (mode : DefaultAllow) (timeout : ℕ)
      (us : List Update) (name : String) (ns : Namespace ip) (srv_name : String) (srv : Server ip)
      → get name (run us (new nets domain mode timeout)).namespaces.index ≡ some ns
      → get srv_name ns.servers ≡ some srv
      → (j : String) → get j srv.authorizations ≡ grant (get j ns.authzs) srv_name srv.meta.labels
  run-granted nets domain mode timeout us name ns srv_name srv h k =
      (run-IsGranted nets domain mode timeout us name ns srv_name srv h k).0
