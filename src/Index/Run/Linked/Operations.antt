-- ===== src/Index/Run/Linked/Operations.antt =====
-- Every operation keeps the ports of the pods linked.
use polixy.Prelude.{String, ◌≡◌, refl, Option, none, some, inl, inr, nat_eq, string_eq, Bool-cases}
use polixy.Result.{Result, ok, err, panic}
use polixy.Map.{get}
use polixy.Map.Keys.{Distinct, remove-Distinct}
use polixy.Core.{Ipnet}
use polixy.K8s
use polixy.K8s.{PodSpec}
use polixy.Authz.{Authz, Authz-discrete}
use polixy.Server.{Server, eqb}
use polixy.Server.Kept.{
  Extends, add_authz-Extends, add_authz-Distinct, remove_authz-Extends, remove_authz-Distinct,
  apply-Extends, apply-Distinct,
}
use polixy.Pod.Linked.Pods.{Extends-LinkedPods, link_pods-PodsEffect, reset_server-PodsEffect}
use polixy.Pod.Linked.Changes.{same-PodsEffect}
use polixy.Index.{Namespace, Index, namespace_or_new, put_ns}
use polixy.Index.Pods.{rm_indexed}
use polixy.Index.Servers
use polixy.Index.Servers.{apply_server, rm_server}
use polixy.Index.Authzs
use polixy.Index.Authzs.{put_authz, store_entry, apply_made, apply_authz, rm_authz}
use polixy.Index.Run.Induction.{Keeps, KeepsEach, with_namespace-Keeps}
use polixy.Index.Run.Linked.Channels.{namespace-at, put_from-AllLinked}
use polixy.Index.Run.Linked.PodSteps.{
  InLinks, At, put_ns-InLinks, there-At, apply_pod-InLinks, rm_from-InLinks,
}

module _ {ip : Ipnet} where
  apply_server-InLinks : (srv : K8s.Server) → Keeps {ip = ip} InLinks (apply_server srv)
  unfolding apply_server Servers.apply_in
  apply_server-InLinks srv = with_namespace-Keeps InLinks srv.metadata.namespace _ λ name idx all.
      let ns = namespace_or_new name idx.namespaces in
      put_from-AllLinked _ _ _ idx.links _ name ns _ (namespace-at name idx.namespaces)
        (λ dist l.
          let dist' = apply-Distinct srv ns.authzs ns.servers idx.configs dist in
          (
            dist',
            link_pods-PodsEffect _ _ ns.pods idx.links dist' (
                Extends-LinkedPods _ ns.servers _ ns.pods idx.links
                  (apply-Extends srv ns.authzs ns.servers idx.configs) l),
          ))
        all

  rm_server_entry-InLinks :
      (name srv : String) (ns : Namespace ip) (o : Option (Server ip)) (idx : Index ip)
      → At name ns idx
      → InLinks idx
      → InLinks (Servers.rm_entry name srv ns o idx).1
  unfolding Servers.rm_entry
  rm_server_entry-InLinks name srv ns none idx from all = all
  rm_server_entry-InLinks name srv ns (some _) idx from all =
      put_from-AllLinked _ _ _ idx.links _ name ns _ from
        (λ dist l. (
          remove-Distinct srv ns.servers dist,
          reset_server-PodsEffect _ ns.servers srv ns.pods idx.links l,
        ))
        all

  rm_server_from-InLinks :
      (name srv : String) (o : Option (Namespace ip)) (idx : Index ip)
      → get name idx.namespaces.index ≡ o
      → InLinks idx
      → InLinks (Servers.rm_from name srv o idx).1
  unfolding Servers.rm_from
  rm_server_from-InLinks name srv none idx h all = all
  rm_server_from-InLinks name srv (some ns) idx h all =
      rm_server_entry-InLinks name srv ns _ idx (there-At name ns idx h) all

  -- servers that keep their names and their channels
  keep-InLinks :
      (name : String) (ns ns' : Namespace ip) (idx : Index ip)
      → At name ns idx
      → (Distinct ns.servers → Distinct ns'.servers)
      → Extends ns.servers ns'.servers
      → ns'.pods ≡ ns.pods
      → InLinks idx
      → InLinks (put_ns name ns' idx)
  keep-InLinks name ns ns' idx from d ext pods all =
      put_from-AllLinked _ _ _ idx.links idx.links name ns ns' from
        (λ dist l. (
          d dist,
          rw pods (
              same-PodsEffect _ ns'.servers ns.pods idx.links
                (Extends-LinkedPods _ ns.servers ns'.servers ns.pods idx.links ext l)),
        ))
        all

  store_entry-InLinks :
      (name authz : String) (a : Authz ip) (ns : Namespace ip) (o : Option (Authz ip))
      (idx : Index ip)
      → At name ns idx
      → InLinks idx
      → let (ns', idx') = store_entry authz a ns o idx in InLinks (put_ns name ns' idx')
  unfolding store_entry
  store_entry-InLinks name authz a ns none idx from all =
      keep-InLinks name ns _ idx from
        (add_authz-Distinct authz a.servers a.clients ns.servers idx.configs)
        (add_authz-Extends authz a.servers a.clients ns.servers idx.configs) refl all
  store_entry-InLinks name authz a ns (some old) idx from all =
      elim (Bool-cases (eqb (Authz-discrete ip) old a)) [
        | inl e ↦ rw (e, store_entry) (put_ns-InLinks name ns ns idx from refl refl all)
        | inr e ↦
            rw (e, store_entry)
              (keep-InLinks name ns (put_authz authz a ns idx).0 idx from
                (add_authz-Distinct authz a.servers a.clients ns.servers idx.configs)
                (add_authz-Extends authz a.servers a.clients ns.servers idx.configs) refl all)
      ]

  apply_made-InLinks :
      (name : String) (ns : Namespace ip) (authz : String) (r : Result (Authz ip)) (idx : Index ip)
      → At name ns idx
      → InLinks idx
      → InLinks (apply_made name ns authz r idx).1
  unfolding apply_made Authzs.store_authz
  apply_made-InLinks name ns authz (ok a) idx from all =
      store_entry-InLinks name authz a ns (get authz ns.authzs) idx from all
  apply_made-InLinks name ns authz (err e) idx from all =
      put_ns-InLinks name ns ns idx from refl refl all
  apply_made-InLinks name ns authz panic idx from all =
      put_ns-InLinks name ns ns idx from refl refl all

  apply_authz-InLinks : (a : K8s.ServerAuthorization) → Keeps {ip = ip} InLinks (apply_authz a)
  unfolding apply_authz Authzs.apply_in
  apply_authz-InLinks a = with_namespace-Keeps InLinks a.metadata.namespace _ λ name idx all.
      apply_made-InLinks name (namespace_or_new name idx.namespaces) _ _ idx
        (namespace-at name idx.namespaces) all

  rm_authz_from-InLinks :
      (name authz : String) (o : Option (Namespace ip)) (idx : Index ip)
      → get name idx.namespaces.index ≡ o
      → InLinks idx
      → InLinks (Authzs.rm_from name authz o idx)
  unfolding Authzs.rm_from
  rm_authz_from-InLinks name authz none idx h all = all
  rm_authz_from-InLinks name authz (some ns) idx h all =
      keep-InLinks name ns _ idx (there-At name ns idx h)
        (remove_authz-Distinct authz ns.servers idx.configs)
        (remove_authz-Extends authz ns.servers idx.configs) refl all

  pub operations-InLinks : KeepsEach {ip = ip} InLinks
  unfolding rm_indexed rm_server rm_authz
  operations-InLinks = record {
    on_nodes = λ idx nodes all. all;
    on_apply_pod = apply_pod-InLinks;
    on_rm_pod = λ name pod idx all. rm_from-InLinks name pod _ idx refl all;
    on_apply_server = apply_server-InLinks;
    on_rm_server = λ name srv idx all. rm_server_from-InLinks name srv _ idx refl all;
    on_apply_authz = apply_authz-InLinks;
    on_rm_authz = λ name authz idx all. rm_authz_from-InLinks name authz _ idx refl all;
  }
