-- ===== src/Index/Run/Published/Operations.antt =====
-- Every operation keeps the channels of the servers and of the default modes.
use polixy.Prelude.{String, ◌≡◌, refl, Option, none, some, inl, inr, nat_eq, string_eq, Bool-cases}
use polixy.Result.{Result, ok, err, panic}
use polixy.Map.{get}
use polixy.Core.{Ipnet, InboundServer}
use polixy.K8s
use polixy.K8s.{PodSpec}
use polixy.DefaultAllow.{DefaultAllow}
use polixy.Authz.{Authz, Authz-discrete}
use polixy.Server.{Server, eqb}
use polixy.Server.Publishing.Effects.{
  add_authz-Effect, remove_authz-Effect, remove-Effect, apply-Effect,
}
use polixy.Index.{Namespace, Index, namespace_or_new, put_ns}
use polixy.Index.Pods.{rm_indexed}
use polixy.Index.Servers
use polixy.Index.Servers.{apply_server, rm_server}
use polixy.Index.Authzs
use polixy.Index.Authzs.{put_authz, store_entry, apply_made, apply_authz, rm_authz}
use polixy.Index.Run.Induction.{Keeps, KeepsEach, with_namespace-Keeps}
use polixy.Index.Run.Published.Channels.{
  servers_of, namespace-servers, put-AllPublished, same-AllPublished,
}
use polixy.Index.Run.Published.PodSteps.{
  InChannels, put_ns-InChannels, there_lem, apply_pod-InChannels, rm_from-InChannels,
}

module _ {ip : Ipnet} (config : DefaultAllow → InboundServer ip) where
  apply_server-InChannels :
      (srv : K8s.Server) → Keeps {ip = ip} (InChannels config) (apply_server srv)
  unfolding apply_server Servers.apply_in
  apply_server-InChannels srv =
      with_namespace-Keeps (InChannels config) srv.metadata.namespace _ λ name idx all.
        let ns = namespace_or_new name idx.namespaces in
        put-AllPublished config _ _ _ _ name ns _ (namespace-servers name idx.namespaces)
          (apply-Effect srv ns.authzs ns.servers idx.configs) all

  rm_server_entry-InChannels :
      (name srv : String) (ns : Namespace ip) (o : Option (Server ip)) (idx : Index ip)
      → get name idx.namespaces.index ≡ some ns
      → InChannels config idx
      → InChannels config (Servers.rm_entry name srv ns o idx).1
  unfolding Servers.rm_entry
  rm_server_entry-InChannels name srv ns none idx h all = all
  rm_server_entry-InChannels name srv ns (some _) idx h all =
      put-AllPublished config _ _ _ _ name ns _ (there_lem config name ns _ h)
        (remove-Effect srv ns.servers idx.configs) all

  rm_server_from-InChannels :
      (name srv : String) (o : Option (Namespace ip)) (idx : Index ip)
      → get name idx.namespaces.index ≡ o
      → InChannels config idx
      → InChannels config (Servers.rm_from name srv o idx).1
  unfolding Servers.rm_from
  rm_server_from-InChannels name srv none idx h all = all
  rm_server_from-InChannels name srv (some ns) idx h all =
      rm_server_entry-InChannels name srv ns _ idx h all

  -- the entry of an authorization is stored, or left alone
  apply_ok-InChannels :
      (name authz : String) (a : Authz ip) (ns : Namespace ip) (o : Option (Authz ip))
      (idx : Index ip)
      → ns.servers ≡ servers_of name idx.namespaces.index
      → InChannels config idx
      → let (ns', idx') = store_entry authz a ns o idx in InChannels config (put_ns name ns' idx')
  unfolding store_entry
  apply_ok-InChannels name authz a ns none idx from all =
      put-AllPublished config _ _ _ _ name ns _ from
        (add_authz-Effect authz a.servers a.clients ns.servers idx.configs) all
  apply_ok-InChannels name authz a ns (some old) idx from all =
      elim (Bool-cases (eqb (Authz-discrete ip) old a)) [
        | inl e ↦ rw (e, store_entry) (same-AllPublished config _ _ _ name ns from all)
        | inr e ↦
            rw (e, store_entry)
              (put-AllPublished config _ _ _ _ name ns _ from
                (add_authz-Effect authz a.servers a.clients ns.servers idx.configs) all)
      ]

  apply_made-InChannels :
      (name : String) (ns : Namespace ip) (authz : String) (r : Result (Authz ip)) (idx : Index ip)
      → ns.servers ≡ servers_of name idx.namespaces.index
      → InChannels config idx
      → InChannels config (apply_made name ns authz r idx).1
  unfolding apply_made Authzs.store_authz
  apply_made-InChannels name ns authz (ok a) idx from all =
      apply_ok-InChannels name authz a ns (get authz ns.authzs) idx from all
  apply_made-InChannels name ns authz (err e) idx from all =
      put_ns-InChannels config name ns idx from all
  apply_made-InChannels name ns authz panic idx from all =
      put_ns-InChannels config name ns idx from all

  apply_authz-InChannels :
      (a : K8s.ServerAuthorization) → Keeps {ip = ip} (InChannels config) (apply_authz a)
  unfolding apply_authz Authzs.apply_in
  apply_authz-InChannels a =
      with_namespace-Keeps (InChannels config) a.metadata.namespace _ λ name idx all.
        apply_made-InChannels name _ _ _ idx (namespace-servers name idx.namespaces) all

  rm_authz_from-InChannels :
      (name authz : String) (o : Option (Namespace ip)) (idx : Index ip)
      → get name idx.namespaces.index ≡ o
      → InChannels config idx
      → InChannels config (Authzs.rm_from name authz o idx)
  unfolding Authzs.rm_from
  rm_authz_from-InChannels name authz none idx h all = all
  rm_authz_from-InChannels name authz (some ns) idx h all =
      put-AllPublished config _ _ _ _ name ns _ (there_lem config name ns _ h)
        (remove_authz-Effect authz ns.servers idx.configs) all

  pub operations-InChannels : KeepsEach {ip = ip} (InChannels config)
  unfolding rm_indexed rm_server rm_authz
  operations-InChannels = record {
    on_nodes = λ idx nodes all. all;
    on_apply_pod = apply_pod-InChannels config;
    on_rm_pod = λ name pod idx all. rm_from-InChannels config name pod _ idx refl all;
    on_apply_server = apply_server-InChannels;
    on_rm_server = λ name srv idx all. rm_server_from-InChannels name srv _ idx refl all;
    on_apply_authz = apply_authz-InChannels;
    on_rm_authz = λ name authz idx all. rm_authz_from-InChannels name authz _ idx refl all;
  }
