-- ===== src/Index/Run/Sends/Operations.antt =====
-- Each operation of the index sends only receivers of open channels.
use polixy.Prelude.{
  String, ◌≡◌, refl, Option, none, some, inl, inr, arith, nat_eq, string_eq, Bool-cases,
}
use polixy.Result.{Result, ok, err, panic}
use polixy.Map.{get}
use polixy.Core.{Ipnet, InboundServer}
use polixy.K8s
use polixy.K8s.{PodSpec}
use polixy.DefaultAllow.{DefaultAllow}
use polixy.Authz.{Authz, Authz-discrete}
use polixy.Watch.Moves.{Moves-refl}
use polixy.Server.{Server, eqb}
use polixy.Server.Moves.{add_authz-Sends, remove_authz-Sends, apply-Sends}
use polixy.Server.Publishing.Effects.{apply-Effect}
use polixy.Pod.Moves.{reset_server-Moves, link_pods-Moves}
use polixy.Index.{Namespace, Index, namespace_or_new, put_ns}
use polixy.Index.Pods.{rm_indexed}
use polixy.Index.Servers
use polixy.Index.Servers.{apply_server, rm_server}
use polixy.Index.Authzs
use polixy.Index.Authzs.{store_entry, apply_made, apply_authz, rm_authz}
use polixy.Server.{Configs}
use polixy.Pod.{Links}
use polixy.Index.Run.Induction.{KeepsEach}
use polixy.Index.Run.Published.Operations.{operations-InChannels}
use polixy.Index.Run.Linked.Channels.{namespace-at}
use polixy.Index.Run.Linked.Operations.{operations-InLinks}
use polixy.Index.Run.Linked.PodSteps.{At, there-At}
use polixy.Index.Run.Sends.{
  Before, Sent, none-Sent, servers_lem, pods_lem, Published-ServersHave, Ahead, Sent-Ahead,
}
use polixy.Index.Run.Sends.Pods.{with_namespace-Sent, apply_pod-Sent, rm_from-Sent}

module _ {ip : Ipnet} (config : DefaultAllow → InboundServer ip) where
  apply_server-Sent :
      (srv : K8s.Server) (idx : Index ip)
      → Before config idx
      → Sent config idx (apply_server srv idx).1
  unfolding apply_server Servers.apply_in
  apply_server-Sent srv = with_namespace-Sent config srv.metadata.namespace _ λ name idx b.
      let ns = namespace_or_new name idx.namespaces in
      let from = namespace-at name idx.namespaces in
      let e =
        apply-Effect srv ns.authzs ns.servers idx.configs (servers_lem config name ns idx from b) in
      record {
        links =
            link_pods-Moves _ _ ns.pods idx.links (Published-ServersHave _ _ e.published)
              (pods_lem config _ name ns idx e.grows from b);
        configs = apply-Sends srv ns.authzs ns.servers idx.configs;
      }

  rm_server_entry-Sent :
      (name srv : String) (ns : Namespace ip) (o : Option (Server ip)) (idx : Index ip)
      → At name ns idx
      → Before config idx
      → Sent config idx (Servers.rm_entry name srv ns o idx).1
  unfolding Servers.rm_entry
  rm_server_entry-Sent name srv ns none idx from b = none-Sent config idx
  rm_server_entry-Sent name srv ns (some _) idx from b = record {
    links =
        reset_server-Moves _ srv ns.pods idx.links
          (pods_lem config idx.configs.next name ns idx (omega arith) from b);
    configs = Moves-refl _ idx.configs;
  }

  rm_server_from-Sent :
      (name srv : String) (o : Option (Namespace ip)) (idx : Index ip)
      → get name idx.namespaces.index ≡ o
      → Before config idx
      → Sent config idx (Servers.rm_from name srv o idx).1
  unfolding Servers.rm_from
  rm_server_from-Sent name srv none idx h b = none-Sent config idx
  rm_server_from-Sent name srv (some ns) idx h b =
      rm_server_entry-Sent name srv ns _ idx (there-At name ns idx h) b

  store_entry-Sent :
      (name authz : String) (a : Authz ip) (ns : Namespace ip) (o : Option (Authz ip))
      (idx : Index ip)
      → let (ns', idx') = store_entry authz a ns o idx in Sent config idx (put_ns name ns' idx')
  unfolding store_entry
  store_entry-Sent name authz a ns none idx = record {
    links = Moves-refl _ idx.links;
    configs = add_authz-Sends authz a.servers a.clients ns.servers idx.configs;
  }
  store_entry-Sent name authz a ns (some old) idx =
      elim (Bool-cases (eqb (Authz-discrete ip) old a)) [
        | inl e ↦
            rw (e, store_entry)
              (record { links = Moves-refl _ idx.links; configs = Moves-refl _ idx.configs })
        | inr e ↦
            rw (e, store_entry)
              (record {
                links = Moves-refl _ idx.links;
                configs = add_authz-Sends authz a.servers a.clients ns.servers idx.configs;
              })
      ]

  apply_made-Sent :
      (name : String) (ns : Namespace ip) (authz : String) (r : Result (Authz ip)) (idx : Index ip)
      → Sent config idx (apply_made name ns authz r idx).1
  unfolding apply_made Authzs.store_authz
  apply_made-Sent name ns authz (ok a) idx =
      store_entry-Sent name authz a ns (get authz ns.authzs) idx
  apply_made-Sent name ns authz (err e) idx = record {
    links = Moves-refl _ idx.links;
    configs = Moves-refl _ idx.configs;
  }
  apply_made-Sent name ns authz panic idx = record {
    links = Moves-refl _ idx.links;
    configs = Moves-refl _ idx.configs;
  }

  apply_authz-Sent :
      (a : K8s.ServerAuthorization) (idx : Index ip)
      → Before config idx
      → Sent config idx (apply_authz a idx).1
  unfolding apply_authz Authzs.apply_in
  apply_authz-Sent a =
      with_namespace-Sent config a.metadata.namespace _
        λ name idx b. apply_made-Sent name (namespace_or_new name idx.namespaces) _ _ idx

  rm_authz_from-Sent :
      (name authz : String) (o : Option (Namespace ip)) (idx : Index ip)
      → Sent config idx (Authzs.rm_from name authz o idx)
  unfolding Authzs.rm_from
  rm_authz_from-Sent name authz none idx = none-Sent config idx
  rm_authz_from-Sent name authz (some ns) idx = record {
    links = Moves-refl _ idx.links;
    configs = remove_authz-Sends authz ns.servers idx.configs;
  }

  module _ (links0 : Links) (configs0 : Configs ip) where
    pub operations-Ahead : KeepsEach {ip = ip} (Ahead config links0 configs0)
    unfolding rm_indexed rm_server rm_authz
    operations-Ahead =
        let channels = operations-InChannels config in
        let linked = operations-InLinks {ip = ip} in
        record {
          on_nodes = λ idx nodes a. record {
            links = a.links;
            configs = a.configs;
            opened = a.opened;
            before = record { channels = a.before.channels; linked = a.before.linked };
          };
          on_apply_pod = λ pod idx a.
              Sent-Ahead config links0 configs0 idx _ a (apply_pod-Sent config pod idx a.before)
                (record {
                  channels = channels.on_apply_pod pod idx a.before.channels;
                  linked = linked.on_apply_pod pod idx a.before.linked;
                });
          on_rm_pod = λ name pod idx a.
              Sent-Ahead config links0 configs0 idx _ a (rm_from-Sent config name pod _ idx)
                (record {
                  channels = channels.on_rm_pod name pod idx a.before.channels;
                  linked = linked.on_rm_pod name pod idx a.before.linked;
                });
          on_apply_server = λ srv idx a.
              Sent-Ahead config links0 configs0 idx _ a (apply_server-Sent srv idx a.before)
                (record {
                  channels = channels.on_apply_server srv idx a.before.channels;
                  linked = linked.on_apply_server srv idx a.before.linked;
                });
          on_rm_server = λ name srv idx a.
              Sent-Ahead config links0 configs0 idx _ a
                (rm_server_from-Sent name srv _ idx refl a.before)
                (record {
                  channels = channels.on_rm_server name srv idx a.before.channels;
                  linked = linked.on_rm_server name srv idx a.before.linked;
                });
          on_apply_authz = λ authz idx a.
              Sent-Ahead config links0 configs0 idx _ a (apply_authz-Sent authz idx a.before)
                (record {
                  channels = channels.on_apply_authz authz idx a.before.channels;
                  linked = linked.on_apply_authz authz idx a.before.linked;
                });
          on_rm_authz = λ name authz idx a.
              Sent-Ahead config links0 configs0 idx _ a (rm_authz_from-Sent name authz _ idx)
                (record {
                  channels = channels.on_rm_authz name authz idx a.before.channels;
                  linked = linked.on_rm_authz name authz idx a.before.linked;
                });
        }
