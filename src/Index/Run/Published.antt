-- ===== src/Index/Run/Published.antt =====
-- The channels of the servers and of the default modes, after any updates.
pub mod Channels
pub mod PodSteps
pub mod Operations
use polixy.Prelude.{
  ℕ, String, ◌≡◌, ◌<◌, refl, sym, ap, subst, ◌∙◌, Bool, true, false, Option, none, some, List, [],
  ◌∷◌, inl, inr, arith, ◌==◌, nat_eq, string_eq, Bool-cases, ==_refl, if◌then◌else◌,
}
use polixy.Result.{Result, ok, err, panic}
use polixy.Map.{Map, get, insert, remove}
use polixy.Map.Laws.{get-insert}
use polixy.Core.{Ipnet, InboundServer, detect}
use polixy.K8s
use polixy.K8s.{PodSpec}
use polixy.Node.{KubeletIps, get_or_push_pending}
use polixy.Lookup.{ByPort}
use polixy.Labels.{Labels-discrete}
use polixy.DefaultAllow.{
  DefaultAllow, all_authenticated, all_unauthenticated, cluster_authenticated,
  cluster_unauthenticated, deny, DefaultAllows, get_rx, spawn,
}
use polixy.DefaultAllow.Modes.{allowed, spawn_lem}
use polixy.Authz.{Authz, Authz-discrete}
use polixy.Watch
use polixy.Watch.{borrow, channel}
use polixy.Server.{Server, SrvIndex, Configs, eqb}
use polixy.Server.Updates.{config_of}
use polixy.Server.Publishing.{has_rx, Published, Effect, get-Published, has_rx-lt, frame-Published}
use polixy.Server.Publishing.Effects.{
  add_authz-Effect, remove_authz-Effect, remove-Effect, apply-Effect,
}
use polixy.Pod.{Pod}
use polixy.Index.{Namespace, NamespaceIndex, Index, new, or_new, namespace_or_new, put_ns}
use polixy.Index.Pods
use polixy.Index.Pods.{
  apply_pod, add_pod, new_pod, old_pod, with_spec, when_ready, rm_indexed, store_pod, after_unset,
  unset_pod,
}
use polixy.Index.Servers
use polixy.Index.Servers.{apply_server, rm_server}
use polixy.Index.Authzs
use polixy.Index.Authzs.{put_authz, store_entry, apply_made, apply_authz, rm_authz}
use polixy.Index.Run.{Update, run}
use polixy.Index.Run.Induction.{Keeps, KeepsEach, with_namespace-Keeps, run-Keeps}
use polixy.Index.Run.Published.Channels.{
  servers_in, servers_of, servers_of-insert, namespace-servers, AllPublished, put-AllPublished,
  same-AllPublished,
}
use polixy.Index.Run.Published.PodSteps.{InChannels}
use polixy.Index.Run.Published.Operations.{operations-InChannels}

mode-lt :
    (m : DefaultAllow)
    → get_rx
        (record {
          all_authed_rx = 0;
          all_unauthed_rx = 1;
          cluster_authed_rx = 2;
          cluster_unauthed_rx = 3;
          deny_rx = 4;
        })
        m
      < 5
unfolding get_rx
mode-lt all_authenticated = omega arith
mode-lt all_unauthenticated = omega arith
mode-lt cluster_authenticated = omega arith
mode-lt cluster_unauthenticated = omega arith
mode-lt deny = omega arith

module _ {ip : Ipnet} where
  new-InChannels :
      (nets : List ip.IpNet) (domain : String) (mode : DefaultAllow) (timeout : ℕ)
      → InChannels
          (λ m. record { protocol = detect timeout; authorizations = allowed {ip = ip} nets m })
          (new nets domain mode timeout)
  unfolding new get spawn channel get_rx Watch.new
  new-InChannels nets domain mode timeout = record {
    held = λ n. tt;
    own = λ n n' i h k. cc;
    modes = spawn_lem nets timeout _;
    below = mode-lt;
    apart = λ m n. refl;
  }

  pub run-InChannels :
      (nets : List ip.IpNet) (domain : String) (mode : DefaultAllow) (timeout : ℕ)
      (us : List Update)
      → InChannels
          (λ m. record { protocol = detect timeout; authorizations = allowed {ip = ip} nets m })
          (run us (new nets domain mode timeout))
  run-InChannels nets domain mode timeout us =
      run-Keeps (InChannels _) (operations-InChannels _) us (new nets domain mode timeout)
        (new-InChannels nets domain mode timeout)

  -- In every state that a new index reaches, by any updates in any order, of any kind and whether they
  -- succeed or fail, the channel of each server holds the server's protocol and authorizations.
  pub run-published :
      (nets : List ip.IpNet) (domain : String) (mode : DefaultAllow) (timeout : ℕ)
      (us : List Update) (name : String) (ns : Namespace ip) (srv_name : String) (srv : Server ip)
      → get name (run us (new nets domain mode timeout)).namespaces.index ≡ some ns
      → get srv_name ns.servers ≡ some srv
      → borrow srv.rx (run us (new nets domain mode timeout)).configs ≡ config_of srv
  run-published nets domain mode timeout us name ns srv_name srv h k =
      let idx = run us (new {ip = ip} nets domain mode timeout) in
      get-Published srv_name srv ns.servers idx.configs k (
        subst (λ servers. Published servers idx.configs) (ap servers_in h)
          ((run-InChannels nets domain mode timeout us).held name))

  -- In every state that a new index reaches the channel of each default mode still detects the protocol with the timeout
  -- and holds exactly the authorizations of the mode.
  pub run-modes :
      (nets : List ip.IpNet) (domain : String) (mode : DefaultAllow) (timeout : ℕ)
      (us : List Update) (m : DefaultAllow)
      → let idx = run us (new {ip = ip} nets domain mode timeout) in
        borrow (get_rx idx.default_allows m) idx.configs
        ≡ record { protocol = detect timeout; authorizations = allowed nets m }
  run-modes nets domain mode timeout us m = (run-InChannels nets domain mode timeout us).modes m
