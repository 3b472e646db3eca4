-- ===== src/Server/Moves.antt =====
-- The operations on servers only open channels and send on them, with timeouts that fit.
use polixy.Prelude.{
  Bool, true, false, arith, nat_eq, String, not, ◌||◌, Option, none, some, [], ◌∷◌, inl, inr,
  Bool-cases, string_eq,
}
use polixy.Map.{get, remove, contains_key}
use polixy.Map.Sorted
use polixy.Core.{Ipnet, InboundServer, ClientAuthorization, ProxyProtocol, ProxyProtocol-discrete}
use polixy.Client.Decode.{Fits}
use polixy.Labels.{Labels-discrete}
use polixy.K8s
use polixy.K8s.{Protocol}
use polixy.Authz.{ServerSelector, AuthzIndex, selects}
use polixy.Watch.{borrow}
use polixy.Watch.Moves.{Moves, Moves-refl, Moves-trans, Moves-send, Moves-channel}
use polixy.Server.{
  Server, SrvIndex, Configs, eqb, mk_protocol, publish, for_each, server_add_authz,
  server_remove_authz, add_or_remove, add_authz, remove_authz, new_server, update_config, relabel,
  set_protocol, update_server, apply_entry, apply,
}

mk_protocol-Fits : (o : Option Protocol) → Fits (mk_protocol o)
unfolding mk_protocol
mk_protocol-Fits none = omega arith
mk_protocol-Fits (some Protocol.unknown) = omega arith
mk_protocol-Fits (some Protocol.http1) = tt
mk_protocol-Fits (some Protocol.http2) = tt
mk_protocol-Fits (some Protocol.grpc) = tt
mk_protocol-Fits (some Protocol.opaque) = tt
mk_protocol-Fits (some Protocol.tls) = tt

module _ {ip : Ipnet} where
  -- the timeout of a configuration fits the message that is sent of it
  abbrev pub IsTimely : InboundServer ip → Type 0
  IsTimely s = Fits s.protocol

  abbrev pub Sends : Configs ip → Configs ip → Type 0
  Sends = Moves IsTimely

  publish-Sends : (srv : Server ip) (c : Configs ip) → Sends c (publish srv c).1
  unfolding publish
  publish-Sends srv c = Moves-send _ srv.rx _ c (λ all. all srv.rx)

  remove_authz-Sends_once :
      (name n : String) (srv : Server ip) (c : Configs ip)
      → Sends c (server_remove_authz name srv c).1
  unfolding server_remove_authz
  remove_authz-Sends_once name n srv c = elim (Bool-cases (contains_key name srv.authorizations)) [
    | inl e ↦
        rw e (publish-Sends (record srv { authorizations = remove name srv.authorizations }) c)
    | inr e ↦ rw e (Moves-refl _ c)
  ]

  add_or_remove-Sends :
      (name : String) (sel : ServerSelector) (authz : ClientAuthorization ip) (n : String)
      (srv : Server ip) (c : Configs ip)
      → Sends c (add_or_remove name sel authz n srv c).1
  unfolding add_or_remove server_add_authz
  add_or_remove-Sends name sel authz n srv c = elim (Bool-cases (selects sel n srv.meta.labels)) [
    | inl e ↦ rw e (
        publish-Sends (record srv { authorizations = Sorted.insert name authz srv.authorizations })
          c)
    | inr e ↦ rw e (remove_authz-Sends_once name n srv c)
  ]

  for_each-Sends :
      (step : String → Server ip → Configs ip → Server ip × Configs ip)
      → ((n : String) (srv : Server ip) (c : Configs ip) → Sends c (step n srv c).1)
      → (index : SrvIndex ip) (c : Configs ip) → Sends c (for_each step index c).1
  unfolding for_each
  for_each-Sends step h [] c = Moves-refl _ c
  for_each-Sends step h ((n, srv) ∷ index) c =
      Moves-trans _ _ _ _ (h n srv c) (for_each-Sends step h index (step n srv c).1)

  pub add_authz-Sends :
      (name : String) (sel : ServerSelector) (authz : ClientAuthorization ip) (index : SrvIndex ip)
      (c : Configs ip)
      → Sends c (add_authz name sel authz index c).1
  unfolding add_authz
  add_authz-Sends name sel authz index c =
      for_each-Sends _ (add_or_remove-Sends name sel authz) index c

  pub remove_authz-Sends :
      (name : String) (index : SrvIndex ip) (c : Configs ip) → Sends c (remove_authz name index c).1
  unfolding remove_authz
  remove_authz-Sends name index c = for_each-Sends _ (remove_authz-Sends_once name) index c

  relabel-IsTimely :
      (srv : K8s.Server) (authzs : AuthzIndex ip) (new_labels : Bool)
      (old : Server ip × InboundServer ip)
      → IsTimely old.1
      → IsTimely (relabel srv authzs new_labels old).1
  unfolding relabel
  relabel-IsTimely srv authzs false old h = h
  relabel-IsTimely srv authzs true old h = h

  set-IsTimely :
      (protocol : ProxyProtocol) (new_protocol : Bool) (old : Server ip × InboundServer ip)
      → Fits protocol
      → IsTimely old.1
      → IsTimely (set_protocol protocol new_protocol old).1
  unfolding set_protocol
  set-IsTimely protocol false old p h = h
  set-IsTimely protocol true old p h = p

  update_config-Sends :
      (srv : K8s.Server) (authzs : AuthzIndex ip) (entry : Server ip) (c : Configs ip)
      → Sends c (update_config srv authzs entry c).1
  unfolding update_config
  update_config-Sends srv authzs entry c =
      elim (Bool-cases (
        not (eqb Labels-discrete entry.meta.labels srv.metadata.labels)
        || eqb ProxyProtocol-discrete entry.meta.protocol (mk_protocol srv.spec.proxy_protocol))) [
          | inl e ↦ rw e (
              Moves-send _ entry.rx _ c (λ all.
                let protocol = mk_protocol srv.spec.proxy_protocol in
                let new_labels = not (eqb Labels-discrete entry.meta.labels srv.metadata.labels) in
                let old : Server ip × InboundServer ip = (entry, borrow entry.rx c) in
                set-IsTimely protocol (eqb ProxyProtocol-discrete entry.meta.protocol protocol)
                  (relabel srv authzs new_labels old) (mk_protocol-Fits srv.spec.proxy_protocol)
                  (relabel-IsTimely srv authzs new_labels old (all entry.rx))))
          | inr e ↦ rw e (Moves-refl _ c)
        ]

  apply_entry-Sends :
      (srv : K8s.Server) (authzs : AuthzIndex ip) (o : Option (Server ip)) (c : Configs ip)
      → Sends c (apply_entry srv authzs o c).1
  unfolding apply_entry new_server update_server
  apply_entry-Sends srv authzs none c =
      Moves-channel _ _ c (mk_protocol-Fits srv.spec.proxy_protocol)
  apply_entry-Sends srv authzs (some entry) c = update_config-Sends srv authzs entry c

  pub apply-Sends :
      (srv : K8s.Server) (authzs : AuthzIndex ip) (index : SrvIndex ip) (c : Configs ip)
      → Sends c (apply srv authzs index c).1
  unfolding apply
  apply-Sends srv authzs index c = apply_entry-Sends srv authzs (get srv.metadata.name index) c
