-- ===== src/Server.antt =====
-- controller/k8s/index/src/server.rs: the servers of a namespace. The two ends of the channel of a
-- server are given by its number, `rx`.
pub mod Authorizations
pub mod Updates
pub mod Publishing
pub mod Kept
pub mod Moves
use polixy.Prelude.{
  ℕ, String, Bool, true, false, not, ◌||◌, ◌&&◌, Option, none, some, List, [], ◌∷◌, string_eq,
  is_some, if◌then◌else◌,
}
use polixy.Map.{Map, get, insert, remove, contains_key}
use polixy.Map.Sorted
use polixy.Core.{
  Ipnet, ProxyProtocol, ProxyProtocol-discrete, detect, http1, http2, grpc, opaque, tls,
  ClientAuthorization, InboundServer,
}
use polixy.Labels.{Labels, Labels-discrete, Selector, Selector-discrete, matches}
use polixy.K8s
use polixy.K8s.{PortRef, PortRef-discrete, Protocol}
use polixy.Authz.{ServerSelector, AuthzIndex, selects, filter_selected}
use polixy.Watch.{Channels, channel, send, borrow}

pub record ServerMeta : Type 0 where
  pub labels : Labels
  pub port : PortRef
  pub pod_selector : Selector
  pub protocol : ProxyProtocol

pub record Server (ip : Ipnet) : Type 0 where
  pub meta : ServerMeta
  pub authorizations : Map String (ClientAuthorization ip)
  pub rx : ℕ

abbrev pub SrvIndex : Ipnet → Type 0
SrvIndex ip = Map String (Server ip)

abbrev pub eqb {ℓ} : {A : Type ℓ} → Discrete A → A → A → Bool
eqb dec a b = elim (dec a b) [ yes _ ↦ true | no _ ↦ false ]

unfoldable pub mk_protocol : Option Protocol → ProxyProtocol
mk_protocol none = detect 10000000000
mk_protocol (some Protocol.unknown) = detect 10000000000
mk_protocol (some Protocol.http1) = http1
mk_protocol (some Protocol.http2) = http2
mk_protocol (some Protocol.grpc) = grpc
mk_protocol (some Protocol.opaque) = opaque
mk_protocol (some Protocol.tls) = tls

abbrev pub Configs : Ipnet → Type 0
Configs ip = Channels (InboundServer ip)

module _ {ip : Ipnet} where
  -- sends the server's configuration with its present authorizations
  publish : Server ip → Configs ip → Server ip × Configs ip
  publish srv c =
      (srv, send srv.rx (record (borrow srv.rx c) { authorizations = srv.authorizations }) c)

  -- `Server::add_authz`
  unfoldable pub server_add_authz :
      String → ClientAuthorization ip → Server ip → Configs ip → Server ip × Configs ip
  unfolding publish
  server_add_authz authz_name authz srv c =
      publish (record srv { authorizations = Sorted.insert authz_name authz srv.authorizations }) c

  -- `Server::remove_authz`
  unfoldable pub server_remove_authz : String → Server ip → Configs ip → Server ip × Configs ip
  unfolding publish
  server_remove_authz authz_name srv c =
      if contains_key authz_name srv.authorizations
      then publish (record srv { authorizations = remove authz_name srv.authorizations }) c
      else (srv, c)

  -- one round of the loop of `SrvIndex::add_authz`
  unfoldable pub add_or_remove :
      String
      → ServerSelector
      → ClientAuthorization ip
      → String
      → Server ip
      → Configs ip
      → Server ip × Configs ip
  add_or_remove authz_name sel authz srv_name srv c =
      if selects sel srv_name srv.meta.labels
      then server_add_authz authz_name authz srv c
      else server_remove_authz authz_name srv c

  -- `for srv in self.index.iter_mut()`
  unfoldable pub for_each :
      (String → Server ip → Configs ip → Server ip × Configs ip)
      → SrvIndex ip
      → Configs ip
      → SrvIndex ip × Configs ip
  for_each step [] c = ([], c)
  for_each step ((srv_name, srv) ∷ index) c =
      let (srv', c') = step srv_name srv c in
      let (index', c'') = for_each step index c' in ((srv_name, srv') ∷ index', c'')

  -- `SrvIndex::add_authz`
  unfoldable pub add_authz :
      String
      → ServerSelector
      → ClientAuthorization ip
      → SrvIndex ip
      → Configs ip
      → SrvIndex ip × Configs ip
  add_authz authz_name sel authz = for_each (add_or_remove authz_name sel authz)

  -- `SrvIndex::remove_authz`
  unfoldable pub remove_authz : String → SrvIndex ip → Configs ip → SrvIndex ip × Configs ip
  remove_authz authz_name = for_each (λ srv_name. server_remove_authz authz_name)

  -- `SrvIndex::iter_matching`
  unfoldable pub iter_matching : Labels → SrvIndex ip → List (String × PortRef × ℕ)
  iter_matching labels [] = []
  iter_matching labels ((srv_name, srv) ∷ index) =
      let rest = iter_matching labels index in
      if matches srv.meta.pod_selector labels
      then (srv_name, srv.meta.port, srv.rx) ∷ rest
      else rest

  -- the collected `filter_selected`
  unfoldable pub selected : String → Labels → AuthzIndex ip → Map String (ClientAuthorization ip)
  selected srv_name labels authzs = Sorted.collect (filter_selected srv_name labels authzs)

  -- the vacant entry of `SrvIndex::apply`
  unfoldable pub new_server : K8s.Server → AuthzIndex ip → Configs ip → Server ip × Configs ip
  new_server srv authzs c =
      let labels = srv.metadata.labels in
      let protocol = mk_protocol srv.spec.proxy_protocol in
      let auths = selected srv.metadata.name labels authzs in
      let (rx, c') = channel (record { protocol = protocol; authorizations = auths }) c in
      (
        record {
          meta = record {
            labels = labels;
            port = srv.spec.port;
            pod_selector = srv.spec.pod_selector;
            protocol = protocol;
          };
          authorizations = auths;
          rx = rx;
        },
        c',
      )

  -- the new labels, with the authorizations that select them
  relabel :
      K8s.Server
      → AuthzIndex ip
      → Bool
      → Server ip × InboundServer ip
      → Server ip × InboundServer ip
  relabel srv authzs false old = old
  relabel srv authzs true (entry, config) =
      let auths = selected srv.metadata.name srv.metadata.labels authzs in
      (
        record entry {
          meta = record (entry.meta) { labels = srv.metadata.labels };
          authorizations = auths;
        },
        record config { authorizations = auths },
      )

  set_protocol : ProxyProtocol → Bool → Server ip × InboundServer ip → Server ip × InboundServer ip
  set_protocol protocol false old = old
  set_protocol protocol true (entry, config) = (
    record entry { meta = record (entry.meta) { protocol = protocol } },
    record config { protocol = protocol },
  )

  -- the first half of the occupied entry: a change of the configuration is sent
  update_config : K8s.Server → AuthzIndex ip → Server ip → Configs ip → Server ip × Configs ip
  unfolding relabel set_protocol
  update_config srv authzs entry c =
      let protocol = mk_protocol srv.spec.proxy_protocol in
      let new_labels = not (eqb Labels-discrete entry.meta.labels srv.metadata.labels) in
      let new_protocol = eqb ProxyProtocol-discrete entry.meta.protocol protocol in
      let (entry', config) =
        set_protocol protocol new_protocol
          (relabel srv authzs new_labels (entry, borrow entry.rx c)) in
      if new_labels || new_protocol then (entry', send entry.rx config c) else (entry, c)

  -- the second half: the pod selector and the port
  update_selection : K8s.Server → Server ip → Server ip
  update_selection srv entry =
      if eqb Selector-discrete entry.meta.pod_selector srv.spec.pod_selector
        && eqb PortRef-discrete entry.meta.port srv.spec.port
      then entry
      else record entry {
        meta = record (entry.meta) { pod_selector = srv.spec.pod_selector; port = srv.spec.port };
      }

  -- the occupied entry of `SrvIndex::apply`
  unfoldable pub update_server :
      K8s.Server → AuthzIndex ip → Server ip → Configs ip → Server ip × Configs ip
  unfolding update_config update_selection
  update_server srv authzs entry c =
      let (entry', c') = update_config srv authzs entry c in (update_selection srv entry', c')

  apply_entry :
      K8s.Server → AuthzIndex ip → Option (Server ip) → Configs ip → Server ip × Configs ip
  apply_entry srv authzs none c = new_server srv authzs c
  apply_entry srv authzs (some entry) c = update_server srv authzs entry c

  -- `SrvIndex::apply`
  unfoldable pub apply :
      K8s.Server → AuthzIndex ip → SrvIndex ip → Configs ip → SrvIndex ip × Configs ip
  unfolding apply_entry
  apply srv authzs index c =
      let (entry, c') = apply_entry srv authzs (get srv.metadata.name index) c in
      (insert srv.metadata.name entry index, c')
