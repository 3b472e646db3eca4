-- ===== src/Authz.antt =====
-- controller/k8s/index/src/authz.rs: authorizations, made from resources and selected by servers.
-- `AuthzIndex::apply`, which writes to the servers, is in Index/Authzs.antt.
pub mod Make
use Prim.Native.String.{◌++◌ as ◌<>◌}
use polixy.Prelude.{
  String, Bool, true, false, Option, none, some, List, [], ◌∷◌, ◌++◌, map, ◌==◌, string_eq,
  String-discrete, if◌then◌else◌,
}
use polixy.Result.{
  Result, ok, err, panic, invalid_cidr, ambiguous_selection, no_selection, missing_mtls, no_clients,
  ok_or, unwrap, ◌>>=◌, try_map,
}
use polixy.Map.{Map}
use polixy.Core.{
  Ipnet, IdentityMatch, suffix, ClientAuthentication, unauthenticated, tls_unauthenticated,
  tls_authenticated, NetworkMatch, ClientAuthorization, ClientAuthorization-discrete, net_match,
}
use polixy.Labels.{Labels, Selector, Selector-discrete, matches}
use polixy.K8s.{
  ObjectMeta, ServerTarget, Network, ServiceAccountRef, MeshTls, Client, ServerAuthorization,
}
use polixy.Text.{split, starts_with}

-- `ServerSelector` of lib.rs
pub data ServerSelector : Type 0 where
  name : String → ServerSelector
  selector : Selector → ServerSelector

pub record Authz (ip : Ipnet) : Type 0 where
  pub servers : ServerSelector
  pub clients : ClientAuthorization ip

ServerSelector-discrete : Discrete ServerSelector
ServerSelector-discrete = hlevel (String-discrete, Selector-discrete)

-- `derive(PartialEq)`
pub Authz-discrete : (ip : Ipnet) → Discrete (Authz ip)
Authz-discrete ip = hlevel (ServerSelector-discrete, ClientAuthorization-discrete ip)

abbrev pub AuthzIndex : Ipnet → Type 0
AuthzIndex ip = Map String (Authz ip)

-- the match of `add_authz` and of `filter_selected`
unfoldable pub selects : ServerSelector → String → Labels → Bool
selects (name n) srv labels = n == srv
selects (selector s) srv labels = matches s labels

module _ {ip : Ipnet} where
  -- `AuthzIndex::filter_selected`
  unfoldable pub filter_selected :
      String → Labels → AuthzIndex ip → List (String × ClientAuthorization ip)
  filter_selected srv labels [] = []
  filter_selected srv labels ((authz_name, a) ∷ index) =
      let rest = filter_selected srv labels index in
      if selects a.servers srv labels then (authz_name, a.clients) ∷ rest else rest

drop_star : List String → List String
drop_star [] = []
drop_star (star ∷ parts) = parts

-- one identity: `*`, `*.` and a suffix, or a name
unfoldable pub mk_identity : String → IdentityMatch
unfolding drop_star
mk_identity id =
    if id == "*"
    then suffix []
    else if starts_with id "*."
    then suffix (drop_star (split "." id))
    else IdentityMatch.name id

-- the namespace of the account, or that of the resource, which is unwrapped
unfoldable pub mk_service_account :
    (domain : String) → Option String → ServiceAccountRef → Result IdentityMatch
mk_service_account domain meta_ns sa = do
  ns ← (elim sa.namespace [ none ↦ unwrap meta_ns | some ns ↦ ok ns ])
  ok (
      IdentityMatch.name
        (sa.name <> ("." <> (ns <> (".serviceaccount.identity.linkerd." <> domain)))))

non_empty : List IdentityMatch → Result ClientAuthentication
non_empty [] = err no_clients
non_empty (id ∷ ids) = ok (tls_authenticated (id ∷ ids))

unfoldable pub mk_mtls_authn : ObjectMeta → MeshTls → String → Result ClientAuthentication
unfolding non_empty
mk_mtls_authn metadata mtls domain = if mtls.unauthenticated_tls then ok tls_unauthenticated else do
  accounts ← try_map (mk_service_account domain metadata.namespace) mtls.service_accounts
  non_empty (map mk_identity mtls.identities ++ accounts)

mk_selector : Option String → Option Selector → Result ServerSelector
mk_selector (some n) none = ok (ServerSelector.name n)
mk_selector none (some sel) = ok (selector sel)
mk_selector (some n) (some sel) = err ambiguous_selection
mk_selector none none = err no_selection

mk_authentication : ObjectMeta → Client → String → Result ClientAuthentication
mk_authentication metadata client domain =
    if client.unauthenticated
    then ok unauthenticated
    else do mtls ← ok_or missing_mtls client.mesh_tls; mk_mtls_authn metadata mtls domain

module _ (ip : Ipnet) where
  parse_net : String → Result ip.IpNet
  parse_net cidr = ok_or (invalid_cidr cidr) (ip.parse cidr)

  mk_network : Network → Result (NetworkMatch ip)
  unfolding parse_net
  mk_network n = do
    net ← parse_net n.cidr
    except ← try_map parse_net n.except
    ok (record { net = net; except = except })

  mk_networks : Option (List Network) → Result (List (NetworkMatch ip))
  unfolding mk_network
  mk_networks none = ok (net_match ip ip.any_v4 ∷ net_match ip ip.any_v6 ∷ [])
  mk_networks (some nets) = try_map mk_network nets

  unfoldable pub mk_authz : ServerAuthorization → String → Result (Authz ip)
  unfolding mk_selector mk_networks mk_authentication
  mk_authz srv domain = do
    servers ← mk_selector srv.spec.server.name srv.spec.server.selector
    networks ← mk_networks srv.spec.client.networks
    authentication ← mk_authentication srv.metadata srv.spec.client domain
    ok (record {
      servers = servers;
      clients = record { networks = networks; authentication = authentication };
    })
