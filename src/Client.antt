-- ===== src/Client.antt =====
-- client/src/lib.rs: what a proxy makes of the configuration of a port, and its checks of clients.
pub mod Decode
pub mod Checks
pub mod Calls
pub mod Ports
pub mod HttpApi
pub mod Commands
use Prim.Native.String.{◌++◌ as ◌<>◌}
use polixy.Prelude.{
  ℕ, String, Bool, true, false, not, ◌&&◌, ◌||◌, Option, none, some, List, [], ◌∷◌, map, any,
  contains, is_empty, string_eq, if◌then◌else◌,
}
use polixy.Map.{Map}
use polixy.Core.{Ipnet, IpAddr}
use polixy.Proto
use polixy.Proto.{Wire, Kind, Clients, Permit, Identity, IdentitySuffix}
use polixy.Reply.{Reply, ok, err, ◌>>=◌, ok_or, try_map}
use polixy.Text.{join, ends_with}

pub data Protocol : Type 0 where
  detect : (timeout : ℕ) → Protocol
  http1 http2 grpc opaque tls : Protocol

pub record Suffix : Type 0 where
  pub ends_with : String

-- `identities` is a set, read only by `contains`
pub data Authn : Type 0 where
  unauthenticated tls_unauthenticated : Authn
  tls_authenticated : (identities : List String) (suffixes : List Suffix) → Authn

pub data Error : Type 0 where
  negative_timeout missing_timeout missing_protocol : Error
  missing_networks missing_network invalid_network : Error
  no_clients no_authentication : Error

module _ (ip : Ipnet) where
  pub record Network : Type 0 where
    pub net : ip.IpNet
    pub except : List ip.IpNet

  pub record Authz : Type 0 where
    pub networks : List Network
    pub authn : Authn
    pub labels : Map String String

  pub record Inbound : Type 0 where
    pub authorizations : List Authz
    pub labels : Map String String
    pub protocol : Protocol

-- `Suffix::from`
unfoldable pub of_parts : List String → Suffix
of_parts [] = record { ends_with = "" }
of_parts (part ∷ parts) = record { ends_with = "." <> join "." (part ∷ parts) }

-- `Suffix::contains`
unfoldable pub suffix_contains : Suffix → String → Bool
suffix_contains suffix name = ends_with name suffix.ends_with

abbrev pub needs_no_tls : Authn → Bool
needs_no_tls unauthenticated = true
needs_no_tls tls_unauthenticated = false
needs_no_tls (tls_authenticated ids suffixes) = false

-- the match of `check_tls`, where a network has matched
abbrev pub admits_id : Authn → Option String → Bool
admits_id unauthenticated id = true
admits_id tls_unauthenticated id = true
admits_id (tls_authenticated ids suffixes) none = false
admits_id (tls_authenticated ids suffixes) (some id) =
    contains ids id || any (λ suffix. suffix_contains suffix id) suffixes

-- the parts of `Inbound::try_from`
decode_clients : Option Clients → Reply Error Authn
decode_clients none = err no_clients
decode_clients (some Clients.unauthenticated) = ok tls_unauthenticated
decode_clients (some (Clients.identities ids suffixes)) = ok (
    tls_authenticated (map (λ (i : Identity). i.name) ids)
      (map (λ (s : IdentitySuffix). of_parts s.parts) suffixes))

decode_permit : Option Permit → Reply Error Authn
unfolding decode_clients
decode_permit none = err no_authentication
decode_permit (some Permit.unauthenticated) = ok unauthenticated
decode_permit (some (Permit.mesh_tls clients)) = decode_clients clients

decode_authn : Option Proto.Authn → Reply Error Authn
unfolding decode_permit
decode_authn none = err no_authentication
decode_authn (some a) = decode_permit a.permit

module _ {ip : Ipnet} where
  -- `Network::contains`
  unfoldable pub net_contains : IpAddr → Network ip → Bool
  net_contains addr n = ip.contains n.net addr && not (any (λ net. ip.contains net addr) n.except)

  -- the loop of `Inbound::check_non_tls`
  check_each_non_tls : IpAddr → List (Authz ip) → Option (Map String String)
  check_each_non_tls client_ip [] = none
  check_each_non_tls client_ip (a ∷ authzs) =
      let rest = check_each_non_tls client_ip authzs in
      if needs_no_tls a.authn && any (net_contains client_ip) a.networks
      then some a.labels
      else rest

  -- `Inbound::check_non_tls`
  unfoldable pub check_non_tls : Inbound ip → IpAddr → Option (Map String String)
  unfolding check_each_non_tls
  check_non_tls inbound client_ip = check_each_non_tls client_ip inbound.authorizations

  -- the loop of `Inbound::check_tls`
  check_each_tls : IpAddr → Option String → List (Authz ip) → Option (Map String String)
  check_each_tls client_ip id [] = none
  check_each_tls client_ip id (a ∷ authzs) =
      let rest = check_each_tls client_ip id authzs in
      if any (net_contains client_ip) a.networks
      then if admits_id a.authn id then some a.labels else rest
      else rest

  -- `Inbound::check_tls`
  unfoldable pub check_tls : Inbound ip → IpAddr → Option String → Option (Map String String)
  unfolding check_each_tls
  check_tls inbound client_ip id = check_each_tls client_ip id inbound.authorizations

  module _ (w : Wire ip) where
    decode_timeout : Option w.Duration → Reply Error Protocol
    decode_timeout none = err missing_timeout
    decode_timeout (some t) = do d ← ok_or negative_timeout (w.to_duration t); ok (detect d)

    decode_kind : Kind w → Reply Error Protocol
    unfolding decode_timeout
    decode_kind (Kind.detect timeout) = decode_timeout timeout
    decode_kind Kind.http1 = ok http1
    decode_kind Kind.http2 = ok http2
    decode_kind Kind.grpc = ok grpc
    decode_kind Kind.opaque = ok opaque
    decode_kind Kind.tls = ok tls

    decode_protocol : Option (Proto.ProxyProtocol w) → Reply Error Protocol
    unfolding decode_kind
    decode_protocol none = err missing_protocol
    decode_protocol (some p) = elim p.kind [ none ↦ err missing_protocol | some k ↦ decode_kind k ]

    decode_net : w.Net → Reply Error ip.IpNet
    decode_net net = ok_or invalid_network (w.to_net net)

    decode_network : Proto.Network w → Reply Error (Network ip)
    unfolding decode_net
    decode_network n = do
      proto_net ← ok_or missing_network n.net
      net ← decode_net proto_net
      except ← try_map decode_net n.except
      ok (record { net = net; except = except })

    decode_networks : List (Proto.Network w) → Reply Error (List (Network ip))
    unfolding decode_network
    decode_networks [] = err missing_networks
    decode_networks (n ∷ ns) = try_map decode_network (n ∷ ns)

    decode_authz : Proto.Authz w → Reply Error (Authz ip)
    unfolding decode_networks decode_authn
    decode_authz a = do
      networks ← decode_networks a.networks
      authn ← decode_authn a.authentication
      ok (record { networks = networks; authn = authn; labels = a.labels })

    -- `Inbound::try_from`
    unfoldable pub try_from : Proto.Server w → Reply Error (Inbound ip)
    unfolding decode_protocol decode_authz
    try_from proto = do
      protocol ← decode_protocol proto.protocol
      authorizations ← try_map decode_authz proto.authorizations
      ok (record { authorizations = authorizations; labels = proto.labels; protocol = protocol })
