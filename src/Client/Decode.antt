-- ===== src/Client/Decode.antt =====
-- What the API server sends is what a proxy reads.
use polixy.Prelude.{String, ◌≡◌, ◌<◌, refl, some, List, [], ◌∷◌, map}
use polixy.Core
use polixy.Core.{
  Ipnet, ClientAuthorization, ClientAuthentication, NetworkMatch, InboundServer, IdentityMatch,
}
use polixy.Proto.{Wire, IsWire, Identity, IdentitySuffix}
use polixy.Reply.{ok, try_map, try_map-map}
use polixy.Grpc.{
  filter_map, name_of, suffix_of, to_labels, to_permit, to_kind, to_network, to_networks, to_authz,
  to_server,
}
use polixy.Client.{
  Protocol, detect, http1, http2, grpc, opaque, tls, Authn, unauthenticated, tls_unauthenticated,
  tls_authenticated, Network, Authz, Inbound, of_parts, decode_timeout, decode_kind,
  decode_protocol, decode_net, decode_network, decode_clients, decode_permit, decode_authn,
  decode_networks, decode_authz, try_from,
}

-- a timeout that the message can hold
abbrev pub Fits : Core.ProxyProtocol → Type 0
Fits (Core.detect timeout) = timeout < 9223372036854775808000000000
Fits _ = Unit

-- what a proxy makes of each part of a configuration
abbrev pub protocol_of : Core.ProxyProtocol → Protocol
protocol_of (Core.detect timeout) = detect timeout
protocol_of Core.http1 = http1
protocol_of Core.http2 = http2
protocol_of Core.grpc = grpc
protocol_of Core.opaque = opaque
protocol_of Core.tls = tls

abbrev pub authn_of : ClientAuthentication → Authn
authn_of Core.unauthenticated = unauthenticated
authn_of Core.tls_unauthenticated = tls_unauthenticated
authn_of (Core.tls_authenticated ids) =
    tls_authenticated (map (λ (i : Identity). i.name) (filter_map name_of ids))
      (map (λ (s : IdentitySuffix). of_parts s.parts) (filter_map suffix_of ids))

authn_lem : (a : ClientAuthentication) → decode_permit (some (to_permit a)) ≡ ok (authn_of a)
unfolding decode_permit decode_clients
authn_lem Core.unauthenticated = refl
authn_lem Core.tls_unauthenticated = refl
authn_lem (Core.tls_authenticated ids) = refl

module _ {ip : Ipnet} where
  abbrev pub network_of : NetworkMatch ip → Network ip
  network_of n = record { net = n.net; except = n.except }

  -- no networks are all of them
  abbrev pub networks_of : List (NetworkMatch ip) → List (Network ip)
  networks_of [] =
      record { net = ip.any_v4; except = [] } ∷ record { net = ip.any_v6; except = [] } ∷ []
  networks_of (n ∷ ns) = map network_of (n ∷ ns)

  abbrev pub authz_of : String × ClientAuthorization ip → Authz ip
  authz_of (name, a) = record {
    networks = networks_of a.networks;
    authn = authn_of a.authentication;
    labels = to_labels name a.authentication;
  }

  abbrev pub inbound_of : InboundServer ip → Inbound ip
  inbound_of srv = record {
    authorizations = map authz_of srv.authorizations;
    labels = [];
    protocol = protocol_of srv.protocol;
  }

  module _ (w : Wire ip) (is : IsWire w) where
    kind_lem : (p : Core.ProxyProtocol) → Fits p → decode_kind w (to_kind w p) ≡ ok (protocol_of p)
    unfolding decode_kind decode_timeout
    kind_lem (Core.detect timeout) h = rw (is.to_duration-of_duration timeout h) refl
    kind_lem Core.http1 h = refl
    kind_lem Core.http2 h = refl
    kind_lem Core.grpc h = refl
    kind_lem Core.opaque h = refl
    kind_lem Core.tls h = refl

    net_lem : (n : ip.IpNet) → decode_net w (w.of_net n) ≡ ok n
    unfolding decode_net
    net_lem n = rw (is.to_net-of_net n) refl

    nets_lem : (ns : List ip.IpNet) → try_map (decode_net w) (map w.of_net ns) ≡ ok ns
    unfolding try_map
    nets_lem [] = refl
    nets_lem (n ∷ ns) = rw (net_lem n, nets_lem ns) refl

    network_lem : (n : NetworkMatch ip) → decode_network w (to_network w n) ≡ ok (network_of n)
    unfolding decode_network
    network_lem n = rw (net_lem n.net, nets_lem n.except) refl

    networks_lem :
        (ns : List (NetworkMatch ip)) → decode_networks w (to_networks w ns) ≡ ok (networks_of ns)
    unfolding decode_networks decode_network try_map
    networks_lem [] = rw (net_lem ip.any_v4, net_lem ip.any_v6) refl
    networks_lem (n ∷ ns) =
        try_map-map (decode_network w) (to_network w) network_of network_lem (n ∷ ns)

    authz_lem :
        (e : String × ClientAuthorization ip) → decode_authz w (to_authz w e) ≡ ok (authz_of e)
    unfolding decode_authz decode_authn to_authz
    authz_lem (name, a) = rw (networks_lem a.networks, authn_lem a.authentication) refl

    -- A configuration whose timeout the message can hold is read as it was sent: its protocol, and
    -- of each authorization the labels, the networks and the permitted identities.
    pub try_from-to_server :
        (srv : InboundServer ip)
        → Fits srv.protocol
        → try_from w (to_server w srv) ≡ ok (inbound_of srv)
    unfolding try_from to_server decode_protocol
    try_from-to_server srv h =
        rw
          (
            kind_lem srv.protocol h,
            try_map-map (decode_authz w) (to_authz w) authz_of authz_lem srv.authorizations,
          )
          refl
