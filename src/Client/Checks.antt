-- ===== src/Client/Checks.antt =====
-- Which clients a proxy admits, by the configuration that the controller holds.
use Prim.Native.String.{◌++◌ as ◌<>◌}
use mathlib.Core.Option
use text.Mathlib.TextLemmas.{append-nil}
use polixy.Text.Laws.{ends_with_iff}
use polixy.Prelude.{
  String, ◌≡◌, refl, sym, Bool, true, false, not, ◌&&◌, Option, none, some, List, [], ◌∷◌, map,
  arith, ◌==◌, string_eq, any, if◌then◌else◌, Bool-cases, inl, inr,
}
use polixy.Map.{Map}
use polixy.Core
use polixy.Core.{
  Ipnet, IsIpnet, IpAddr, v4, v6, ClientAuthorization, ClientAuthentication, NetworkMatch,
  InboundServer, IdentityMatch,
}
use polixy.Proto.{Wire, IsWire}
use polixy.Reply.{ok}
use polixy.Text.{join, ends_with}
use polixy.Grpc.{to_labels, to_server, filter_map}
use polixy.Client.{
  Inbound, net_contains, needs_no_tls, admits_id, check_each_non_tls, check_each_tls, check_non_tls,
  check_tls, suffix_contains, of_parts, try_from,
}
use polixy.Client.Decode.{
  Fits, authn_of, network_of, networks_of, authz_of, inbound_of, try_from-to_server,
}

-- whether an identity is the one that is meant, or has the suffix
abbrev pub accepts : String → IdentityMatch → Bool
accepts id (IdentityMatch.name n) = n == id
accepts id (IdentityMatch.suffix []) = true
accepts id (IdentityMatch.suffix (p ∷ ps)) = ends_with id ("." <> join "." (p ∷ ps))

-- what a client on TLS needs, with the identity that it has proved
abbrev pub authenticated : ClientAuthentication → Option String → Bool
authenticated Core.unauthenticated id = true
authenticated Core.tls_unauthenticated id = true
authenticated (Core.tls_authenticated ids) none = false
authenticated (Core.tls_authenticated ids) (some id) = any (accepts id) ids

abbrev pub is_unauthenticated : ClientAuthentication → Bool
is_unauthenticated Core.unauthenticated = true
is_unauthenticated _ = false

-- the first entry that passes a test
abbrev pub first {ℓ} : {A : Type ℓ} → (A → Bool) → List A → Option A
first p [] = none
first p (x ∷ xs) = let rest = first p xs in if p x then some x else rest

accepts_lem :
    (id : String) (ids : List IdentityMatch)
    → admits_id (authn_of (Core.tls_authenticated ids)) (some id) ≡ any (accepts id) ids
unfolding filter_map suffix_contains of_parts
accepts_lem id [] = refl
accepts_lem id (IdentityMatch.name n ∷ ids) = ground (arith, accepts_lem id ids)
accepts_lem id (IdentityMatch.suffix [] ∷ ids) =
    ground (arith, (ends_with_iff id "").1 (id, sym (append-nil id)))
accepts_lem id (IdentityMatch.suffix (p ∷ ps) ∷ ids) = ground (arith, accepts_lem id ids)

authn_lem :
    (a : ClientAuthentication) (id : Option String) → admits_id (authn_of a) id ≡ authenticated a id
authn_lem Core.unauthenticated id = refl
authn_lem Core.tls_unauthenticated id = refl
authn_lem (Core.tls_authenticated ids) none = refl
authn_lem (Core.tls_authenticated ids) (some id) = accepts_lem id ids

no_tls_lem : (a : ClientAuthentication) → needs_no_tls (authn_of a) ≡ is_unauthenticated a
no_tls_lem Core.unauthenticated = refl
no_tls_lem Core.tls_unauthenticated = refl
no_tls_lem (Core.tls_authenticated ids) = refl

module _ {ip : Ipnet} where
  abbrev pub in_match : IpAddr → NetworkMatch ip → Bool
  in_match addr n = ip.contains n.net addr && not (any (λ net. ip.contains net addr) n.except)

  -- no networks are all of them
  abbrev pub in_networks : IpAddr → List (NetworkMatch ip) → Bool
  in_networks addr [] = true
  in_networks addr (n ∷ ns) = any (in_match addr) (n ∷ ns)

  abbrev pub admits_tls : IpAddr → Option String → String × ClientAuthorization ip → Bool
  admits_tls addr id (name, a) = in_networks addr a.networks && authenticated a.authentication id

  abbrev pub admits_non_tls : IpAddr → String × ClientAuthorization ip → Bool
  admits_non_tls addr (name, a) = is_unauthenticated a.authentication && in_networks addr a.networks

  -- the labels of an authorization that admits a client
  abbrev pub labels_of : String × ClientAuthorization ip → Map String String
  labels_of (name, a) = to_labels name a.authentication

  any-map :
      (addr : IpAddr) (ns : List (NetworkMatch ip))
      → any (net_contains addr) (map network_of ns) ≡ any (in_match addr) ns
  unfolding net_contains
  any-map addr [] = refl
  any-map addr (n ∷ ns) = rw (any-map addr ns) refl

  module _ (is : IsIpnet ip) where
    networks_lem :
        (addr : IpAddr) (ns : List (NetworkMatch ip))
        → any (net_contains addr) (networks_of ns) ≡ in_networks addr ns
    unfolding net_contains
    networks_lem (v4 a) [] = rw (is.any_v4_all a) refl
    networks_lem (v6 a) [] = ground (arith, is.any_v6_all a)
    networks_lem addr (n ∷ ns) = any-map addr (n ∷ ns)

    each_tls_lem :
        (addr : IpAddr) (id : Option String) (es : List (String × ClientAuthorization ip))
        → check_each_tls addr id (map authz_of es)
          ≡ Option.map labels_of (first (admits_tls addr id) es)
    unfolding check_each_tls
    each_tls_lem addr id [] = refl
    each_tls_lem addr id ((name, a) ∷ es) =
        rw (networks_lem addr a.networks, authn_lem a.authentication id, each_tls_lem addr id es)
          (elim (Bool-cases (in_networks addr a.networks)) [
            | inl near ↦ elim (Bool-cases (authenticated a.authentication id)) [
              | inl known ↦ rw (near, known) refl
              | inr other ↦ rw (near, other) refl
            ]
            | inr far ↦ rw far refl
          ])

    each_non_tls_lem :
        (addr : IpAddr) (es : List (String × ClientAuthorization ip))
        → check_each_non_tls addr (map authz_of es)
          ≡ Option.map labels_of (first (admits_non_tls addr) es)
    unfolding check_each_non_tls
    each_non_tls_lem addr [] = refl
    each_non_tls_lem addr ((name, a) ∷ es) =
        rw (networks_lem addr a.networks, no_tls_lem a.authentication, each_non_tls_lem addr es)
          (elim (Bool-cases (is_unauthenticated a.authentication && in_networks addr a.networks)) [
            | inl e ↦ rw e refl
            | inr e ↦ rw e refl
          ])

    pub check_tls-inbound_of :
        (addr : IpAddr) (id : Option String) (srv : InboundServer ip)
        → check_tls (inbound_of srv) addr id
          ≡ Option.map labels_of (first (admits_tls addr id) srv.authorizations)
    unfolding check_tls
    check_tls-inbound_of addr id srv = each_tls_lem addr id srv.authorizations

    pub check_non_tls-inbound_of :
        (addr : IpAddr) (srv : InboundServer ip)
        → check_non_tls (inbound_of srv) addr
          ≡ Option.map labels_of (first (admits_non_tls addr) srv.authorizations)
    unfolding check_non_tls
    check_non_tls-inbound_of addr srv = each_non_tls_lem addr srv.authorizations

    -- A proxy that reads a configuration whose timeout fits admits a client on TLS exactly by the first
    -- authorization whose networks, all of them where it names none, contain its address and whose
    -- authentication its identity meets; and a client that is not on TLS by the first that needs no
    -- authentication and whose networks contain its address.
    pub check-admits :
        (w : Wire ip) (wires : IsWire w) (srv : InboundServer ip)
        → Fits srv.protocol
        → (inbound : Inbound ip) × (try_from w (to_server w srv) ≡ ok inbound)
          × ((addr : IpAddr) (id : Option String)
              → check_tls inbound addr id
                ≡ Option.map labels_of (first (admits_tls addr id) srv.authorizations))
          × ((addr : IpAddr)
              → check_non_tls inbound addr
                ≡ Option.map labels_of (first (admits_non_tls addr) srv.authorizations))
    check-admits w wires srv h = (
      inbound_of srv,
      try_from-to_server w wires srv h,
      λ addr id. check_tls-inbound_of addr id srv,
      λ addr. check_non_tls-inbound_of addr srv,
    )
