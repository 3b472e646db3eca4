-- ===== src/Core.antt =====
-- controller/core/src: the inbound server configuration that the controller publishes. The crate
-- `ipnet` is a parameter, `Ipnet`; an address is its version and its number, and a `Duration` its
-- nanoseconds.
pub mod Display
use native.Mathlib.Decide.{ℕ_discrete}
use polixy.Prelude.{ℕ, String, ◌≡◌, ◌↔◌, Bool, true, Option, List, [], String-discrete}
use polixy.Map.{Map}

pub data IpAddr : Type 0 where
  v4 v6 : ℕ → IpAddr

-- The operations of `IpNet` that the program calls.
pub record Ipnet : Type 1 where
  pub IpNet : Type 0
  pub net_discrete : Discrete IpNet
  pub parse : String → Option IpNet
  -- `hosts().next()`
  pub first_host : IpNet → Option IpAddr
  pub contains : IpNet → IpAddr → Bool
  pub from_addr : IpAddr → IpNet
  -- `IpNet::V4(Default::default())`, `IpNet::V6(Default::default())`
  pub any_v4 : IpNet
  pub any_v6 : IpNet

-- What its documentation says of them: the default networks are 0.0.0.0/0 and ::/0, and the network
-- of an address is that address alone.
pub record IsIpnet (ip : Ipnet) : Type 0 where
  pub any_v4_all : (a : ℕ) → ip.contains ip.any_v4 (v4 a) ≡ true
  pub any_v6_all : (a : ℕ) → ip.contains ip.any_v6 (v6 a) ≡ true
  pub from_addr_iff : (a b : IpAddr) → (ip.contains (ip.from_addr a) b ≡ true) ↔ (a ≡ b)

pub data IdentityMatch : Type 0 where
  name : String → IdentityMatch
  suffix : List String → IdentityMatch

pub data ProxyProtocol : Type 0 where
  detect : (timeout : ℕ) → ProxyProtocol
  http1 http2 grpc opaque tls : ProxyProtocol

pub data ClientAuthentication : Type 0 where
  unauthenticated tls_unauthenticated : ClientAuthentication
  tls_authenticated : List IdentityMatch → ClientAuthentication

module _ (ip : Ipnet) where
  pub record NetworkMatch : Type 0 where
    pub net : ip.IpNet
    pub except : List ip.IpNet

  pub record ClientAuthorization : Type 0 where
    pub networks : List NetworkMatch
    pub authentication : ClientAuthentication

  pub record InboundServer : Type 0 where
    pub protocol : ProxyProtocol
    pub authorizations : Map String ClientAuthorization

  -- `NetworkMatch::from`
  unfoldable pub net_match : ip.IpNet → NetworkMatch
  net_match net = record { net = net; except = [] }

  unfoldable pub addr_match : IpAddr → NetworkMatch
  unfolding net_match
  addr_match addr = net_match (ip.from_addr addr)

-- `derive(PartialEq)`
pub ProxyProtocol-discrete : Discrete ProxyProtocol
ProxyProtocol-discrete = hlevel ℕ_discrete

pub ClientAuthentication-discrete : Discrete ClientAuthentication
ClientAuthentication-discrete = hlevel String-discrete

pub ClientAuthorization-discrete : (ip : Ipnet) → Discrete (ClientAuthorization ip)
ClientAuthorization-discrete ip = hlevel (ip.net_discrete, ClientAuthentication-discrete)

pub InboundServer-discrete : (ip : Ipnet) → Discrete (InboundServer ip)
InboundServer-discrete ip =
    hlevel (ProxyProtocol-discrete, String-discrete, ClientAuthorization-discrete ip)
