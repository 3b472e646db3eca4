-- ===== src/Proto.antt =====
-- The messages of the inbound discovery API that controller/grpc and client exchange, with the
-- fields and the cases that the two name. The conversions of a network and of a duration, which the
-- API's crate makes, are a parameter, `Wire`.
use polixy.Prelude.{ℕ, String, ◌≡◌, ◌<◌, Option, some, List}
use polixy.Map.{Map}
use polixy.Core.{Ipnet}

pub record Wire (ip : Ipnet) : Type 1 where
  pub Net : Type 0
  pub Duration : Type 0
  pub of_net : ip.IpNet → Net
  pub to_net : Net → Option ip.IpNet
  pub of_duration : ℕ → Duration
  pub to_duration : Duration → Option ℕ

-- A network is read as it was written, and so is a duration whose seconds a signed 64-bit integer
-- holds.
pub record IsWire {ip : Ipnet} (w : Wire ip) : Type 0 where
  pub to_net-of_net : (n : ip.IpNet) → w.to_net (w.of_net n) ≡ some n
  pub to_duration-of_duration :
      (d : ℕ) → d < 9223372036854775808000000000 → w.to_duration (w.of_duration d) ≡ some d

pub record PortSpec : Type 0 where
  pub workload : String
  pub port : ℕ

pub record Identity : Type 0 where
  pub name : String

pub record IdentitySuffix : Type 0 where
  pub parts : List String

pub data Clients : Type 0 where
  unauthenticated : Clients
  identities : List Identity → List IdentitySuffix → Clients

pub data Permit : Type 0 where
  unauthenticated : Permit
  mesh_tls : (clients : Option Clients) → Permit

pub record Authn : Type 0 where
  pub permit : Option Permit

module _ {ip : Ipnet} (w : Wire ip) where
  pub data Kind : Type 0 where
    detect : (timeout : Option w.Duration) → Kind
    http1 http2 grpc opaque tls : Kind

  pub record ProxyProtocol : Type 0 where
    pub kind : Option Kind

  pub record Network : Type 0 where
    pub net : Option w.Net
    pub except : List w.Net

  pub record Authz : Type 0 where
    pub labels : Map String String
    pub networks : List Network
    pub authentication : Option Authn

  pub record Server : Type 0 where
    pub protocol : Option ProxyProtocol
    pub authorizations : List Authz
    pub labels : Map String String
