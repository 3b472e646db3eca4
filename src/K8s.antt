-- ===== src/K8s.antt =====
-- controller/k8s/api/src: the resources that the controller watches. Of the types of `k8s_openapi`
-- and `kube` a record has the fields that the program reads; `metadata.name` is what
-- `ResourceExt::name` returns.
pub mod Watch
use native.Mathlib.Decide.{ℕ_discrete}
use polixy.Prelude.{ℕ, String, Bool, Option, List, String-discrete}
use polixy.Labels.{Labels, Selector}
use polixy.Map.{Map}

pub record ObjectMeta : Type 0 where
  pub name : String
  pub namespace : Option String
  pub labels : Labels
  pub annotations : Map String String

-- `container_port` is an i32, given by its 32-bit pattern
pub record ContainerPort : Type 0 where
  pub container_port : ℕ
  pub name : Option String
  pub protocol : Option String

pub record Container : Type 0 where
  pub ports : List ContainerPort

pub record PodSpec : Type 0 where
  pub node_name : Option String
  pub containers : List Container

pub record Pod : Type 0 where
  pub metadata : ObjectMeta
  pub spec : Option PodSpec

pub record NodeSpec : Type 0 where
  pub pod_cidr : Option String
  pub pod_cidrs : List String

pub record Node : Type 0 where
  pub metadata : ObjectMeta
  pub spec : Option NodeSpec

-- polixy/server.rs
pub data PortRef : Type 0 where
  number : ℕ → PortRef
  name : String → PortRef

pub PortRef-discrete : Discrete PortRef
PortRef-discrete = hlevel (ℕ_discrete, String-discrete)

pub data Protocol : Type 0 where
  unknown http1 http2 grpc opaque tls : Protocol

pub record ServerSpec : Type 0 where
  pub pod_selector : Selector
  pub port : PortRef
  pub proxy_protocol : Option Protocol

pub record Server : Type 0 where
  pub metadata : ObjectMeta
  pub spec : ServerSpec

-- polixy/authz.rs
pub record ServerTarget : Type 0 where
  pub name : Option String
  pub selector : Option Selector

pub record Network : Type 0 where
  pub cidr : String
  pub except : List String

pub record ServiceAccountRef : Type 0 where
  pub namespace : Option String
  pub name : String

pub record MeshTls : Type 0 where
  pub unauthenticated_tls : Bool
  pub identities : List String
  pub service_accounts : List ServiceAccountRef

pub record Client : Type 0 where
  pub networks : Option (List Network)
  pub unauthenticated : Bool
  pub mesh_tls : Option MeshTls

pub record ServerAuthorizationSpec : Type 0 where
  pub server : ServerTarget
  pub client : Client

pub record ServerAuthorization : Type 0 where
  pub metadata : ObjectMeta
  pub spec : ServerAuthorizationSpec
