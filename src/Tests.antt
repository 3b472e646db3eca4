-- ===== src/Tests.antt =====
-- A small cluster, for the examples: a node, a server, an authorization of it and a pod.
pub mod Updates
pub mod Served
pub mod Followed
pub mod Clients
pub mod Policed
pub mod Enforced
pub mod Awaited
pub mod Received
pub mod Selectors
pub mod Parts
pub mod Api
use native.Mathlib.Decide.{ℕ_discrete}
use polixy.Prelude.{
  ℕ, String, ◌≡◌, ◌↔◌, refl, ap, Bool, true, false, Option, none, some, List, [], ◌∷◌, ◌==◌, nat_eq,
  string_eq, arith, if◌then◌else◌,
}
use polixy.Core.{Ipnet, IsIpnet, IpAddr, v4, v6}
use polixy.Labels.{Labels, Selector}
use polixy.K8s
use polixy.K8s.{ObjectMeta, number}
use polixy.Proto.{Wire, IsWire}
use polixy.Index.Run.{Update, node, pod, server, authz, applied}

-- the default networks, and networks of one address
pub data Net : Type 0 where
  any4 any6 : Net
  one : IpAddr → Net

abbrev pub addr_eq : IpAddr → IpAddr → Bool
addr_eq (v4 a) (v4 b) = a == b
addr_eq (v6 a) (v6 b) = a == b
addr_eq _ _ = false

addr_eq_iff : (a b : IpAddr) → (addr_eq a b ≡ true) ↔ (a ≡ b)
addr_eq_iff (v4 a) (v4 b) =
    (λ h. ap v4 ((nat_eq.beq_iff a b).0 h), λ h. ground (arith, nat_eq.beq_iff a b))
addr_eq_iff (v6 a) (v6 b) =
    (λ h. ap v6 ((nat_eq.beq_iff a b).0 h), λ h. ground (arith, nat_eq.beq_iff a b))
addr_eq_iff (v4 a) (v6 b) = (λ h. cc, λ h. cc)
addr_eq_iff (v6 a) (v4 b) = (λ h. cc, λ h. cc)

abbrev pub net_holds : Net → IpAddr → Bool
net_holds any4 (v4 a) = true
net_holds any6 (v6 a) = true
net_holds (one a) b = addr_eq a b
net_holds _ _ = false

abbrev pub first_of : Net → Option IpAddr
first_of (one a) = some a
first_of _ = none

pub Net-discrete : Discrete Net
Net-discrete = hlevel ℕ_discrete

abbrev pub nets : Ipnet
nets = record {
  IpNet = Net;
  net_discrete = Net-discrete;
  parse = λ s. if s == "10.0.0.1/32" then some (one (v4 1)) else none;
  first_host = first_of;
  contains = net_holds;
  from_addr = one;
  any_v4 = any4;
  any_v6 = any6;
}

pub nets-IsIpnet : IsIpnet nets
nets-IsIpnet = record {
  any_v4_all = λ a. refl;
  any_v6_all = λ a. refl;
  from_addr_iff = addr_eq_iff;
}

-- messages that are what they mean
abbrev pub plain : Wire nets
plain = record {
  Net = Net;
  Duration = ℕ;
  of_net = λ n. n;
  to_net = λ n. some n;
  of_duration = λ d. d;
  to_duration = λ d. some d;
}

pub plain-IsWire : IsWire plain
plain-IsWire = record { to_net-of_net = λ n. refl; to_duration-of_duration = λ d h. refl }

abbrev pub meta_of : String → Labels → ObjectMeta
meta_of name labels = record {
  name = name;
  namespace = some "default";
  labels = labels;
  annotations = [];
}

abbrev pub web_labels : Labels
web_labels = ("app", "web") ∷ []

abbrev pub web_pods : Selector
web_pods = record { match_labels = some web_labels; match_expressions = none }

abbrev pub web_spec : K8s.PodSpec
web_spec = record {
  node_name = some "node";
  containers =
      record { ports = record { container_port = 80; name = some "http"; protocol = none } ∷ [] }
      ∷ [];
}

abbrev pub web_pod : K8s.Pod
web_pod = record { metadata = meta_of "web-0" web_labels; spec = some web_spec }

abbrev pub the_node : K8s.Node
the_node = record {
  metadata = record { name = "node"; namespace = none; labels = []; annotations = [] };
  spec = some (record { pod_cidr = none; pod_cidrs = "10.0.0.1/32" ∷ [] });
}

abbrev pub web_server : K8s.Server
web_server = record {
  metadata = meta_of "web" [];
  spec = record {
    pod_selector = web_pods;
    port = number 80;
    proxy_protocol = some K8s.Protocol.http2;
  };
}

abbrev pub open_authz : K8s.ServerAuthorization
open_authz = record {
  metadata = meta_of "open" [];
  spec = record {
    server = record { name = some "web"; selector = none };
    client = record { networks = none; unauthenticated = true; mesh_tls = none };
  };
}

abbrev pub cluster : List Update
cluster =
    node (applied the_node)
    ∷ server (applied web_server)
    ∷ pod (applied web_pod)
    ∷ authz (applied open_authz)
    ∷ []
