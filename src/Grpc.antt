-- ===== src/Grpc.antt =====
-- controller/grpc/src/lib.rs: the API server. The discovery that it is given is a parameter of the
-- requests; the stream of a watch is the values that it yields.
pub mod Target
pub mod Watches
use polixy.Prelude.{
  ℕ, String, Bool, true, false, ◌||◌, Option, none, some, List, [], ◌∷◌, map, ◌==◌, nat_eq,
  string_eq, ltb, if◌then◌else◌,
}
use polixy.Map.{collect, Map}
use polixy.Core
use polixy.Core.{
  Ipnet, IdentityMatch, ClientAuthorization, ClientAuthentication, NetworkMatch, InboundServer,
}
use polixy.Proto
use polixy.Proto.{Wire, PortSpec, Identity, IdentitySuffix, Clients, Permit, Kind}
use polixy.Reply.{Reply, ok, err, ◌>>=◌, ok_or}
use polixy.Text.{split_once}

-- `tonic::Status`, with what its message names
pub data Status : Type 0 where
  invalid_workload : String → Status
  invalid_port : ℕ → Status
  lookup_failed : Status
  unknown_server : Status

-- the codes of `tonic::Status` that the program tells apart
pub data Code : Type 0 where
  invalid_argument not_found internal : Code
  other : ℕ → Code

abbrev pub code_of : Status → Code
code_of (invalid_workload workload) = invalid_argument
code_of (invalid_port port) = invalid_argument
code_of lookup_failed = internal
code_of unknown_server = not_found

check_parts : String → Option (String × String) → Reply Status (String × String)
check_parts workload none = err (invalid_workload workload)
check_parts workload (some (ns, pod)) =
    if ns == "" || pod == "" then err (invalid_workload workload) else ok (ns, pod)

check_port : ℕ → Reply Status ℕ
check_port port = if port == 0 || ltb 65535 port then err (invalid_port port) else ok port

-- `Server::check_target`; a port that passes is cast to `u16` unchanged
unfoldable pub check_target : PortSpec → Reply Status (String × String × ℕ)
unfolding check_parts check_port
check_target req = do
  target ← check_parts req.workload (split_once ":" req.workload)
  port ← check_port req.port
  ok (target.0, target.1, port)

abbrev pub name_of : IdentityMatch → Option Identity
name_of (IdentityMatch.name n) = some (record { name = n })
name_of (IdentityMatch.suffix s) = none

abbrev pub suffix_of : IdentityMatch → Option IdentitySuffix
suffix_of (IdentityMatch.suffix s) = some (record { parts = s })
suffix_of (IdentityMatch.name n) = none

unfoldable pub filter_map {ℓ κ} : {A : Type ℓ} {B : Type κ} → (A → Option B) → List A → List B
filter_map f [] = []
filter_map f (a ∷ more) =
    let rest = filter_map f more in elim (f a) [ none ↦ rest | some b ↦ b ∷ rest ]

-- the labels and the permission of an authorization
authn_labels : (authn tls name : String) → Map String String
authn_labels authn tls name = collect (("authn", authn) ∷ ("tls", tls) ∷ ("name", name) ∷ [])

abbrev pub to_labels : String → ClientAuthentication → Map String String
unfolding authn_labels
to_labels name Core.unauthenticated = authn_labels "false" "false" name
to_labels name Core.tls_unauthenticated = authn_labels "false" "true" name
to_labels name (Core.tls_authenticated ids) = authn_labels "true" "true" name

abbrev pub to_permit : ClientAuthentication → Permit
to_permit Core.unauthenticated = Permit.unauthenticated
to_permit Core.tls_unauthenticated = Permit.mesh_tls (some Clients.unauthenticated)
to_permit (Core.tls_authenticated ids) =
    Permit.mesh_tls (some (Clients.identities (filter_map name_of ids) (filter_map suffix_of ids)))

-- what the discovery gives, once the request has been checked
discovered {ℓ} : {A : Type ℓ} → Option (Option A) → Reply Status A
discovered none = err lookup_failed
discovered (some o) = ok_or unknown_server o

module _ {ip : Ipnet} (w : Wire ip) where
  abbrev pub to_kind : Core.ProxyProtocol → Kind w
  to_kind (Core.detect timeout) = Kind.detect (some (w.of_duration timeout))
  to_kind Core.http1 = Kind.http1
  to_kind Core.http2 = Kind.http2
  to_kind Core.grpc = Kind.grpc
  to_kind Core.opaque = Kind.opaque
  to_kind Core.tls = Kind.tls

  abbrev pub to_network : NetworkMatch ip → Proto.Network w
  to_network n = record { net = some (w.of_net n.net); except = map w.of_net n.except }

  -- no networks stand for all of them
  abbrev pub to_networks : List (NetworkMatch ip) → List (Proto.Network w)
  to_networks [] =
      record { net = some (w.of_net ip.any_v4); except = [] }
      ∷ record { net = some (w.of_net ip.any_v6); except = [] }
      ∷ []
  to_networks (n ∷ ns) = map to_network (n ∷ ns)

  unfoldable pub to_authz : String × ClientAuthorization ip → Proto.Authz w
  to_authz (name, authz) = record {
    labels = to_labels name authz.authentication;
    networks = to_networks authz.networks;
    authentication = some (record { permit = some (to_permit authz.authentication) });
  }

  unfoldable pub to_server : InboundServer ip → Proto.Server w
  to_server srv = record {
    protocol = some (record { kind = some (to_kind srv.protocol) });
    authorizations = map to_authz srv.authorizations;
    labels = [];
  }

  -- `get_port`
  unfoldable pub get_port :
      (String × String × ℕ → Option (Option (InboundServer ip)))
      → PortSpec
      → Reply Status (Proto.Server w)
  unfolding discovered
  get_port discover req = do
    target ← check_target req
    s ← discovered (discover target)
    ok (to_server s)

-- `watch_port`: what the discovery has to watch; its items go through `response_stream`
unfoldable pub watch_port {ℓ} :
    {S : Type ℓ} → (String × String × ℕ → Option (Option S)) → PortSpec → Reply Status S
unfolding discovered
watch_port discover req = do target ← check_target req; discovered (discover target)

-- what `select!` of `response_stream` takes next
pub data Next {ℓ} (A : Type ℓ) : Type ℓ where
  item : A → Next A
  ended : Next A
  shutdown : Next A

module _ {ip : Ipnet} (w : Wire ip) where
  -- `response_stream`: what it yields until the watch ends or the server shuts down
  unfoldable pub response_stream : List (Next (InboundServer ip)) → List (Proto.Server w)
  response_stream [] = []
  response_stream (item s ∷ next) = to_server w s ∷ response_stream next
  response_stream (ended ∷ next) = []
  response_stream (shutdown ∷ next) = []
