-- ===== src/Tests/Api.antt =====
-- Examples of the API server and of the client.
use mathlib.Core.Option
use polixy.Prelude.{String, ◌≡◌, ◌↔◌, Option, [], ◌∷◌, arith}
use polixy.Core.{IpAddr, InboundServer, detect, tls_authenticated, suffix}
use polixy.Proto.{PortSpec}
use polixy.Reply.{ok}
use polixy.Grpc.{check_target, to_server}
use polixy.Grpc.Target.{Names, check_target_iff}
use polixy.Client.{Inbound, try_from, check_tls, check_non_tls}
use polixy.Client.Decode.{inbound_of, try_from-to_server}
use polixy.Client.Checks.{labels_of, first, admits_tls, admits_non_tls, check-admits}
use polixy.Tests.{any4, nets, nets-IsIpnet, plain, plain-IsWire}

-- an authorization of the identities under a suffix, from any IPv4 address
abbrev pub config : InboundServer nets
config = record {
  protocol = detect 10000000000;
  authorizations =
      (
        "mesh",
        record {
          networks = record { net = any4; except = [] } ∷ [];
          authentication = tls_authenticated (suffix ("cluster" ∷ "local" ∷ []) ∷ []);
        },
      )
      ∷ [];
}

try_from-to_server_example : try_from plain (to_server plain config) ≡ ok (inbound_of config)
try_from-to_server_example = try_from-to_server plain plain-IsWire config (omega arith)

check-admits_example :
    (inbound : Inbound nets) × (try_from plain (to_server plain config) ≡ ok inbound)
    × ((addr : IpAddr) (id : Option String)
        → check_tls inbound addr id
          ≡ Option.map labels_of (first (admits_tls addr id) config.authorizations))
    × ((addr : IpAddr)
        → check_non_tls inbound addr
          ≡ Option.map labels_of (first (admits_non_tls addr) config.authorizations))
check-admits_example = check-admits nets-IsIpnet plain plain-IsWire config (omega arith)

abbrev pub request : PortSpec
request = record { workload = "default:web-0"; port = 80 }

check_target_iff_example :
    (check_target request ≡ ok ("default", "web-0", 80)) ↔ Names request "default" "web-0" 80
check_target_iff_example = check_target_iff request "default" "web-0" 80
