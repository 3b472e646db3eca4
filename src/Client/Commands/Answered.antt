-- ===== src/Client/Commands/Answered.antt =====
-- A `get` of the client, as the API server answers it from the lookups.
use polixy.Prelude.{ℕ, String, ◌≡◌, ◌≢◌, ◌<◌, refl, ap, ◌∙◌, Option, none, some, string_eq, nat_eq}
use polixy.Core.{Ipnet, InboundServer}
use polixy.Proto
use polixy.Proto.{Wire, IsWire, PortSpec}
use polixy.Reply.{Reply, ok, err, ◌>>=◌, ok_or}
use polixy.Text.Laws.{NoChar}
use polixy.Watch.{Channels}
use polixy.Lookup.{ByNs, get_inbound_server}
use polixy.Grpc
use polixy.Grpc.{Code, not_found, code_of, check_target, unknown_server, to_server}
use polixy.Grpc.Target.{check_target_iff}
use polixy.Client.{Inbound, try_from}
use polixy.Client.Decode.{Fits, inbound_of, try_from-to_server}
use polixy.Client.Calls
use polixy.Client.Calls.{Failure, status, decode, map_err, read_message}
use polixy.Client.Commands.{workload}

module _ {ip : Ipnet} (w : Wire ip) where
  -- the API server, whose discovery is `Reader`, as its client sees it
  abbrev pub api :
      Channels ℕ → Channels (InboundServer ip) → ByNs → PortSpec → Reply Code (Proto.Server w)
  api links configs lookups req =
      map_err code_of (Grpc.get_port w (λ t. some (get_inbound_server links configs t lookups)) req)

  api_lem :
      (links : Channels ℕ) (configs : Channels (InboundServer ip)) (lookups : ByNs)
      (ns pod : String) (port : ℕ) (o : Option (InboundServer ip))
      → NoChar ":" ns
      → ns ≢ ""
      → pod ≢ ""
      → 0 < port
      → port < 65536
      → get_inbound_server links configs (ns, pod, port) lookups ≡ o
      → api links configs lookups (record { workload = workload ns pod; port = port })
        ≡ elim o [ none ↦ err not_found | some s ↦ ok (to_server w s) ]
  unfolding Grpc.get_port
  api_lem links configs lookups ns pod port o free some_ns some_pod low high found =
      let req : PortSpec = record { workload = workload ns pod; port = port } in
      let accepted =
        (check_target_iff req ns pod port).1 (refl, free, some_ns, some_pod, refl, low, high) in
      let answer_of = λ (q : Option (InboundServer ip)).
        map_err code_of (ok_or unknown_server q >>= λ s. ok (to_server w s)) in
      ap
        (λ r. map_err code_of (
          r >>= λ t. ok_or unknown_server (get_inbound_server links configs t lookups) >>= λ s.
          ok (to_server w s)))
        accepted
      ∙ ap answer_of found
      ∙ by_found o
    where
      by_found :
          (q : Option (InboundServer ip))
          → map_err code_of (ok_or unknown_server q >>= λ s. ok (to_server w s))
            ≡ elim q [ none ↦ err not_found | some s ↦ ok (to_server w s) ]
      by_found none = refl
      by_found (some s) = refl

  -- the timeout that is sent, if any, fits
  abbrev pub AllFit : Option (InboundServer ip) → Type 0
  AllFit none = Unit
  AllFit (some s) = Fits s.protocol

  -- what the client gives for what `Reader` finds
  abbrev pub answered : Option (InboundServer ip) → Reply Failure (Inbound ip)
  answered none = err (status not_found)
  answered (some s) = ok (inbound_of s)

  decoded_lem :
      (o : Option (InboundServer ip))
      → IsWire w
      → AllFit o
      → (map_err status (elim o [ none ↦ err not_found | some s ↦ ok (to_server w s) ]) >>= λ proto.
          map_err decode (try_from w proto))
        ≡ answered o
  decoded_lem none is fits = refl
  decoded_lem (some s) is fits = ap (map_err decode) (try_from-to_server w is s fits)

  -- A `get` for a pod of a namespace that has no colon in its name, both of which are named, and for a
  -- port between 1 and 65535, gives the configuration that `Reader` finds, as the client reads it, if its
  -- timeout fits, and fails with the code for a missing one where `Reader` finds none.
  pub get-answered :
      (is : IsWire w) (links : Channels ℕ) (configs : Channels (InboundServer ip)) (lookups : ByNs)
      (ns pod : String) (port : ℕ)
      → NoChar ":" ns
      → ns ≢ ""
      → pod ≢ ""
      → 0 < port
      → port < 65536
      → AllFit (get_inbound_server links configs (ns, pod, port) lookups)
      → Calls.get_port w (api links configs lookups) (workload ns pod) port
        ≡ answered (get_inbound_server links configs (ns, pod, port) lookups)
  unfolding Calls.get_port read_message
  get-answered is links configs lookups ns pod port free some_ns some_pod low high fits =
      let found = get_inbound_server links configs (ns, pod, port) lookups in
      ap (λ r. map_err status r >>= λ proto. map_err decode (try_from w proto))
        (api_lem links configs lookups ns pod port found free some_ns some_pod low high refl)
      ∙ decoded_lem found is fits
