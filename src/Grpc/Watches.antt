-- ===== src/Grpc/Watches.antt =====
-- A watch of a port begins with what a lookup of the port gives.
use polixy.Prelude.{ℕ, String, ◌≡◌, refl, ◌∙◌, Option, none, some, [], ◌∷◌, map, string_eq, nat_eq}
use polixy.Core.{Ipnet, InboundServer}
use polixy.Proto.{Wire, PortSpec}
use polixy.Reply.{Reply, ok, err, ◌>>=◌}
use polixy.Lookup.{Rx, ByNs, lookup, rx_get, get_inbound_server}
use polixy.Lookup.Stream.{World, into_stream, start, watch_inbound_server}
use polixy.Grpc.{
  to_server, Status, check_target, discovered, get_port, watch_port, item, response_stream,
}

module _ {ip : Ipnet} (w : Wire ip) (world : World ip) where
  discovered_lem :
      (o : Option Rx)
      → (discovered (some (elim o [ none ↦ none | some rx ↦ some (into_stream rx world.links) ]))
          >>= λ s. ok (response_stream w (map item (start s world).yielded)))
        ≡ (discovered
              (some (elim o [ none ↦ none | some rx ↦ some (rx_get world.links world.configs rx) ]))
            >>= λ s. ok (to_server w s ∷ []))
  unfolding discovered into_stream start rx_get response_stream
  discovered_lem none = refl
  discovered_lem (some rx) = refl

  checked_lem :
      (lookups : ByNs) (r : Reply Status (String × String × ℕ))
      → ((r >>= λ t. discovered (some (watch_inbound_server t lookups world.links))) >>= λ s.
          ok (response_stream w (map item (start s world).yielded)))
        ≡ ((r >>= λ t.
              discovered (some (get_inbound_server world.links world.configs t lookups)) >>= λ s.
              ok (to_server w s))
            >>= λ m. ok (m ∷ []))
  unfolding watch_inbound_server get_inbound_server
  checked_lem lookups (err e) = refl
  checked_lem lookups (ok (ns, pod, port)) =
      discovered_lem (lookup ns pod port lookups)
      ∙ regroup
          (discovered (some (get_inbound_server world.links world.configs (ns, pod, port) lookups)))
    where
      regroup :
          (r : Reply Status (InboundServer ip))
          → (r >>= λ s. ok (to_server w s ∷ []))
            ≡ ((r >>= λ s. ok (to_server w s)) >>= λ m. ok (m ∷ []))
      regroup (ok s) = refl
      regroup (err e) = refl

  -- `watch_port` accepts the requests that `get_port` answers, and the first message of its stream is
  -- that answer; it refuses the others with the same status.
  pub watch_port-get_port :
      (lookups : ByNs) (req : PortSpec)
      → (watch_port (λ t. some (watch_inbound_server t lookups world.links)) req >>= λ s.
          ok (response_stream w (map item (start s world).yielded)))
        ≡ (get_port w (λ t. some (get_inbound_server world.links world.configs t lookups)) req
            >>= λ m. ok (m ∷ []))
  unfolding watch_port get_port
  watch_port-get_port lookups req = checked_lem lookups (check_target req)
