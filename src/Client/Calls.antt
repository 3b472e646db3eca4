-- ===== src/Client/Calls.antt =====
-- client/src/lib.rs: the calls of the API. The server's answers, which the gRPC channel carries, are an
-- argument; the stream of a watch is the list of its items.
use polixy.Prelude.{ℕ, String, List, map}
use polixy.Core.{Ipnet}
use polixy.Proto
use polixy.Proto.{Wire, PortSpec}
use polixy.Reply.{Reply, ok, err, ◌>>=◌}
use polixy.Grpc.{Code}
use polixy.Client.{Error, Inbound, try_from}

-- `anyhow::Error`: a status of the call, or what the decoding says
pub data Failure : Type 0 where
  status : Code → Failure
  decode : Error → Failure

abbrev pub map_err {ℓ κ μ} :
    {E : Type κ} {F : Type μ} {A : Type ℓ} → (E → F) → Reply E A → Reply F A
map_err f (ok a) = ok a
map_err f (err e) = err (f e)

module _ {ip : Ipnet} (w : Wire ip) where
  -- a message, or the status that ends a stream, as the client passes it on
  unfoldable pub read_message : Reply Code (Proto.Server w) → Reply Failure (Inbound ip)
  read_message reply = do proto ← map_err status reply; map_err decode (try_from w proto)

  -- `Client::get_port`
  unfoldable pub get_port :
      (PortSpec → Reply Code (Proto.Server w))
      → (workload : String) (port : ℕ) → Reply Failure (Inbound ip)
  unfolding read_message
  get_port call workload port = read_message (call (record { workload = workload; port = port }))

  -- `Client::watch_port`
  unfoldable pub watch_port :
      (PortSpec → Reply Code (List (Reply Code (Proto.Server w))))
      → (workload : String) (port : ℕ) → Reply Failure (List (Reply Failure (Inbound ip)))
  unfolding read_message
  watch_port call workload port = do
    updates ← map_err status (call (record { workload = workload; port = port }))
    ok (map read_message updates)
