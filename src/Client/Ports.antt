-- ===== src/Client/Ports.antt =====
-- client/src/watch_ports.rs: the task that follows one port, as a machine. Its events are what the
-- futures that it waits for give; a future that is not waited for gives nothing.
pub mod Recovery
use polixy.Prelude.{ℕ, Option, none, some, List, [], ◌∷◌, nat_eq}
use polixy.Map.{Map, collect}
use polixy.Core.{Ipnet}
use polixy.Reply.{Reply, ok, err, ◌>>=◌, try_map}
use polixy.Grpc.{invalid_argument}
use polixy.Client.{Inbound}
use polixy.Client.Calls.{Failure, status}

-- what `start_watch` and the loop of the task wait for, or how the task ended
pub data Phase : Type 0 where
  calling opening streaming : Phase
  finished : Reply Failure (Unit {0}) → Phase

-- the task, and the value of its `watch` channel, which is opened with the first one
pub record PortTask (ip : Ipnet) : Type 0 where
  pub phase : Phase
  pub watched : Option (Inbound ip)

-- what `client.watch_port` gives, what `updates.try_next` gives, and `tx.closed`
pub data Event (ip : Ipnet) : Type 0 where
  called : Reply Failure (Unit {0}) → Event ip
  next : Reply Failure (Option (Inbound ip)) → Event ip
  closed : Event ip

-- `recover`, and then the next round of `start_watch`
unfoldable pub recover : Failure → Phase
recover (status invalid_argument) = finished (err (status invalid_argument))
recover error = calling

module _ {ip : Ipnet} where
  unfoldable pub on_called : Reply Failure (Unit {0}) → PortTask ip → PortTask ip
  unfolding recover
  on_called (ok _) t = record t { phase = opening }
  on_called (err e) t = record t { phase = recover e }

  -- the first item of a stream
  unfoldable pub on_first : Reply Failure (Option (Inbound ip)) → PortTask ip → PortTask ip
  unfolding recover
  on_first (ok (some inbound)) t = record { phase = streaming; watched = some inbound }
  on_first (ok none) t = record t { phase = calling }
  on_first (err e) t = record t { phase = recover e }

  -- a later item: the end of the stream, or an error, opens it again
  unfoldable pub on_next : Reply Failure (Option (Inbound ip)) → PortTask ip → PortTask ip
  on_next (ok (some inbound)) t = record t { watched = some inbound }
  on_next (ok none) t = record t { phase = calling }
  on_next (err e) t = record t { phase = calling }

  -- the receivers are gone; before the first value there are none
  unfoldable pub on_closed : Option (Inbound ip) → PortTask ip → PortTask ip
  on_closed none t = t
  on_closed (some inbound) t = record t { phase = finished (ok tt) }

  unfoldable pub step_in : Phase → Event ip → PortTask ip → PortTask ip
  unfolding on_called on_first on_next on_closed
  step_in (finished r) e t = t
  step_in calling (called r) t = on_called r t
  step_in calling (next r) t = t
  step_in calling closed t = on_closed t.watched t
  step_in opening (called r) t = t
  step_in opening (next r) t = on_first r t
  step_in opening closed t = on_closed t.watched t
  step_in streaming (called r) t = t
  step_in streaming (next r) t = on_next r t
  step_in streaming closed t = on_closed t.watched t

  unfoldable pub step : Event ip → PortTask ip → PortTask ip
  unfolding step_in
  step e t = step_in t.phase e t

  unfoldable pub steps : List (Event ip) → PortTask ip → PortTask ip
  steps [] t = t
  steps (e ∷ es) t = steps es (step e t)

  -- `watch_port`
  abbrev pub start : PortTask ip
  start = record { phase = calling; watched = none }

-- `watch_ports`, with the ports in the order in which their watches have a first value or fail:
-- `try_join_all` ends with the first error
unfoldable pub watch_ports {ℓ} :
    {W : Type ℓ} → (ℕ → Reply Failure W) → List ℕ → Reply Failure (Map ℕ W)
watch_ports watch_port ports = do
  watches ← try_map (λ p. watch_port p >>= λ w. ok (p, w)) ports
  ok (collect watches)
