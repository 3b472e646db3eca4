-- ===== src/K8s/Watch.antt =====
-- controller/k8s/api/src/watch.rs: a watch, over what its stream has given and not been asked for. An
-- error of the stream is its message, which is only logged; the second of sleep after it is left out.
use polixy.Prelude.{String, Bool, true, false, Option, none, some, List, [], ◌∷◌}

pub data Item (E : Type 0) : Type 0 where
  event : E → Item E
  error : String → Item E

pub record Watch (E : Type 0) : Type 0 where
  pub ready : Bool
  pub rx : List (Item E)

abbrev pub from : {E : Type 0} → List (Item E) → Watch E
from rx = record { ready = false; rx = rx }

-- the loop of `recv`, which waits when the stream has nothing more
unfoldable pub recv_loop : {E : Type 0} → Bool → List (Item E) → Option E × Watch E
recv_loop ready [] = (none, record { ready = ready; rx = [] })
recv_loop ready (event e ∷ rx) = (some e, record { ready = true; rx = rx })
recv_loop ready (error e ∷ rx) = recv_loop false rx

unfoldable pub recv : {E : Type 0} → Watch E → Option E × Watch E
recv watch = recv_loop watch.ready watch.rx
