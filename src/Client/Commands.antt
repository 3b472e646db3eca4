-- ===== src/Client/Commands.antt =====
-- client/src/main.rs: the commands, and the requests that they make.
pub mod Answered
use Prim.Native.String
use Prim.Native.String.{◌++◌ as ◌<>◌}
use polixy.Prelude.{ℕ, String, List, [], ◌∷◌, map}
use polixy.Proto.{PortSpec}
use polixy.Reply.{Reply, ok, err}

pub data Command : Type 0 where
  watch get : (namespace pod : String) (port : ℕ) → Command
  http_api : (namespace pod : String) (ports : List ℕ) → Command

-- `bail!("no ports specified …")`
pub data Refused : Type 0 where
  no_ports : (namespace pod : String) → Refused

-- `format!("{}:{}", namespace, pod)`
abbrev pub workload : String → String → String
workload namespace pod = namespace <> String.◌∷◌ ":" pod

abbrev spec_of : String → String → ℕ → PortSpec
spec_of namespace pod port = record { workload = workload namespace pod; port = port }

-- the ports that `main` asks for
unfoldable pub requests : Command → Reply Refused (List PortSpec)
requests (watch namespace pod port) = ok (spec_of namespace pod port ∷ [])
requests (get namespace pod port) = ok (spec_of namespace pod port ∷ [])
requests (http_api namespace pod []) = err (no_ports namespace pod)
requests (http_api namespace pod (port ∷ ports)) = ok (map (spec_of namespace pod) (port ∷ ports))
