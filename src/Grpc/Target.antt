-- ===== src/Grpc/Target.antt =====
-- Which requests the API server accepts.
use Prim.Native.String.{◌++◌ as ◌<>◌}
use polixy.Prelude.{
  ℕ, String, ◌≡◌, ◌≢◌, ◌↔◌, ◌<◌, refl, subst, Option, none, some, arith, nat_eq, string_eq,
}
use polixy.Proto.{PortSpec}
use polixy.Reply.{ok}
use polixy.Text.{split_once}
use polixy.Text.Laws.{NoChar, split_once_iff}
use polixy.Reply.{>>=-eq-ok, ok-injective}
use polixy.Grpc.{check_parts, check_port, check_target}

-- a target that the request may name
abbrev pub Names : PortSpec → String → String → ℕ → Type 0
Names req ns pod port =
    (req.workload ≡ ns <> String.◌∷◌ ":" pod)
    × NoChar ":" ns
    × (ns ≢ "")
    × (pod ≢ "")
    × (req.port ≡ port)
    × (0 < port)
    × (port < 65536)

check_parts_sound :
    (workload : String) (o : Option (String × String)) (t : String × String)
    → check_parts workload o ≡ ok t
    → (o ≡ some t) × (t.0 ≢ "") × (t.1 ≢ "")
unfolding check_parts
check_parts_sound workload none t h = cc
check_parts_sound workload (some (ns, pod)) (ns', pod') h =
    ground (arith, string_eq.beq_iff ns "", string_eq.beq_iff pod "")

check_parts_complete :
    (workload ns pod : String)
    → ns ≢ ""
    → pod ≢ ""
    → check_parts workload (some (ns, pod)) ≡ ok (ns, pod)
unfolding check_parts
check_parts_complete workload ns pod h k =
    ground (arith, string_eq.beq_iff ns "", string_eq.beq_iff pod "")

check_port_iff :
    (port port' : ℕ)
    → (check_port port ≡ ok port') ↔ ((port ≡ port') × (0 < port') × (port' < 65536))
unfolding check_port
check_port_iff port port' = (λ h. ground arith, λ h. ground arith)

-- A request is accepted, for a namespace, a pod and a port, exactly if its workload is the
-- namespace, a colon and the pod, neither is empty and the namespace has no colon, and its port is
-- that port and lies between 1 and 65535.
pub check_target_iff :
    (req : PortSpec) (ns pod : String) (port : ℕ)
    → (check_target req ≡ ok (ns, pod, port)) ↔ Names req ns pod port
unfolding check_target
check_target_iff req ns pod port = (
  λ h.
      let ((ns', pod'), p, h1) =
        >>=-eq-ok (check_parts req.workload (split_once ":" req.workload)) _ h in
      let (port', q, h2) = >>=-eq-ok (check_port req.port) _ h1 in
      let (found, some_ns, some_pod) = check_parts_sound req.workload _ _ p in
      let (is_port, low, high) = (check_port_iff req.port port').0 q in
      let (w, free) = (split_once_iff ":" req.workload ns' pod').0 found in
      subst (λ (t : String × String × ℕ). Names req t.0 t.1 t.2)
        (ok-injective (ns', pod', port') (ns, pod, port) h2)
        (w, free, some_ns, some_pod, is_port, low, high),
  λ (w, free, some_ns, some_pod, is_port, low, high).
      rw
        (
          (split_once_iff ":" req.workload ns pod).1 (w, free),
          check_parts_complete req.workload ns pod some_ns some_pod,
          (check_port_iff req.port port).1 (is_port, low, high),
        )
        refl,
)
