-- ===== src/Node.antt =====
-- controller/k8s/index/src/node.rs: the kubelet addresses of the known nodes, and the pods that wait
-- for their node.
pub mod Kubelet
pub mod Pending
use polixy.Prelude.{
  String, Bool, true, false, Option, none, some, List, [], ◌∷◌, string_eq, is_some,
}
use polixy.Result.{
  Result, ok, err, invalid_cidr, empty_cidr, node_missing_spec, node_missing_pod_cidr, ok_or, ◌>>=◌,
  try_map,
}
use polixy.Map.{Map, get, insert, remove}
use polixy.Core.{Ipnet, IpAddr}
use polixy.K8s.{Pod, NodeSpec, Node}

abbrev pub KubeletIps : Type 0
KubeletIps = List IpAddr

-- the pending pods of a node, by namespace and by name
abbrev pub Waiting : Type 0
Waiting = Map String (Map String Pod)

pub data State : Type 0 where
  pending : Waiting → State
  known : KubeletIps → State

abbrev pub NodeIndex : Type 0
NodeIndex = Map String State

-- `or_default`
abbrev pub or_default {ℓ} : {A : Type ℓ} → Option (List A) → List A
or_default none = []
or_default (some l) = l

unfoldable pub push_pending : Waiting → String → Pod → Waiting
push_pending pods ns pod = insert ns (insert pod.metadata.name pod (or_default (get ns pods))) pods

-- the match on the node's entry; a pod with no namespace leaves by `?`
unfoldable pub await_node :
    String → Pod → Option State → NodeIndex → Option (Pod × KubeletIps) × NodeIndex
unfolding push_pending
await_node node pod (some (known ips)) index = (some (pod, ips), index)
await_node node pod (some (pending pods)) index = elim pod.metadata.namespace [
  | none ↦ (none, index)
  | some ns ↦ (none, insert node (pending (push_pending pods ns pod)) index)
]
await_node node pod none index = elim pod.metadata.namespace [
  | none ↦ (none, index)
  | some ns ↦ (none, insert node (pending ((ns, (pod.metadata.name, pod) ∷ []) ∷ [])) index)
]

-- `pod.spec.as_ref()?.node_name.clone()?`
unfoldable pub node_of : Pod → Option String
node_of pod = elim pod.spec [ none ↦ none | some spec ↦ spec.node_name ]

unfoldable pub get_or_push_pending : Pod → NodeIndex → Option (Pod × KubeletIps) × NodeIndex
unfolding await_node node_of
get_or_push_pending pod index = elim (node_of pod) [
  | none ↦ (none, index)
  | some node ↦ await_node node pod (get node index) index
]

-- whether the node's entry holds the pod, among those that wait for it
abbrev pub waits_in : String → String → State → Bool
waits_in ns pod (known ips) = false
waits_in ns pod (pending by_ns) = elim (get ns by_ns) [
  | none ↦ false
  | some pods ↦ is_some (get pod pods)
]

unfoldable pub remove_waiting : String → String → State → State
remove_waiting ns pod (known ips) = known ips
remove_waiting ns pod (pending by_ns) = elim (get ns by_ns) [
  | none ↦ pending by_ns
  | some pods ↦ pending (insert ns (remove pod pods) by_ns)
]

-- the first entry that holds the pod loses it
unfoldable pub clear_pending_pod : String → String → NodeIndex → Bool × NodeIndex
unfolding remove_waiting
clear_pending_pod ns pod [] = (false, [])
clear_pending_pod ns pod ((node, state) ∷ index) =
    let (found, rest) = clear_pending_pod ns pod index in
    elim (waits_in ns pod state) [
      | true ↦ (true, (node, remove_waiting ns pod state) ∷ index)
      | false ↦ (found, (node, state) ∷ rest)
    ]

unfoldable pub clear_pending_pods : NodeIndex → NodeIndex
clear_pending_pods [] = []
clear_pending_pods ((node, pending pods) ∷ index) = clear_pending_pods index
clear_pending_pods ((node, known ips) ∷ index) = (node, known ips) ∷ clear_pending_pods index

module _ (ip : Ipnet) where
  unfoldable pub try_from_cidr : String → Result IpAddr
  try_from_cidr cidr = do
    net ← ok_or (invalid_cidr cidr) (ip.parse cidr)
    ok_or empty_cidr (ip.first_host net)

  -- `pod_cidrs`, or `pod_cidr` where that is empty
  kubelet_addrs : List String → Option String → Result KubeletIps
  kubelet_addrs [] pod_cidr = do
    cidr ← ok_or node_missing_pod_cidr pod_cidr
    addr ← try_from_cidr cidr
    ok (addr ∷ [])
  kubelet_addrs (cidr ∷ cidrs) pod_cidr = try_map try_from_cidr (cidr ∷ cidrs)

  unfoldable pub try_from_node : Node → Result KubeletIps
  unfolding try_from_cidr kubelet_addrs
  try_from_node node = do
    spec ← ok_or node_missing_spec node.spec
    kubelet_addrs spec.pod_cidrs spec.pod_cidr
