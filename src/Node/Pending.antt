-- ===== src/Node/Pending.antt =====
-- Pods that wait for their node, of controller/k8s/index/src/node.rs.
use polixy.Prelude.{
  String, ◌≡◌, refl, Option, none, some, arith, string_eq, inl, inr, Option-cases, [], ◌∷◌,
}
use polixy.Map.{get, insert}
use polixy.Map.Laws.{get-insert}
use polixy.K8s.{Pod}
use polixy.Node.{
  Waiting, State, pending, known, NodeIndex, KubeletIps, await_node, push_pending, node_of,
  get_or_push_pending,
}

-- a pod comes back only for its own node, which is known
await_known :
    (node : String) (pod pod' : Pod) (ips : KubeletIps) (o : Option State) (index : NodeIndex)
    → (await_node node pod o index).0 ≡ some (pod', ips)
    → (pod' ≡ pod) × (o ≡ some (known ips))
unfolding await_node
await_known node pod pod' ips none index h = elim (Option-cases pod.metadata.namespace) [
  | inl e ↦ ground (arith, rw e at h)
  | inr (ns, e) ↦ ground (arith, rw e at h)
]
await_known node pod pod' ips (some (pending w)) index h =
    elim (Option-cases pod.metadata.namespace) [
      | inl e ↦ ground (arith, rw e at h)
      | inr (ns, e) ↦ ground (arith, rw e at h)
    ]
await_known node pod pod' ips (some (known a)) index h = ground (arith, h)

-- A pod that comes back comes back itself, with the addresses of its node, which is known.
pub get_or_push_pending-known :
    (pod pod' : Pod) (ips : KubeletIps) (index : NodeIndex)
    → (get_or_push_pending pod index).0 ≡ some (pod', ips)
    → (pod' ≡ pod)
      × (node : String) × (node_of pod ≡ some node)
      × (get node index ≡ some (known ips))
unfolding get_or_push_pending
get_or_push_pending-known pod pod' ips index h = elim (Option-cases (node_of pod)) [
  | inl e ↦ ground (arith, rw (e, get_or_push_pending) at h)
  | inr (node, e) ↦
      let (same, k) =
        await_known node pod pod' ips (get node index) index (rw (e, get_or_push_pending) at h) in
      (same, node, e, k)
]

-- a pod of a known node comes back at once, and nothing else changes
pub get_or_push_pending-ready :
    (pod : Pod) (node : String) (ips : KubeletIps) (index : NodeIndex)
    → node_of pod ≡ some node
    → get node index ≡ some (known ips)
    → get_or_push_pending pod index ≡ (some (pod, ips), index)
unfolding get_or_push_pending await_node
get_or_push_pending-ready pod node ips index h k = rw (h, k, get_or_push_pending) refl

await-kept :
    (node : String) (pod : Pod) (o : Option State) (index : NodeIndex) (n : String)
    (ips : KubeletIps)
    → get node index ≡ o
    → get n index ≡ some (known ips)
    → get n (await_node node pod o index).1 ≡ some (known ips)
unfolding await_node
await-kept node pod none index n ips e k = elim (Option-cases pod.metadata.namespace) [
  | inl q ↦ rw q k
  | inr (ns, q) ↦ rw q (
      ground (
        arith,
        get-insert node n (pending ((ns, (pod.metadata.name, pod) ∷ []) ∷ [])) index,
        string_eq.beq_iff node n,
      ))
]
await-kept node pod (some (pending w)) index n ips e k =
    elim (Option-cases pod.metadata.namespace) [
      | inl q ↦ rw q k
      | inr (ns, q) ↦ rw q (
          ground (
            arith,
            get-insert node n (pending (push_pending w ns pod)) index,
            string_eq.beq_iff node n,
          ))
    ]
await-kept node pod (some (known a)) index n ips e k = k

-- a known node stays so
pub get_or_push_pending-kept :
    (pod : Pod) (index : NodeIndex) (n : String) (ips : KubeletIps)
    → get n index ≡ some (known ips)
    → get n (get_or_push_pending pod index).1 ≡ some (known ips)
unfolding get_or_push_pending
get_or_push_pending-kept pod index n ips k = elim (Option-cases (node_of pod)) [
  | inl e ↦ rw (e, get_or_push_pending) k
  | inr (node, e) ↦
      rw (e, get_or_push_pending) (await-kept node pod (get node index) index n ips refl k)
]

-- a pod of a node that is not known is put with the pods that wait for it
pub get_or_push_pending-vacant :
    (pod : Pod) (node ns : String) (index : NodeIndex)
    → node_of pod ≡ some node
    → pod.metadata.namespace ≡ some ns
    → get node index ≡ none
    → get_or_push_pending pod index
      ≡ (none, insert node (pending ((ns, (pod.metadata.name, pod) ∷ []) ∷ [])) index)
unfolding get_or_push_pending await_node
get_or_push_pending-vacant pod node ns index h k e = rw (h, e, k, get_or_push_pending) refl

pub get_or_push_pending-waits :
    (pod : Pod) (node ns : String) (w : Waiting) (index : NodeIndex)
    → node_of pod ≡ some node
    → pod.metadata.namespace ≡ some ns
    → get node index ≡ some (pending w)
    → get_or_push_pending pod index ≡ (none, insert node (pending (push_pending w ns pod)) index)
unfolding get_or_push_pending await_node
get_or_push_pending-waits pod node ns w index h k e = rw (h, e, k, get_or_push_pending) refl
