-- ===== src/Index/Nodes.antt =====
-- The node operations of controller/k8s/index/src/node.rs.
use polixy.Prelude.{
  String, Bool, true, false, Option, none, some, List, [], ◌∷◌, ◌++◌, string_eq, contains, without,
  if◌then◌else◌,
}
use polixy.Result.{Result, ok, err, panic, missing_node}
use polixy.Map.{Map, get, insert, remove, contains_key}
use polixy.Core.{Ipnet}
use polixy.K8s
use polixy.Node.{State, pending, known, NodeIndex, KubeletIps, Waiting, try_from_node}
use polixy.Index.{Index, Exec, for_all, and_then}
use polixy.Index.Pods.{apply_pod}

-- the rounds of the nested loops over the pending pods
unfoldable pub pods_of : Map String K8s.Pod → List K8s.Pod
pods_of [] = []
pods_of ((n, pod) ∷ pods) = pod ∷ pods_of pods

unfoldable pub waiting_pods : Waiting → List K8s.Pod
unfolding pods_of
waiting_pods [] = []
waiting_pods ((ns, pods) ∷ by_ns) = pods_of pods ++ waiting_pods by_ns

-- the pods that wait for the node, if it is not yet known
unfoldable pub pods_to_apply : Option State → List K8s.Pod
pods_to_apply none = []
pods_to_apply (some (pending pods)) = waiting_pods pods
pods_to_apply (some (known ips)) = []

unfoldable pub is_known : Option State → Bool
is_known (some (known ips)) = true
is_known _ = false

-- the known nodes of before
unfoldable pub known_names : NodeIndex → List String
known_names [] = []
known_names ((name, known ips) ∷ index) = name ∷ known_names index
known_names ((name, pending pods) ∷ index) = known_names index

module _ {ip : Ipnet} where
  -- a node becomes known, and then the pods that wait for it are applied
  unfoldable pub learn_node : String → List K8s.Pod → Result KubeletIps → Exec ip
  learn_node name waiting (ok ips) idx =
      for_all apply_pod waiting (ok tt) (record idx { nodes = insert name (known ips) idx.nodes })
  learn_node name waiting (err e) idx = (err e, idx)
  learn_node name waiting panic idx = (panic, idx)

  -- `Index::apply_node`
  unfoldable pub apply_node : K8s.Node → Exec ip
  unfolding learn_node is_known
  apply_node node idx =
      let entry = get node.metadata.name idx.nodes in
      if is_known entry
      then (ok tt, idx)
      else learn_node node.metadata.name (pods_to_apply entry) (try_from_node ip node) idx

  -- `Index::delete_node`
  unfoldable pub delete_node : String → Exec ip
  delete_node name idx =
      if contains_key name idx.nodes
      then (ok tt, record idx { nodes = remove name idx.nodes })
      else (err (missing_node name), idx)

  -- the first loop of `reset_nodes`, with the names that it takes out of `prior`
  unfoldable pub apply_nodes :
      List K8s.Node
      → List String
      → Result (Unit {0})
      → Index ip
      → List String × Result (Unit {0}) × Index ip
  apply_nodes [] prior result idx = (prior, result, idx)
  apply_nodes (node ∷ nodes) prior result idx =
      let name = node.metadata.name in
      let (r, idx') = apply_node node idx in
      elim (contains prior name) [
        | true ↦ apply_nodes nodes (without name prior) result idx
        | false ↦ elim r [
          | ok _ ↦ apply_nodes nodes prior result idx'
          | err e ↦ apply_nodes nodes prior (err e) idx'
          | panic ↦ (prior, panic, idx')
        ]
      ]

  -- `Index::reset_nodes`
  unfoldable pub reset_nodes : List K8s.Node → Exec ip
  unfolding known_names apply_nodes
  reset_nodes nodes idx =
      let (defunct, result, idx') = apply_nodes nodes (known_names idx.nodes) (ok tt) idx in
      and_then (result, idx') (λ r. for_all delete_node defunct r)
