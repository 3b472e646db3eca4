-- ===== src/Node/Kubelet.antt =====
-- The kubelet addresses that a node resource gives.
use polixy.Prelude.{
  String, ◌≡◌, ◌≢◌, ◌↔◌, refl, subst, ◌∙◌, Option, none, some, List, [], ◌∷◌, arith, ap,
}
use polixy.Result.{ok, ◌>>=◌, try_map}
use polixy.Result.Inversion.{>>=-eq-ok, try_map-cons, ok-injective}
use polixy.Core.{Ipnet, IpAddr}
use polixy.K8s.{NodeSpec, Node}
use polixy.Node.{try_from_cidr, kubelet_addrs, try_from_node}

module _ (ip : Ipnet) where
  -- the list of CIDRs, or the single one where that is empty
  abbrev pub cidrs_or : List String → Option String → List String
  cidrs_or [] none = []
  cidrs_or [] (some cidr) = cidr ∷ []
  cidrs_or (cidr ∷ cidrs) o = cidr ∷ cidrs

  -- the address is the first host of the network that the text denotes
  pub data FirstHosts : List String → List IpAddr → Type 0 where
    none_left : FirstHosts [] []
    host :
        {cidr : String} {cidrs : List String} {addr : IpAddr} {addrs : List IpAddr} (net : ip.IpNet)
        → ip.parse cidr ≡ some net
        → ip.first_host net ≡ some addr
        → FirstHosts cidrs addrs
        → FirstHosts (cidr ∷ cidrs) (addr ∷ addrs)

  try_from_cidr_inv :
      (cidr : String) (addr : IpAddr)
      → try_from_cidr ip cidr ≡ ok addr
      → (net : ip.IpNet) × (ip.parse cidr ≡ some net) × (ip.first_host net ≡ some addr)
  unfolding try_from_cidr
  try_from_cidr_inv cidr addr h = ground arith

  try_map_inv :
      (cidrs : List String) (addrs : List IpAddr)
      → try_map (try_from_cidr ip) cidrs ≡ ok addrs
      → FirstHosts cidrs addrs
  unfolding try_map
  try_map_inv [] [] h = none_left
  try_map_inv [] (a ∷ addrs) h = cc
  try_map_inv (c ∷ cs) addrs h =
      let (a, rest, p, q, e) = try_map-cons (try_from_cidr ip) c cs addrs h in
      let (net, parsed, first) = try_from_cidr_inv c a p in
      subst (FirstHosts (c ∷ cs)) e (host net parsed first (try_map_inv cs rest q))

  one_addr :
      (cidr : String) (addrs : List IpAddr)
      → (do a ← try_from_cidr ip cidr; ok (a ∷ [])) ≡ ok addrs
      → FirstHosts (cidr ∷ []) addrs
  one_addr cidr addrs h =
      let (a, p, e) = >>=-eq-ok (try_from_cidr ip cidr) (λ a. ok (a ∷ [])) h in
      let (net, parsed, first) = try_from_cidr_inv cidr a p in
      subst (FirstHosts (cidr ∷ [])) (ok-injective _ _ e) (host net parsed first none_left)

  try_from_cidr_of_host :
      (cidr : String) (net : ip.IpNet) (addr : IpAddr)
      → ip.parse cidr ≡ some net
      → ip.first_host net ≡ some addr
      → try_from_cidr ip cidr ≡ ok addr
  unfolding try_from_cidr
  try_from_cidr_of_host cidr net addr h k = ground arith

  try_map_of_hosts :
      {cidrs : List String} {addrs : List IpAddr}
      → FirstHosts cidrs addrs
      → try_map (try_from_cidr ip) cidrs ≡ ok addrs
  unfolding try_map
  try_map_of_hosts none_left = refl
  try_map_of_hosts (host {cidr = c} {addr = a} net p f rest) =
      rw (try_from_cidr_of_host c net a p f, try_map_of_hosts rest)

  hosts-ne-nil :
      {cidr : String} {cidrs : List String} {addrs : List IpAddr}
      → FirstHosts (cidr ∷ cidrs) addrs
      → addrs ≢ []
  hosts-ne-nil (host net p f rest) = λ e. cc

  one_addr_of_hosts :
      {cidr : String} {addrs : List IpAddr}
      → FirstHosts (cidr ∷ []) addrs
      → (do a ← try_from_cidr ip cidr; ok (a ∷ [])) ≡ ok addrs
  unfolding try_map
  one_addr_of_hosts {cidr} {addrs} f =
      let (a, rest, p, q, e) = try_map-cons (try_from_cidr ip) cidr [] addrs (try_map_of_hosts f) in
      rw p (ap ok (ap (λ r. a ∷ r) (ok-injective [] rest q) ∙ e))

  kubelet_addrs_iff :
      (cidrs : List String) (o : Option String) (addrs : List IpAddr)
      → (kubelet_addrs ip cidrs o ≡ ok addrs) ↔ (FirstHosts (cidrs_or cidrs o) addrs × (addrs ≢ []))
  unfolding kubelet_addrs
  kubelet_addrs_iff [] none [] = (λ h. cc, λ h. absurd (h.1 refl))
  kubelet_addrs_iff [] none (a ∷ addrs) = (λ h. cc, λ h. elim h.0 [ ])
  kubelet_addrs_iff [] (some cidr) addrs = (
    λ h. (one_addr cidr addrs h, hosts-ne-nil (one_addr cidr addrs h)),
    λ h. one_addr_of_hosts h.0,
  )
  kubelet_addrs_iff (c ∷ cs) o addrs = (
    λ h. (try_map_inv (c ∷ cs) addrs h, hosts-ne-nil (try_map_inv (c ∷ cs) addrs h)),
    λ h. try_map_of_hosts h.0,
  )

  -- The addresses taken from a node with a specification are the first hosts of its CIDRs, one for
  -- each, in order (of `pod_cidr` where `pod_cidrs` is empty), and there is at least one; where some
  -- CIDR does not parse or has no host, or there is none, the node is refused.
  pub try_from_node_iff :
      (node : Node) (spec : NodeSpec) (addrs : List IpAddr)
      → node.spec ≡ some spec
      → (try_from_node ip node ≡ ok addrs)
        ↔ (FirstHosts (cidrs_or spec.pod_cidrs spec.pod_cidr) addrs × (addrs ≢ []))
  unfolding try_from_node
  try_from_node_iff node spec addrs h = rw h (kubelet_addrs_iff spec.pod_cidrs spec.pod_cidr addrs)
