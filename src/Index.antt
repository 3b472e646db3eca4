-- ===== src/Index.antt =====
-- controller/k8s/index/src/lib.rs and namespace.rs: the state of the indexing task. A method of
-- `Index` takes the state and returns its result and the state that it leaves, also where it fails.
-- The watch channels, which the resources share, stand in the state: `links` of the receivers that
-- the lookups hold, `configs` of the servers' configurations.
pub mod Pods
pub mod Nodes
pub mod Servers
pub mod Authzs
pub mod Run
use polixy.Prelude.{ℕ, String, Option, none, some, List, [], ◌∷◌, ◌++◌, without, string_eq}
use polixy.Result.{Result, ok, err, panic}
use polixy.Map.{Map, keys, get, insert, modify}
use polixy.Core.{Ipnet, detect}
use polixy.K8s.{ObjectMeta}
use polixy.DefaultAllow.{DefaultAllow, DefaultAllows, spawn}
use polixy.Node.{NodeIndex}
use polixy.Lookup.{ByNs}
use polixy.Authz.{AuthzIndex}
use polixy.Server.{SrvIndex, Configs}
use polixy.Pod.{PodIndex, Links}
use polixy.Watch

module _ (ip : Ipnet) where
  pub record Namespace : Type 0 where
    pub default_allow : DefaultAllow
    pub pods : PodIndex
    pub servers : SrvIndex ip
    pub authzs : AuthzIndex ip

  pub record NamespaceIndex : Type 0 where
    pub index : Map String Namespace
    pub default_allow : DefaultAllow

  pub record Index : Type 0 where
    pub namespaces : NamespaceIndex
    pub nodes : NodeIndex
    pub identity_domain : String
    pub default_allows : DefaultAllows
    pub lookups : ByNs
    pub links : Links
    pub configs : Configs ip

  abbrev pub Exec : Type 0
  Exec = Index → Result (Unit {0}) × Index

module _ {ip : Ipnet} where
  -- `Index::new`, over the store of a new process
  unfoldable pub new : List ip.IpNet → String → DefaultAllow → ℕ → Index ip
  new cluster_nets identity_domain default_allow detect_timeout =
      let (allows, configs) =
        spawn cluster_nets detect_timeout
          (Watch.new (record { protocol = detect detect_timeout; authorizations = [] })) in
      record {
        namespaces = record { index = []; default_allow = default_allow };
        nodes = [];
        identity_domain = identity_domain;
        default_allows = allows;
        lookups = [];
        links = Watch.new 0;
        configs = configs;
      }

  or_new : DefaultAllow → Option (Namespace ip) → Namespace ip
  or_new mode none = record { default_allow = mode; pods = []; servers = []; authzs = [] }
  or_new mode (some ns) = ns

  -- `NamespaceIndex::get_or_default`: the namespace, and the index that holds it
  unfoldable pub namespace_or_new : String → NamespaceIndex ip → Namespace ip
  unfolding or_new
  namespace_or_new name nss = or_new nss.default_allow (get name nss.index)

  abbrev pub put_ns : String → Namespace ip → Index ip → Index ip
  put_ns name ns idx = record idx {
    namespaces = record (idx.namespaces) { index = insert name ns idx.namespaces.index };
  }

  -- `for x in xs { if let Err(e) = f(x) { result = Err(e) } }`; a panic ends the task
  unfoldable pub for_all {ℓ} : {A : Type ℓ} → (A → Exec ip) → List A → Result (Unit {0}) → Exec ip
  for_all f [] result idx = (result, idx)
  for_all f (x ∷ xs) result idx =
      let (r, idx') = f x idx in
      elim r [
        | ok _ ↦ for_all f xs result idx'
        | err e ↦ for_all f xs (err e) idx'
        | panic ↦ (panic, idx')
      ]

  -- `namespace().expect(…)`
  unfoldable pub with_namespace : Option String → (String → Exec ip) → Exec ip
  with_namespace none f idx = (panic, idx)
  with_namespace (some ns_name) f idx = f ns_name idx

  -- goes on with a result that is no panic
  unfoldable pub and_then :
      Result (Unit {0}) × Index ip → (Result (Unit {0}) → Exec ip) → Result (Unit {0}) × Index ip
  and_then (ok u, idx) f = f (ok u) idx
  and_then (err e, idx) f = f (err e) idx
  and_then (panic, idx) f = (panic, idx)

-- What `reset_*` found in the index before: the names, by namespace.
abbrev pub Prior : Type 0
Prior = Map String (List String)

unfoldable pub prior_names {ℓ κ} :
    {N : Type ℓ} {V : Type κ} → (N → Map String V) → Map String N → Prior
prior_names f [] = []
prior_names f ((ns, n) ∷ index) = (ns, keys (f n)) ∷ prior_names f index

-- `if let Some(ns) = prior.get_mut(ns_name) { ns.remove(name) }`
unfoldable pub forget : ObjectMeta → Prior → Prior
forget meta prior = elim meta.namespace [
  | none ↦ prior
  | some ns ↦ modify ns (without meta.name) prior
]

unfoldable pub forget_all : List ObjectMeta → Prior → Prior
forget_all [] prior = prior
forget_all (meta ∷ metas) prior = forget_all metas (forget meta prior)

-- the rounds of the two nested loops over what is left
with_ns : String → List String → List (String × String)
with_ns ns [] = []
with_ns ns (name ∷ names) = (ns, name) ∷ with_ns ns names

unfoldable pub defunct : Prior → List (String × String)
unfolding with_ns
defunct [] = []
defunct ((ns, names) ∷ prior) = with_ns ns names ++ defunct prior
