-- ===== src/Lookup.antt =====
-- controller/k8s/index/src/lookup.rs: what the API server looks up, by namespace, pod and port.
pub mod Laws
pub mod Serve
pub mod Stream
use polixy.Prelude.{
  ℕ, String, Bool, true, false, Option, none, some, List, [], ◌∷◌, map, string_eq, nat_eq, is_some,
  is_empty, if◌then◌else◌,
}
use polixy.Result.{Result, ok, err, missing_namespace, missing_pod, pod_exists}
use polixy.Map.{Map, get, insert, remove, collect, contains_key}
use polixy.Map.Sorted
use polixy.Core.{Ipnet, IpAddr, ClientAuthorization, InboundServer, unauthenticated, addr_match}
use polixy.Node.{KubeletIps, or_default}
use polixy.Watch.{Channels, borrow}

-- a receiver of the receivers of a server's configuration
pub record Rx : Type 0 where
  pub kubelet : KubeletIps
  pub rx : ℕ

abbrev pub ByPort : Type 0
ByPort = Map ℕ Rx

abbrev pub ByPod : Type 0
ByPod = Map String ByPort

abbrev pub ByNs : Type 0
ByNs = Map String ByPod

-- `self.0.get(ns)?.get(pod)`
abbrev pub find : String → String → ByNs → Option ByPort
find ns pod w = elim (get ns w) [ none ↦ none | some pods ↦ get pod pods ]

-- `Writer::contains`
unfoldable pub contains : String → String → ByNs → Bool
contains ns pod w = elim (get ns w) [ none ↦ false | some pods ↦ contains_key pod pods ]

-- `Writer::set`
unfoldable pub set : String → String → List (ℕ × Rx) → ByNs → Result (Unit {0}) × ByNs
set ns pod ports w =
    let pods = or_default (get ns w) in
    elim (get pod pods) [
      | none ↦ (ok tt, insert ns (insert pod (collect ports) pods) w)
      | some old ↦ (err (pod_exists pod), w)
    ]

-- `Writer::unset`: a namespace that has lost its last pod goes too
unfoldable pub unset : String → String → ByNs → Result ByPort × ByNs
unset ns pod w = elim (get ns w) [
  | none ↦ (err (missing_namespace ns), w)
  | some pods ↦ elim (get pod pods) [
    | none ↦ (err (missing_pod pod), w)
    | some ports ↦
        let rest = remove pod pods in
        (ok ports, if is_empty rest then remove ns w else insert ns rest w)
  ]
]

-- `Reader::lookup`
unfoldable pub lookup : String → String → ℕ → ByNs → Option Rx
lookup ns pod port w = elim (find ns pod w) [ none ↦ none | some ports ↦ get port ports ]

module _ {ip : Ipnet} where
  -- `Rx::mk_server`
  unfoldable pub mk_server : KubeletIps → InboundServer ip → InboundServer ip
  mk_server kubelet inner =
      let authz : ClientAuthorization ip = record {
        networks = map (addr_match ip) kubelet;
        authentication = unauthenticated;
      } in
      record inner { authorizations = Sorted.insert "_health_check" authz inner.authorizations }

  -- `Rx::get`: the outer channel holds the receiver of a configuration
  unfoldable pub rx_get : Channels ℕ → Channels (InboundServer ip) → Rx → InboundServer ip
  rx_get links configs rx = mk_server rx.kubelet (borrow (borrow rx.rx links) configs)

  -- `get_inbound_server`
  unfoldable pub get_inbound_server :
      Channels ℕ
      → Channels (InboundServer ip)
      → String × String × ℕ
      → ByNs
      → Option (InboundServer ip)
  get_inbound_server links configs (ns, pod, port) w = elim (lookup ns pod port w) [
    | none ↦ none
    | some rx ↦ some (rx_get links configs rx)
  ]
