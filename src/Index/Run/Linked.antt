-- ===== src/Index/Run/Linked.antt =====
-- The channels of the ports of the pods, after any updates.
pub mod Channels
pub mod PodSteps
pub mod Operations
use polixy.Prelude.{
  ℕ, String, ◌≡◌, refl, sym, ap, subst, ◌∙◌, false, Option, some, List, [], ◌∷◌, string_eq, nat_eq,
}
use polixy.Map.{get}
use polixy.Map.Keys.{Distinct}
use polixy.Core.{Ipnet}
use polixy.DefaultAllow.{DefaultAllow}
use polixy.Watch.{borrow}
use polixy.Server.{SrvIndex}
use polixy.Pod.{Port, Pod, PodIndex, Links}
use polixy.Pod.Linked.{expected, get-Linked}
use polixy.Pod.Linked.Pods.{has_pod_tx, LinkedPods, get-LinkedPods}
use polixy.Index.{Namespace, Index, new}
use polixy.Index.Run.{Update, run}
use polixy.Index.Run.Induction.{run-Keeps}
use polixy.Index.Run.Linked.Channels.{IsMode, AllLinked, at_new, at_there}
use polixy.Index.Run.Linked.PodSteps.{InLinks}
use polixy.Index.Run.Linked.Operations.{operations-InLinks}

none-LinkedPods :
    {ip : Ipnet} (IsDefault : ℕ → Type 0) (servers : SrvIndex ip) (pods : PodIndex) (links : Links)
    → pods ≡ []
    → LinkedPods IsDefault servers pods links
none-LinkedPods IsDefault servers [] links h = tt
none-LinkedPods IsDefault servers (p ∷ pods) links h = cc

none-has_pod_tx : (i : ℕ) (pods : PodIndex) → pods ≡ [] → has_pod_tx i pods ≡ false
none-has_pod_tx i [] h = refl
none-has_pod_tx i (p ∷ pods) h = cc

module _ {ip : Ipnet} where
  none-Distinct : (servers : SrvIndex ip) → servers ≡ [] → Distinct servers
  none-Distinct [] h = tt
  none-Distinct (s ∷ servers) h = cc

  new-InLinks :
      (nets : List ip.IpNet) (domain : String) (mode : DefaultAllow) (timeout : ℕ)
      → InLinks (new {ip = ip} nets domain mode timeout)
  unfolding new
  new-InLinks nets domain mode timeout = record {
    distinct = λ n. none-Distinct _ (at_new mode n).0;
    linked = λ n. none-LinkedPods _ _ _ _ (at_new mode n).1;
    own = λ n n' i h k. let none = none-has_pod_tx i _ (at_new {ip = ip} mode n).1 in cc;
  }

  pub run-InLinks :
      (nets : List ip.IpNet) (domain : String) (mode : DefaultAllow) (timeout : ℕ)
      (us : List Update)
      → InLinks (run us (new {ip = ip} nets domain mode timeout))
  run-InLinks nets domain mode timeout us =
      run-Keeps InLinks operations-InLinks us (new nets domain mode timeout)
        (new-InLinks nets domain mode timeout)

  -- In every state that a new index reaches, by any updates in any order, of any kind and whether they
  -- succeed or fail, the channel of each port of a pod holds the channel of the server that the port
  -- names, which is in the port's namespace, or that of the pod's default where the port names none;
  -- and the default of a pod is the channel of a default mode.
  pub run-linked :
      (nets : List ip.IpNet) (domain : String) (mode : DefaultAllow) (timeout : ℕ)
      (us : List Update) (name : String) (ns : Namespace ip) (pod_name : String) (pod : Pod) (p : ℕ)
      (port : Port)
      → get name (run us (new {ip = ip} nets domain mode timeout)).namespaces.index ≡ some ns
      → get pod_name ns.pods ≡ some pod
      → get p pod.ports.by_port ≡ some port
      → let idx = run us (new {ip = ip} nets domain mode timeout) in
        (expected ns.servers pod.default_allow_rx port.server_name
          ≡ some (borrow port.server_tx idx.links))
        × IsMode idx.default_allows pod.default_allow_rx
  run-linked nets domain mode timeout us name ns pod_name pod p port h k l =
      let idx = run us (new {ip = ip} nets domain mode timeout) in
      let there = at_there idx.namespaces.default_allow name ns idx.namespaces.index h in
      let pods : LinkedPods (IsMode idx.default_allows) ns.servers ns.pods idx.links =
        subst
          (λ (x : Namespace ip). LinkedPods (IsMode idx.default_allows) x.servers x.pods idx.links)
          there ((run-InLinks nets domain mode timeout us).linked name) in
      let (linked, default) =
        get-LinkedPods (IsMode idx.default_allows) ns.servers pod_name pod ns.pods idx.links k
          pods in
      (
        get-Linked ns.servers pod.default_allow_rx p port pod.ports.by_port idx.links l linked,
        default,
      )
