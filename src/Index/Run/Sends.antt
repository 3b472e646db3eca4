-- ===== src/Index/Run/Sends.antt =====
-- What the operations of the index send: receivers of open channels to the ports' channels.
pub mod Pods
pub mod Operations
pub mod Reached
use polixy.Prelude.{
  ℕ, String, ◌≡◌, ◌<◌, ◌≤◌, refl, sym, ap, subst, ◌∙◌, Bool, true, false, Option, none, some, List,
  [], ◌∷◌, inl, inr, arith, ◌==◌, nat_eq, string_eq, Bool-cases,
}
use polixy.Map.{get}
use polixy.Core.{Ipnet, InboundServer}
use polixy.DefaultAllow.{DefaultAllow, get_rx}
use polixy.Watch.{borrow}
use polixy.Watch.Moves.{Moves, Moves-refl, Moves-trans, Moves-any}
use polixy.Server.{SrvIndex, Configs}
use polixy.Server.Moves.{Sends}
use polixy.Server.Publishing.{Published}
use polixy.Pod.{PodIndex, Links}
use polixy.Pod.Moves.{ServersHave, DefaultsHave}
use polixy.Pod.Linked.Pods.{LinkedPods}
use polixy.Index.{Namespace, Index}
use polixy.Index.Run.Published.Channels.{namespace-servers}
use polixy.Index.Run.Published.PodSteps.{InChannels}
use polixy.Index.Run.Linked.Channels.{IsMode, at, namespace-at}
use polixy.Index.Run.Linked.PodSteps.{InLinks, At}

abbrev pub Below : ℕ → ℕ → Type 0
Below n rx = rx < n

module _ {ip : Ipnet} where
  pub Published-ServersHave :
      (servers : SrvIndex ip) (c : Configs ip)
      → Published servers c
      → ServersHave (Below c.next) servers
  Published-ServersHave [] c p = tt
  Published-ServersHave ((n, srv) ∷ servers) c (held, opened, own, p) =
      (opened, Published-ServersHave servers c p)

  LinkedPods-DefaultsHave :
      (P IsDefault : ℕ → Type 0) (servers : SrvIndex ip) (pods : PodIndex) (links : Links)
      → ((rx : ℕ) → IsDefault rx → P rx)
      → LinkedPods IsDefault servers pods links
      → DefaultsHave P pods
  LinkedPods-DefaultsHave P IsDefault servers [] links h l = tt
  LinkedPods-DefaultsHave P IsDefault servers ((n, pod) ∷ pods) links h (l, d, apart, ls) =
      (h pod.default_allow_rx d, LinkedPods-DefaultsHave P IsDefault servers pods links h ls)

  module _ (config : DefaultAllow → InboundServer ip) where
    -- the invariants that the sends rest on
    pub record Before (idx : Index ip) : Type 0 where
      pub channels : InChannels config idx
      pub linked : InLinks idx

    -- what one operation sends
    pub record Sent (idx idx' : Index ip) : Type 0 where
      pub links : Moves (Below idx'.configs.next) idx.links idx'.links
      pub configs : Sends idx.configs idx'.configs

    pub none-Sent : (idx : Index ip) → Sent idx idx
    none-Sent idx = record { links = Moves-refl _ idx.links; configs = Moves-refl _ idx.configs }

    -- the receivers of a namespace are of open channels
    pub servers_lem :
        (name : String) (ns : Namespace ip) (idx : Index ip)
        → At name ns idx
        → Before idx
        → Published ns.servers idx.configs
    servers_lem name ns idx from b =
        subst (λ servers. Published servers idx.configs)
          (sym (
            ap (λ (x : Namespace ip). x.servers) (from ∙ sym (namespace-at name idx.namespaces))
            ∙ namespace-servers name idx.namespaces))
          (b.channels.held name)

    pub pods_lem :
        (n : ℕ) (name : String) (ns : Namespace ip) (idx : Index ip)
        → idx.configs.next ≤ n
        → At name ns idx
        → Before idx
        → DefaultsHave (Below n) ns.pods
    pods_lem n name ns idx le from b =
        subst (λ (x : Namespace ip). DefaultsHave (Below n) x.pods) (sym from)
          (LinkedPods-DefaultsHave (Below n) (IsMode idx.default_allows) _ _ idx.links
            (λ rx (m, e). rw e (omega (arith, b.channels.below m, le))) (b.linked.linked name))

    -- The channels of `idx0` have only been sent on, and each port's channel holds a receiver of an open
    -- channel.
    pub record Ahead (links0 : Links) (configs0 : Configs ip) (idx : Index ip) : Type 0 where
      pub links : Moves (λ rx. Unit {0}) links0 idx.links
      pub configs : Sends configs0 idx.configs
      pub opened : (i : ℕ) → borrow i idx.links < idx.configs.next
      pub before : Before idx

    pub Sent-Ahead :
        (links0 : Links) (configs0 : Configs ip) (idx idx' : Index ip)
        → Ahead links0 configs0 idx
        → Sent idx idx'
        → Before idx'
        → Ahead links0 configs0 idx'
    Sent-Ahead links0 configs0 idx idx' a s b = record {
      links = Moves-trans _ _ _ _ a.links (Moves-any _ idx.links idx'.links s.links);
      configs = Moves-trans _ _ _ _ a.configs s.configs;
      opened = s.links.sound (λ i. omega (arith, a.opened i, s.configs.grows));
      before = b;
    }
