-- ===== src/Index/Run/Sends/Reached.antt =====
-- What the channels hold in the states that a new index reaches.
use polixy.Prelude.{
  ℕ, String, ◌≡◌, ◌<◌, subst, inr, some, List, [], string_eq, nat_eq, inl, arith, Option-cases,
}
use polixy.Core.{Ipnet, InboundServer, detect}
use polixy.DefaultAllow.{DefaultAllow, spawn}
use polixy.Watch.{borrow}
use polixy.Watch.Moves.{Moves-refl}
use polixy.Lookup.{lookup, rx_get, mk_server}
use polixy.Index.{Index, new}
use polixy.Index.Run.{Update, run}
use polixy.Index.Run.Induction.{run-Keeps}
use polixy.DefaultAllow.Modes.{allowed}
use polixy.Watch
use polixy.Watch.{channel}
use polixy.Index.Run.Published.{run-InChannels}
use polixy.Index.Run.Linked.{run-InLinks}
use polixy.Index.Run.Sends.{Before, Ahead}
use polixy.Index.Run.Sends.Operations.{operations-Ahead}
use polixy.Client.Decode.{Fits}
use polixy.Server.Moves.{IsTimely}
use polixy.Lookup.{get_inbound_server}
use mathlib.Core.Option.{some-injective}

module _ {ip : Ipnet} where
  abbrev pub configs_of : List ip.IpNet → ℕ → DefaultAllow → InboundServer ip
  configs_of nets timeout m = record {
    protocol = detect timeout;
    authorizations = allowed {ip = ip} nets m;
  }

  pub self-Ahead :
      (config : DefaultAllow → InboundServer ip) (idx : Index ip)
      → ((i : ℕ) → borrow i idx.links < idx.configs.next)
      → Before config idx
      → Ahead config idx.links idx.configs idx
  self-Ahead config idx open_all b = record {
    links = Moves-refl _ idx.links;
    configs = Moves-refl _ idx.configs;
    opened = open_all;
    before = b;
  }

new-opened :
    (ip : Ipnet) (nets : List ip.IpNet) (domain : String) (mode : DefaultAllow) (timeout i : ℕ)
    → let idx = new {ip = ip} nets domain mode timeout in borrow i idx.links < idx.configs.next
unfolding new spawn channel borrow Watch.new
new-opened ip nets domain mode timeout i = omega arith

new-IsTimely :
    (ip : Ipnet) (nets : List ip.IpNet) (domain : String) (mode : DefaultAllow) (timeout : ℕ)
    → Fits (detect timeout)
    → let idx = new {ip = ip} nets domain mode timeout in (i : ℕ) → IsTimely (borrow i idx.configs)
unfolding new spawn channel borrow Watch.new
new-IsTimely ip nets domain mode timeout h i = ground arith

-- what the channels of a new index have become
pub reached-Ahead :
    (ip : Ipnet) (nets : List ip.IpNet) (domain : String) (mode : DefaultAllow) (timeout : ℕ)
    (us : List Update)
    → let idx = new {ip = ip} nets domain mode timeout in
      Ahead (configs_of nets timeout) idx.links idx.configs (run us idx)
unfolding run
reached-Ahead ip nets domain mode timeout us =
    let idx = new {ip = ip} nets domain mode timeout in
    let config = configs_of nets timeout in
    run-Keeps (Ahead config idx.links idx.configs) (operations-Ahead config idx.links idx.configs)
      us idx
      (self-Ahead config idx (new-opened ip nets domain mode timeout) (record {
        channels = run-InChannels {ip = ip} nets domain mode timeout [];
        linked = run-InLinks {ip = ip} nets domain mode timeout [];
      }))

pub reached-IsTimely :
    (ip : Ipnet) (nets : List ip.IpNet) (domain : String) (mode : DefaultAllow) (timeout : ℕ)
    (us : List Update)
    → Fits (detect timeout)
    → let idx = run us (new {ip = ip} nets domain mode timeout) in
      (i : ℕ) → IsTimely (borrow i idx.configs)
reached-IsTimely ip nets domain mode timeout us h =
    (reached-Ahead ip nets domain mode timeout us).configs.sound
      (new-IsTimely ip nets domain mode timeout h)

-- If the timeout that the index is started with fits a Duration of the messages, so does that of
-- every configuration that a request is answered with, in every state that the index reaches.
pub run-Fits :
    (ip : Ipnet) (nets : List ip.IpNet) (domain : String) (mode : DefaultAllow) (timeout : ℕ)
    (us : List Update) (name pod_name : String) (p : ℕ) (s : InboundServer ip)
    → Fits (detect timeout)
    → (let idx = run us (new {ip = ip} nets domain mode timeout) in
        get_inbound_server idx.links idx.configs (name, pod_name, p) idx.lookups ≡ some s)
    → Fits s.protocol
unfolding get_inbound_server rx_get mk_server
run-Fits ip nets domain mode timeout us name pod_name p s h found =
    let idx = run us (new {ip = ip} nets domain mode timeout) in
    elim (Option-cases (lookup name pod_name p idx.lookups)) [
      | inl e ↦ ground (arith, rw (e, get_inbound_server) at found)
      | inr (rx, e) ↦
          subst IsTimely (some-injective _ _ (rw (e, get_inbound_server) at found))
            (reached-IsTimely ip nets domain mode timeout us h (borrow rx.rx idx.links))
    ]
