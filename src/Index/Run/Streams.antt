-- ===== src/Index/Run/Streams.antt =====
-- A stream of `Reader::watch_inbound_server` (controller/k8s/index/src/lookup.rs), which is polled
-- while the index takes updates.
pub mod Tuned
pub mod Watched
use polixy.Prelude.{
  ℕ, String, ◌≡◌, ◌<◌, refl, sym, ap, subst, ◌∙◌, inr, Bool, true, false, not, ◌||◌, Option, none,
  some, List, [], ◌∷◌, string_eq, nat_eq, map, inl, arith, Option-cases,
}
use polixy.Map.{Map, get}
use polixy.Core.{Ipnet, InboundServer}
use polixy.DefaultAllow.{DefaultAllow}
use polixy.Watch.{borrow}
use polixy.Watch.Moves.{Moves-refl}
use polixy.Lookup.{Rx, ByNs, ByPort, find, lookup, rx_get, mk_server}
use polixy.Lookup.Stream
use polixy.Lookup.Stream.{World, Branch, Watching, into_stream, start, polls}
use polixy.Lookup.Stream.Polls.{
  IsCurrent, NoRepeat, start-IsCurrent, Moves-IsCurrent, poll-IsCurrent, has_changed-false,
}
use polixy.Lookup.Stream.Settled.{polls_inner, polls_outer, polls-Settled}
use polixy.Pod.{Pod, Port, Links}
use polixy.Pod.Senders.{sender}
use polixy.Pod.Extract.{receiver}
use polixy.Pod.Linked.{has_tx_of_get}
use polixy.Pod.Linked.Pods.{has_pod_tx, has_tx-lt, get-LinkedPods}
use polixy.Server.{Configs}
use polixy.Index.{Namespace, Index, new}
use polixy.Index.Run.{Update, handle, run}
use polixy.Index.Run.Induction.{run-Keeps}
use polixy.Index.Run.Synced.{run-Synced}
use polixy.Index.Run.Synced.Matching.{Match, find_pod}
use polixy.Index.Run.Published.{run-InChannels}
use polixy.Index.Run.Linked.{run-InLinks}
use polixy.Index.Run.Linked.Channels.{at_there, IsMode}
use polixy.Index.Run.Sends.{Before, Ahead}
use polixy.Index.Run.Sends.Operations.{operations-Ahead}

-- the index takes an update, or the stream is polled
pub data Turn : Type 0 where
  update : Update → Turn
  poll : Branch → Turn

module _ {ip : Ipnet} where
  -- whether a pod of the index has the sender of a channel
  abbrev pub has_sender : ℕ → Map String (Namespace ip) → Bool
  has_sender i [] = false
  has_sender i ((n, ns) ∷ index) = has_pod_tx i ns.pods || has_sender i index

  abbrev pub world_of : Index ip → World ip
  world_of idx = record {
    links = idx.links;
    configs = idx.configs;
    closed = λ i. not (has_sender i idx.namespaces.index);
  }

  unfoldable pub turns : List Turn → Index ip × Watching ip → Index ip × Watching ip
  turns [] st = st
  turns (update u ∷ ts) st = turns ts ((handle u st.0).1, st.1)
  turns (poll b ∷ ts) st = turns ts (st.0, Stream.poll b (world_of st.0) st.1)
