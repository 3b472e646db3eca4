-- ===== src/Lookup/Stream.antt =====
-- `Rx::into_stream` of controller/k8s/index/src/lookup.rs, as a machine that is polled while others
-- send on the channels. A receiver that is sent through a channel has seen no send, and is marked
-- before it is read, so it is given by the number of its channel.
pub mod Settled
pub mod Polls
pub mod News
pub mod Yielded
use polixy.Prelude.{
  ℕ, String, Bool, true, false, Option, none, some, List, [], ◌∷◌, string_eq, if◌then◌else◌,
}
use polixy.Core.{Ipnet, InboundServer, InboundServer-discrete}
use polixy.Node.{KubeletIps}
use polixy.Watch.{Channels, borrow, Receiver, has_changed, mark_seen, subscribe}
use polixy.Lookup.{Rx, ByNs, lookup, mk_server}

-- the channels of the ports and of the configurations, and which of the former have lost their sender
pub record World (ip : Ipnet) : Type 0 where
  pub links : Channels ℕ
  pub configs : Channels (InboundServer ip)
  pub closed : ℕ → Bool

-- the branches of `select!`
pub data Branch : Type 0 where
  inner outer : Branch

-- the variables of the stream, before and after its first item
pub record Opened : Type 0 where
  pub kubelet : KubeletIps
  pub outer : Receiver
  pub inner : Receiver

pub record Stream (ip : Ipnet) : Type 0 where
  pub kubelet : KubeletIps
  pub outer : Receiver
  pub inner : Receiver
  pub server : InboundServer ip
  pub ended : Bool

-- the stream, and what it has yielded, the last one first
pub record Watching (ip : Ipnet) : Type 0 where
  pub stream : Stream ip
  pub yielded : List (InboundServer ip)

-- up to the `stream!` block
unfoldable pub into_stream : Rx → Channels ℕ → Opened
into_stream rx links = record {
  kubelet = rx.kubelet;
  outer = mark_seen (subscribe rx.rx) links;
  inner = subscribe (borrow rx.rx links);
}

-- `Reader::watch_inbound_server`
unfoldable pub watch_inbound_server : String × String × ℕ → ByNs → Channels ℕ → Option Opened
watch_inbound_server (ns, pod, port) lookups links = elim (lookup ns pod port lookups) [
  | none ↦ none
  | some rx ↦ some (into_stream rx links)
]

module _ {ip : Ipnet} where
  unfoldable pub same_server : InboundServer ip → InboundServer ip → Bool
  same_server s t = elim (InboundServer-discrete ip s t) [ yes _ ↦ true | no _ ↦ false ]

  -- the first poll
  unfoldable pub start : Opened → World ip → Watching ip
  start o w =
      let server = borrow o.inner.chan w.configs in
      record {
        stream = record {
          kubelet = o.kubelet;
          outer = o.outer;
          inner = mark_seen o.inner w.configs;
          server = server;
          ended = false;
        };
        yielded = mk_server o.kubelet server ∷ [];
      }

  -- `if s != server { yield …; server = s; }`
  yield_new : InboundServer ip → Watching ip → Watching ip
  unfolding same_server
  yield_new s w = if same_server s w.stream.server then w else record {
    stream = record (w.stream) { server = s };
    yielded = mk_server w.stream.kubelet s ∷ w.yielded;
  }

  -- `inner.changed()` is ready; its error is ignored
  poll_inner : World ip → Watching ip → Watching ip
  unfolding yield_new
  poll_inner w v =
      if has_changed v.stream.inner w.configs
      then yield_new (borrow v.stream.inner.chan w.configs)
          (record v { stream = record (v.stream) { inner = mark_seen v.stream.inner w.configs } })
      else v

  -- `outer.changed()` is ready: a new receiver, or the end
  poll_outer : World ip → Watching ip → Watching ip
  unfolding yield_new
  poll_outer w v =
      let next = subscribe (borrow v.stream.outer.chan w.links) in
      if has_changed v.stream.outer w.links
      then yield_new (borrow next.chan w.configs) (record v {
        stream = record (v.stream) {
          outer = mark_seen v.stream.outer w.links;
          inner = mark_seen next w.configs;
        };
      })
      else if w.closed v.stream.outer.chan
      then record v { stream = record (v.stream) { ended = true } }
      else v

  poll_branch : Branch → World ip → Watching ip → Watching ip
  unfolding poll_inner poll_outer
  poll_branch inner w v = poll_inner w v
  poll_branch outer w v = poll_outer w v

  -- one round of the loop, if the branch is the one that `select!` takes
  unfoldable pub poll : Branch → World ip → Watching ip → Watching ip
  unfolding poll_branch
  poll b w v = if v.stream.ended then v else poll_branch b w v

  unfoldable pub polls : List Branch → World ip → Watching ip → Watching ip
  polls [] w v = v
  polls (b ∷ bs) w v = polls bs w (poll b w v)
