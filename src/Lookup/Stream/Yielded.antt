-- ===== src/Lookup/Stream/Yielded.antt =====
-- What the stream yields: configurations that its channels held, with the kubelet's access.
use polixy.Prelude.{ℕ, List, [], ◌∷◌, All, Bool-cases, inl, inr, nat_eq}
use polixy.Core.{Ipnet, InboundServer}
use polixy.Node.{KubeletIps}
use polixy.Watch.{borrow, has_changed, mark_seen, subscribe}
use polixy.Lookup.{Rx, mk_server}
use polixy.Lookup.Stream.{
  World, Branch, inner, outer, Watching, same_server, into_stream, start, yield_new, poll_inner,
  poll_outer, poll_branch, poll, polls,
}
use polixy.Lookup.Stream.Polls.{either}

module _ {ip : Ipnet} (P : InboundServer ip → Type 0)
    (served : (kubelet : KubeletIps) (s : InboundServer ip) → P s → P (mk_server kubelet s)) where
  abbrev AllYielded : Watching ip → Type 0
  AllYielded v = All P v.yielded

  pub start-All :
      (rx : Rx) (w : World ip)
      → ((i : ℕ) → P (borrow i w.configs))
      → All P (start (into_stream rx w.links) w).yielded
  unfolding start into_stream
  start-All rx w h = (served rx.kubelet _ (h (borrow rx.rx w.links)), tt)

  yield_new-All :
      (s : InboundServer ip) (v : Watching ip)
      → P s
      → All P v.yielded
      → All P (yield_new s v).yielded
  unfolding yield_new
  yield_new-All s v h all =
      either AllYielded (same_server s v.stream.server) v _ all (served v.stream.kubelet s h, all)

  module _ (w : World ip) (v : Watching ip) (h : (i : ℕ) → P (borrow i w.configs)) where
    branch-All : (b : Branch) → All P v.yielded → All P (poll_branch b w v).yielded
    unfolding poll_branch poll_inner poll_outer
    branch-All inner all =
        either AllYielded _ _ v (yield_new-All _ _ (h v.stream.inner.chan) all) all
    branch-All outer all = elim (Bool-cases (has_changed v.stream.outer w.links)) [
      | inl e ↦ rw e (
          yield_new-All (borrow (borrow v.stream.outer.chan w.links) w.configs)
            (record v {
              stream = record (v.stream) {
                outer = mark_seen v.stream.outer w.links;
                inner = mark_seen (subscribe (borrow v.stream.outer.chan w.links)) w.configs;
              };
            })
            (h (borrow v.stream.outer.chan w.links)) all)
      | inr e ↦ elim (Bool-cases (w.closed v.stream.outer.chan)) [
        | inl c ↦ rw (e, c) all
        | inr c ↦ rw (e, c) all
      ]
    ]

  pub poll-All :
      (b : Branch) (w : World ip) (v : Watching ip)
      → ((i : ℕ) → P (borrow i w.configs))
      → All P v.yielded
      → All P (poll b w v).yielded
  unfolding poll
  poll-All b w v h all = either AllYielded v.stream.ended v _ all (branch-All w v h b all)

  pub polls-All :
      (bs : List Branch) (w : World ip) (v : Watching ip)
      → ((i : ℕ) → P (borrow i w.configs))
      → All P v.yielded
      → All P (polls bs w v).yielded
  unfolding polls
  polls-All [] w v h all = all
  polls-All (b ∷ bs) w v h all = polls-All bs w (poll b w v) h (poll-All b w v h all)
