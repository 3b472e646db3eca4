-- ===== src/Lookup/Stream/News.antt =====
-- A stream yields news only.
use polixy.Prelude.{◌≡◌, ◌≢◌, ◌⊎◌, refl, ◌∷◌, inl, inr, Bool-cases, nat_eq}
use polixy.Core.{Ipnet, InboundServer}
use polixy.Watch.{has_changed}
use polixy.Lookup.{mk_server}
use polixy.Lookup.Stream.{
  World, Branch, inner, outer, Watching, same_server, yield_new, poll_inner, poll_outer,
  poll_branch, poll,
}
use polixy.Lookup.Stream.Polls.{either, same_server-false}

module _ {ip : Ipnet} where
  -- nothing is yielded and the server that the stream keeps is the same, or it is another, which is yielded
  abbrev pub IsNews : Watching ip → Watching ip → Type 0
  IsNews v v' =
      ((v'.yielded ≡ v.yielded) × (v'.stream.server ≡ v.stream.server))
      ⊎ ((v'.stream.server ≢ v.stream.server)
          × (v'.yielded ≡ mk_server v.stream.kubelet v'.stream.server ∷ v.yielded))

  yield_new-IsNews : (s : InboundServer ip) (v : Watching ip) → IsNews v (yield_new s v)
  unfolding yield_new
  yield_new-IsNews s v = elim (Bool-cases (same_server s v.stream.server)) [
    | inl e ↦ rw e (inl (refl, refl))
    | inr e ↦ rw e (inr (same_server-false s v.stream.server e, refl))
  ]

  branch-IsNews : (b : Branch) (w : World ip) (v : Watching ip) → IsNews v (poll_branch b w v)
  unfolding poll_branch poll_inner poll_outer
  branch-IsNews inner w v = elim (Bool-cases (has_changed v.stream.inner w.configs)) [
    | inl e ↦ rw e (yield_new-IsNews _ _)
    | inr e ↦ rw e (inl (refl, refl))
  ]
  branch-IsNews outer w v = elim (Bool-cases (has_changed v.stream.outer w.links)) [
    | inl e ↦ rw e (yield_new-IsNews _ _)
    | inr e ↦ elim (Bool-cases (w.closed v.stream.outer.chan)) [
      | inl c ↦ rw (e, c) (inl (refl, refl))
      | inr c ↦ rw (e, c) (inl (refl, refl))
    ]
  ]

  -- Whatever has been sent, a poll of a stream either yields nothing, and the stream keeps the server that
  -- it had, or it yields one server, with the kubelet's access, which the stream keeps from then on and
  -- which is not the one that it had.
  pub poll-IsNews : (b : Branch) (w : World ip) (v : Watching ip) → IsNews v (poll b w v)
  unfolding poll
  poll-IsNews b w v =
      either (IsNews v) v.stream.ended v (poll_branch b w v) (inl (refl, refl))
        (branch-IsNews b w v)
