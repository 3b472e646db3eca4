-- ===== src/Lookup/Stream/Settled.antt =====
-- A stream that has been polled on both branches has shown what there is.
use polixy.Prelude.{
  ◌≡◌, refl, sym, ap, subst, ◌∙◌, ◌⊎◌, Bool, true, false, List, [], ◌∷◌, inl, inr, arith,
  Bool-cases, if◌then◌else◌,
}
use polixy.Core.{Ipnet, InboundServer}
use polixy.Watch.{borrow, has_changed, mark_seen, subscribe}
use polixy.Lookup.Stream.{
  World, Branch, inner, outer, Watching, yield_new, poll_inner, poll_outer, poll_branch, poll,
  polls,
}
use polixy.Lookup.Stream.Polls.{either, has_changed-mark_seen}

abbrev pub polls_inner : List Branch → Bool
polls_inner [] = false
polls_inner (inner ∷ bs) = true
polls_inner (outer ∷ bs) = polls_inner bs

abbrev pub polls_outer : List Branch → Bool
polls_outer [] = false
polls_outer (inner ∷ bs) = polls_outer bs
polls_outer (outer ∷ bs) = true

module _ {ip : Ipnet} (w : World ip) where
  abbrev pub SettledInner : Watching ip → Type 0
  SettledInner v = has_changed v.stream.inner w.configs ≡ false

  abbrev pub SettledOuter : Watching ip → Type 0
  SettledOuter v = has_changed v.stream.outer w.links ≡ false

  -- `yield_new` leaves the receivers
  yield_new_receivers :
      (s : InboundServer ip) (v : Watching ip)
      → ((yield_new s v).stream.inner ≡ v.stream.inner)
        × ((yield_new s v).stream.outer ≡ v.stream.outer)
        × ((yield_new s v).stream.ended ≡ v.stream.ended)
  unfolding yield_new
  yield_new_receivers s v =
      either
        (λ (x : Watching ip).
          (x.stream.inner ≡ v.stream.inner)
          × (x.stream.outer ≡ v.stream.outer)
          × (x.stream.ended ≡ v.stream.ended))
        _ _ _ (refl, refl, refl) (refl, refl, refl)

  -- A branch that is polled is settled, the other stays so, and only the outer one can end the stream.
  poll_inner_lem :
      (v : Watching ip)
      → SettledInner (poll_inner w v)
        × (SettledOuter v → SettledOuter (poll_inner w v))
        × ((poll_inner w v).stream.ended ≡ v.stream.ended)
  unfolding poll_inner
  poll_inner_lem v = elim (Bool-cases (has_changed v.stream.inner w.configs)) [
    | inl e ↦
        let marked : Watching ip = record v {
          stream = record (v.stream) { inner = mark_seen v.stream.inner w.configs };
        } in
        let (at_inner, at_outer, at_end) =
          yield_new_receivers (borrow v.stream.inner.chan w.configs) marked in
        rw e (
          ap (λ r. has_changed r w.configs) at_inner
              ∙ has_changed-mark_seen v.stream.inner w.configs,
          λ h. ap (λ r. has_changed r w.links) at_outer ∙ h,
          at_end,
        )
    | inr e ↦ rw e (e, λ h. h, refl)
  ]

  poll_outer_lem :
      (v : Watching ip)
      → SettledOuter (poll_outer w v) × (SettledInner v → SettledInner (poll_outer w v))
  unfolding poll_outer
  poll_outer_lem v = elim (Bool-cases (has_changed v.stream.outer w.links)) [
    | inl e ↦
        let next = subscribe (borrow v.stream.outer.chan w.links) in
        let marked : Watching ip = record v {
          stream = record (v.stream) {
            outer = mark_seen v.stream.outer w.links;
            inner = mark_seen next w.configs;
          };
        } in
        let (at_inner, at_outer, at_end) =
          yield_new_receivers (borrow next.chan w.configs) marked in
        rw e (
          ap (λ r. has_changed r w.links) at_outer ∙ has_changed-mark_seen v.stream.outer w.links,
          λ h. ap (λ r. has_changed r w.configs) at_inner ∙ has_changed-mark_seen next w.configs,
        )
    | inr e ↦ rw e (
        either (λ (x : Watching ip). SettledOuter x × (SettledInner v → SettledInner x))
          (w.closed v.stream.outer.chan) _ v (e, λ h. h) (e, λ h. h))
  ]

  polls_ended : (bs : List Branch) (v : Watching ip) → v.stream.ended ≡ true → polls bs w v ≡ v
  unfolding polls poll
  polls_ended [] v e = refl
  polls_ended (b ∷ bs) v e =
      ap (polls bs w) (ap (λ t. if t then v else poll_branch b w v) e) ∙ polls_ended bs v e

  poll_open :
      (b : Branch) (v : Watching ip) → v.stream.ended ≡ false → poll b w v ≡ poll_branch b w v
  unfolding poll
  poll_open b v e = ap (λ t. if t then v else poll_branch b w v) e

  pub polls-Settled :
      (bs : List Branch) (v : Watching ip)
      → (polls_inner bs ≡ true) ⊎ SettledInner v
      → (polls_outer bs ≡ true) ⊎ SettledOuter v
      → (polls bs w v).stream.ended ≡ false
      → SettledInner (polls bs w v) × SettledOuter (polls bs w v)
  unfolding polls poll_branch
  polls-Settled [] v i o e = (elim i [ inl h ↦ cc | inr h ↦ h ], elim o [ inl h ↦ cc | inr h ↦ h ])
  polls-Settled (b ∷ bs) v i o e = elim (Bool-cases v.stream.ended) [
    | inl over ↦
        ground
          (arith, over, e, ap (λ (x : Watching ip). x.stream.ended) (polls_ended (b ∷ bs) v over))
    | inr going ↦ go b (poll_open b v going) (λ i' o'. polls-Settled bs (poll b w v) i' o' e) i o
  ]
    where
      go :
          (c : Branch)
          → poll b w v ≡ poll_branch c w v
          → ((polls_inner bs ≡ true) ⊎ SettledInner (poll b w v)
              → (polls_outer bs ≡ true) ⊎ SettledOuter (poll b w v)
              → SettledInner (polls bs w (poll b w v)) × SettledOuter (polls bs w (poll b w v)))
          → (polls_inner (c ∷ bs) ≡ true) ⊎ SettledInner v
          → (polls_outer (c ∷ bs) ≡ true) ⊎ SettledOuter v
          → SettledInner (polls bs w (poll b w v)) × SettledOuter (polls bs w (poll b w v))
      go inner q again i o =
          let (now, kept, at_end) = poll_inner_lem v in
          again (inr (subst SettledInner (sym q) now))
            (elim o [ inl h ↦ inl h | inr h ↦ inr (subst SettledOuter (sym q) (kept h)) ])
      go outer q again i o =
          let (now, kept) = poll_outer_lem v in
          again (elim i [ inl h ↦ inl h | inr h ↦ inr (subst SettledInner (sym q) (kept h)) ])
            (inr (subst SettledOuter (sym q) now))

  -- a stream whose channel has its sender goes on
  abbrev GoesOn : Watching ip → Type 0
  GoesOn v = (v.stream.ended ≡ false) × (w.closed v.stream.outer.chan ≡ false)

  yield_new-GoesOn : (s : InboundServer ip) (v : Watching ip) → GoesOn v → GoesOn (yield_new s v)
  unfolding yield_new
  yield_new-GoesOn s v g = either GoesOn _ _ _ g g

  poll_branch-GoesOn : (b : Branch) (v : Watching ip) → GoesOn v → GoesOn (poll_branch b w v)
  unfolding poll_branch poll_inner poll_outer mark_seen
  poll_branch-GoesOn inner v g =
      either GoesOn _ _ _
        (yield_new-GoesOn _
          (record v { stream = record (v.stream) { inner = mark_seen v.stream.inner w.configs } })
          g)
        g
  poll_branch-GoesOn outer v g =
      let next = subscribe (borrow v.stream.outer.chan w.links) in
      let marked : Watching ip = record v {
        stream = record (v.stream) {
          outer = mark_seen v.stream.outer w.links;
          inner = mark_seen next w.configs;
        };
      } in
      elim (Bool-cases (has_changed v.stream.outer w.links)) [
        | inl e ↦ rw e (yield_new-GoesOn (borrow next.chan w.configs) marked g)
        | inr e ↦ rw (e, g.1, if◌then◌else◌) g
      ]

  pub polls-GoesOn :
      (bs : List Branch) (v : Watching ip) → GoesOn v → (polls bs w v).stream.ended ≡ false
  unfolding polls poll
  polls-GoesOn [] v g = g.0
  polls-GoesOn (b ∷ bs) v g =
      polls-GoesOn bs (poll b w v) (either GoesOn _ _ _ g (poll_branch-GoesOn b v g))
