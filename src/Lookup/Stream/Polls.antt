-- ===== src/Lookup/Stream/Polls.antt =====
-- What a poll of the stream keeps.
use polixy.Prelude.{
  ℕ, ◌≡◌, ◌≢◌, ◌≤◌, ◌<◌, refl, sym, ap, ◌∙◌, Bool, true, false, List, [], ◌∷◌, map, inl, inr, arith,
  Bool-cases, nat_eq, ==_refl, if◌then◌else◌,
}
use polixy.Core.{Ipnet, InboundServer, InboundServer-discrete}
use polixy.Watch.{Channels, borrow, Receiver, has_changed, mark_seen}
use polixy.Watch.Moves.{Moves}
use polixy.Lookup.{Rx, mk_server}
use polixy.Lookup.Stream.{
  World, Branch, inner, outer, Watching, same_server, into_stream, start, yield_new, poll_inner,
  poll_outer, poll_branch, poll,
}

pub has_changed-false {ℓ} :
    {A : Type ℓ} (r : Receiver) (c : Channels A)
    → has_changed r c ≡ false
    → r.seen ≡ c.version r.chan
unfolding has_changed
has_changed-false r c h = ground (arith, nat_eq.beq_iff r.seen (c.version r.chan))

pub has_changed-mark_seen {ℓ} :
    {A : Type ℓ} (r : Receiver) (c : Channels A) → has_changed (mark_seen r c) c ≡ false
unfolding has_changed mark_seen
has_changed-mark_seen r c = rw (==_refl (c.version r.chan)) refl

-- what holds of both branches
pub either {ℓ κ} :
    {A : Type ℓ} (P : A → Type κ) (b : Bool) (x y : A) → P x → P y → P (if b then x else y)
either P true x y p q = p
either P false x y p q = q

module _ {ip : Ipnet} where
  pub same_server-true : (s t : InboundServer ip) → same_server s t ≡ true → s ≡ t
  unfolding same_server
  same_server-true s t h = go (InboundServer-discrete ip s t) h
    where
      go : (d : Dec (s ≡ t)) → elim d [ yes _ ↦ true | no _ ↦ false ] ≡ true → s ≡ t
      go (yes p) h = p
      go (no n) h = cc

  pub same_server-false : (s t : InboundServer ip) → same_server s t ≡ false → s ≢ t
  unfolding same_server
  same_server-false s t h = go (InboundServer-discrete ip s t) h
    where
      go : (d : Dec (s ≡ t)) → elim d [ yes _ ↦ true | no _ ↦ false ] ≡ false → s ≢ t
      go (yes p) h = cc
      go (no n) h = n

  -- no configuration follows itself
  abbrev pub NoRepeat : List (InboundServer ip) → Type 0
  NoRepeat [] = Unit
  NoRepeat (s ∷ []) = Unit
  NoRepeat (s ∷ t ∷ more) = (s ≢ t) × NoRepeat (t ∷ more)

  -- A stream of `rx`: what it has seen is what it has, and what it has
  -- yielded, the last one first, is each configuration with the kubelet's access.
  pub record IsCurrent (rx : Rx) (w : World ip) (v : Watching ip) : Type 0 where
    pub chan : v.stream.outer.chan ≡ rx.rx
    pub kubelet : v.stream.kubelet ≡ rx.kubelet
    pub opened : v.stream.inner.chan < w.configs.next
    pub seen_outer : v.stream.outer.seen ≤ w.links.version rx.rx
    pub seen_inner : v.stream.inner.seen ≤ w.configs.version v.stream.inner.chan
    pub linked :
        v.stream.outer.seen ≡ w.links.version rx.rx → borrow rx.rx w.links ≡ v.stream.inner.chan
    pub held :
        v.stream.inner.seen ≡ w.configs.version v.stream.inner.chan
        → borrow v.stream.inner.chan w.configs ≡ v.stream.server
    pub shown :
        (before : List (InboundServer ip)) × (v.yielded
          ≡ map (mk_server v.stream.kubelet) (v.stream.server ∷ before))
        × NoRepeat (v.stream.server ∷ before)

  -- every receiver in a channel is of an open channel
  abbrev pub AllOpen : World ip → Type 0
  AllOpen w = (i : ℕ) → borrow i w.links < w.configs.next

  pub start-IsCurrent :
      (rx : Rx) (w : World ip) → AllOpen w → IsCurrent rx w (start (into_stream rx w.links) w)
  unfolding start into_stream mark_seen
  start-IsCurrent rx w open_all = record {
    chan = refl;
    kubelet = refl;
    opened = open_all rx.rx;
    seen_outer = omega arith;
    seen_inner = omega arith;
    linked = λ e. refl;
    held = λ e. refl;
    shown = ([], refl, tt);
  }

  -- the others' sends
  pub Moves-IsCurrent :
      (rx : Rx) (w w' : World ip) (v : Watching ip) {P : ℕ → Type 0} {Q : InboundServer ip → Type 0}
      → rx.rx < w.links.next
      → Moves P w.links w'.links
      → Moves Q w.configs w'.configs
      → IsCurrent rx w v
      → IsCurrent rx w' v
  Moves-IsCurrent rx w w' v lt m n cur =
      let up = m.versions rx.rx lt in
      let up' = n.versions v.stream.inner.chan cur.opened in
      let low = cur.seen_outer in
      let low' = cur.seen_inner in
      record {
        chan = cur.chan;
        kubelet = cur.kubelet;
        opened = omega (arith, cur.opened, n.grows);
        seen_outer = omega arith;
        seen_inner = omega arith;
        linked = λ e. m.unsent rx.rx lt (omega arith) ∙ cur.linked (omega arith);
        held = λ e. n.unsent v.stream.inner.chan cur.opened (omega arith) ∙ cur.held (omega arith);
        shown = cur.shown;
      }

  -- `yield_new`, where `s` is what the receivers read and the stream's server may be old
  yield_new-IsCurrent :
      (rx : Rx) (w : World ip) (s : InboundServer ip) (v : Watching ip)
      → v.stream.outer.chan ≡ rx.rx
      → v.stream.kubelet ≡ rx.kubelet
      → v.stream.inner.chan < w.configs.next
      → v.stream.outer.seen ≤ w.links.version rx.rx
      → v.stream.inner.seen ≤ w.configs.version v.stream.inner.chan
      → (v.stream.outer.seen ≡ w.links.version rx.rx → borrow rx.rx w.links ≡ v.stream.inner.chan)
      → borrow v.stream.inner.chan w.configs ≡ s
      → ((before : List (InboundServer ip)) × (v.yielded
            ≡ map (mk_server v.stream.kubelet) (v.stream.server ∷ before))
          × NoRepeat (v.stream.server ∷ before))
      → IsCurrent rx w (yield_new s v)
  unfolding yield_new
  yield_new-IsCurrent rx w s v chan kubelet opened seen_outer seen_inner linked reads shown =
      elim (Bool-cases (same_server s v.stream.server)) [
        | inl e ↦ rw e (record {
          chan = chan;
          kubelet = kubelet;
          opened = opened;
          seen_outer = seen_outer;
          seen_inner = seen_inner;
          linked = linked;
          held = λ q. reads ∙ same_server-true s v.stream.server e;
          shown = shown;
        })
        | inr e ↦
            let (before, y, n) = shown in
            rw e (record {
              chan = chan;
              kubelet = kubelet;
              opened = opened;
              seen_outer = seen_outer;
              seen_inner = seen_inner;
              linked = linked;
              held = λ q. reads;
              shown = (
                v.stream.server ∷ before,
                ap (λ l. mk_server v.stream.kubelet s ∷ l) y,
                (same_server-false s v.stream.server e, n),
              );
            })
      ]

  poll_inner-IsCurrent :
      (rx : Rx) (w : World ip) (v : Watching ip)
      → IsCurrent rx w v
      → IsCurrent rx w (poll_inner w v)
  unfolding poll_inner mark_seen
  poll_inner-IsCurrent rx w v cur = elim (Bool-cases (has_changed v.stream.inner w.configs)) [
    | inl e ↦ rw e (
        yield_new-IsCurrent rx w _ _ cur.chan cur.kubelet cur.opened cur.seen_outer (omega arith)
          cur.linked refl cur.shown)
    | inr e ↦ rw e cur
  ]

  poll_outer-IsCurrent :
      (rx : Rx) (w : World ip) (v : Watching ip)
      → AllOpen w
      → IsCurrent rx w v
      → IsCurrent rx w (poll_outer w v)
  unfolding poll_outer mark_seen
  poll_outer-IsCurrent rx w v open_all cur =
      elim (Bool-cases (has_changed v.stream.outer w.links)) [
        | inl e ↦ rw e (
            yield_new-IsCurrent rx w _ _ cur.chan cur.kubelet (open_all v.stream.outer.chan)
              (rw cur.chan (omega arith)) (omega arith)
              (λ q. ap (λ i. borrow i w.links) (sym cur.chan)) refl cur.shown)
        | inr e ↦ elim (Bool-cases (w.closed v.stream.outer.chan)) [
          | inl c ↦
              rw (e, c)
                (record {
                  chan = cur.chan;
                  kubelet = cur.kubelet;
                  opened = cur.opened;
                  seen_outer = cur.seen_outer;
                  seen_inner = cur.seen_inner;
                  linked = cur.linked;
                  held = cur.held;
                  shown = cur.shown;
                })
          | inr c ↦ rw (e, c) cur
        ]
      ]

  pub poll-IsCurrent :
      (b : Branch) (rx : Rx) (w : World ip) (v : Watching ip)
      → AllOpen w
      → IsCurrent rx w v
      → IsCurrent rx w (poll b w v)
  unfolding poll poll_branch
  poll-IsCurrent b rx w v open_all cur =
      either (IsCurrent rx w) v.stream.ended v (poll_branch b w v) cur (go b)
    where
      go : (b : Branch) → IsCurrent rx w (poll_branch b w v)
      go inner = poll_inner-IsCurrent rx w v cur
      go outer = poll_outer-IsCurrent rx w v open_all cur
