-- ===== src/Server/Publishing.antt =====
-- The channels of the servers of a namespace hold their configurations.
pub mod Steps
pub mod Effects
use mathlib.Core.Option.{some-injective}
use polixy.Prelude.{
  ℕ, String, ◌≡◌, ◌≢◌, ◌≤◌, ◌<◌, ◌+◌, refl, sym, ap, subst, ◌∙◌, Bool, true, false, ◌||◌, Option,
  none, some, List, [], ◌∷◌, inl, inr, arith, ◌==◌, nat_eq, string_eq, Bool-cases, ==_refl,
  if◌then◌else◌,
}
use polixy.Authz.{ServerSelector, selects}
use polixy.Map.{Map, contains_key, get, insert, remove}
use polixy.Core.{Ipnet, ClientAuthorization, InboundServer}
use polixy.Watch.{Channels, channel, send, borrow}
use polixy.Watch.Laws.{borrow-send, borrow-channel}
use polixy.Server.{
  Server, SrvIndex, Configs, publish, for_each, server_add_authz, server_remove_authz,
  add_or_remove, add_authz, remove_authz,
}
use polixy.Server.Updates.{config_of}

module _ {ip : Ipnet} where
  -- whether a server of the index has the channel
  abbrev pub has_rx : ℕ → SrvIndex ip → Bool
  has_rx i [] = false
  has_rx i ((s, srv) ∷ index) = srv.rx == i || has_rx i index

  -- each server has an open channel of its own, which holds its configuration
  abbrev pub Published : SrvIndex ip → Configs ip → Type 0
  Published [] c = Unit
  Published ((s, srv) ∷ index) c =
      (borrow srv.rx c ≡ config_of srv)
      × (srv.rx < c.next)
      × (has_rx srv.rx index ≡ false)
      × Published index c

  -- What an operation on the servers of one namespace does to the channels: it publishes, closes
  -- none, takes no old channel, and sends on no channel but those of its servers.
  pub record Effect (index : SrvIndex ip) (c : Configs ip) (index' : SrvIndex ip) (c' : Configs ip)
      : Type 0 where
    pub published : Published index' c'
    pub grows : c.next ≤ c'.next
    pub rxs : (i : ℕ) → i < c.next → has_rx i index ≡ false → has_rx i index' ≡ false
    pub frame : (i : ℕ) → i < c.next → has_rx i index ≡ false → borrow i c' ≡ borrow i c

  pub frame-Published :
      (index : SrvIndex ip) (c c' : Configs ip)
      → ((i : ℕ) → has_rx i index ≡ true → borrow i c' ≡ borrow i c)
      → c.next ≤ c'.next
      → Published index c
      → Published index c'
  frame-Published [] c c' same le p = tt
  frame-Published ((s, srv) ∷ index) c c' same le (held, opened, own, p) = (
    same srv.rx (ground (arith, nat_eq.beq_iff srv.rx srv.rx)) ∙ held,
    ground arith,
    own,
    frame-Published index c c' (λ i h. same i (ground arith)) le p,
  )

  -- the channel of a server, if it is there
  abbrev rx_or : ℕ → Option (Server ip) → ℕ
  rx_or i none = i
  rx_or i (some srv) = srv.rx

  none_not_some : {srv : Server ip} → some srv ≢ none
  none_not_some h = cc

  pub append-has_rx :
      (i : ℕ) (s : String) (new : Server ip) (index : SrvIndex ip)
      → i ≢ new.rx
      → has_rx i index ≡ false
      → has_rx i (insert s new index) ≡ false
  unfolding insert
  append-has_rx i s new [] ne h = ground (arith, nat_eq.beq_iff new.rx i)
  append-has_rx i s new ((t, srv) ∷ index) ne h =
      ground (arith, nat_eq.beq_iff new.rx i, append-has_rx i s new index ne)

  pub has_rx_of_get :
      (s : String) (srv : Server ip) (index : SrvIndex ip)
      → get s index ≡ some srv
      → has_rx srv.rx index ≡ true
  unfolding get
  has_rx_of_get s srv [] h = cc
  has_rx_of_get s srv ((t, old) ∷ index) h = elim (Bool-cases (t == s)) [
    | inl here ↦
        ground (arith, ap (λ o. rx_or srv.rx o) (rw here at h), nat_eq.beq_iff old.rx srv.rx)
    | inr other ↦ ground (arith, has_rx_of_get s srv index (rw other at h))
  ]

  pub has_rx-insert :
      (i : ℕ) (s : String) (new old : Server ip) (index : SrvIndex ip)
      → get s index ≡ some old
      → new.rx ≡ old.rx
      → has_rx i (insert s new index) ≡ has_rx i index
  unfolding get insert
  has_rx-insert i s new old [] h e = cc
  has_rx-insert i s new old ((t, srv) ∷ index) h e = elim (Bool-cases (t == s)) [
    | inl here ↦ rw here (ground (arith, e, ap (λ o. rx_or new.rx o) (rw here at h)))
    | inr other ↦ rw other (ground (arith, has_rx-insert i s new old index (rw other at h) e))
  ]

  -- a server that is there is replaced by one with its channel
  pub replace-Published :
      (s : String) (new old : Server ip) (index : SrvIndex ip) (c c' : Configs ip)
      → get s index ≡ some old
      → new.rx ≡ old.rx
      → borrow new.rx c' ≡ config_of new
      → c'.next ≡ c.next
      → ((i : ℕ) → i ≢ old.rx → borrow i c' ≡ borrow i c)
      → Published index c
      → Published (insert s new index) c'
  unfolding get insert
  replace-Published s new old [] c c' h e held next others p = cc
  replace-Published s new old ((t, srv) ∷ index) c c' h e held next others (q, opened, own, p) =
      elim (Bool-cases (t == s)) [
        | inl here ↦
            let same : srv.rx ≡ old.rx = ap (λ o. rx_or new.rx o) (rw here at h) in
            rw here (
              held,
              omega (arith, e, same, next, opened),
              ground (arith, e, same, own),
              frame-Published index c c'
                  (λ i k.
                    others i
                      (λ eq. ground (arith, k, own, ap (λ j. has_rx j index) (eq ∙ sym same))))
                  (omega (arith, next)) p,
            )
        | inr other ↦
            let there = has_rx_of_get s old index (rw other at h) in
            rw other (
              others srv.rx (λ eq. ground (arith, there, own, ap (λ j. has_rx j index) eq)) ∙ q,
              omega (arith, next, opened),
              has_rx-insert srv.rx s new old index (rw other at h) e ∙ own,
              replace-Published s new old index c c' (rw other at h) e held next others p,
            )
      ]

  pub remove-has_rx :
      (i : ℕ) (s : String) (index : SrvIndex ip)
      → has_rx i index ≡ false
      → has_rx i (remove s index) ≡ false
  unfolding remove
  remove-has_rx i s [] h = refl
  remove-has_rx i s ((t, srv) ∷ index) h = ground (arith, remove-has_rx i s index)

  pub remove-Published :
      (s : String) (index : SrvIndex ip) (c : Configs ip)
      → Published index c
      → Published (remove s index) c
  unfolding remove
  remove-Published s [] c p = tt
  remove-Published s ((t, srv) ∷ index) c (held, opened, own, p) = elim (Bool-cases (t == s)) [
    | inl here ↦ rw here (remove-Published s index c p)
    | inr other ↦
        rw other (held, opened, remove-has_rx srv.rx s index own, remove-Published s index c p)
  ]

  -- a new server, with a new channel, goes to the end
  pub append-Published :
      (s : String) (new : Server ip) (index : SrvIndex ip) (c c' : Configs ip)
      → get s index ≡ none
      → c.next ≤ new.rx
      → new.rx < c'.next
      → borrow new.rx c' ≡ config_of new
      → ((i : ℕ) → i < c.next → borrow i c' ≡ borrow i c)
      → Published index c
      → Published (insert s new index) c'
  unfolding get insert
  append-Published s new [] c c' h le lt held older p = (held, lt, refl, tt)
  append-Published s new ((t, srv) ∷ index) c c' h le lt held older (q, opened, own, p) =
      elim (Bool-cases (t == s)) [
        | inl here ↦ elim (none_not_some (rw here at h)) [ ]
        | inr other ↦ rw other (
          older srv.rx opened ∙ q,
          omega (arith, opened, le, lt),
          append-has_rx srv.rx s new index (omega (arith, opened, le)) own,
          append-Published s new index c c' (rw other at h) le lt held older p,
        )
      ]

  -- A server that is found has its configuration in its channel.
  pub get-Published :
      (s : String) (srv : Server ip) (index : SrvIndex ip) (c : Configs ip)
      → get s index ≡ some srv
      → Published index c
      → borrow srv.rx c ≡ config_of srv
  unfolding get
  get-Published s srv [] c h p = cc
  get-Published s srv ((t, old) ∷ index) c h (held, opened, own, p) = elim (Bool-cases (t == s)) [
    | inl here ↦
        subst (λ (x : Server ip). borrow x.rx c ≡ config_of x)
          (some-injective old srv (rw here at h)) held
    | inr other ↦ get-Published s srv index c (rw other at h) p
  ]

  pub has_rx-lt :
      (i : ℕ) (index : SrvIndex ip) (c : Configs ip)
      → Published index c
      → has_rx i index ≡ true
      → i < c.next
  has_rx-lt i [] c p h = cc
  has_rx-lt i ((s, srv) ∷ index) c (held, opened, own, p) h =
      ground (arith, nat_eq.beq_iff srv.rx i, has_rx-lt i index c p)
