-- ===== src/Server/Publishing/Steps.antt =====
-- A step on each server of a namespace, which may send its configuration.
use polixy.Prelude.{
  ℕ, String, ◌≡◌, ◌≢◌, ◌<◌, refl, sym, ap, subst, ◌∙◌, false, [], ◌∷◌, inl, inr, arith, nat_eq,
  string_eq, Bool-cases, ==_refl,
}
use polixy.Authz.{ServerSelector, selects}
use polixy.Map.{Map, contains_key, remove}
use polixy.Core.{Ipnet, ClientAuthorization, InboundServer}
use polixy.Watch.{send, borrow}
use polixy.Server.{
  Server, SrvIndex, Configs, publish, for_each, server_add_authz, server_remove_authz,
  add_or_remove,
}
use polixy.Server.Updates.{config_of}
use polixy.Server.Publishing.{has_rx, Published, Effect, frame-Published}

module _ {ip : Ipnet} where
  -- a step on one server, which keeps its channel and sends on no other
  abbrev pub GoodStep : (String → Server ip → Configs ip → Server ip × Configs ip) → Type 0
  GoodStep step =
      (s : String) (srv : Server ip) (c : Configs ip)
      → borrow srv.rx c ≡ config_of srv
      → ((step s srv c).0.rx ≡ srv.rx)
        × ((step s srv c).1.next ≡ c.next)
        × (borrow srv.rx (step s srv c).1 ≡ config_of (step s srv c).0)
        × ((i : ℕ) → i ≢ srv.rx → borrow i (step s srv c).1 ≡ borrow i c)

  pub for_each-Effect :
      (step : String → Server ip → Configs ip → Server ip × Configs ip)
      → GoodStep step
      → (index : SrvIndex ip) (c : Configs ip) → Published index c
      → Effect index c (for_each step index c).0 (for_each step index c).1
  unfolding for_each
  for_each-Effect step good [] c p = record {
    published = tt;
    grows = omega arith;
    rxs = λ i l h. refl;
    frame = λ i l h. refl;
  }
  for_each-Effect step good ((s, srv) ∷ index) c (held, opened, own, p) =
      let (rx, next, holds, others) = good s srv c held in
      let c1 = (step s srv c).1 in
      let p1 =
        frame-Published index c c1
          (λ i h. others i (λ e. ground (arith, ap (λ j. has_rx j index) e))) (omega (arith, next))
          p in
      let rest = for_each-Effect step good index c1 p1 in
      let below : srv.rx < c1.next = omega (arith, next, opened) in
      record {
        published = (
          subst (λ j. borrow j (for_each step index c1).1 ≡ config_of (step s srv c).0) (sym rx)
              (rest.frame srv.rx below own ∙ holds),
          omega (arith, rx, next, opened, rest.grows),
          subst (λ j. has_rx j (for_each step index c1).0 ≡ false) (sym rx)
              (rest.rxs srv.rx below own),
          rest.published,
        );
        grows = omega (arith, next, rest.grows);
        rxs = λ i l h. ground (arith, rx, next, rest.rxs i);
        frame = λ i l h.
            rest.frame i (omega (arith, next, l)) (ground arith)
            ∙ others i (λ e. ground (arith, nat_eq.beq_iff srv.rx i));
      }

  -- the server with other authorizations, which are sent
  publish_lem :
      (srv : Server ip) (auths : Map String (ClientAuthorization ip)) (c : Configs ip)
      → borrow srv.rx c ≡ config_of srv
      → let after = publish (record srv { authorizations = auths }) c in
        (after.0.rx ≡ srv.rx)
        × (after.1.next ≡ c.next)
        × (borrow srv.rx after.1 ≡ config_of after.0)
        × ((i : ℕ) → i ≢ srv.rx → borrow i after.1 ≡ borrow i c)
  unfolding publish borrow send
  publish_lem srv auths c held = (
    refl,
    refl,
    rw (==_refl srv.rx) (ap (λ (x : InboundServer ip). record x { authorizations = auths }) held),
    λ i ne. ground (arith, nat_eq.beq_iff srv.rx i),
  )

  add-GoodStep :
      (name : String) (authz : ClientAuthorization ip) → GoodStep (λ s. server_add_authz name authz)
  unfolding server_add_authz
  add-GoodStep name authz s srv c held = publish_lem srv _ c held

  pub remove-GoodStep : (name : String) → GoodStep (λ s. server_remove_authz name)
  unfolding server_remove_authz
  remove-GoodStep name s srv c held = elim (Bool-cases (contains_key name srv.authorizations)) [
    | inl e ↦ rw e (publish_lem srv (remove name srv.authorizations) c held)
    | inr e ↦ rw e (refl, refl, held, λ i ne. refl)
  ]

  pub add_or_remove-GoodStep :
      (name : String) (sel : ServerSelector) (authz : ClientAuthorization ip)
      → GoodStep (add_or_remove name sel authz)
  unfolding add_or_remove
  add_or_remove-GoodStep name sel authz s srv c held =
      elim (Bool-cases (selects sel s srv.meta.labels)) [
        | inl e ↦ rw e (add-GoodStep name authz s srv c held)
        | inr e ↦ rw e (remove-GoodStep name s srv c held)
      ]
