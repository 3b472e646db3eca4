-- ===== src/Server/Publishing/Effects.antt =====
-- What the operations on the servers of a namespace do to the channels.
use polixy.Prelude.{
  ℕ, String, ◌≡◌, ◌≢◌, refl, sym, ap, subst, ◌∙◌, not, ◌||◌, none, some, inl, inr, arith, nat_eq,
  string_eq, Bool-cases, Option-cases, ==_refl,
}
use polixy.Map.{get, insert, remove}
use polixy.Core.{Ipnet, ClientAuthorization, ProxyProtocol-discrete}
use polixy.Labels.{Labels-discrete}
use polixy.K8s
use polixy.Authz.{ServerSelector, AuthzIndex}
use polixy.Watch.{channel, send, borrow}
use polixy.Server.{
  Server, SrvIndex, Configs, eqb, mk_protocol, add_authz, remove_authz, new_server, update_config,
  update_server, apply_entry, apply,
}
use polixy.Server.Updates.{config_of, update_server_lem}
use polixy.Server.Publishing.Steps.{for_each-Effect, add_or_remove-GoodStep, remove-GoodStep}
use polixy.Server.Publishing.{
  has_rx, Published, Effect, has_rx_of_get, has_rx-insert, replace-Published, remove-has_rx,
  remove-Published, append-has_rx, append-Published, get-Published,
}

module _ {ip : Ipnet} where
  pub add_authz-Effect :
      (name : String) (sel : ServerSelector) (authz : ClientAuthorization ip) (index : SrvIndex ip)
      (c : Configs ip)
      → Published index c
      → Effect index c (add_authz name sel authz index c).0 (add_authz name sel authz index c).1
  unfolding add_authz
  add_authz-Effect name sel authz index c p =
      for_each-Effect _ (add_or_remove-GoodStep name sel authz) index c p

  pub remove_authz-Effect :
      (name : String) (index : SrvIndex ip) (c : Configs ip)
      → Published index c
      → Effect index c (remove_authz name index c).0 (remove_authz name index c).1
  unfolding remove_authz
  remove_authz-Effect name index c p = for_each-Effect _ (remove-GoodStep name) index c p

  pub remove-Effect :
      (s : String) (index : SrvIndex ip) (c : Configs ip)
      → Published index c
      → Effect index c (remove s index) c
  remove-Effect s index c p = record {
    published = remove-Published s index c p;
    grows = omega arith;
    rxs = λ i l h. remove-has_rx i s index h;
    frame = λ i l h. refl;
  }

  -- sends on its own channel, if at all
  update_config-frame :
      (srv : K8s.Server) (authzs : AuthzIndex ip) (entry : Server ip) (c : Configs ip)
      → ((update_config srv authzs entry c).1.next ≡ c.next)
        × ((i : ℕ) → i ≢ entry.rx → borrow i (update_config srv authzs entry c).1 ≡ borrow i c)
  unfolding update_config borrow send
  update_config-frame srv authzs entry c =
      elim (Bool-cases (
        not (eqb Labels-discrete entry.meta.labels srv.metadata.labels)
        || eqb ProxyProtocol-discrete entry.meta.protocol (mk_protocol srv.spec.proxy_protocol))) [
          | inl e ↦ rw e (refl, λ i ne. ground (arith, nat_eq.beq_iff entry.rx i))
          | inr e ↦ rw e (refl, λ i ne. refl)
        ]

  replaced-Effect :
      (srv : K8s.Server) (authzs : AuthzIndex ip) (index : SrvIndex ip) (c : Configs ip)
      (entry : Server ip)
      → get srv.metadata.name index ≡ some entry
      → Published index c
      → Effect index c
          (insert srv.metadata.name (update_server srv authzs entry c).0 index)
          (update_server srv authzs entry c).1
  unfolding update_server
  replaced-Effect srv authzs index c entry h p =
      let held = get-Published srv.metadata.name entry index c h p in
      let (there, sent) = update_server_lem srv authzs entry c held in
      let (next, others) = update_config-frame srv authzs entry c in
      let rx : (update_server srv authzs entry c).0.rx ≡ entry.rx =
        ap (λ (e : Server ip). e.rx) there in
      record {
        published =
            replace-Published srv.metadata.name _ entry index c _ h rx
              (subst
                (λ (x : Server ip). borrow x.rx (update_server srv authzs entry c).1 ≡ config_of x)
                (sym there) sent)
              next others p;
        grows = omega (arith, next);
        rxs = λ i l k. has_rx-insert i srv.metadata.name _ entry index h rx ∙ k;
        frame = λ i l k. others i (λ e.
            ground (
              arith,
              k,
              has_rx_of_get srv.metadata.name entry index h,
              ap (λ j. has_rx j index) e,
            ));
      }

  added-Effect :
      (srv : K8s.Server) (authzs : AuthzIndex ip) (index : SrvIndex ip) (c : Configs ip)
      → get srv.metadata.name index ≡ none
      → Published index c
      → Effect index c
          (insert srv.metadata.name (new_server srv authzs c).0 index)
          (new_server srv authzs c).1
  unfolding new_server channel borrow
  added-Effect srv authzs index c h p = record {
    published =
        append-Published srv.metadata.name _ index c _ h (omega arith) (omega arith)
          (rw (==_refl c.next) refl) (λ i l. ground arith) p;
    grows = omega arith;
    rxs = λ i l k. append-has_rx i srv.metadata.name _ index (omega (arith, l)) k;
    frame = λ i l k. ground arith;
  }

  pub apply-Effect :
      (srv : K8s.Server) (authzs : AuthzIndex ip) (index : SrvIndex ip) (c : Configs ip)
      → Published index c
      → Effect index c (apply srv authzs index c).0 (apply srv authzs index c).1
  unfolding apply apply_entry
  apply-Effect srv authzs index c p = elim (Option-cases (get srv.metadata.name index)) [
    | inl e ↦ rw e (added-Effect srv authzs index c e p)
    | inr (entry, e) ↦ rw e (replaced-Effect srv authzs index c entry e p)
  ]
