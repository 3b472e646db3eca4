-- ===== src/Server/Kept.antt =====
-- The servers of a namespace keep their names and their channels.
use polixy.Prelude.{
  ℕ, String, ◌≡◌, refl, ap, ◌∙◌, ◌||◌, Bool, true, false, not, Option, none, some, [], ◌∷◌, inl,
  inr, arith, ◌==◌, string_eq, Bool-cases,
}
use polixy.Map.{get, contains_key}
use polixy.Map.Laws.{get-insert}
use polixy.Map.Keys.{Distinct, insert-Distinct}
use mathlib.Core.Option.{some-injective}
use polixy.Core.{Ipnet, ClientAuthorization, InboundServer, ProxyProtocol, ProxyProtocol-discrete}
use polixy.Labels.{Labels-discrete}
use polixy.K8s
use polixy.Authz.{ServerSelector, AuthzIndex, selects}
use polixy.Server.{
  Server, SrvIndex, Configs, for_each, publish, server_add_authz, server_remove_authz,
  add_or_remove, add_authz, remove_authz, relabel, set_protocol, eqb, mk_protocol, update_config,
  update_selection, update_server, apply_entry, apply,
}

module _ {ip : Ipnet} where
  abbrev pub rx_of : Option (Server ip) → Option ℕ
  rx_of none = none
  rx_of (some srv) = some srv.rx

  -- the servers that are found are found with the channels that they had
  abbrev pub Extends : SrvIndex ip → SrvIndex ip → Type 0
  Extends servers servers' =
      (n : String) (rx : ℕ) → rx_of (get n servers) ≡ some rx → rx_of (get n servers') ≡ some rx

  remove_authz_rx :
      (name : String) (srv : Server ip) (c : Configs ip)
      → (server_remove_authz name srv c).0.rx ≡ srv.rx
  unfolding server_remove_authz publish
  remove_authz_rx name srv c = elim (Bool-cases (contains_key name srv.authorizations)) [
    | inl e ↦ rw e refl
    | inr e ↦ rw e refl
  ]

  add_or_remove_rx :
      (name : String) (sel : ServerSelector) (authz : ClientAuthorization ip) (n : String)
      (srv : Server ip) (c : Configs ip)
      → (add_or_remove name sel authz n srv c).0.rx ≡ srv.rx
  unfolding add_or_remove server_add_authz publish
  add_or_remove_rx name sel authz n srv c = elim (Bool-cases (selects sel n srv.meta.labels)) [
    | inl e ↦ rw e refl
    | inr e ↦ rw e (remove_authz_rx name srv c)
  ]

  module _ (step : String → Server ip → Configs ip → Server ip × Configs ip)
      (keeps : (n : String) (srv : Server ip) (c : Configs ip) → (step n srv c).0.rx ≡ srv.rx) where
    rx_of-for_each :
        (n : String) (index : SrvIndex ip) (c : Configs ip)
        → rx_of (get n (for_each step index c).0) ≡ rx_of (get n index)
    unfolding for_each get
    rx_of-for_each n [] c = refl
    rx_of-for_each n ((s, srv) ∷ index) c = elim (Bool-cases (s == n)) [
      | inl here ↦ rw here (ap some (keeps s srv c))
      | inr other ↦ rw other (rx_of-for_each n index (step s srv c).1)
    ]

    contains_key-for_each :
        (n : String) (index : SrvIndex ip) (c : Configs ip)
        → contains_key n (for_each step index c).0 ≡ contains_key n index
    unfolding for_each get
    contains_key-for_each n [] c = refl
    contains_key-for_each n ((s, srv) ∷ index) c = elim (Bool-cases (s == n)) [
      | inl here ↦ rw here refl
      | inr other ↦ rw other (contains_key-for_each n index (step s srv c).1)
    ]

    for_each-Distinct :
        (index : SrvIndex ip) (c : Configs ip) → Distinct index → Distinct (for_each step index c).0
    unfolding for_each
    for_each-Distinct [] c d = tt
    for_each-Distinct ((s, srv) ∷ index) c (fresh, d) = (
      contains_key-for_each s index (step s srv c).1 ∙ fresh,
      for_each-Distinct index (step s srv c).1 d,
    )

  pub add_authz-Extends :
      (name : String) (sel : ServerSelector) (authz : ClientAuthorization ip) (index : SrvIndex ip)
      (c : Configs ip)
      → Extends index (add_authz name sel authz index c).0
  unfolding add_authz
  add_authz-Extends name sel authz index c n rx h =
      rx_of-for_each _ (add_or_remove_rx name sel authz) n index c ∙ h

  pub add_authz-Distinct :
      (name : String) (sel : ServerSelector) (authz : ClientAuthorization ip) (index : SrvIndex ip)
      (c : Configs ip)
      → Distinct index
      → Distinct (add_authz name sel authz index c).0
  unfolding add_authz
  add_authz-Distinct name sel authz index c d =
      for_each-Distinct _ (add_or_remove_rx name sel authz) index c d

  pub remove_authz-Extends :
      (name : String) (index : SrvIndex ip) (c : Configs ip)
      → Extends index (remove_authz name index c).0
  unfolding remove_authz
  remove_authz-Extends name index c n rx h =
      rx_of-for_each _ (λ s. remove_authz_rx name) n index c ∙ h

  pub remove_authz-Distinct :
      (name : String) (index : SrvIndex ip) (c : Configs ip)
      → Distinct index
      → Distinct (remove_authz name index c).0
  unfolding remove_authz
  remove_authz-Distinct name index c d = for_each-Distinct _ (λ s. remove_authz_rx name) index c d

  update_selection_rx :
      (srv : K8s.Server) (entry : Server ip) → (update_selection srv entry).rx ≡ entry.rx
  unfolding update_selection
  update_selection_rx srv entry = ground arith

  set_protocol_rx :
      (p : ProxyProtocol) (b : Bool) (old : Server ip × InboundServer ip)
      → (set_protocol p b old).0.rx ≡ old.0.rx
  unfolding set_protocol
  set_protocol_rx p true (entry, config) = refl
  set_protocol_rx p false old = refl

  relabel_rx :
      (srv : K8s.Server) (authzs : AuthzIndex ip) (b : Bool) (old : Server ip × InboundServer ip)
      → (relabel srv authzs b old).0.rx ≡ old.0.rx
  unfolding relabel
  relabel_rx srv authzs true (entry, config) = refl
  relabel_rx srv authzs false old = refl

  update_config_rx :
      (srv : K8s.Server) (authzs : AuthzIndex ip) (entry : Server ip) (c : Configs ip)
      → (update_config srv authzs entry c).0.rx ≡ entry.rx
  unfolding update_config
  update_config_rx srv authzs entry c =
      elim (Bool-cases (
        not (eqb Labels-discrete entry.meta.labels srv.metadata.labels)
        || eqb ProxyProtocol-discrete entry.meta.protocol (mk_protocol srv.spec.proxy_protocol))) [
          | inl e ↦ rw e (set_protocol_rx _ _ _ ∙ relabel_rx srv authzs _ _)
          | inr e ↦ rw e refl
        ]

  apply_entry_rx :
      (srv : K8s.Server) (authzs : AuthzIndex ip) (o : Option (Server ip)) (c : Configs ip) (rx : ℕ)
      → rx_of o ≡ some rx
      → (apply_entry srv authzs o c).0.rx ≡ rx
  unfolding apply_entry update_server
  apply_entry_rx srv authzs none c rx h = cc
  apply_entry_rx srv authzs (some entry) c rx h =
      update_selection_rx srv _ ∙ update_config_rx srv authzs entry c ∙ some-injective _ _ h

  pub apply-Extends :
      (srv : K8s.Server) (authzs : AuthzIndex ip) (index : SrvIndex ip) (c : Configs ip)
      → Extends index (apply srv authzs index c).0
  unfolding apply
  apply-Extends srv authzs index c n rx h = elim (Bool-cases (srv.metadata.name == n)) [
    | inl here ↦
        rw
          (
            get-insert srv.metadata.name n
                (apply_entry srv authzs (get srv.metadata.name index) c).0 index,
            here,
          )
          (ap some (
            apply_entry_rx srv authzs _ c rx
              (rw ((string_eq.beq_iff srv.metadata.name n).0 here) h)))
    | inr other ↦
        rw
          (
            get-insert srv.metadata.name n
                (apply_entry srv authzs (get srv.metadata.name index) c).0 index,
            other,
          )
          h
  ]

  pub apply-Distinct :
      (srv : K8s.Server) (authzs : AuthzIndex ip) (index : SrvIndex ip) (c : Configs ip)
      → Distinct index
      → Distinct (apply srv authzs index c).0
  unfolding apply
  apply-Distinct srv authzs index c d = insert-Distinct _ _ index d
