-- ===== src/Server/Updates.antt =====
-- What `SrvIndex::apply` does to a server that is there.
use polixy.Prelude.{
  ℕ, ◌≡◌, refl, sym, ap, ◌∙◌, Bool, true, false, some, nat_eq, string_eq, if◌then◌else◌, Bool-cases,
  inl, inr, ◌||◌, ◌&&◌, &&-true, not, ==_refl,
}
use polixy.Map.{get}
use polixy.Map.Laws.{get-insert_self}
use polixy.Core.{Ipnet, InboundServer, ProxyProtocol, ProxyProtocol-discrete}
use polixy.Labels.{Labels-discrete, Selector-discrete}
use polixy.K8s
use polixy.K8s.{PortRef-discrete}
use polixy.Authz.{AuthzIndex}
use polixy.Watch.{Channels, borrow, send}
use polixy.Watch.Laws.{borrow-send}
use polixy.Server.{
  Server, SrvIndex, Configs, eqb, mk_protocol, selected, relabel, set_protocol, update_config,
  update_selection, update_server, apply_entry, apply,
}

eqb-true {ℓ} : {A : Type ℓ} (dec : Discrete A) (a b : A) → eqb dec a b ≡ true → a ≡ b
eqb-true dec a b h = yes_of (dec a b) h
  where
    yes_of : (d : Dec (a ≡ b)) → elim d [ yes _ ↦ true | no _ ↦ false ] ≡ true → a ≡ b
    yes_of (yes p) h = p
    yes_of (no n) h = cc

||-false : (a b : Bool) → (a || b) ≡ false → (a ≡ false) × (b ≡ false)
||-false true b h = cc
||-false false b h = (refl, h)

not-false : (b : Bool) → not b ≡ false → b ≡ true
not-false true h = refl
not-false false h = cc

borrow-send_self {ℓ} : {A : Type ℓ} (i : ℕ) (a : A) (c : Channels A) → borrow i (send i a c) ≡ a
borrow-send_self i a c = rw (borrow-send a c i i, ==_refl i) refl

module _ {ip : Ipnet} where
  -- what the channel of a server has to hold
  abbrev pub config_of : Server ip → InboundServer ip
  config_of srv = record { protocol = srv.meta.protocol; authorizations = srv.authorizations }

  -- a server with new labels, or with the labels that it has
  abbrev relabelled : K8s.Server → AuthzIndex ip → Bool → Server ip → Server ip
  relabelled srv authzs new entry = record entry {
    meta = record (entry.meta) { labels = srv.metadata.labels };
    authorizations =
        if new then selected srv.metadata.name srv.metadata.labels authzs else entry.authorizations;
  }

  -- The server that the resource describes, except for its protocol, which is the old one; its
  -- authorizations are selected again if its labels are new.
  abbrev pub updated : K8s.Server → AuthzIndex ip → Server ip → Server ip
  updated srv authzs entry = record {
    meta = record {
      labels = srv.metadata.labels;
      port = srv.spec.port;
      pod_selector = srv.spec.pod_selector;
      protocol = entry.meta.protocol;
    };
    authorizations =
        if not (eqb Labels-discrete entry.meta.labels srv.metadata.labels)
        then selected srv.metadata.name srv.metadata.labels authzs
        else entry.authorizations;
    rx = entry.rx;
  }

  relabel_lem :
      (srv : K8s.Server) (authzs : AuthzIndex ip) (new : Bool) (entry : Server ip)
      → (new ≡ false → entry.meta.labels ≡ srv.metadata.labels)
      → relabel srv authzs new (entry, config_of entry)
        ≡ (relabelled srv authzs new entry, config_of (relabelled srv authzs new entry))
  unfolding relabel
  relabel_lem srv authzs true entry h = refl
  relabel_lem srv authzs false entry h =
      λ i. (record entry { meta = record (entry.meta) { labels = h refl i } }, config_of entry)

  set_protocol_lem :
      (protocol : ProxyProtocol) (same : Bool) (entry : Server ip)
      → (same ≡ true → entry.meta.protocol ≡ protocol)
      → set_protocol protocol same (entry, config_of entry) ≡ (entry, config_of entry)
  unfolding set_protocol
  set_protocol_lem protocol false entry h = refl
  set_protocol_lem protocol true entry h = λ i. (
    record entry { meta = record (entry.meta) { protocol = sym (h refl) i } },
    record (config_of entry) { protocol = sym (h refl) i },
  )

  -- both changes to the configuration that is there, or to what it says
  changes_lem :
      (srv : K8s.Server) (authzs : AuthzIndex ip) (new same : Bool) (protocol : ProxyProtocol)
      (entry : Server ip)
      → (new ≡ false → entry.meta.labels ≡ srv.metadata.labels)
      → (same ≡ true → entry.meta.protocol ≡ protocol)
      → set_protocol protocol same (relabel srv authzs new (entry, config_of entry))
        ≡ (relabelled srv authzs new entry, config_of (relabelled srv authzs new entry))
  changes_lem srv authzs new same protocol entry h k =
      ap (set_protocol protocol same) (relabel_lem srv authzs new entry h)
      ∙ set_protocol_lem protocol same (relabelled srv authzs new entry) k

  update_selection_lem :
      (srv : K8s.Server) (entry : Server ip)
      → update_selection srv entry ≡ record entry {
        meta = record (entry.meta) { pod_selector = srv.spec.pod_selector; port = srv.spec.port };
      }
  unfolding update_selection
  update_selection_lem srv entry =
      elim (Bool-cases (
        eqb Selector-discrete entry.meta.pod_selector srv.spec.pod_selector
        && eqb PortRef-discrete entry.meta.port srv.spec.port)) [
          | inl e ↦
              let (p, q) =
                &&-true (eqb Selector-discrete entry.meta.pod_selector srv.spec.pod_selector)
                  (eqb PortRef-discrete entry.meta.port srv.spec.port) e in
              let same_pods : entry.meta.pod_selector ≡ srv.spec.pod_selector =
                eqb-true Selector-discrete _ _ p in
              let same_port : entry.meta.port ≡ srv.spec.port = eqb-true PortRef-discrete _ _ q in
              rw e (λ i. record entry {
                meta = record (entry.meta) { pod_selector = same_pods i; port = same_port i };
              })
          | inr e ↦ rw e refl
        ]

  update_config_lem :
      (srv : K8s.Server) (authzs : AuthzIndex ip) (entry : Server ip) (c : Configs ip)
      → borrow entry.rx c ≡ config_of entry
      → let new = not (eqb Labels-discrete entry.meta.labels srv.metadata.labels) in
        ((update_config srv authzs entry c).0 ≡ relabelled srv authzs new entry)
        × (borrow entry.rx (update_config srv authzs entry c).1
            ≡ config_of (relabelled srv authzs new entry))
  unfolding update_config
  update_config_lem srv authzs entry c h =
      let protocol = mk_protocol srv.spec.proxy_protocol in
      let new = not (eqb Labels-discrete entry.meta.labels srv.metadata.labels) in
      let same = eqb ProxyProtocol-discrete entry.meta.protocol protocol in
      let old_labels : new ≡ false → entry.meta.labels ≡ srv.metadata.labels =
        λ e. eqb-true Labels-discrete _ _ (not-false _ e) in
      let done =
        changes_lem srv authzs new same protocol entry old_labels
          (eqb-true ProxyProtocol-discrete entry.meta.protocol protocol) in
      elim (Bool-cases (new || same)) [
        | inl e ↦ rw (h, done, e, borrow-send_self) (refl, refl)
        | inr e ↦
            let (fresh, _) = ||-false new same e in
            rw (e, fresh)
              (λ i. record entry { meta = record (entry.meta) { labels = old_labels fresh i } }, h)
      ]

  pub update_server_lem :
      (srv : K8s.Server) (authzs : AuthzIndex ip) (entry : Server ip) (c : Configs ip)
      → borrow entry.rx c ≡ config_of entry
      → ((update_server srv authzs entry c).0 ≡ updated srv authzs entry)
        × (borrow entry.rx (update_server srv authzs entry c).1
            ≡ config_of (updated srv authzs entry))
  unfolding update_server
  update_server_lem srv authzs entry c h =
      let (there, sent) = update_config_lem srv authzs entry c h in
      (
        update_selection_lem srv _
            ∙ ap
                (λ (e : Server ip). record e {
                  meta = record (e.meta) {
                    pod_selector = srv.spec.pod_selector;
                    port = srv.spec.port;
                  };
                })
                there,
        sent,
      )

  -- A resource applied to a server that is there, whose channel holds its configuration, gives it
  -- the labels, the port and the pod selector of the resource, and where the labels are new the
  -- authorizations that select them, but leaves its protocol, whatever the resource names; its
  -- channel then holds its new configuration.
  pub apply-updated :
      (srv : K8s.Server) (authzs : AuthzIndex ip) (index : SrvIndex ip) (entry : Server ip)
      (c : Configs ip)
      → get srv.metadata.name index ≡ some entry
      → borrow entry.rx c ≡ config_of entry
      → (get srv.metadata.name (apply srv authzs index c).0 ≡ some (updated srv authzs entry))
        × (borrow entry.rx (apply srv authzs index c).1 ≡ config_of (updated srv authzs entry))
  unfolding apply apply_entry
  apply-updated srv authzs index entry c h k =
      let (there, sent) = update_server_lem srv authzs entry c k in
      rw (h, get-insert_self) (ap some there, sent)
