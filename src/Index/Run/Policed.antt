-- ===== src/Index/Run/Policed.antt =====
-- The policy of the cluster, as a proxy enforces it: which clients it admits to a port that has a server.
use mathlib.Core.Option
use mathlib.Core.Option.{some-injective}
use polixy.Prelude.{
  ℕ, String, ◌≡◌, ◌≢◌, ◌⊎◌, ◌↔◌, refl, sym, ap, subst, ◌∙◌, Bool, true, Option, none, some, List,
  [], ◌∷◌, inl, inr, arith, ◌==◌, any, is_some, if◌then◌else◌, string_eq, nat_eq, Bool-cases,
}
use polixy.Map.{Map, get}
use polixy.Map.Sorted
use polixy.Map.Sorted.Order.{insert-IsSorted, get-any, any-get}
use polixy.Core.{Ipnet, IsIpnet, InboundServer, ClientAuthorization}
use polixy.Node.{KubeletIps}
use polixy.Labels.{Labels}
use polixy.DefaultAllow.{DefaultAllow}
use polixy.Authz.{Authz, AuthzIndex, selects}
use polixy.Lookup.{Rx, lookup, get_inbound_server, mk_server}
use polixy.Lookup.Serve.{health_check}
use polixy.Server.{Server}
use polixy.Server.Updates.{config_of}
use polixy.Server.Authorizations.{grant, IsGranted}
use polixy.Pod.{Pod, Port}
use polixy.Index.{Namespace, new}
use polixy.Index.Run.{Update, run}
use polixy.Index.Run.Served.{run-served}
use polixy.Index.Run.Granted.{run-IsGranted}
use polixy.Client.Decode.{inbound_of}
use polixy.Client.Checks.{first, labels_of}
use polixy.Client.HttpApi.{Spec, check}
use polixy.Client.HttpApi.Answers.{admitted, check_lem}

first-any {ℓ κ} :
    {A : Type ℓ} {B : Type κ} (f : A → B) (p : A → Bool) (xs : List A)
    → is_some (Option.map f (first p xs)) ≡ any p xs
first-any f p [] = refl
first-any f p (x ∷ xs) = ground (arith, first-any f p xs)

module _ {ip : Ipnet} where
  -- the kubelet's access admits the client, or an authorization does that selects the server
  abbrev pub IsAdmitted : Spec → KubeletIps → AuthzIndex ip → String → Labels → Type 0
  IsAdmitted spec kubelet authzs srv_name labels =
      (admitted {ip = ip} spec ("_health_check", health_check kubelet) ≡ true)
      ⊎ ((j : String) × (a : Authz ip) × (j ≢ "_health_check")
          × (get j authzs ≡ some a)
          × (selects a.servers srv_name labels ≡ true)
          × (admitted spec (j, a.clients) ≡ true))

  grant-some :
      (o : Option (Authz ip)) (srv_name : String) (labels : Labels) (v : ClientAuthorization ip)
      → grant o srv_name labels ≡ some v
      → (a : Authz ip) × (o ≡ some a) × (selects a.servers srv_name labels ≡ true) × (a.clients ≡ v)
  grant-some none srv_name labels v h = cc
  grant-some (some a) srv_name labels v h = elim (Bool-cases (selects a.servers srv_name labels)) [
    | inl e ↦ (a, refl, e, some-injective a.clients v (rw e at h))
    | inr e ↦ cc (rw e at h)
  ]

  module _ (kubelet : KubeletIps) (srv_name : String) (srv : Server ip) (authzs : AuthzIndex ip)
      (spec : Spec) (granted : IsGranted authzs srv_name srv) where
    served : Map String (ClientAuthorization ip)
    served = Sorted.insert "_health_check" (health_check kubelet) srv.authorizations

    get-served :
        (j : String)
        → get j served ≡ (
            if "_health_check" == j
            then some (health_check kubelet)
            else grant (get j authzs) srv_name srv.meta.labels)
    unfolding served
    get-served j =
        rw
          (
            Sorted.get-insert "_health_check" j (health_check kubelet) srv.authorizations,
            granted.0 j,
          )
          refl

    any-IsAdmitted :
        any (admitted spec) served ≡ true → IsAdmitted spec kubelet authzs srv_name srv.meta.labels
    unfolding served
    any-IsAdmitted h =
        let sorted =
          insert-IsSorted "_health_check" (health_check kubelet) srv.authorizations granted.1 in
        let (j, v, found, p) = any-get (admitted spec) served sorted h in
        elim (Bool-cases ("_health_check" == j)) [
          | inl e ↦
              let same : health_check kubelet ≡ v =
                some-injective (health_check kubelet) v (sym (rw e at (get-served j)) ∙ found) in
              let here = (string_eq.beq_iff "_health_check" j).0 e in
              inl (
                subst {A = String × ClientAuthorization ip} (λ x. admitted spec x ≡ true)
                  (λ i. (sym here i, sym same i)) p)
          | inr e ↦
              let (a, at, selected, same) =
                grant-some (get j authzs) srv_name srv.meta.labels v
                  (sym (rw e at (get-served j)) ∙ found) in
              inr (
                j,
                a,
                λ w. cc (sym ((string_eq.beq_iff "_health_check" j).1 (sym w)) ∙ e),
                at,
                selected,
                subst (λ x. admitted spec (j, x) ≡ true) (sym same) p,
              )
        ]

    IsAdmitted-any :
        IsAdmitted spec kubelet authzs srv_name srv.meta.labels → any (admitted spec) served ≡ true
    IsAdmitted-any (inl p) =
        get-any (admitted spec) "_health_check" (health_check kubelet) served
          (get-served "_health_check") p
    IsAdmitted-any (inr (j, a, ne, at, selected, p)) =
        get-any (admitted spec) j a.clients served
          (ground (arith, get-served j, string_eq.beq_iff "_health_check" j)) p

module _ {ip : Ipnet} (is : IsIpnet ip) where
  checked_lem :
      (kubelet : KubeletIps) (srv_name : String) (srv : Server ip) (authzs : AuthzIndex ip)
      (spec : Spec)
      → IsGranted authzs srv_name srv
      → (is_some (check (inbound_of (mk_server kubelet (config_of srv))) spec) ≡ true)
        ↔ IsAdmitted spec kubelet authzs srv_name srv.meta.labels
  unfolding mk_server served
  checked_lem kubelet srv_name srv authzs spec granted =
      let e =
        ap is_some (check_lem is spec (mk_server kubelet (config_of srv)))
        ∙ first-any labels_of (admitted spec) (served kubelet srv_name srv authzs spec granted) in
      (
        λ h. any-IsAdmitted kubelet srv_name srv authzs spec granted (sym e ∙ h),
        λ a. e ∙ IsAdmitted-any kubelet srv_name srv authzs spec granted a,
      )

  -- In every state that a new index reaches, by any updates in any order, a proxy that has been answered
  -- for a port which has the name of a server admits a client, on TLS or not, exactly if the access of
  -- the kubelet admits it, which is unauthenticated access from the addresses that the lookups hold for
  -- the port, or if some authorization of the namespace, other than one with the name of that access,
  -- selects the server, by name or by its labels, and admits the client.
  pub run-admits :
      (nets : List ip.IpNet) (domain : String) (mode : DefaultAllow) (timeout : ℕ)
      (us : List Update) (name : String) (ns : Namespace ip) (pod_name : String) (pod : Pod) (p : ℕ)
      (port : Port) (srv_name : String) (spec : Spec)
      → get name (run us (new {ip = ip} nets domain mode timeout)).namespaces.index ≡ some ns
      → get pod_name ns.pods ≡ some pod
      → get p pod.ports.by_port ≡ some port
      → port.server_name ≡ some srv_name
      → let idx = run us (new {ip = ip} nets domain mode timeout) in
        (srv : Server ip) × (rx : Rx) × (s : InboundServer ip) × (get srv_name ns.servers
          ≡ some srv)
        × (lookup name pod_name p idx.lookups ≡ some rx)
        × (get_inbound_server idx.links idx.configs (name, pod_name, p) idx.lookups ≡ some s)
        × ((is_some (check (inbound_of s) spec) ≡ true)
            ↔ IsAdmitted spec rx.kubelet ns.authzs srv_name srv.meta.labels)
  run-admits nets domain mode timeout us name ns pod_name pod p port srv_name spec h k l n =
      let (srv, rx, there, found, answer) =
        run-served nets domain mode timeout us name ns pod_name pod p port srv_name h k l n in
      let granted = run-IsGranted nets domain mode timeout us name ns srv_name srv h there in
      (
        srv,
        rx,
        mk_server rx.kubelet (config_of srv),
        there,
        found,
        answer,
        checked_lem rx.kubelet srv_name srv ns.authzs spec granted,
      )
