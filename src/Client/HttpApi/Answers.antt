-- ===== src/Client/HttpApi/Answers.antt =====
-- What the HTTP API answers.
use polixy.Prelude.{
  ℕ, String, ◌≡◌, ◌↔◌, refl, ap, ◌∙◌, Bool, Option, none, some, inl, inr, ◌==◌, string_eq, nat_eq,
  Bool-cases,
}
use mathlib.Core.Option
use polixy.Map.{Map, get}
use polixy.Core.{Ipnet, IsIpnet, IpAddr, InboundServer, ClientAuthorization}
use polixy.Reply.{Reply, ok, err, ◌>>=◌}
use polixy.Client.{Inbound}
use polixy.Client.Decode.{inbound_of}
use polixy.Client.Checks.{
  labels_of, first, admits_tls, admits_non_tls, check_tls-inbound_of, check_non_tls-inbound_of,
}
use polixy.Client.HttpApi.{
  TlsSpec, Spec, BodyError, Request, Response, plain, authorization, check, answer, of_type, serve,
}

-- a request that asks for a check
abbrev pub Asks : Request → Spec → Type 0
Asks req spec =
    (req.method ≡ "POST") × (req.content_type ≡ some "application/json") × (req.body ≡ ok spec)

module _ {ip : Ipnet} (ports : Map ℕ (Inbound ip)) where
  serve-Asks :
      (req : Request) (spec : Spec)
      → Asks req spec
      → serve ports req ≡ ok (answer ports spec (get spec.server_port ports))
  unfolding serve of_type
  serve-Asks req spec (m, c, b) = rw (m, c, b, serve, of_type) refl

  answer_ok :
      (spec : Spec) (o : Option (Inbound ip)) (l : Option (Map String String))
      → answer ports spec o ≡ plain 200 (authorization l)
      → (inbound : Inbound ip) × (o ≡ some inbound) × (check inbound spec ≡ l)
  unfolding answer
  answer_ok spec none l h = cc
  answer_ok spec (some inbound) l h =
      (inbound, refl, authorization-injective _ _ (ap (λ (r : Response). r.body) h))
    where
      authorization-injective :
          (a b : Option (Map String String)) → authorization a ≡ authorization b → a ≡ b
      authorization-injective a b h = cc

  read_lem :
      (r : Reply BodyError Spec) (l : Option (Map String String))
      → (r >>= λ spec. ok (answer ports spec (get spec.server_port ports)))
        ≡ ok (plain 200 (authorization l))
      → (spec : Spec) × (r ≡ ok spec)
        × (answer ports spec (get spec.server_port ports) ≡ plain 200 (authorization l))
  read_lem (ok spec) l h = (spec, refl, cc)
  read_lem (err e) l h = cc

  typed :
      (req : Request) (o : Option String) (l : Option (Map String String))
      → of_type ports req o ≡ ok (plain 200 (authorization l))
      → (spec : Spec) × (o ≡ some "application/json")
        × (req.body ≡ ok spec)
        × (answer ports spec (get spec.server_port ports) ≡ plain 200 (authorization l))
  unfolding of_type
  typed req none l h = cc
  typed req (some ct) l h = elim (Bool-cases (ct == "application/json")) [
    | inl e ↦
        let (spec, b, a) = read_lem req.body l (rw (e, of_type) at h) in
        (spec, ap some ((string_eq.beq_iff ct "application/json").0 e), b, a)
    | inr e ↦ cc (rw (e, of_type) at h)
  ]

  posted :
      (req : Request) (l : Option (Map String String))
      → serve ports req ≡ ok (plain 200 (authorization l))
      → (req.method ≡ "POST")
        × (of_type ports req req.content_type ≡ ok (plain 200 (authorization l)))
  unfolding serve
  posted req l h = elim (Bool-cases (req.method == "POST")) [
    | inl e ↦ ((string_eq.beq_iff req.method "POST").0 e, rw (e, serve) at h)
    | inr e ↦ cc (rw (e, serve) at h)
  ]

  -- A check is answered, with the labels that it gives, exactly if the request is a POST of JSON that
  -- is read, for a port that is watched, and it is the check of the configuration of that port: by the
  -- client's address and, where the client is on TLS, its identity.
  pub serve_iff :
      (req : Request) (l : Option (Map String String))
      → (serve ports req ≡ ok (plain 200 (authorization l))) ↔ (
          (spec : Spec) × (inbound : Inbound ip) × Asks req spec
          × (get spec.server_port ports ≡ some inbound)
          × (check inbound spec ≡ l))
  unfolding answer
  serve_iff req l = (
    λ h.
        let (m, h1) = posted req l h in
        let (spec, c, b, a) = typed req req.content_type l h1 in
        let (inbound, found, labels) = answer_ok spec (get spec.server_port ports) l a in
        (spec, inbound, (m, c, b), found, labels),
    λ (spec, inbound, asks, found, labels).
        serve-Asks req spec asks
        ∙ rw (found, answer) (ap (λ x. ok (plain 200 (authorization x))) labels),
  )

module _ {ip : Ipnet} where
  abbrev pub admitted_by : IpAddr → Option TlsSpec → String × ClientAuthorization ip → Bool
  admitted_by addr none = admits_non_tls addr
  admitted_by addr (some t) = admits_tls addr t.client_id

  -- the authorizations that admit the client
  abbrev pub admitted : Spec → String × ClientAuthorization ip → Bool
  admitted spec = admitted_by spec.client_ip spec.tls

module _ {ip : Ipnet} (is : IsIpnet ip) where
  pub check_lem :
      (spec : Spec) (srv : InboundServer ip)
      → check (inbound_of srv) spec
        ≡ Option.map labels_of (first (admitted spec) srv.authorizations)
  unfolding check
  check_lem spec srv = go spec.tls refl
    where
      go :
          (o : Option TlsSpec)
          → spec.tls ≡ o
          → check (inbound_of srv) spec
            ≡ Option.map labels_of (first (admitted spec) srv.authorizations)
      go none e = rw (e, check) (check_non_tls-inbound_of is spec.client_ip srv)
      go (some t) e = rw (e, check) (check_tls-inbound_of is spec.client_ip t.client_id srv)

  -- A proxy that watches a port and is asked for a client of it answers with the labels of the first
  -- authorization of the port's configuration that admits the client: on TLS by its address and its
  -- identity, and without TLS by its address alone.
  pub serve-admits :
      (ports : Map ℕ (Inbound ip)) (req : Request) (spec : Spec) (srv : InboundServer ip)
      → Asks req spec
      → get spec.server_port ports ≡ some (inbound_of srv)
      → serve ports req
        ≡ ok (
            plain 200
              (authorization (Option.map labels_of (first (admitted spec) srv.authorizations))))
  unfolding answer
  serve-admits ports req spec srv asks found =
      serve-Asks ports req spec asks
      ∙ ap (λ o. ok (answer ports spec o)) found
      ∙ ap (λ x. ok (plain 200 (authorization x))) (check_lem spec srv)
