-- ===== src/Client/HttpApi.antt =====
-- client/src/http_api.rs: the HTTP API of a proxy's checks. What hyper and serde read of a request is
-- given: its method, its content type where it is text, and the specification in its body.
pub mod Answers
use polixy.Prelude.{ℕ, String, Option, none, some, List, ◌==◌, nat_eq, string_eq, if◌then◌else◌}
use polixy.Map.{Map, get, keys}
use polixy.Core.{Ipnet, IpAddr}
use polixy.Reply.{Reply, ok, err, ◌>>=◌}
use polixy.Client.{Inbound, check_tls, check_non_tls}

pub record TlsSpec : Type 0 where
  pub client_id : Option String

pub record Spec : Type 0 where
  pub server_port : ℕ
  pub client_ip : IpAddr
  pub tls : Option TlsSpec

-- reading the body, or parsing it, fails
pub data BodyError : Type 0 where
  unread unparsed : BodyError

pub record Request : Type 0 where
  pub method : String
  pub content_type : Option String
  pub body : Reply BodyError Spec

-- the bodies of the responses, with what their texts name
pub data Body : Type 0 where
  empty content_type_missing : Body
  unsupported : (content_type : String) → Body
  unknown_port : (known : List ℕ) → Body
  authorization : Option (Map String String) → Body

pub record Response : Type 0 where
  pub code : ℕ
  pub content_type : Option String
  pub body : Body

abbrev pub plain : ℕ → Body → Response
plain code body = record { code = code; content_type = some "text/plain"; body = body }

module _ {ip : Ipnet} where
  -- the labels of the authorization, if any
  unfoldable pub check : Inbound ip → Spec → Option (Map String String)
  check inbound spec = elim spec.tls [
    | some t ↦ check_tls inbound spec.client_ip t.client_id
    | none ↦ check_non_tls inbound spec.client_ip
  ]

  unfoldable pub answer : Map ℕ (Inbound ip) → Spec → Option (Inbound ip) → Response
  unfolding check
  answer ports spec (some inbound) = plain 200 (authorization (check inbound spec))
  answer ports spec none = plain 404 (unknown_port (keys ports))

  of_type : Map ℕ (Inbound ip) → Request → Option String → Reply BodyError Response
  unfolding answer
  of_type ports req none = ok (plain 400 content_type_missing)
  of_type ports req (some ct) =
      if ct == "application/json"
      then (req.body >>= λ spec. ok (answer ports spec (get spec.server_port ports)))
      else ok (plain 400 (unsupported ct))

  -- `serve`, with the values of the ports' channels
  unfoldable pub serve : Map ℕ (Inbound ip) → Request → Reply BodyError Response
  unfolding of_type
  serve ports req =
      if req.method == "POST"
      then of_type ports req req.content_type
      else ok (record { code = 405; content_type = none; body = empty })
