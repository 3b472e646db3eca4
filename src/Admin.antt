-- ===== src/Admin.antt =====
-- controller/src/admin.rs: the admin server, whose readiness is the value of a `watch` channel that the
-- indexing task sends on. A response's body is its text.
pub mod Readiness
use polixy.Prelude.{
  ℕ, String, Bool, true, false, ◌||◌, Option, none, some, List, [], ◌∷◌, ◌==◌, string_eq,
  if◌then◌else◌,
}

pub record Request : Type 0 where
  pub path : String
  pub method : String

pub record Response : Type 0 where
  pub code : ℕ
  pub content_type : Option String
  pub body : String

abbrev pub plain : ℕ → String → Response
plain code body = record { code = code; content_type = some "text/plain"; body = body }

abbrev pub bare : ℕ → Response
bare code = record { code = code; content_type = none; body = "" }

-- `watch::channel(false)`, after the values that were sent, the last one first
abbrev pub ready_of : List Bool → Bool
ready_of [] = false
ready_of (ready ∷ sent) = ready

unfoldable pub handle_ready : Bool → Request → Response
handle_ready ready req =
    if req.method == "GET" || req.method == "HEAD"
    then if ready then plain 200 "ready\n" else plain 500 "not ready\n"
    else bare 405

-- the service of `serve`
unfoldable pub serve : Bool → Request → Response
serve ready req = if req.path == "/ready" then handle_ready ready req else bare 404
