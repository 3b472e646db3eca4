-- ===== src/Admin/Readiness.antt =====
-- What the admin server answers while the indexing task runs.
use polixy.Prelude.{
  String, ◌≡◌, ◌⊎◌, refl, sym, ap, ◌∙◌, Bool, ◌&&◌, List, [], ◌∷◌, ◌++◌, inl, inr, string_eq,
  if◌then◌else◌,
}
use polixy.Core.{Ipnet}
use polixy.Index.{Index}
use polixy.Index.Run.{Update, Poll, received, nodes, pods, servers, authzs, polls, start}
use polixy.Index.Run.Ready.{Alternating, healthy, ready-healthy, sent-Alternating}
use polixy.Admin.{plain, ready_of, handle_ready, serve}

Alternating-ready_of :
    (ready : Bool) (sent : List Bool) → Alternating ready sent → ready_of sent ≡ ready
Alternating-ready_of ready [] alt = sym alt
Alternating-ready_of ready (b ∷ bs) (e, alt) = sym e

serve-ready :
    (ready : Bool) (method : String)
    → (method ≡ "GET") ⊎ (method ≡ "HEAD")
    → serve ready (record { path = "/ready"; method = method })
      ≡ (if ready then plain 200 "ready\n" else plain 500 "not ready\n")
unfolding serve handle_ready
serve-ready ready method (inl e) = rw e refl
serve-ready ready method (inr e) = rw e refl

-- When the indexing task has handled an update, a GET or HEAD request for /ready is answered 200 if
-- each of the four watches has been polled and gave an update at its last poll, and 500 if not.
pub ready-answer :
    {ip : Ipnet} (idx : Index ip) (ps : List Poll) (u : Update) (method : String)
    → (method ≡ "GET") ⊎ (method ≡ "HEAD")
    → let all = ps ++ received u ∷ [] in
      serve (ready_of (polls all (start idx)).sent) (record { path = "/ready"; method = method })
      ≡ (if healthy nodes all && healthy pods all && healthy servers all && healthy authzs all
          then plain 200 "ready\n"
          else plain 500 "not ready\n")
ready-answer idx ps u method m =
    let l = polls (ps ++ received u ∷ []) (start idx) in
    serve-ready (ready_of l.sent) method m
    ∙ ap (λ b. if b then plain 200 "ready\n" else plain 500 "not ready\n")
        (Alternating-ready_of l.ready l.sent (sent-Alternating idx (ps ++ received u ∷ []))
          ∙ ready-healthy idx ps u)
