-- ===== src/Index/Run/Ready.antt =====
-- The readiness that the indexing task reports to the admin server.
use polixy.Prelude.{
  ◌≡◌, refl, sym, ap, ◌∙◌, Bool, true, false, not, ◌&&◌, List, [], ◌∷◌, ◌++◌, if◌then◌else◌, inl,
  inr, Bool-cases,
}
use polixy.Core.{Ipnet}
use polixy.Index.{Index}
use polixy.Index.Run.{
  Update, Flags, Watched, nodes, pods, servers, authzs, watch_of, set_flag, all_ready, Loop, Poll,
  failed, received, differ, notify, handle, poll, polls, start,
}

-- whether two watches are the same
abbrev same_watch : Watched → Watched → Bool
same_watch nodes nodes = true
same_watch pods pods = true
same_watch servers servers = true
same_watch authzs authzs = true
same_watch _ _ = false

-- whether a watch is healthy after a poll, given whether it was before
abbrev heard : Watched → Poll → Bool → Bool
heard w (failed v) b = if same_watch w v then false else b
heard w (received u) b = if same_watch w (watch_of u) then true else b

-- whether the last poll of the watch gave an update, `b` where there is none
abbrev pub healthy_from : Bool → Watched → List Poll → Bool
healthy_from b w [] = b
healthy_from b w (p ∷ ps) = healthy_from (heard w p b) w ps

abbrev pub healthy : Watched → List Poll → Bool
healthy = healthy_from false

-- the flag of a watch
abbrev flag : Watched → Flags → Bool
flag nodes f = f.nodes
flag pods f = f.pods
flag servers f = f.servers
flag authzs f = f.authzs

flag-set_flag :
    (w v : Watched) (b : Bool) (f : Flags)
    → flag w (set_flag v b f) ≡ (if same_watch w v then b else flag w f)
flag-set_flag nodes nodes b f = refl
flag-set_flag nodes pods b f = refl
flag-set_flag nodes servers b f = refl
flag-set_flag nodes authzs b f = refl
flag-set_flag pods nodes b f = refl
flag-set_flag pods pods b f = refl
flag-set_flag pods servers b f = refl
flag-set_flag pods authzs b f = refl
flag-set_flag servers nodes b f = refl
flag-set_flag servers pods b f = refl
flag-set_flag servers servers b f = refl
flag-set_flag servers authzs b f = refl
flag-set_flag authzs nodes b f = refl
flag-set_flag authzs pods b f = refl
flag-set_flag authzs servers b f = refl
flag-set_flag authzs authzs b f = refl

-- The values sent, the last one first: the task was not ready, and each value is new.
abbrev pub Alternating : Bool → List Bool → Type 0
Alternating now [] = now ≡ false
Alternating now (b ∷ bs) = (now ≡ b) × Alternating (not b) bs

alternate :
    (r now : Bool) (sent : List Bool)
    → Alternating r sent
    → Alternating now (if differ r now then now ∷ sent else sent)
alternate true true sent alt = alt
alternate true false sent alt = (refl, alt)
alternate false true sent alt = (refl, alt)
alternate false false sent alt = alt

module _ {ip : Ipnet} where
  notify_lem :
      (l : Loop ip)
      → ((notify l).ready ≡ all_ready l.flags)
        × ((notify l).flags ≡ l.flags)
        × ((notify l).sent
            ≡ (if differ l.ready (all_ready l.flags) then all_ready l.flags ∷ l.sent else l.sent))
  unfolding notify
  notify_lem l = elim (Bool-cases l.ready) [
    | inl r ↦ elim (Bool-cases (all_ready l.flags)) [
      | inl e ↦ rw (r, e, notify) (refl, refl, refl)
      | inr e ↦ rw (r, e, notify) (refl, refl, refl)
    ]
    | inr r ↦ elim (Bool-cases (all_ready l.flags)) [
      | inl e ↦ rw (r, e, notify) (refl, refl, refl)
      | inr e ↦ rw (r, e, notify) (refl, refl, refl)
    ]
  ]

  -- the state in which `notify` compares
  abbrev handled : Update → Loop ip → Loop ip
  handled u l = record l { idx = (handle u l.idx).1; flags = set_flag (watch_of u) true l.flags }

  notify-Alternating :
      (l : Loop ip) → Alternating l.ready l.sent → Alternating (notify l).ready (notify l).sent
  notify-Alternating l alt =
      let (now, _, sent) = notify_lem l in
      rw (now, sent) (alternate l.ready (all_ready l.flags) l.sent alt)

  poll-Alternating :
      (p : Poll) (l : Loop ip)
      → Alternating l.ready l.sent
      → Alternating (poll p l).ready (poll p l).sent
  unfolding poll
  poll-Alternating (failed w) l alt = alt
  poll-Alternating (received u) l alt = notify-Alternating (handled u l) alt

  polls-Alternating :
      (ps : List Poll) (l : Loop ip)
      → Alternating l.ready l.sent
      → Alternating (polls ps l).ready (polls ps l).sent
  unfolding polls
  polls-Alternating [] l alt = alt
  polls-Alternating (p ∷ ps) l alt = polls-Alternating ps (poll p l) (poll-Alternating p l alt)

  poll-flag :
      (w : Watched) (p : Poll) (l : Loop ip) → flag w (poll p l).flags ≡ heard w p (flag w l.flags)
  unfolding poll
  poll-flag w (failed v) l = flag-set_flag w v false l.flags
  poll-flag w (received u) l =
      rw (notify_lem (handled u l)).1 (flag-set_flag w (watch_of u) true l.flags)

  polls-flag :
      (w : Watched) (ps : List Poll) (l : Loop ip)
      → flag w (polls ps l).flags ≡ healthy_from (flag w l.flags) w ps
  unfolding polls
  polls-flag w [] l = refl
  polls-flag w (p ∷ ps) l = rw (← poll-flag w p l) (polls-flag w ps (poll p l))

  received-ready :
      (u : Update) (l : Loop ip)
      → (poll (received u) l).ready ≡ all_ready (poll (received u) l).flags
  unfolding poll
  received-ready u l =
      let (now, same, _) = notify_lem (handled u l) in now ∙ ap all_ready (sym same)

  polls-ready :
      (ps : List Poll) (u : Update) (l : Loop ip)
      → (polls (ps ++ received u ∷ []) l).ready ≡ all_ready (polls (ps ++ received u ∷ []) l).flags
  unfolding polls
  polls-ready [] u l = received-ready u l
  polls-ready (p ∷ ps) u l = polls-ready ps u (poll p l)

  -- When an update has been handled, the task is ready if and only if each of the four watches has
  -- been polled and gave an update at its last poll.
  pub ready-healthy :
      (idx : Index ip) (ps : List Poll) (u : Update)
      → (polls (ps ++ received u ∷ []) (start idx)).ready ≡ (
          healthy nodes (ps ++ received u ∷ [])
          && healthy pods (ps ++ received u ∷ [])
          && healthy servers (ps ++ received u ∷ [])
          && healthy authzs (ps ++ received u ∷ []))
  unfolding start
  ready-healthy idx ps u =
      let qs = ps ++ received u ∷ [] in
      let flags : (w : Watched)
          → flag w (polls qs (start idx)).flags ≡ healthy_from (flag w (start idx).flags) w qs =
        λ w. polls-flag w qs (start idx) in
      polls-ready ps u (start idx)
      ∙ rw (← flags nodes, ← flags pods, ← flags servers, ← flags authzs) refl

  -- Whatever the watches report, the values sent on the readiness channel alternate, beginning with
  -- `true`, and the last of them is the task's readiness.
  pub sent-Alternating :
      (idx : Index ip) (ps : List Poll)
      → Alternating (polls ps (start idx)).ready (polls ps (start idx)).sent
  unfolding start
  sent-Alternating idx ps = polls-Alternating ps (start idx) refl
