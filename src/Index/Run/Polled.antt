-- ===== src/Index/Run/Polled.antt =====
-- What the polls of the watches have the indexing task handle.
use polixy.Prelude.{true, ◌≡◌, refl, ap, ◌∙◌, List, [], ◌∷◌, inl, inr, Bool-cases}
use polixy.Core.{Ipnet}
use polixy.Index.Run.{
  Update, Poll, failed, received, Loop, all_ready, watch_of, set_flag, differ, notify, poll, polls,
  handle, run,
}

-- the updates among them
abbrev pub updates : List Poll → List Update
updates [] = []
updates (failed w ∷ ps) = updates ps
updates (received u ∷ ps) = u ∷ updates ps

module _ {ip : Ipnet} where
  idx-notify : (l : Loop ip) → (notify l).idx ≡ l.idx
  unfolding notify
  idx-notify l = elim (Bool-cases (differ l.ready (all_ready l.flags))) [
    | inl e ↦ rw e refl
    | inr e ↦ rw e refl
  ]

  pub idx-polls : (ps : List Poll) (l : Loop ip) → (polls ps l).idx ≡ run (updates ps) l.idx
  unfolding polls poll run
  idx-polls [] l = refl
  idx-polls (failed w ∷ ps) l = idx-polls ps (poll (failed w) l)
  idx-polls (received u ∷ ps) l =
      idx-polls ps (poll (received u) l)
      ∙ ap (run (updates ps)) (
          idx-notify
            (record l { idx = (handle u l.idx).1; flags = set_flag (watch_of u) true l.flags }))
