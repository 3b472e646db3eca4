-- ===== src/Index/Run/Received.antt =====
-- What `Watch::recv` returns, and that the polls of a stream are what it does.
use polixy.Prelude.{
  String, ◌≡◌, ◌↔◌, refl, sym, ap, ◌∙◌, Bool, true, false, Option, some, List, [], ◌∷◌, map, ◌++◌,
}
use polixy.Core.{Ipnet}
use polixy.K8s.Watch.{Item, event, error, Watch, recv_loop, recv}
use polixy.Index.Run.{
  Update, Watched, nodes, pods, servers, authzs, watch_of, set_flag, Flags, Poll, failed, received,
  Loop, poll, polls,
}

module _ {E : Type 0} where
  -- errors only, and then the event
  abbrev pub After : List (Item E) → E → List (Item E) → Type 0
  After rx e rest = (errors : List String) × (rx ≡ map error errors ++ event e ∷ rest)

  recv_loop-After :
      (rx : List (Item E)) (ready : Bool) (e : E) (w : Watch E)
      → recv_loop ready rx ≡ (some e, w)
      → After rx e w.rx × (w.ready ≡ true)
  unfolding recv_loop
  recv_loop-After [] ready e w h = cc
  recv_loop-After (event x ∷ rx) ready e w h =
      let same : ◌≡◌ {A = Option E} (some x) (some e) = ap (λ r. r.0) h in
      let rest : rx ≡ w.rx = ap (λ r. r.1.rx) h in (([], cc), sym (ap (λ r. r.1.ready) h))
  recv_loop-After (error x ∷ rx) ready e w h =
      let ((errors, at), up) = recv_loop-After rx false e w h in
      ((x ∷ errors, ap (error x ∷◌) at), up)

  recv_loop-errors :
      (errors : List String) (ready : Bool) (e : E) (rest : List (Item E))
      → recv_loop ready (map error errors ++ event e ∷ rest)
        ≡ (some e, record { ready = true; rx = rest })
  unfolding recv_loop
  recv_loop-errors [] ready e rest = refl
  recv_loop-errors (x ∷ errors) ready e rest = recv_loop-errors errors false e rest

  -- `recv` returns an event exactly if the stream gives only errors before it, however many they are;
  -- the watch is ready then, and goes on with what is behind the event.
  pub recv_iff :
      (watch : Watch E) (e : E) (w : Watch E)
      → (recv watch ≡ (some e, w)) ↔ (After watch.rx e w.rx × (w.ready ≡ true))
  unfolding recv
  recv_iff watch e w = (
    recv_loop-After watch.rx watch.ready e w,
    λ ((errors, at), up).
        ap (recv_loop watch.ready) at
        ∙ recv_loop-errors errors watch.ready e w.rx
        ∙ ap (λ r. (some e, record w { ready = r })) (sym up),
  )

-- the polls that take the items of a stream
abbrev pub taken : {E : Type 0} → Watched → (E → Update) → List (Item E) → List Poll
taken watched update [] = []
taken watched update (event e ∷ rx) = received (update e) ∷ taken watched update rx
taken watched update (error e ∷ rx) = failed watched ∷ taken watched update rx

set_flag_twice :
    (w : Watched) (b c : Bool) (f : Flags) → set_flag w b (set_flag w c f) ≡ set_flag w b f
set_flag_twice nodes b c f = refl
set_flag_twice pods b c f = refl
set_flag_twice servers b c f = refl
set_flag_twice authzs b c f = refl

module _ {ip : Ipnet} {E : Type 0} (watched : Watched) (update : E → Update)
    (of_watch : (e : E) → watch_of (update e) ≡ watched) where
  poll-failed :
      (e : E) (l : Loop ip)
      → poll (received (update e)) (poll (failed watched) l) ≡ poll (received (update e)) l
  unfolding poll
  poll-failed e l = rw (of_watch e, set_flag_twice watched true false l.flags) refl

  polls-errors :
      (errors : List String) (e : E) (rest : List (Item E)) (l : Loop ip)
      → polls (taken watched update (map error errors ++ event e ∷ rest)) l
        ≡ polls (taken watched update rest) (poll (received (update e)) l)
  unfolding polls
  polls-errors [] e rest l = refl
  polls-errors (x ∷ errors) e rest l =
      polls-errors errors e rest (poll (failed watched) l)
      ∙ ap (polls (taken watched update rest)) (poll-failed e l)

  -- While `recv` waits and returns an event, the loop does with the polls of the stream what it does with
  -- that event alone, and then with the rest.
  pub polls-recv :
      (watch : Watch E) (e : E) (w : Watch E) (l : Loop ip)
      → recv watch ≡ (some e, w)
      → polls (taken watched update watch.rx) l
        ≡ polls (taken watched update w.rx) (poll (received (update e)) l)
  polls-recv watch e w l h =
      let ((errors, at), up) = (recv_iff watch e w).0 h in
      ap (λ rx. polls (taken watched update rx) l) at ∙ polls-errors errors e w.rx l
