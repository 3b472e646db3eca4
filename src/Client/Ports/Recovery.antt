-- ===== src/Client/Ports/Recovery.antt =====
-- What a port's task survives, and what it holds.
use polixy.Prelude.{◌≡◌, ◌≢◌, refl, sym, subst, ◌∙◌, Option, none, some, List, [], ◌∷◌, ◌++◌, All}
use polixy.Core.{Ipnet}
use polixy.Reply.{ok, err}
use polixy.Grpc.{invalid_argument, not_found, internal, other}
use polixy.Client.{Inbound}
use polixy.Client.Calls.{Failure, status, decode}
use polixy.Client.Ports.{
  Phase, calling, opening, streaming, finished, PortTask, Event, called, next, closed, recover,
  on_called, on_first, on_next, on_closed, step_in, step, steps, start,
}

-- how a task may end
abbrev pub EndsWell : Phase → Type 0
EndsWell (finished (ok u)) = Unit
EndsWell (finished (err e)) = e ≡ status invalid_argument
EndsWell _ = Unit

recover-EndsWell : (e : Failure) → EndsWell (recover e)
unfolding recover
recover-EndsWell (status invalid_argument) = refl
recover-EndsWell (status not_found) = tt
recover-EndsWell (status internal) = tt
recover-EndsWell (status (other n)) = tt
recover-EndsWell (decode e) = tt

abbrev pub IsRunning : Phase → Type 0
IsRunning (finished r) = ⊥
IsRunning _ = Unit

recover-IsRunning : (e : Failure) → e ≢ status invalid_argument → IsRunning (recover e)
unfolding recover
recover-IsRunning (status invalid_argument) ne = ne refl
recover-IsRunning (status not_found) ne = tt
recover-IsRunning (status internal) ne = tt
recover-IsRunning (status (other n)) ne = tt
recover-IsRunning (decode e) ne = tt

module _ {ip : Ipnet} where
  pub steps-append :
      (es fs : List (Event ip)) (t : PortTask ip) → steps (es ++ fs) t ≡ steps fs (steps es t)
  unfolding steps
  steps-append [] fs t = refl
  steps-append (e ∷ es) fs t = steps-append es fs (step e t)

  on_closed-EndsWell :
      (o : Option (Inbound ip)) (t : PortTask ip)
      → EndsWell t.phase
      → EndsWell (on_closed o t).phase
  unfolding on_closed
  on_closed-EndsWell none t h = h
  on_closed-EndsWell (some i) t h = tt

  step_in-EndsWell :
      (p : Phase) (e : Event ip) (t : PortTask ip)
      → EndsWell t.phase
      → EndsWell (step_in p e t).phase
  unfolding step_in on_called on_first on_next
  step_in-EndsWell (finished r) e t h = h
  step_in-EndsWell calling (called (ok u)) t h = tt
  step_in-EndsWell calling (called (err e)) t h = recover-EndsWell e
  step_in-EndsWell calling (next r) t h = h
  step_in-EndsWell calling closed t h = on_closed-EndsWell t.watched t h
  step_in-EndsWell opening (called r) t h = h
  step_in-EndsWell opening (next (ok (some i))) t h = tt
  step_in-EndsWell opening (next (ok none)) t h = tt
  step_in-EndsWell opening (next (err e)) t h = recover-EndsWell e
  step_in-EndsWell opening closed t h = on_closed-EndsWell t.watched t h
  step_in-EndsWell streaming (called r) t h = h
  step_in-EndsWell streaming (next (ok (some i))) t h = h
  step_in-EndsWell streaming (next (ok none)) t h = tt
  step_in-EndsWell streaming (next (err e)) t h = tt
  step_in-EndsWell streaming closed t h = on_closed-EndsWell t.watched t h

  pub steps-EndsWell :
      (es : List (Event ip)) (t : PortTask ip) → EndsWell t.phase → EndsWell (steps es t).phase
  unfolding steps step
  steps-EndsWell [] t h = h
  steps-EndsWell (e ∷ es) t h = steps-EndsWell es (step e t) (step_in-EndsWell t.phase e t h)

  -- A task fails only for an invalid argument, whatever the calls and the streams give.
  pub fails_only :
      (es : List (Event ip)) (e : Failure)
      → (steps es start).phase ≡ finished (err e)
      → e ≡ status invalid_argument
  fails_only es e h = subst EndsWell h (steps-EndsWell es start tt)

  -- an event that ends no task
  abbrev pub IsHarmless : Event ip → Type 0
  IsHarmless (called (err e)) = e ≢ status invalid_argument
  IsHarmless (next (err e)) = e ≢ status invalid_argument
  IsHarmless closed = ⊥
  IsHarmless _ = Unit

  step-IsRunning :
      (p : Phase) (e : Event ip) (t : PortTask ip)
      → IsRunning p
      → t.phase ≡ p
      → IsHarmless e
      → IsRunning (step_in p e t).phase
  unfolding step_in on_called on_first on_next
  step-IsRunning (finished r) e t h q k = elim h [ ]
  step-IsRunning calling (called (ok u)) t h q k = tt
  step-IsRunning calling (called (err e)) t h q k = recover-IsRunning e k
  step-IsRunning calling (next (ok r)) t h q k = subst IsRunning (sym q) tt
  step-IsRunning calling (next (err e)) t h q k = subst IsRunning (sym q) tt
  step-IsRunning p closed t h q k = elim k [ ]
  step-IsRunning opening (called r) t h q k = subst IsRunning (sym q) tt
  step-IsRunning opening (next (ok (some i))) t h q k = tt
  step-IsRunning opening (next (ok none)) t h q k = tt
  step-IsRunning opening (next (err e)) t h q k = recover-IsRunning e k
  step-IsRunning streaming (called r) t h q k = subst IsRunning (sym q) tt
  step-IsRunning streaming (next (ok (some i))) t h q k = subst IsRunning (sym q) tt
  step-IsRunning streaming (next (ok none)) t h q k = tt
  step-IsRunning streaming (next (err e)) t h q k = tt

  steps-IsRunning :
      (es : List (Event ip)) (t : PortTask ip)
      → All IsHarmless es
      → IsRunning t.phase
      → IsRunning (steps es t).phase
  unfolding steps step
  steps-IsRunning [] t hs h = h
  steps-IsRunning (e ∷ es) t (k, hs) h =
      steps-IsRunning es (step e t) hs (step-IsRunning t.phase e t h refl k)

  -- a stream is opened, from any phase of a task that runs
  reopens_lem :
      (p : Phase) (i : Inbound ip) (t : PortTask ip)
      → IsRunning p
      → t.phase ≡ p
      → steps (next (ok none) ∷ called (ok tt) ∷ next (ok (some i)) ∷ []) t
        ≡ record { phase = streaming; watched = some i }
  unfolding steps step step_in on_called on_first on_next
  reopens_lem (finished r) i t h q = elim h [ ]
  reopens_lem calling i t h q = rw (q, steps, step, step_in) refl
  reopens_lem opening i t h q = rw (q, steps, step, step_in) refl
  reopens_lem streaming i t h q = rw (q, steps, step, step_in) refl

  -- After any events but a loss of the receivers and invalid arguments, the task takes up a stream that
  -- the server opens, and holds its first value.
  pub recovers :
      (es : List (Event ip)) (i : Inbound ip)
      → All IsHarmless es
      → steps (es ++ next (ok none) ∷ called (ok tt) ∷ next (ok (some i)) ∷ []) start
        ≡ record { phase = streaming; watched = some i }
  recovers es i hs =
      steps-append es _ start
      ∙ reopens_lem (steps es start).phase i (steps es start) (steps-IsRunning es start hs tt) refl

  pub step-streaming :
      (i : Inbound ip) (t : PortTask ip)
      → t.phase ≡ streaming
      → step (next (ok (some i))) t ≡ record { phase = streaming; watched = some i }
  unfolding step step_in on_next
  step-streaming i t p = rw (p, step, step_in) refl

  pub step-opening :
      (i : Inbound ip) (t : PortTask ip)
      → t.phase ≡ opening
      → step (next (ok (some i))) t ≡ record { phase = streaming; watched = some i }
  unfolding step step_in on_first
  step-opening i t p = rw (p, step, step_in) refl
