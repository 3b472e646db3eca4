-- ===== src/Pod/Link/Clear.antt =====
-- What the ports that no server matches are left with.
use polixy.Prelude.{
  ℕ, ◌≡◌, ◌≢◌, refl, Bool, Option, none, some, List, [], ◌∷◌, inl, inr, arith, ◌==◌, nat_eq,
  if◌then◌else◌, Bool-cases, contains,
}
use polixy.Map.{get}
use polixy.Map.Laws.{get-insert}
use polixy.Watch.Laws.{borrow-send}
use polixy.Pod.{Port, Ports, clear_entry, clear_port, clear_ports}
use polixy.Pod.Senders.{clear_port-SameSenders}
use polixy.Pod.Link.Assign.{OwnSenders, State, At, own-same}

abbrev pub clear_if : Bool → ℕ → State → State
clear_if hit rx s = if hit then (record (s.0) { server_name = none }, rx) else s

clear_entry-other :
    (rx q : ℕ) (o : Option Port) (st : Ports) (p : ℕ) (s : State)
    → OwnSenders st.0
    → get q st.0 ≡ o
    → p ≢ q
    → At p s st
    → At p s (clear_entry rx q o st)
unfolding clear_entry
clear_entry-other rx q none st p s own h ne at = at
clear_entry-other rx q (some port) st p (pp, v) own h ne at = record {
  entry = ground (arith, get-insert q p (record port { server_name = none }) st.0, at.entry);
  reads = ground (
    arith,
    borrow-send rx st.1 port.server_tx pp.server_tx,
    at.reads,
    at.entry,
    own p q pp.server_tx,
  );
}

clear_port-At :
    (rx q : ℕ) (st : Ports) (p : ℕ) (s : State)
    → OwnSenders st.0
    → At p s st
    → At p (clear_if (q == p) rx s) (clear_port rx q st)
unfolding clear_port
clear_port-At rx q st p s own at = elim (Bool-cases (q == p)) [
  | inl here ↦
      rw (here, (nat_eq.beq_iff q p).0 here, at.entry, clear_entry)
        (record {
          entry = ground (arith, get-insert p p (record (s.0) { server_name = none }) st.0);
          reads = ground (arith, borrow-send rx st.1 s.0.server_tx s.0.server_tx);
        })
  | inr other ↦
      rw other
        (clear_entry-other rx q _ st p s own refl (λ e. ground (arith, nat_eq.beq_iff q p)) at)
]

pub clear_ports-At :
    (rx : ℕ) (qs : List ℕ) (st : Ports) (p : ℕ) (s : State)
    → OwnSenders st.0
    → At p s st
    → At p (clear_if (contains qs p) rx s) (clear_ports rx qs st)
unfolding clear_ports
clear_ports-At rx [] st p s own at = at
clear_ports-At rx (q ∷ qs) st p s own at =
    let own' = own-same _ _ (clear_port-SameSenders rx q st) own in
    let at' =
      clear_ports-At rx qs (clear_port rx q st) p _ own' (clear_port-At rx q st p s own at) in
    elim (Bool-cases (q == p)) [
      | inl here ↦ elim (Bool-cases (contains qs p)) [
        | inl more ↦ rw here (rw (here, more) at at')
        | inr last ↦ rw here (rw (here, last) at at')
      ]
      | inr other ↦ rw other (rw other at at')
    ]
