-- ===== src/Pod/Link/Assign.antt =====
-- What the loop over the matching servers gives each port of a pod.
use polixy.Prelude.{
  ℕ, String, ◌≡◌, ◌≢◌, refl, sym, ◌∙◌, Bool, not, ◌&&◌, Option, none, some, List, [], ◌∷◌, inl, inr,
  arith, ◌==◌, nat_eq, if◌then◌else◌, Option-cases, Bool-cases, contains, contains-without, is_some,
}
use polixy.K8s.{PortRef}
use polixy.Map.{Map, get}
use polixy.Map.Laws.{get-insert}
use polixy.Watch.{borrow}
use polixy.Watch.Laws.{borrow-send}
use polixy.Pod.{
  Port, PodPorts, Ports, Linking, assign, link_entry, link_server_port, link_port, link_ports,
  link_matching, collect_port,
}
use polixy.Pod.Senders.{SameSenders, sender, link_ports-SameSenders}

-- Each port has a channel of its own.
abbrev pub OwnSenders : Map ℕ Port → Type 0
OwnSenders ports = (p q tx : ℕ) → sender p ports ≡ some tx → sender q ports ≡ some tx → p ≡ q

-- The first server, in the order of the iteration, whose port reference names the port.
abbrev pub first_match : PodPorts → ℕ → List (String × PortRef × ℕ) → Option (String × ℕ)
first_match ports p [] = none
first_match ports p ((name, m, rx) ∷ ms) =
    if contains (collect_port ports m) p then some (name, rx) else first_match ports p ms

-- a port and what its receivers read
abbrev pub State : Type 0
State = Port × ℕ

-- a matching server is taken if the port has none
abbrev pub take_server : String → ℕ → State → State
take_server name rx (port, v) = elim port.server_name [
  | none ↦ (record port { server_name = some name }, rx)
  | some sn ↦ (port, v)
]

-- the port is there with this server, and its receivers read this value
pub record At (p : ℕ) (s : State) (st : Ports) : Type 0 where
  pub entry : get p st.0 ≡ some s.0
  pub reads : borrow s.0.server_tx st.1 ≡ s.1

-- Linking one port leaves the others.
link_entry-other :
    (q : ℕ) (name : String) (rx : ℕ) (o : Option Port) (st : Ports) (p : ℕ) (s : State)
    → OwnSenders st.0
    → get q st.0 ≡ o
    → p ≢ q
    → At p s st
    → At p s (link_entry q name rx o st)
unfolding link_entry assign
link_entry-other q name rx none st p s own h ne at = at
link_entry-other q name rx (some port) st p (pp, v) own h ne at =
    elim (Option-cases port.server_name) [
      | inl f ↦ rw f (record {
        entry =
            ground (arith, get-insert q p (record port { server_name = some name }) st.0, at.entry);
        reads = ground (
          arith,
          borrow-send rx st.1 port.server_tx pp.server_tx,
          at.reads,
          at.entry,
          own p q pp.server_tx,
        );
      })
      | inr (sn, f) ↦ rw f at
    ]

link_entry_self :
    (p : ℕ) (name : String) (rx : ℕ) (st : Ports) (s : State)
    → At p s st
    → At p (take_server name rx s) (link_entry p name rx (some s.0) st)
unfolding link_entry assign
link_entry_self p name rx st (pp, v) at = elim (Option-cases pp.server_name) [
  | inl f ↦ rw f (record {
    entry = ground (arith, get-insert p p (record pp { server_name = some name }) st.0);
    reads = ground (arith, borrow-send rx st.1 pp.server_tx pp.server_tx);
  })
  | inr (sn, f) ↦ rw f at
]

-- one round of the loop over the ports that a server names
abbrev take_if : Bool → String → ℕ → State → State
take_if hit name rx s = if hit then take_server name rx s else s

link_server_port-At :
    (q : ℕ) (name : String) (rx : ℕ) (st : Ports) (p : ℕ) (s : State)
    → OwnSenders st.0
    → At p s st
    → At p (take_if (q == p) name rx s) (link_server_port q name rx st)
unfolding link_server_port
link_server_port-At q name rx st p s own at = elim (Bool-cases (q == p)) [
  | inl here ↦ rw (here, (nat_eq.beq_iff q p).0 here, at.entry) (link_entry_self p name rx st s at)
  | inr other ↦
      rw other
        (link_entry-other q name rx _ st p s own refl (λ e. ground (arith, nat_eq.beq_iff q p)) at)
]

pub own-same : (new old : Map ℕ Port) → SameSenders new old → OwnSenders old → OwnSenders new
own-same new old same own p q tx h k = own p q tx (sym (same p) ∙ h) (sym (same q) ∙ k)

take-take :
    (name name' : String) (rx rx' : ℕ) (s : State)
    → take_server name' rx' (take_server name rx s) ≡ take_server name rx s
take-take name name' rx rx' (pp, v) = ground arith

link_ports-At :
    (name : String) (rx : ℕ) (qs : List ℕ) (st : Linking) (p : ℕ) (s : State)
    → OwnSenders st.ports.0
    → At p s st.ports
    → At p (take_if (contains qs p) name rx s) (link_ports name rx qs st).ports
unfolding link_ports link_port
link_ports-At name rx [] st p s own at = at
link_ports-At name rx (q ∷ qs) st p s own at =
    let st' = link_port name rx q st in
    let own' = own-same _ _ (link_ports-SameSenders name rx (q ∷ []) st) own in
    let at' =
      link_ports-At name rx qs st' p _ own' (link_server_port-At q name rx st.ports p s own at) in
    elim (Bool-cases (q == p)) [
      | inl here ↦ elim (Bool-cases (contains qs p)) [
        | inl more ↦ rw here (rw (here, more, take-take name name rx rx s) at at')
        | inr last ↦ rw here (rw (here, last) at at')
      ]
      | inr other ↦ rw other (rw other at at')
    ]

abbrev pub resolve : Option (String × ℕ) → State → State
resolve none s = s
resolve (some (name, rx)) s = take_server name rx s

-- a port that has taken a server takes no other
resolve-take :
    (c : Option (String × ℕ)) (name : String) (rx : ℕ) (s : State)
    → resolve c (take_server name rx s) ≡ take_server name rx s
resolve-take none name rx s = refl
resolve-take (some (name', rx')) name rx s = take-take name name' rx rx' s

pub link_matching-At :
    (ports : PodPorts) (ms : List (String × PortRef × ℕ)) (st : Linking) (p : ℕ) (s : State)
    → OwnSenders st.ports.0
    → At p s st.ports
    → At p (resolve (first_match ports p ms) s) (link_matching ports ms st).ports
unfolding link_matching
link_matching-At ports [] st p s own at = at
link_matching-At ports ((name, m, rx) ∷ ms) st p s own at =
    let qs = collect_port ports m in
    let st' = link_ports name rx qs st in
    let own' = own-same _ _ (link_ports-SameSenders name rx qs st) own in
    let at' = link_matching-At ports ms st' p _ own' (link_ports-At name rx qs st p s own at) in
    elim (Bool-cases (contains qs p)) [
      | inl hit ↦ rw hit (rw (hit, resolve-take (first_match ports p ms) name rx s) at at')
      | inr miss ↦ rw miss (rw miss at at')
    ]

remaining-link_ports :
    (name : String) (rx : ℕ) (qs : List ℕ) (st : Linking) (p : ℕ)
    → contains (link_ports name rx qs st).remaining p
      ≡ (contains st.remaining p && not (contains qs p))
unfolding link_ports link_port
remaining-link_ports name rx [] st p = ground arith
remaining-link_ports name rx (q ∷ qs) st p = ground (
  arith,
  remaining-link_ports name rx qs (link_port name rx q st) p,
  contains-without q p st.remaining,
)

pub remaining-link_matching :
    (ports : PodPorts) (ms : List (String × PortRef × ℕ)) (st : Linking) (p : ℕ)
    → contains (link_matching ports ms st).remaining p
      ≡ (contains st.remaining p && not (is_some (first_match ports p ms)))
unfolding link_matching
remaining-link_matching ports [] st p = ground arith
remaining-link_matching ports ((name, m, rx) ∷ ms) st p = ground (
  arith,
  remaining-link_matching ports ms (link_ports name rx (collect_port ports m) st) p,
  remaining-link_ports name rx (collect_port ports m) st p,
)
