-- ===== src/Pod/Linked.antt =====
-- The channels of the ports of a pod hold the channels of their servers.
pub mod Steps
pub mod Reset
pub mod Fresh
pub mod Pods
pub mod Changes
use polixy.Prelude.{
  ℕ, String, ◌≡◌, ◌≢◌, ◌≤◌, ◌<◌, ◌+◌, refl, sym, ap, subst, ◌∙◌, Bool, true, false, ◌||◌, Option,
  none, some, List, [], ◌∷◌, inl, inr, arith, ◌==◌, nat_eq, string_eq, ==_refl, Bool-cases,
  Option-cases, All, if◌then◌else◌,
}
use mathlib.Core.Option.{some-injective}
use polixy.K8s.{PortRef}
use polixy.Labels.{Labels, matches}
use polixy.Map.{Map, keys, get, insert, remove}
use polixy.Map.Laws.{get-insert, get-remove}
use polixy.Map.Keys.{Distinct}
use polixy.Core.{Ipnet}
use polixy.Watch.{borrow, send}
use polixy.Server.Kept.{rx_of}
use polixy.Server.{Server, SrvIndex, iter_matching}
use polixy.Pod.{
  Port, PodPorts, Pod, Links, Ports, Linking, assign, link_entry, link_server_port, link_port,
  link_ports, link_matching, clear_entry, clear_port, clear_ports, collect_port, link_servers,
  has_server, reset_ports,
}

-- whether a port of the pod has the channel
abbrev pub has_tx : ℕ → Map ℕ Port → Bool
has_tx i [] = false
has_tx i ((p, port) ∷ ports) = port.server_tx == i || has_tx i ports

pub has_tx_of_get :
    (p : ℕ) (port : Port) (ports : Map ℕ Port)
    → get p ports ≡ some port
    → has_tx port.server_tx ports ≡ true
unfolding get
has_tx_of_get p port [] h = cc
has_tx_of_get p port ((q, old) ∷ ports) h = elim (Bool-cases (q == p)) [
  | inl here ↦
      let same : old ≡ port = some-injective old port (rw here at h) in
      ground
        (arith, ap (λ (x : Port). x.server_tx) same, nat_eq.beq_iff old.server_tx port.server_tx)
  | inr other ↦ ground (arith, has_tx_of_get p port ports (rw other at h))
]

has_tx-insert :
    (i p : ℕ) (new old : Port) (ports : Map ℕ Port)
    → get p ports ≡ some old
    → new.server_tx ≡ old.server_tx
    → has_tx i (insert p new ports) ≡ has_tx i ports
unfolding get insert
has_tx-insert i p new old [] h e = cc
has_tx-insert i p new old ((q, port) ∷ ports) h e = elim (Bool-cases (q == p)) [
  | inl here ↦
      let same : port ≡ old = some-injective port old (rw here at h) in
      rw here (ground (arith, e, ap (λ (x : Port). x.server_tx) same))
  | inr other ↦ rw other (ground (arith, has_tx-insert i p new old ports (rw other at h) e))
]

module _ {ip : Ipnet} where
  -- the channel that the receivers of a port have to read: that of its server, or the pod's default
  abbrev pub expected : SrvIndex ip → (default_rx : ℕ) → Option String → Option ℕ
  expected servers default_rx none = some default_rx
  expected servers default_rx (some n) = rx_of (get n servers)

  -- each port has an open channel of its own, which holds what its receivers have to read
  abbrev pub Linked : SrvIndex ip → ℕ → Map ℕ Port → Links → Type 0
  Linked servers d [] links = Unit
  Linked servers d ((p, port) ∷ ports) links =
      (expected servers d port.server_name ≡ some (borrow port.server_tx links))
      × (port.server_tx < links.next)
      × (has_tx port.server_tx ports ≡ false)
      × Linked servers d ports links

  -- What an operation on the ports of one pod does to the channels: it links, opens and takes none,
  -- and sends on no channel but those of the ports.
  pub record PortEffect (servers : SrvIndex ip) (d : ℕ) (ports : Map ℕ Port) (links : Links)
      (ports' : Map ℕ Port) (links' : Links) : Type 0 where
    pub linked : Linked servers d ports' links'
    pub next : links'.next ≡ links.next
    pub txs : (i : ℕ) → has_tx i ports' ≡ has_tx i ports
    pub frame : (i : ℕ) → has_tx i ports ≡ false → borrow i links' ≡ borrow i links

  pub frame-Linked :
      (servers : SrvIndex ip) (d : ℕ) (ports : Map ℕ Port) (links links' : Links)
      → ((i : ℕ) → has_tx i ports ≡ true → borrow i links' ≡ borrow i links)
      → links.next ≤ links'.next
      → Linked servers d ports links
      → Linked servers d ports links'
  frame-Linked servers d [] links links' same le l = tt
  frame-Linked servers d ((p, port) ∷ ports) links links' same le (reads, opened, own, l) = (
    reads
        ∙ ap some (
            sym
              (same port.server_tx (ground (arith, nat_eq.beq_iff port.server_tx port.server_tx)))),
    omega (arith, le, opened),
    own,
    frame-Linked servers d ports links links' (λ i h. same i (ground arith)) le l,
  )

  pub same-PortEffect :
      (servers : SrvIndex ip) (d : ℕ) (ports : Map ℕ Port) (links : Links)
      → Linked servers d ports links
      → PortEffect servers d ports links ports links
  same-PortEffect servers d ports links l = record {
    linked = l;
    next = refl;
    txs = λ i. refl;
    frame = λ i h. refl;
  }

  pub then-PortEffect :
      (servers : SrvIndex ip) (d : ℕ) (a b c : Map ℕ Port) (la lb lc : Links)
      → PortEffect servers d a la b lb
      → (Linked servers d b lb → PortEffect servers d b lb c lc)
      → PortEffect servers d a la c lc
  then-PortEffect servers d a b c la lb lc e next =
      let f = next e.linked in
      record {
        linked = f.linked;
        next = f.next ∙ e.next;
        txs = λ i. f.txs i ∙ e.txs i;
        frame = λ i h. f.frame i (e.txs i ∙ h) ∙ e.frame i h;
      }

  insert-Linked :
      (servers : SrvIndex ip) (d p : ℕ) (new old : Port) (ports : Map ℕ Port) (links links' : Links)
      → get p ports ≡ some old
      → new.server_tx ≡ old.server_tx
      → expected servers d new.server_name ≡ some (borrow new.server_tx links')
      → links'.next ≡ links.next
      → ((i : ℕ) → i ≢ old.server_tx → borrow i links' ≡ borrow i links)
      → Linked servers d ports links
      → Linked servers d (insert p new ports) links'
  unfolding get insert
  insert-Linked servers d p new old [] links links' h e reads next others l = cc
  insert-Linked servers d p new old ((q, port) ∷ ports) links links' h e reads next others
        (r, opened, own, l) =
      elim (Bool-cases (q == p)) [
        | inl here ↦
            let same : port.server_tx ≡ old.server_tx =
              ap (λ (x : Port). x.server_tx) (some-injective port old (rw here at h)) in
            rw here (
              reads,
              omega (arith, e, same, next, opened),
              ground (arith, e, same, own),
              frame-Linked servers d ports links links'
                  (λ i k.
                    others i
                      (λ eq. ground (arith, k, own, ap (λ j. has_tx j ports) (eq ∙ sym same))))
                  (omega (arith, next)) l,
            )
        | inr other ↦
            let there = has_tx_of_get p old ports (rw other at h) in
            rw other (
              r
                  ∙ ap some (
                      sym (
                        others port.server_tx
                          (λ eq. ground (arith, there, own, ap (λ j. has_tx j ports) eq)))),
              omega (arith, next, opened),
              has_tx-insert port.server_tx p new old ports (rw other at h) e ∙ own,
              insert-Linked servers d p new old ports links links' (rw other at h) e reads next
                  others l,
            )
      ]

  -- a port gets a server, or the default, and its receivers are told
  pub set-PortEffect :
      (servers : SrvIndex ip) (d p : ℕ) (port : Port) (o : Option String) (rx : ℕ)
      (ports : Map ℕ Port) (links : Links)
      → get p ports ≡ some port
      → expected servers d o ≡ some rx
      → Linked servers d ports links
      → PortEffect servers d ports links
          (insert p (record port { server_name = o }) ports)
          (send port.server_tx rx links)
  unfolding send borrow
  set-PortEffect servers d p port o rx ports links h e l = record {
    linked =
        insert-Linked servers d p (record port { server_name = o }) port ports links _ h refl
          (rw (==_refl port.server_tx) e) refl
          (λ i ne. ground (arith, nat_eq.beq_iff port.server_tx i)) l;
    next = refl;
    txs = λ i. has_tx-insert i p (record port { server_name = o }) port ports h refl;
    frame = λ i k. ground (
      arith,
      k,
      has_tx_of_get p port ports h,
      nat_eq.beq_iff port.server_tx i,
      ap (λ j. has_tx j ports) {x = port.server_tx} {y = i},
    );
  }

  pub get-Linked :
      (servers : SrvIndex ip) (d p : ℕ) (port : Port) (ports : Map ℕ Port) (links : Links)
      → get p ports ≡ some port
      → Linked servers d ports links
      → expected servers d port.server_name ≡ some (borrow port.server_tx links)
  unfolding get
  get-Linked servers d p port [] links h l = cc
  get-Linked servers d p port ((q, first) ∷ ports) links h (reads, opened, own, l) =
      elim (Bool-cases (q == p)) [
        | inl here ↦
            subst (λ (x : Port). expected servers d x.server_name ≡ some (borrow x.server_tx links))
              (some-injective first port (rw here at h)) reads
        | inr other ↦ get-Linked servers d p port ports links (rw other at h) l
      ]
