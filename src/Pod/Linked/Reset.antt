-- ===== src/Pod/Linked/Reset.antt =====
-- Removing a server leaves the ports of a pod linked to those that remain.
use polixy.Prelude.{
  ℕ, String, ◌≡◌, refl, sym, ap, ◌∙◌, false, Option, none, some, [], ◌∷◌, inl, inr, arith, ◌==◌,
  nat_eq, string_eq, Bool-cases,
}
use polixy.Map.{Map, remove}
use polixy.Map.Laws.{get-remove}
use polixy.Core.{Ipnet}
use polixy.Watch.{send}
use polixy.Server.{SrvIndex}
use polixy.Pod.{Port, Links, has_server, reset_ports}
use polixy.Pod.Linked.{has_tx, expected, Linked, PortEffect, frame-Linked}
use polixy.Pod.Linked.Steps.{send_self, send_other, next-send}

not_same : (a b : String) → (a == b) ≡ false → (b == a) ≡ false
not_same a b h = ground (arith, string_eq.beq_iff a b, string_eq.beq_iff b a)

module _ {ip : Ipnet} where
  -- a port that has not the server keeps what it reads when the server is removed
  kept_lem :
      (servers : SrvIndex ip) (s : String) (d : ℕ) (o : Option String) (v : ℕ)
      → has_server s o ≡ false
      → expected servers d o ≡ some v
      → expected (remove s servers) d o ≡ some v
  unfolding has_server
  kept_lem servers s d none v miss h = h
  kept_lem servers s d (some n) v miss h = rw (get-remove s n servers, not_same n s miss) h

  -- `PodIndex::reset_server` links the ports of a pod when the server is removed.
  pub reset_ports-PortEffect :
      (servers : SrvIndex ip) (s : String) (d : ℕ) (ports : Map ℕ Port) (links : Links)
      → Linked servers d ports links
      → PortEffect
          (remove s servers)
          d
          ports
          links
          (reset_ports s d ports links).0
          (reset_ports s d ports links).1
  unfolding reset_ports
  reset_ports-PortEffect servers s d [] links l = record {
    linked = tt;
    next = refl;
    txs = λ i. refl;
    frame = λ i h. refl;
  }
  reset_ports-PortEffect servers s d ((p, port) ∷ ports) links (reads, opened, own, l) =
      elim (Bool-cases (has_server s port.server_name)) [
        | inl hit ↦
            let sent = send port.server_tx d links in
            let rest = reset_ports-PortEffect servers s d ports sent (
              frame-Linked servers d ports links sent
                (λ i k.
                  send_other i port.server_tx d links
                    (λ e. ground (arith, k, own, ap (λ j. has_tx j ports) e)))
                (omega (arith, next-send port.server_tx d links)) l) in
            rw hit (record {
              linked = (
                ap some (sym (rest.frame port.server_tx own ∙ send_self port.server_tx d links)),
                omega (arith, opened, rest.next, next-send port.server_tx d links),
                rest.txs port.server_tx ∙ own,
                rest.linked,
              );
              next = rest.next ∙ next-send port.server_tx d links;
              txs = λ i. ground (arith, rest.txs i);
              frame = λ i h.
                  rest.frame i (ground arith)
                  ∙ send_other i port.server_tx d links
                      (λ e. ground (arith, nat_eq.beq_iff port.server_tx i));
            })
        | inr miss ↦
            let rest = reset_ports-PortEffect servers s d ports links l in
            rw miss (record {
              linked = (
                kept_lem servers s d port.server_name _ miss reads
                    ∙ ap some (sym (rest.frame port.server_tx own)),
                omega (arith, opened, rest.next),
                rest.txs port.server_tx ∙ own,
                rest.linked,
              );
              next = rest.next;
              txs = λ i. ground (arith, rest.txs i);
              frame = λ i h. rest.frame i (ground arith);
            })
      ]
