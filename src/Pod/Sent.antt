-- ===== src/Pod/Sent.antt =====
-- Linking a pod sends on the channels of its ports only.
use polixy.Prelude.{
  ℕ, String, ◌≡◌, ◌⊎◌, refl, sym, ◌∙◌, Option, none, some, List, [], ◌∷◌, inl, inr, nat_eq, ◌==◌,
  Bool-cases, Option-cases, ap,
}
use polixy.K8s.{PortRef}
use polixy.Map.{Map, keys, get}
use polixy.Core.{Ipnet}
use polixy.Watch.{send}
use polixy.Server.{SrvIndex, iter_matching}
use polixy.Pod.{
  Port, PodPorts, Pod, Links, Ports, Linking, assign, link_entry, link_server_port, link_port,
  link_ports, link_matching, clear_entry, clear_port, clear_ports, link_servers, collect_port,
}
use polixy.Pod.Senders.{
  SameSenders, sender, link_entry-SameSenders, link_ports-SameSenders, link_matching-SameSenders,
  clear_port-SameSenders,
}

-- nothing has been sent on the channel, or it is that of one of the ports
abbrev pub SentTo : ℕ → Map ℕ Port → Links → Links → Type 0
SentTo i ports links links' =
    (links'.version i ≡ links.version i) ⊎ ((p : ℕ) × (sender p ports ≡ some i))

then-SentTo :
    (i : ℕ) (st st' st'' : Ports)
    → SameSenders st'.0 st.0
    → SentTo i st.0 st.1 st'.1
    → SentTo i st'.0 st'.1 st''.1
    → SentTo i st.0 st.1 st''.1
then-SentTo i st st' st'' same (inr q) s = inr q
then-SentTo i st st' st'' same (inl e) (inl f) = inl (f ∙ e)
then-SentTo i st st' st'' same (inl e) (inr (p, h)) = inr (p, sym (same p) ∙ h)

send-SentTo :
    (i p rx : ℕ) (port : Port) (ports : Map ℕ Port) (links : Links)
    → get p ports ≡ some port
    → SentTo i ports links (send port.server_tx rx links)
unfolding send
send-SentTo i p rx port ports links h = elim (Bool-cases (port.server_tx == i)) [
  | inl e ↦ inr (p, rw (h, sender) (ap some ((nat_eq.beq_iff port.server_tx i).0 e)))
  | inr e ↦ inl (rw e refl)
]

link_entry-SentTo :
    (i p : ℕ) (name : String) (rx : ℕ) (o : Option Port) (st : Ports)
    → get p st.0 ≡ o
    → SentTo i st.0 st.1 (link_entry p name rx o st).1
unfolding link_entry assign
link_entry-SentTo i p name rx none st h = inl refl
link_entry-SentTo i p name rx (some port) st h = elim (Option-cases port.server_name) [
  | inl e ↦ rw (e, assign) (send-SentTo i p rx port st.0 st.1 h)
  | inr (sn, e) ↦ rw (e, assign) (inl refl)
]

link_ports-SentTo :
    (i : ℕ) (name : String) (rx : ℕ) (ps : List ℕ) (st : Linking)
    → SentTo i st.ports.0 st.ports.1 (link_ports name rx ps st).ports.1
unfolding link_ports link_port link_server_port
link_ports-SentTo i name rx [] st = inl refl
link_ports-SentTo i name rx (p ∷ ps) st =
    then-SentTo i st.ports (link_port name rx p st).ports
      (link_ports name rx ps (link_port name rx p st)).ports
      (link_entry-SameSenders p name rx _ st.ports refl)
      (link_entry-SentTo i p name rx _ st.ports refl)
      (link_ports-SentTo i name rx ps (link_port name rx p st))

link_matching-SentTo :
    (i : ℕ) (ports : PodPorts) (ms : List (String × PortRef × ℕ)) (st : Linking)
    → SentTo i st.ports.0 st.ports.1 (link_matching ports ms st).ports.1
unfolding link_matching
link_matching-SentTo i ports [] st = inl refl
link_matching-SentTo i ports ((name, m, rx) ∷ ms) st =
    let ps = collect_port ports m in
    then-SentTo i st.ports (link_ports name rx ps st).ports
      (link_matching ports ms (link_ports name rx ps st)).ports
      (link_ports-SameSenders name rx ps st) (link_ports-SentTo i name rx ps st)
      (link_matching-SentTo i ports ms (link_ports name rx ps st))

clear_entry-SentTo :
    (i rx p : ℕ) (o : Option Port) (st : Ports)
    → get p st.0 ≡ o
    → SentTo i st.0 st.1 (clear_entry rx p o st).1
unfolding clear_entry
clear_entry-SentTo i rx p none st h = inl refl
clear_entry-SentTo i rx p (some port) st h = send-SentTo i p rx port st.0 st.1 h

clear_ports-SentTo :
    (i rx : ℕ) (ps : List ℕ) (st : Ports) → SentTo i st.0 st.1 (clear_ports rx ps st).1
unfolding clear_ports clear_port
clear_ports-SentTo i rx [] st = inl refl
clear_ports-SentTo i rx (p ∷ ps) st =
    then-SentTo i st (clear_port rx p st) (clear_ports rx ps (clear_port rx p st))
      (clear_port-SameSenders rx p st) (clear_entry-SentTo i rx p _ st refl)
      (clear_ports-SentTo i rx ps (clear_port rx p st))

pub link_servers-SentTo :
    {ip : Ipnet} (i : ℕ) (servers : SrvIndex ip) (pod : Pod) (links : Links)
    → SentTo i pod.ports.by_port links (link_servers servers pod links).1
unfolding link_servers
link_servers-SentTo i servers pod links =
    let st0 : Linking = record {
      ports = (pod.ports.by_port, links);
      remaining = keys pod.ports.by_port;
    } in
    let ms = iter_matching pod.labels servers in
    let st = link_matching pod.ports ms st0 in
    then-SentTo i st0.ports st.ports (clear_ports pod.default_allow_rx st.remaining st.ports)
      (link_matching-SameSenders pod.ports ms st0) (link_matching-SentTo i pod.ports ms st0)
      (clear_ports-SentTo i pod.default_allow_rx st.remaining st.ports)
