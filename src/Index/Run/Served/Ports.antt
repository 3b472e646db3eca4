-- ===== src/Index/Run/Served/Ports.antt =====
-- The ports of an indexed pod are those in the lookups.
use polixy.Prelude.{
  ℕ, ◌≡◌, refl, sym, ap, ◌∙◌, Option, none, some, inl, inr, Option-cases, string_eq, nat_eq,
}
use mathlib.Core.Option.{some-injective}
use polixy.Map.{Map, get}
use polixy.Lookup.{Rx, ByPort}
use polixy.Pod.{Port, Pod}
use polixy.Pod.Senders.{sender}
use polixy.Pod.Extract.{receiver}
use polixy.Index.Run.Synced.Matching.{Match}

receiver-some :
    (p v : ℕ) (ports : ByPort)
    → receiver p ports ≡ some v
    → (rx : Rx) × (get p ports ≡ some rx) × (rx.rx ≡ v)
receiver-some p v ports h = elim (Option-cases (get p ports)) [
  | inl e ↦ cc
  | inr (rx, e) ↦ (rx, e, some-injective rx.rx v (rw (e, receiver) at h))
]

pub sender-some :
    (p v : ℕ) (ports : Map ℕ Port)
    → sender p ports ≡ some v
    → (port : Port) × (get p ports ≡ some port) × (port.server_tx ≡ v)
sender-some p v ports h = elim (Option-cases (get p ports)) [
  | inl e ↦ cc
  | inr (port, e) ↦ (port, e, some-injective port.server_tx v (rw (e, sender) at h))
]

-- a port of an indexed pod is in the lookups
pub Match-lookup :
    (o : Option Pod) (b : Option ByPort) (pod : Pod) (p : ℕ) (port : Port)
    → o ≡ some pod
    → get p pod.ports.by_port ≡ some port
    → Match o b
    → (ports : ByPort) × (rx : Rx) × (b ≡ some ports)
      × (get p ports ≡ some rx)
      × (rx.rx ≡ port.server_tx)
Match-lookup none b pod p port h k m = cc
Match-lookup (some q) none pod p port h k m = elim m [ ]
Match-lookup (some q) (some ports) pod p port h k m =
    let same : q ≡ pod = some-injective q pod h in
    let (rx, found, e) =
      receiver-some p port.server_tx ports
        (m p ∙ ap (λ (x : Pod). sender p x.ports.by_port) same ∙ rw (k, sender) refl) in
    (ports, rx, refl, found, e)

-- a port in the lookups is that of an indexed pod
pub lookup-Match :
    (o : Option Pod) (b : Option ByPort) (p : ℕ) (ports : ByPort) (rx : Rx)
    → b ≡ some ports
    → get p ports ≡ some rx
    → Match o b
    → (pod : Pod) × (port : Port) × (o ≡ some pod)
      × (get p pod.ports.by_port ≡ some port)
      × (port.server_tx ≡ rx.rx)
lookup-Match o none p ports rx h k m = cc
lookup-Match none (some b) p ports rx h k m = elim m [ ]
lookup-Match (some pod) (some b) p ports rx h k m =
    let same : b ≡ ports = some-injective b ports h in
    let (port, found, same_tx) =
      sender-some p rx.rx pod.ports.by_port
        (sym (m p) ∙ ap (receiver p) same ∙ rw (k, receiver) refl) in
    (pod, port, refl, found, same_tx)
