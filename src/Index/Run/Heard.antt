-- ===== src/Index/Run/Heard.antt =====
-- The sends of linking a pod are heard: the lookups hold a receiver of each channel.
use polixy.Prelude.{ℕ, String, ◌≡◌, ◌⊎◌, refl, ◌∙◌, some, List, inl, inr, nat_eq, string_eq}
use polixy.Core.{Ipnet}
use polixy.Labels.{Labels}
use polixy.DefaultAllow.{DefaultAllow}
use polixy.Lookup.{Rx, find, lookup}
use polixy.Server.{SrvIndex}
use polixy.Pod.{Pod, Links, link_servers}
use polixy.Pod.Sent.{link_servers-SentTo}
use polixy.Index.{new}
use polixy.Index.Run.{Update, run}
use polixy.Index.Run.Synced.{run-Synced}
use polixy.Index.Run.Synced.Matching.{find_pod}
use polixy.Index.Run.Served.Ports.{sender-some, Match-lookup}

-- In every state that a new index reaches, linking an indexed pod, with whatever labels and to whatever
-- servers, sends on no channel but those of which the lookups hold a receiver, for a port of that pod; so
-- the `expect` of each of these sends holds.
pub run-heard :
    (ip : Ipnet) (nets : List ip.IpNet) (domain : String) (mode : DefaultAllow) (timeout : ℕ)
    (us : List Update) (name pod_name : String) (pod : Pod)
    → find_pod name pod_name (run us (new {ip = ip} nets domain mode timeout)).namespaces.index
      ≡ some pod
    → (servers : SrvIndex ip) (labels : Labels) (links : Links) (i : ℕ)
    → ((link_servers servers (record pod { labels = labels }) links).1.version i ≡ links.version i)
      ⊎ ((p : ℕ) × (rx : Rx) × (lookup name pod_name p
              (run us (new {ip = ip} nets domain mode timeout)).lookups
            ≡ some rx)
          × (rx.rx ≡ i))
unfolding lookup
run-heard ip nets domain mode timeout us name pod_name pod h servers labels links i =
    let idx = run us (new {ip = ip} nets domain mode timeout) in
    elim (link_servers-SentTo i servers (record pod { labels = labels }) links) [
      | inl e ↦ inl e
      | inr (p, s) ↦
          let (port, at, tx) = sender-some p i pod.ports.by_port s in
          let (ports, rx, found, there, same) =
            Match-lookup (find_pod name pod_name idx.namespaces.index)
              (find name pod_name idx.lookups) pod p port h at
              (run-Synced ip nets domain mode timeout us name pod_name) in
          inr (p, rx, rw (found, there, lookup) refl, same ∙ tx)
    ]
