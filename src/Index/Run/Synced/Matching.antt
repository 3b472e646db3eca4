-- ===== src/Index/Run/Synced/Matching.antt =====
-- An indexed pod and its entry in the lookups: what it is for the two to match.
use polixy.Prelude.{
  ℕ, String, ◌≡◌, refl, sym, ◌∙◌, Option, none, some, [], ◌∷◌, inl, inr, arith, ◌==◌, nat_eq,
  string_eq, Bool-cases, if◌then◌else◌,
}
use polixy.Map.{Map, get, insert}
use polixy.Map.Laws.{get-insert}
use polixy.Core.{Ipnet}
use polixy.Lookup.{ByPort, ByNs, find}
use polixy.DefaultAllow.{DefaultAllow}
use polixy.Server.{SrvIndex}
use polixy.Pod.{Pod, PodIndex, Links, link_servers, link_pods, reset_ports, reset_server}
use polixy.Pod.Senders.{SameSenders, sender, link_servers-SameSenders, reset_ports-SameSenders}
use polixy.Pod.Extract.{receiver}
use polixy.Index.{Namespace, Index, new, or_new, namespace_or_new, put_ns}

-- An indexed pod and its ports in the lookups: both or none, with the two ends of the same channels.
abbrev pub Match : Option Pod → Option ByPort → Type 0
Match none none = Unit
Match (some pod) (some ports) = (q : ℕ) → receiver q ports ≡ sender q pod.ports.by_port
Match _ _ = ⊥

-- a pod after an operation that keeps its senders
abbrev pub Similar : Option Pod → Option Pod → Type 0
Similar none none = Unit
Similar (some new) (some old) = SameSenders new.ports.by_port old.ports.by_port
Similar _ _ = ⊥

pub Match-Similar :
    (new old : Option Pod) (ports : Option ByPort)
    → Similar new old
    → Match old ports
    → Match new ports
Match-Similar none none none s m = tt
Match-Similar none none (some b) s m = m
Match-Similar (some p) (some q) none s m = m
Match-Similar (some p) (some q) (some b) s m = λ i. m i ∙ sym (s i)
Match-Similar none (some q) b s m = elim s [ ]
Match-Similar (some p) none b s m = elim s [ ]

pub link_pods-Similar :
    {ip : Ipnet} (servers : SrvIndex ip) (p : String) (pods : PodIndex) (links : Links)
    → Similar (get p (link_pods servers pods links).0) (get p pods)
unfolding get link_pods
link_pods-Similar servers p [] links = tt
link_pods-Similar servers p ((q, pod) ∷ pods) links = elim (Bool-cases (q == p)) [
  | inl here ↦ rw here (link_servers-SameSenders servers pod links)
  | inr other ↦ rw other (link_pods-Similar servers p pods (link_servers servers pod links).1)
]

pub reset_server-Similar :
    (srv p : String) (pods : PodIndex) (links : Links)
    → Similar (get p (reset_server srv pods links).0) (get p pods)
unfolding get reset_server
reset_server-Similar srv p [] links = tt
reset_server-Similar srv p ((q, pod) ∷ pods) links = elim (Bool-cases (q == p)) [
  | inl here ↦ rw here (reset_ports-SameSenders srv pod.default_allow_rx pod.ports.by_port links)
  | inr other ↦ rw other (
      reset_server-Similar srv p pods
        (reset_ports srv pod.default_allow_rx pod.ports.by_port links).1)
]

pub Match-none : (b : Option ByPort) → Match none b → b ≡ none
Match-none none m = refl
Match-none (some b) m = elim m [ ]

pub Similar-refl : (o : Option Pod) → Similar o o
Similar-refl none = tt
Similar-refl (some pod) = λ p. refl

module _ {ip : Ipnet} where
  abbrev pub find_pod : String → String → Map String (Namespace ip) → Option Pod
  find_pod ns p m = elim (get ns m) [ none ↦ none | some n ↦ get p n.pods ]

  pub find_pod-insert :
      (name n p : String) (ns : Namespace ip) (m : Map String (Namespace ip))
      → find_pod n p (insert name ns m) ≡ (if name == n then get p ns.pods else find_pod n p m)
  find_pod-insert name n p ns m = ground (arith, get-insert name n ns m)

  or_new-pods :
      (mode : DefaultAllow) (o : Option (Namespace ip)) (p : String)
      → get p (or_new mode o).pods ≡ elim o [ none ↦ none | some n ↦ get p n.pods ]
  unfolding or_new get
  or_new-pods mode none p = refl
  or_new-pods mode (some ns) p = refl

  -- the pods of the namespace that an operation begins with
  pub namespace-pods :
      (name : String) (idx : Index ip) (p : String)
      → get p (namespace_or_new name idx.namespaces).pods ≡ find_pod name p idx.namespaces.index
  unfolding namespace_or_new
  namespace-pods name idx p =
      or_new-pods idx.namespaces.default_allow (get name idx.namespaces.index) p

  -- every pod name of the namespace and its lookups match
  abbrev pub NsSynced : String → Namespace ip → ByNs → Type 0
  NsSynced name ns w = (p : String) → Match (get p ns.pods) (find name p w)

  abbrev pub SyncedMaps : Map String (Namespace ip) → ByNs → Type 0
  SyncedMaps index w = (n p : String) → Match (find_pod n p index) (find n p w)

  abbrev pub Synced : Index ip → Type 0
  Synced idx = SyncedMaps idx.namespaces.index idx.lookups

  -- a namespace that is there
  pub find_pod-there :
      (name p : String) (ns : Namespace ip) (m : Map String (Namespace ip))
      → get name m ≡ some ns
      → find_pod name p m ≡ get p ns.pods
  find_pod-there name p ns m h = rw (h, find_pod) refl

  pub put_ns-Synced :
      (name : String) (ns : Namespace ip) (idx : Index ip)
      → Synced idx
      → NsSynced name ns idx.lookups
      → Synced (put_ns name ns idx)
  put_ns-Synced name ns idx all mine n p =
      rw (find_pod-insert name n p ns idx.namespaces.index) (elim (Bool-cases (name == n)) [
        | inl here ↦ rw here (rw (← (string_eq.beq_iff name n).0 here) (mine p))
        | inr other ↦ rw other (all n p)
      ])

  pub namespace-NsSynced :
      (name : String) (idx : Index ip)
      → Synced idx
      → NsSynced name (namespace_or_new name idx.namespaces) idx.lookups
  namespace-NsSynced name idx all p = rw (namespace-pods name idx p) (all name p)

  pub there-NsSynced :
      (name : String) (ns : Namespace ip) (idx : Index ip)
      → get name idx.namespaces.index ≡ some ns
      → Synced idx
      → NsSynced name ns idx.lookups
  there-NsSynced name ns idx h all p =
      rw (find_pod-there name p ns idx.namespaces.index h) at (all name p)

  -- an operation that leaves similar pods
  pub put-Similar-Synced :
      (name : String) (ns ns' : Namespace ip) (idx : Index ip)
      → ((p : String) → Similar (get p ns'.pods) (get p ns.pods))
      → NsSynced name ns idx.lookups
      → Synced idx
      → SyncedMaps (insert name ns' idx.namespaces.index) idx.lookups
  put-Similar-Synced name ns ns' idx similar mine all =
      put_ns-Synced name ns' idx all (λ p. Match-Similar _ _ _ (similar p) (mine p))
