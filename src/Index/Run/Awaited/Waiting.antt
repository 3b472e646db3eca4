-- ===== src/Index/Run/Awaited/Waiting.antt =====
-- The pods that wait for a node, as the list in which they are applied.
use polixy.Prelude.{
  String, ◌≡◌, some, List, [], ◌∷◌, ◌++◌, All, inl, inr, arith, ◌==◌, string_eq, Bool-cases,
}
use mathlib.Core.Option.{some-injective}
use polixy.Map.{Map, get, insert}
use polixy.Map.Laws.{get-insert}
use polixy.K8s
use polixy.Node.{Waiting, push_pending, or_default}
use polixy.Index.Nodes.{pods_of, waiting_pods}
use polixy.Index.Run.Awaited.{IsAmong}

IsAmong-left : (p : K8s.Pod) (qs rs : List K8s.Pod) → IsAmong p qs → IsAmong p (qs ++ rs)
IsAmong-left p [] rs h = elim h [ ]
IsAmong-left p (q ∷ qs) rs (inl e) = inl e
IsAmong-left p (q ∷ qs) rs (inr h) = inr (IsAmong-left p qs rs h)

IsAmong-right : (p : K8s.Pod) (qs rs : List K8s.Pod) → IsAmong p rs → IsAmong p (qs ++ rs)
IsAmong-right p [] rs h = h
IsAmong-right p (q ∷ qs) rs h = inr (IsAmong-right p qs rs h)

All-append : (P : K8s.Pod → Type 0) (qs rs : List K8s.Pod) → All P qs → All P rs → All P (qs ++ rs)
All-append P [] rs a b = b
All-append P (q ∷ qs) rs (h, a) b = (h, All-append P qs rs a b)

append-All : (P : K8s.Pod → Type 0) (qs rs : List K8s.Pod) → All P (qs ++ rs) → All P qs × All P rs
append-All P [] rs a = (tt, a)
append-All P (q ∷ qs) rs (h, a) = let (l, r) = append-All P qs rs a in ((h, l), r)

pub pods_of-IsAmong :
    (k : String) (p : K8s.Pod) (m : Map String K8s.Pod) → get k m ≡ some p → IsAmong p (pods_of m)
unfolding get pods_of
pods_of-IsAmong k p [] h = cc
pods_of-IsAmong k p ((j, q) ∷ m) h = elim (Bool-cases (j == k)) [
  | inl e ↦ inl (some-injective q p (rw (e, get) at h))
  | inr e ↦ inr (pods_of-IsAmong k p m (rw (e, get) at h))
]

pub waiting_pods-IsAmong :
    (ns : String) (p : K8s.Pod) (pods : Map String K8s.Pod) (w : Waiting)
    → get ns w ≡ some pods
    → IsAmong p (pods_of pods)
    → IsAmong p (waiting_pods w)
unfolding get waiting_pods
waiting_pods-IsAmong ns p pods [] h k = cc
waiting_pods-IsAmong ns p pods ((j, qs) ∷ w) h k = elim (Bool-cases (j == ns)) [
  | inl e ↦
      let same : qs ≡ pods = some-injective qs pods (rw (e, get) at h) in
      IsAmong-left p (pods_of qs) (waiting_pods w) (rw same k)
  | inr e ↦
      IsAmong-right p (pods_of qs) (waiting_pods w)
        (waiting_pods-IsAmong ns p pods w (rw (e, get) at h) k)
]

-- a pod that is put among them is one of them
pub push_pending-IsAmong :
    (w : Waiting) (ns : String) (p : K8s.Pod) → IsAmong p (waiting_pods (push_pending w ns p))
unfolding push_pending
push_pending-IsAmong w ns p =
    let pods = insert p.metadata.name p (or_default (get ns w)) in
    waiting_pods-IsAmong ns p pods (insert ns pods w)
      (ground (arith, get-insert ns ns pods w, string_eq.beq_iff ns ns))
      (pods_of-IsAmong p.metadata.name p pods (
        ground (
          arith,
          get-insert p.metadata.name p.metadata.name p (or_default (get ns w)),
          string_eq.beq_iff p.metadata.name p.metadata.name,
        )))

insert-pods_of :
    (P : K8s.Pod → Type 0) (k : String) (p : K8s.Pod) (m : Map String K8s.Pod)
    → P p
    → All P (pods_of m)
    → All P (pods_of (insert k p m))
unfolding insert pods_of
insert-pods_of P k p [] h all = (h, tt)
insert-pods_of P k p ((j, q) ∷ m) h (g, all) = elim (Bool-cases (j == k)) [
  | inl e ↦ rw (e, insert) (h, all)
  | inr e ↦ rw (e, insert) (g, insert-pods_of P k p m h all)
]

pub insert-waiting_pods :
    (P : K8s.Pod → Type 0) (ns : String) (pods : Map String K8s.Pod) (w : Waiting)
    → All P (pods_of pods)
    → All P (waiting_pods w)
    → All P (waiting_pods (insert ns pods w))
unfolding insert waiting_pods
insert-waiting_pods P ns pods [] h all = All-append P (pods_of pods) [] h tt
insert-waiting_pods P ns pods ((j, qs) ∷ w) h all =
    let (l, r) = append-All P (pods_of qs) (waiting_pods w) all in
    elim (Bool-cases (j == ns)) [
      | inl e ↦ rw (e, insert) (All-append P (pods_of pods) (waiting_pods w) h r)
      | inr e ↦
          rw (e, insert)
            (All-append P (pods_of qs) (waiting_pods (insert ns pods w)) l
              (insert-waiting_pods P ns pods w h r))
    ]

pub get-waiting_pods :
    (P : K8s.Pod → Type 0) (ns : String) (w : Waiting)
    → All P (waiting_pods w)
    → All P (pods_of (or_default (get ns w)))
unfolding get waiting_pods pods_of
get-waiting_pods P ns [] all = tt
get-waiting_pods P ns ((j, qs) ∷ w) all =
    let (l, r) = append-All P (pods_of qs) (waiting_pods w) all in
    elim (Bool-cases (j == ns)) [
      | inl e ↦ rw (e, get) l
      | inr e ↦ rw (e, get) (get-waiting_pods P ns w r)
    ]

pub push_pending-All :
    (P : K8s.Pod → Type 0) (w : Waiting) (ns : String) (p : K8s.Pod)
    → P p
    → All P (waiting_pods w)
    → All P (waiting_pods (push_pending w ns p))
unfolding push_pending
push_pending-All P w ns p h all =
    insert-waiting_pods P ns _ w
      (insert-pods_of P p.metadata.name p (or_default (get ns w)) h (get-waiting_pods P ns w all))
      all
