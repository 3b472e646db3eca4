-- ===== src/Index/Run/Awaited/Cleared.antt =====
-- A pod that waits for its node stays there when others are deleted.
use polixy.Prelude.{
  String, ◌≡◌, ◌≢◌, ◌⊎◌, refl, sym, ap, subst, ◌∙◌, Option, none, some, [], ◌∷◌, All, inl, inr,
  arith, ◌==◌, string_eq, Bool-cases, Option-cases,
}
use mathlib.Core.Option.{some-injective}
use polixy.Result.{Result, ok, err, panic}
use polixy.Map.{Map, get, insert, remove}
use polixy.Map.Laws.{get-insert, get-remove}
use polixy.Core.{Ipnet}
use polixy.K8s
use polixy.Node.{
  State, Waiting, NodeIndex, pending, or_default, waits_in, remove_waiting, clear_pending_pod,
}
use polixy.Lookup.{ByPort}
use polixy.Pod.{Pod}
use polixy.Index.{Namespace}
use polixy.Index.Nodes.{pods_of}
use polixy.Index.Pods
use polixy.Index.Pods.{rm_indexed, rm_pod, delete_pod, after_unset, unset_pod}
use polixy.Index.Run.Induction.{Keeps}
use polixy.Index.Run.Awaited.{HasNamespace}
use polixy.Index.Run.Awaited.Waiting.{insert-waiting_pods, get-waiting_pods}
use polixy.Index.Run.Awaited.Between.{Holds, Waits, IsWaiting}

get-clear_pending_pod :
    (ns p : String) (nodes : NodeIndex) (n : String)
    → (get n (clear_pending_pod ns p nodes).1 ≡ get n nodes)
      ⊎ ((s : State) × (get n nodes ≡ some s)
          × (get n (clear_pending_pod ns p nodes).1 ≡ some (remove_waiting ns p s)))
unfolding get clear_pending_pod
get-clear_pending_pod ns p [] n = inl refl
get-clear_pending_pod ns p ((m, s) ∷ nodes) n = elim (Bool-cases (waits_in ns p s)) [
  | inl e ↦ elim (Bool-cases (m == n)) [
    | inl here ↦ rw (e, here, clear_pending_pod) (inr (s, refl, refl))
    | inr other ↦ rw (e, other, clear_pending_pod) (inl refl)
  ]
  | inr e ↦ elim (Bool-cases (m == n)) [
    | inl here ↦ rw (e, here, clear_pending_pod) (inl refl)
    | inr other ↦ rw (e, other, clear_pending_pod) (get-clear_pending_pod ns p nodes n)
  ]
]

remove-pods_of :
    (P : K8s.Pod → Type 0) (k : String) (m : Map String K8s.Pod)
    → All P (pods_of m)
    → All P (pods_of (remove k m))
unfolding remove pods_of
remove-pods_of P k [] all = tt
remove-pods_of P k ((j, q) ∷ m) (h, all) = elim (Bool-cases (j == k)) [
  | inl e ↦ rw (e, remove) (remove-pods_of P k m all)
  | inr e ↦ rw (e, remove) (h, remove-pods_of P k m all)
]

module _ (n name pod_name ns p : String) (other : ns ≡ name → p ≢ pod_name) where
  remove-Holds :
      (w : Waiting) (pods : Map String K8s.Pod)
      → get ns w ≡ some pods
      → Holds n name pod_name w
      → Holds n name pod_name (insert ns (remove p pods) w)
  remove-Holds w pods e h = elim (Bool-cases (ns == name)) [
    | inl same ↦
        let eq = (string_eq.beq_iff ns name).0 same in
        let own : pods ≡ h.pods =
          some-injective pods h.pods (sym e ∙ ap (λ k. get k w) eq ∙ h.there) in
        record {
          pods = remove p pods;
          entry = h.entry;
          spec = h.spec;
          there = rw same at (get-insert ns name (remove p pods) w);
          here =
              ground (arith, get-remove p pod_name pods, string_eq.beq_iff p pod_name, other eq)
              ∙ ap (get pod_name) own
              ∙ h.here;
          is_on = h.is_on;
          named = h.named;
          same = h.same;
        }
    | inr away ↦ record {
      pods = h.pods;
      entry = h.entry;
      spec = h.spec;
      there = rw away at (get-insert ns name (remove p pods) w) ∙ h.there;
      here = h.here;
      is_on = h.is_on;
      named = h.named;
      same = h.same;
    }
  ]

  removed-Waits :
      (nodes : NodeIndex) (h : Waits n name pod_name nodes) (nodes' : NodeIndex)
      → get n nodes' ≡ some (remove_waiting ns p (pending h.waiting))
      → Waits n name pod_name nodes'
  unfolding remove_waiting
  removed-Waits nodes h nodes' e = elim (Option-cases (get ns h.waiting)) [
    | inl none_there ↦ record {
      waiting = h.waiting;
      unknown = rw (none_there, remove_waiting) at e;
      holds = h.holds;
      named = h.named;
    }
    | inr (pods, there) ↦ record {
      waiting = insert ns (remove p pods) h.waiting;
      unknown = rw (there, remove_waiting) at e;
      holds = remove-Holds h.waiting pods there h.holds;
      named =
          insert-waiting_pods HasNamespace ns (remove p pods) h.waiting
            (remove-pods_of HasNamespace p pods (
              subst (λ o. All HasNamespace (pods_of (or_default o))) there
                (get-waiting_pods HasNamespace ns h.waiting h.named)))
            h.named;
    }
  ]

  clear_pending_pod-Waits :
      (nodes : NodeIndex)
      → Waits n name pod_name nodes
      → Waits n name pod_name (clear_pending_pod ns p nodes).1
  clear_pending_pod-Waits nodes h = elim (get-clear_pending_pod ns p nodes n) [
    | inl e ↦ record {
      waiting = h.waiting;
      unknown = e ∙ h.unknown;
      holds = h.holds;
      named = h.named;
    }
    | inr (s, at, e) ↦ removed-Waits nodes h _ (
        e
        ∙ ap (λ x. some (remove_waiting ns p x))
            (some-injective s (pending h.waiting) (sym at ∙ h.unknown)))
  ]

  module _ {ip : Ipnet} where
    after_unset-Waits :
        (r : Result ByPort) → Keeps (IsWaiting n name pod_name) (after_unset {ip = ip} r)
    unfolding after_unset
    after_unset-Waits (ok _) idx h = h
    after_unset-Waits (err e) idx h = h
    after_unset-Waits panic idx h = h

    rm_entry-Waits :
        (found : Namespace ip) (o : Option Pod)
        → Keeps (IsWaiting n name pod_name) (Pods.rm_entry ns p found o)
    unfolding Pods.rm_entry unset_pod
    rm_entry-Waits found none idx h = h
    rm_entry-Waits found (some _) idx h = after_unset-Waits _ _ h

    rm_from-Waits :
        (o : Option (Namespace ip)) → Keeps (IsWaiting n name pod_name) (Pods.rm_from ns p o)
    unfolding Pods.rm_from
    rm_from-Waits none idx h = h
    rm_from-Waits (some found) idx h = rm_entry-Waits found _ idx h

    pub rm_pod-Waits : Keeps {ip = ip} (IsWaiting n name pod_name) (rm_pod ns p)
    unfolding rm_pod rm_indexed
    rm_pod-Waits idx h = elim (Bool-cases (clear_pending_pod ns p idx.nodes).0) [
      | inl e ↦ rw e (clear_pending_pod-Waits idx.nodes h)
      | inr e ↦ rw e (rm_from-Waits _ idx h)
    ]
