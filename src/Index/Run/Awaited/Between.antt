-- ===== src/Index/Run/Awaited/Between.antt =====
-- What a pod that waits for its node stays there through.
use polixy.Prelude.{
  String, ◌≡◌, ◌≢◌, refl, sym, ap, subst, ◌∙◌, Option, none, some, All, inl, inr, arith, ◌==◌,
  string_eq, Bool-cases, Option-cases,
}
use polixy.Map.{Map, get, insert}
use polixy.Map.Laws.{get-insert}
use polixy.Core.{Ipnet}
use polixy.K8s
use polixy.K8s.{PodSpec}
use polixy.Node.{
  State, Waiting, NodeIndex, pending, known, or_default, node_of, await_node, get_or_push_pending,
  push_pending,
}
use polixy.Index.{Index}
use polixy.Index.Nodes.{waiting_pods}
use polixy.Index.Run.Awaited.{HasNamespace, IsOn}
use polixy.Index.Run.Awaited.Waiting.{push_pending-All}

node_of-IsOn : (p : K8s.Pod) (n : String) → node_of p ≡ some n → (spec : PodSpec) × IsOn p spec n
unfolding node_of
node_of-IsOn p n h = elim (Option-cases p.spec) [
  | inl e ↦ cc (rw (e, node_of) at h)
  | inr (spec, e) ↦ (spec, (e, rw (e, node_of) at h))
]

module _ (n name pod_name : String) where
  -- a pod of this namespace and name, which is to run on the node, is among those that wait
  pub record Holds (w : Waiting) : Type 0 where
    pub pods : Map String K8s.Pod
    pub entry : K8s.Pod
    pub spec : PodSpec
    pub there : get name w ≡ some pods
    pub here : get pod_name pods ≡ some entry
    pub is_on : IsOn entry spec n
    pub named : entry.metadata.namespace ≡ some name
    pub same : entry.metadata.name ≡ pod_name

  push_pending-Holds :
      (w : Waiting) (ns : String) (p : K8s.Pod)
      → Holds w
      → p.metadata.namespace ≡ some ns
      → node_of p ≡ some n
      → Holds (push_pending w ns p)
  unfolding push_pending
  push_pending-Holds w ns p h named on = elim (Bool-cases (ns == name)) [
    | inl e ↦
        let pods = insert p.metadata.name p (or_default (get ns w)) in
        let at = get-insert ns name pods w in
        let eq = (string_eq.beq_iff ns name).0 e in
        let old : or_default (get ns w) ≡ h.pods =
          ap (λ k. or_default (get k w)) eq ∙ ap or_default h.there in
        elim (Bool-cases (p.metadata.name == pod_name)) [
          | inl f ↦
              let (spec, is_on) = node_of-IsOn p n on in
              record {
                pods = pods;
                entry = p;
                spec = spec;
                there = rw e at at;
                here = rw f at (get-insert p.metadata.name pod_name p (or_default (get ns w)));
                is_on = is_on;
                named = named ∙ ap some eq;
                same = (string_eq.beq_iff p.metadata.name pod_name).0 f;
              }
          | inr f ↦ record {
            pods = pods;
            entry = h.entry;
            spec = h.spec;
            there = rw e at at;
            here =
                rw f at (get-insert p.metadata.name pod_name p (or_default (get ns w)))
                ∙ ap (get pod_name) old
                ∙ h.here;
            is_on = h.is_on;
            named = h.named;
            same = h.same;
          }
        ]
    | inr e ↦ record {
      pods = h.pods;
      entry = h.entry;
      spec = h.spec;
      there =
          rw e at (get-insert ns name (insert p.metadata.name p (or_default (get ns w))) w)
          ∙ h.there;
      here = h.here;
      is_on = h.is_on;
      named = h.named;
      same = h.same;
    }
  ]

  -- the pod waits for its node, with others that name their namespaces
  pub record Waits (nodes : NodeIndex) : Type 0 where
    pub waiting : Waiting
    pub unknown : get n nodes ≡ some (pending waiting)
    pub holds : Holds waiting
    pub named : All HasNamespace (waiting_pods waiting)

  -- an entry of another node
  pub insert-Waits :
      (m : String) (s : State) (nodes : NodeIndex) → m ≢ n → Waits nodes → Waits (insert m s nodes)
  insert-Waits m s nodes ne h = record {
    waiting = h.waiting;
    unknown = ground (arith, get-insert m n s nodes, string_eq.beq_iff m n, h.unknown);
    holds = h.holds;
    named = h.named;
  }

  await-pushes :
      (m ns : String) (p : K8s.Pod) (w : Waiting) (nodes : NodeIndex)
      → p.metadata.namespace ≡ some ns
      → (await_node m p (some (pending w)) nodes).1 ≡ insert m (pending (push_pending w ns p)) nodes
  unfolding await_node
  await-pushes m ns p w nodes q = rw q refl

  await-Waits :
      (m : String) (p : K8s.Pod) (o : Option State) (nodes : NodeIndex)
      → node_of p ≡ some m
      → get m nodes ≡ o
      → Waits nodes
      → Waits (await_node m p o nodes).1
  unfolding await_node
  await-Waits m p none nodes on e h = elim (Option-cases p.metadata.namespace) [
    | inl q ↦ rw q h
    | inr (ns, q) ↦
        rw q (insert-Waits m _ nodes (λ s. cc (sym e ∙ ap (λ k. get k nodes) s ∙ h.unknown)) h)
  ]
  await-Waits m p (some (known a)) nodes on e h = h
  await-Waits m p (some (pending w)) nodes on e h = elim (Option-cases p.metadata.namespace) [
    | inl q ↦ rw q h
    | inr (ns, q) ↦ subst Waits (sym (await-pushes m ns p w nodes q)) (elim (Bool-cases (m == n)) [
      | inl same ↦
          let eq = (string_eq.beq_iff m n).0 same in
          let own : w ≡ h.waiting = cc (sym e ∙ ap (λ k. get k nodes) eq ∙ h.unknown) in
          record {
            waiting = push_pending w ns p;
            unknown = rw same at (get-insert m n (pending (push_pending w ns p)) nodes);
            holds = push_pending-Holds w ns p (subst Holds (sym own) h.holds) q (on ∙ ap some eq);
            named =
                push_pending-All HasNamespace w ns p (ns, q)
                  (subst (λ x. All HasNamespace (waiting_pods x)) (sym own) h.named);
          }
      | inr other ↦ insert-Waits m _ nodes (λ s. cc (sym ((string_eq.beq_iff m n).1 s) ∙ other)) h
    ])
  ]

  pub get_or_push_pending-Waits :
      (p : K8s.Pod) (nodes : NodeIndex) → Waits nodes → Waits (get_or_push_pending p nodes).1
  unfolding get_or_push_pending
  get_or_push_pending-Waits p nodes h = elim (Option-cases (node_of p)) [
    | inl e ↦ rw (e, get_or_push_pending) h
    | inr (m, e) ↦ rw (e, get_or_push_pending) (await-Waits m p (get m nodes) nodes e refl h)
  ]

  module _ {ip : Ipnet} where
    -- the pod waits in this state of the index
    abbrev pub IsWaiting : Index ip → Type 0
    IsWaiting idx = Waits idx.nodes
