-- ===== src/Index/Run/Linked/Channels.antt =====
-- The channels of the ports of all the pods.
use polixy.Prelude.{
  ℕ, String, ◌≡◌, ◌<◌, ◌≤◌, refl, sym, subst, true, some, [], inl, inr, arith, ◌==◌, nat_eq,
  string_eq, Bool-cases, if◌then◌else◌,
}
use polixy.Map.{Map, get, insert}
use polixy.Map.Laws.{get-insert}
use polixy.Map.Keys.{Distinct}
use polixy.Core.{Ipnet}
use polixy.DefaultAllow.{DefaultAllow, DefaultAllows, get_rx}
use polixy.Watch.{borrow}
use polixy.Pod.{Links}
use polixy.Pod.Linked.Pods.{has_pod_tx, LinkedPods, PodsEffect, frame-LinkedPods, has_pod_tx-lt}
use polixy.Index.{Namespace, NamespaceIndex, or_new, namespace_or_new}

-- the channel of a default mode
abbrev pub IsMode : DefaultAllows → ℕ → Type 0
IsMode allows rx = (m : DefaultAllow) × (rx ≡ get_rx allows m)

module _ {ip : Ipnet} where
  -- the namespace, empty where it is not there
  pub at : DefaultAllow → String → Map String (Namespace ip) → Namespace ip
  unfolding or_new
  at mode n index = or_new mode (get n index)

  pub at-insert :
      (mode : DefaultAllow) (name n : String) (ns : Namespace ip)
      (index : Map String (Namespace ip))
      → at mode n (insert name ns index) ≡ (if name == n then ns else at mode n index)
  unfolding at or_new
  at-insert mode name n ns index = elim (Bool-cases (name == n)) [
    | inl e ↦ rw (get-insert name n ns index, e) refl
    | inr e ↦ rw (get-insert name n ns index, e) refl
  ]

  pub at_there :
      (mode : DefaultAllow) (n : String) (ns : Namespace ip) (index : Map String (Namespace ip))
      → get n index ≡ some ns
      → at mode n index ≡ ns
  unfolding at or_new
  at_there mode n ns index h = rw h refl

  pub namespace-at :
      (name : String) (nss : NamespaceIndex ip)
      → namespace_or_new name nss ≡ at nss.default_allow name nss.index
  unfolding at namespace_or_new
  namespace-at name nss = refl

  -- a new namespace has no servers and no pods
  pub at_new :
      (mode : DefaultAllow) (n : String)
      → ((at mode n []).servers ≡ []) × ((at mode n []).pods ≡ [])
  unfolding at or_new get
  at_new mode n = (refl, refl)

  module _ (IsDefault : ℕ → Type 0) (mode : DefaultAllow) where
    -- In each namespace the names of the servers are distinct and the ports of the pods linked, by
    -- channels of the namespace's own.
    pub record AllLinked (index : Map String (Namespace ip)) (links : Links) : Type 0 where
      pub distinct : (n : String) → Distinct (at mode n index).servers
      pub linked :
          (n : String) → LinkedPods IsDefault (at mode n index).servers (at mode n index).pods links
      pub own :
          (n n' : String) (i : ℕ)
          → has_pod_tx i (at mode n index).pods ≡ true
          → has_pod_tx i (at mode n' index).pods ≡ true
          → n ≡ n'

    has_at-insert :
        (name n : String) (ns : Namespace ip) (index : Map String (Namespace ip)) (i : ℕ)
        → has_pod_tx i (at mode n (insert name ns index)).pods
          ≡ (if name == n then has_pod_tx i ns.pods else has_pod_tx i (at mode n index).pods)
    has_at-insert name n ns index i = elim (Bool-cases (name == n)) [
      | inl e ↦ rw (at-insert mode name n ns index, e) refl
      | inr e ↦ rw (at-insert mode name n ns index, e) refl
    ]

    -- one namespace is replaced, after an operation on its servers and its pods
    pub put-AllLinked :
        (index : Map String (Namespace ip)) (links links' : Links) (name : String)
        (ns : Namespace ip)
        → AllLinked index links
        → Distinct ns.servers
        → PodsEffect IsDefault ns.servers (at mode name index).pods links ns.pods links'
        → AllLinked (insert name ns index) links'
    put-AllLinked index links links' name ns all d e =
        let lt = λ (n : String) (i : ℕ).
          has_pod_tx-lt IsDefault (at mode n index).servers i (at mode n index).pods links
            (all.linked n) in
        record {
          distinct = λ n. rw (at-insert mode name n ns index) (elim (Bool-cases (name == n)) [
            | inl here ↦ rw here d
            | inr other ↦ rw other (all.distinct n)
          ]);
          linked = λ n. rw (at-insert mode name n ns index) (elim (Bool-cases (name == n)) [
            | inl here ↦ rw here e.linked
            | inr other ↦ rw other (
                frame-LinkedPods IsDefault _ (at mode n index).pods links links'
                  (λ i h.
                    e.frame i (lt n i h)
                      (ground (arith, all.own name n i, string_eq.beq_iff name n)))
                  e.grows (all.linked n))
          ]);
          own = λ n n' i h k. ground (
            arith,
            has_at-insert name n ns index i,
            has_at-insert name n' ns index i,
            lt n i,
            lt n' i,
            e.txs i,
            all.own name n i,
            all.own name n' i,
            all.own n name i,
            all.own n n' i,
            string_eq.beq_iff name n,
            string_eq.beq_iff name n',
          );
        }

    -- the same, where the operation begins with the namespace that is there, or an empty one
    pub put_from-AllLinked :
        (index : Map String (Namespace ip)) (links links' : Links) (name : String)
        (ns ns' : Namespace ip)
        → ns ≡ at mode name index
        → (Distinct ns.servers
            → LinkedPods IsDefault ns.servers ns.pods links
            → Distinct ns'.servers × PodsEffect IsDefault ns'.servers ns.pods links ns'.pods links')
        → AllLinked index links
        → AllLinked (insert name ns' index) links'
    put_from-AllLinked index links links' name ns ns' from f all =
        let (d, e) =
          f (subst (λ (x : Namespace ip). Distinct x.servers) (sym from) (all.distinct name)) (
            subst (λ (x : Namespace ip). LinkedPods IsDefault x.servers x.pods links) (sym from)
              (all.linked name)) in
        put-AllLinked index links links' name ns' all d (
          subst
            (λ (x : Namespace ip). PodsEffect IsDefault ns'.servers x.pods links ns'.pods links')
            from e)

    -- the channels that are open stay as they are
    pub frame-AllLinked :
        (index : Map String (Namespace ip)) (links links' : Links)
        → links.next ≤ links'.next
        → ((i : ℕ) → i < links.next → borrow i links' ≡ borrow i links)
        → AllLinked index links
        → AllLinked index links'
    frame-AllLinked index links links' le same all = record {
      distinct = all.distinct;
      linked = λ n.
          frame-LinkedPods IsDefault _ (at mode n index).pods links links'
            (λ i h. same i (
              has_pod_tx-lt IsDefault (at mode n index).servers i (at mode n index).pods links
                (all.linked n) h))
            le (all.linked n);
      own = all.own;
    }
