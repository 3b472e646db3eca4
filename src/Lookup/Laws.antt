-- ===== src/Lookup/Laws.antt =====
-- What the lookups hold after each operation of the writer.
use polixy.Prelude.{
  ◌⊎◌, inl, inr, Bool-cases, ℕ, String, ◌≡◌, refl, sym, ap, ◌∙◌, true, false, ◌&&◌, none, some,
  List, [], ◌∷◌, arith, ◌==◌, string_eq, nat_eq, is_some, is_empty, if◌then◌else◌,
}
use polixy.Result.{ok, err, missing_namespace, missing_pod, pod_exists}
use polixy.Map.{get, insert, remove, collect}
use polixy.Map.Laws.{get-insert, get-remove}
use polixy.Node.{or_default}
use polixy.Lookup.{Rx, ByPort, ByPod, ByNs, find, contains, set, unset}

-- `contains` tells whether the pod can be found.
pub contains-find : (ns pod : String) (w : ByNs) → contains ns pod w ≡ is_some (find ns pod w)
unfolding contains
contains-find ns pod w = ground arith

-- a namespace that is not there has no pods
find_lem : (ns pod : String) (w : ByNs) → find ns pod w ≡ get pod (or_default (get ns w))
unfolding get
find_lem ns pod w = ground arith

find-insert :
    (ns ns' pod' : String) (pods : ByPod) (w : ByNs)
    → find ns' pod' (insert ns pods w) ≡ (if ns == ns' then get pod' pods else find ns' pod' w)
find-insert ns ns' pod' pods w = ground (arith, get-insert ns ns' pods w)

module _ (ns pod : String) (ports : List (ℕ × Rx)) (w : ByNs) where
  set_lem :
      get pod (or_default (get ns w)) ≡ none
      → set ns pod ports w
        ≡ (ok tt, insert ns (insert pod (collect ports) (or_default (get ns w))) w)
  unfolding set insert
  set_lem h = rw (h, set)

  -- A pod that cannot be found is stored with its ports, and nothing else changes.
  pub find-set :
      find ns pod w ≡ none
      → ((set ns pod ports w).0 ≡ ok tt)
        × ((ns' pod' : String)
            → find ns' pod' (set ns pod ports w).1
              ≡ (if ns == ns' && pod == pod' then some (collect ports) else find ns' pod' w))
  find-set h =
      let stored = set_lem (sym (find_lem ns pod w) ∙ h) in
      (
        ap (λ r. r.0) stored,
        λ ns' pod'. rw stored (
            ground (
              arith,
              find-insert ns ns' pod' (insert pod (collect ports) (or_default (get ns w))) w,
              get-insert pod pod' (collect ports) (or_default (get ns w)),
              find_lem ns pod' w,
              string_eq.beq_iff ns ns',
            )),
      )

  -- A pod that is there is refused, and nothing changes.
  pub set_exists :
      {old : ByPort} → find ns pod w ≡ some old → set ns pod ports w ≡ (err (pod_exists pod), w)
  unfolding set
  set_exists h = rw (sym (find_lem ns pod w) ∙ h, set)

get_of_is_empty : (pod : String) (pods : ByPod) → is_empty pods ≡ true → get pod pods ≡ none
unfolding get
get_of_is_empty pod [] h = refl
get_of_is_empty pod (e ∷ pods) h = cc

module _ (ns pod : String) (w : ByNs) where
  -- what is left of a namespace without the pod
  abbrev rest_pods : ByPod
  rest_pods = remove pod (or_default (get ns w))

  unset_lem :
      {ports : ByPort}
      → find ns pod w ≡ some ports
      → unset ns pod w
        ≡ (ok ports, if is_empty rest_pods then remove ns w else insert ns rest_pods w)
  unfolding unset get
  unset_lem h = ground arith

  find-rest :
      (ns' pod' : String)
      → find ns' pod' (if is_empty rest_pods then remove ns w else insert ns rest_pods w)
        ≡ (if ns == ns' then get pod' rest_pods else find ns' pod' w)
  find-rest ns' pod' = elim (Bool-cases (is_empty rest_pods)) [
    | inl e ↦ rw e (
        ground
          (arith, get-remove ns ns' w, get_of_is_empty pod' rest_pods e, string_eq.beq_iff ns ns'))
    | inr e ↦ rw e (find-insert ns ns' pod' rest_pods w)
  ]

  -- A pod that can be found is removed with the ports that it had, and nothing else changes.
  pub find-unset :
      {ports : ByPort}
      → find ns pod w ≡ some ports
      → ((unset ns pod w).0 ≡ ok ports)
        × ((ns' pod' : String)
            → find ns' pod' (unset ns pod w).1
              ≡ (if ns == ns' && pod == pod' then none else find ns' pod' w))
  find-unset h =
      let done = unset_lem h in
      (
        ap (λ r. r.0) done,
        λ ns' pod'. rw done (
            ground (
              arith,
              find-rest ns' pod',
              get-remove pod pod' (or_default (get ns w)),
              find_lem ns pod' w,
              string_eq.beq_iff ns ns',
            )),
      )

  -- A pod that cannot be found is refused, and nothing changes.
  pub unset_missing :
      find ns pod w ≡ none
      → (((unset ns pod w).0 ≡ err (missing_namespace ns))
          ⊎ ((unset ns pod w).0 ≡ err (missing_pod pod)))
        × ((unset ns pod w).1 ≡ w)
  unfolding unset
  unset_missing h = ground arith

-- Of every namespace that is there some pod is there.
abbrev pub NoEmptyNs : ByNs → Type 0
NoEmptyNs w = (ns : String) (pods : ByPod) → get ns w ≡ some pods → is_empty pods ≡ false

is_empty-insert :
    (pod : String) (ports : ByPort) (pods : ByPod) → is_empty (insert pod ports pods) ≡ false
unfolding insert
is_empty-insert pod ports [] = refl
is_empty-insert pod ports ((p, q) ∷ pods) = ground arith

-- The writer keeps no empty namespace, whether it accepts or refuses.
pub set-NoEmptyNs :
    (ns pod : String) (ports : List (ℕ × Rx)) (w : ByNs)
    → NoEmptyNs w
    → NoEmptyNs (set ns pod ports w).1
unfolding set
set-NoEmptyNs ns pod ports w keep ns' pods h =
    let stored = insert pod (collect ports) (or_default (get ns w)) in
    ground (
      arith,
      keep ns' pods,
      get-insert ns ns' stored w,
      is_empty-insert pod (collect ports) (or_default (get ns w)),
    )

pub unset-NoEmptyNs : (ns pod : String) (w : ByNs) → NoEmptyNs w → NoEmptyNs (unset ns pod w).1
unfolding unset
unset-NoEmptyNs ns pod w keep ns' pods h =
    ground (arith, keep ns' pods, get-insert ns ns' (rest_pods ns pod w) w, get-remove ns ns' w)
