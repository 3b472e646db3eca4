-- ===== src/Server/Authorizations.antt =====
-- The authorizations of a server are those that select it.
use mathlib.Core.Option.{some-injective}
use polixy.Prelude.{
  String, ◌≡◌, refl, ◌∙◌, subst, Option, none, some, [], ◌∷◌, inl, inr, arith, ◌==◌, string_eq,
  if◌then◌else◌, Bool-cases,
}
use polixy.Map.{get, insert, remove}
use polixy.Map.Laws.{get-insert, get-remove}
use polixy.Map.Keys.{Distinct}
use polixy.Map.Sorted
use polixy.Map.Sorted.Order.{IsSorted, insert-IsSorted, remove-IsSorted, extend-IsSorted}
use polixy.Core.{Ipnet, ClientAuthorization}
use polixy.K8s
use polixy.Labels.{Labels}
use polixy.Authz.{Authz, AuthzIndex, selects, filter_selected}
use polixy.Server.{
  Server, SrvIndex, Configs, selected, server_add_authz, server_remove_authz, add_or_remove,
  for_each, add_authz, remove_authz, new_server, update_server, apply_entry, apply,
}

module _ {ip : Ipnet} where
  -- what an authorization gives to a server with this name and these labels
  abbrev pub grant : Option (Authz ip) → String → Labels → Option (ClientAuthorization ip)
  grant none srv labels = none
  grant (some a) srv labels = if selects a.servers srv labels then some a.clients else none

  get-filter_selected :
      (j srv : String) (labels : Labels) (index : AuthzIndex ip)
      → Distinct index
      → get j (filter_selected srv labels index) ≡ grant (get j index) srv labels
  unfolding get filter_selected
  get-filter_selected j srv labels [] d = refl
  get-filter_selected j srv labels ((n, a) ∷ index) d =
      ground (arith, get-filter_selected j srv labels index, string_eq.beq_iff n j)

  filter_selected-Distinct :
      (srv : String) (labels : Labels) (index : AuthzIndex ip)
      → Distinct index
      → Distinct (filter_selected srv labels index)
  unfolding filter_selected
  filter_selected-Distinct srv labels [] d = tt
  filter_selected-Distinct srv labels ((n, a) ∷ index) d =
      let rest = filter_selected-Distinct srv labels index d.1 in
      elim (Bool-cases (selects a.servers srv labels)) [
        | inl h ↦ rw h (ground (arith, get-filter_selected n srv labels index), rest)
        | inr h ↦ rw h rest
      ]

  -- What `filter_selected` collects for a server is, by name, what the index grants it.
  pub get-selected :
      (j srv : String) (labels : Labels) (index : AuthzIndex ip)
      → Distinct index
      → get j (selected srv labels index) ≡ grant (get j index) srv labels
  unfolding selected
  get-selected j srv labels index d =
      Sorted.get-collect j (filter_selected srv labels index)
        (filter_selected-Distinct srv labels index d)
      ∙ get-filter_selected j srv labels index d

  -- the server has exactly the authorizations that the index grants it, in the order of their names
  abbrev pub IsGranted : AuthzIndex ip → String → Server ip → Type 0
  IsGranted authzs n srv =
      ((j : String) → get j srv.authorizations ≡ grant (get j authzs) n srv.meta.labels)
      × IsSorted srv.authorizations

  -- so have all servers of the namespace
  abbrev pub AllGranted : AuthzIndex ip → SrvIndex ip → Type 0
  AllGranted authzs servers =
      (n : String) (srv : Server ip) → get n servers ≡ some srv → IsGranted authzs n srv

  selected-IsSorted :
      (srv : String) (labels : Labels) (index : AuthzIndex ip)
      → IsSorted (selected srv labels index)
  unfolding selected
  selected-IsSorted srv labels index = extend-IsSorted [] (filter_selected srv labels index) tt

  new_server-IsGranted :
      (srv : K8s.Server) (authzs : AuthzIndex ip) (c : Configs ip)
      → Distinct authzs
      → IsGranted authzs srv.metadata.name (new_server srv authzs c).0
  unfolding new_server
  new_server-IsGranted srv authzs c d = (
    λ j. get-selected j srv.metadata.name srv.metadata.labels authzs d,
    selected-IsSorted srv.metadata.name srv.metadata.labels authzs,
  )

  update_server-IsGranted :
      (srv : K8s.Server) (authzs : AuthzIndex ip) (entry : Server ip) (c : Configs ip)
      → Distinct authzs
      → IsGranted authzs srv.metadata.name entry
      → IsGranted authzs srv.metadata.name (update_server srv authzs entry c).0
  unfolding update_server
  update_server-IsGranted srv authzs entry c d (g, s) = (
    λ j. ground (arith, g j, get-selected j srv.metadata.name srv.metadata.labels authzs d),
    ground (arith, selected-IsSorted srv.metadata.name srv.metadata.labels authzs),
  )

  add_or_remove-IsGranted :
      (name n : String) (a : Authz ip) (srv : Server ip) (c : Configs ip) (authzs : AuthzIndex ip)
      → IsGranted authzs n srv
      → IsGranted (insert name a authzs) n (add_or_remove name a.servers a.clients n srv c).0
  unfolding add_or_remove server_add_authz server_remove_authz
  add_or_remove-IsGranted name n a srv c authzs (g, s) = (
    λ j. ground (
      arith,
      g j,
      get-insert name j a authzs,
      Sorted.get-insert name j a.clients srv.authorizations,
      get-remove name j srv.authorizations,
      string_eq.beq_iff name j,
    ),
    ground (
      arith,
      insert-IsSorted name a.clients srv.authorizations s,
      remove-IsSorted name srv.authorizations s,
    ),
  )

  server_remove-IsGranted :
      (name n : String) (srv : Server ip) (c : Configs ip) (authzs : AuthzIndex ip)
      → IsGranted authzs n srv
      → IsGranted (remove name authzs) n (server_remove_authz name srv c).0
  unfolding server_remove_authz
  server_remove-IsGranted name n srv c authzs (g, s) = (
    λ j. ground (
      arith,
      g j,
      get-remove name j authzs,
      get-remove name j srv.authorizations,
      string_eq.beq_iff name j,
    ),
    ground (arith, remove-IsSorted name srv.authorizations s),
  )

  -- a server after the loop is what one round made of the server before
  for_each-get :
      (step : String → Server ip → Configs ip → Server ip × Configs ip) (n : String)
      (index : SrvIndex ip) (c : Configs ip) (srv' : Server ip)
      → get n (for_each step index c).0 ≡ some srv'
      → (srv : Server ip) × (c0 : Configs ip) × (get n index ≡ some srv)
        × ((step n srv c0).0 ≡ srv')
  unfolding get for_each
  for_each-get step n [] c srv' h = cc
  for_each-get step n ((m, srv) ∷ index) c srv' h = elim (Bool-cases (m == n)) [
    | inl here ↦
        (srv, c, rw here, some-injective _ _ (rw (← (string_eq.beq_iff m n).0 here) (rw here at h)))
    | inr other ↦
        let (old, c0, found, made) =
          for_each-get step n index (step m srv c).1 srv' (rw other at h) in
        (old, c0, rw other found, made)
  ]

  for_each-AllGranted :
      (step : String → Server ip → Configs ip → Server ip × Configs ip)
      (authzs authzs' : AuthzIndex ip)
      → ((n : String) (srv : Server ip) (c : Configs ip)
          → IsGranted authzs n srv
          → IsGranted authzs' n (step n srv c).0)
      → (index : SrvIndex ip) (c : Configs ip) → AllGranted authzs index
      → AllGranted authzs' (for_each step index c).0
  for_each-AllGranted step authzs authzs' keep index c all n srv' h =
      let (srv, c0, found, made) = for_each-get step n index c srv' h in
      subst (IsGranted authzs' n) made (keep n srv c0 (all n srv found))

  -- Adding an authorization to the servers and to the index keeps the two in step.
  pub add_authz-AllGranted :
      (name : String) (a : Authz ip) (authzs : AuthzIndex ip) (servers : SrvIndex ip)
      (c : Configs ip)
      → AllGranted authzs servers
      → AllGranted (insert name a authzs) (add_authz name a.servers a.clients servers c).0
  unfolding add_authz
  add_authz-AllGranted name a authzs servers c =
      for_each-AllGranted _ authzs (insert name a authzs)
        (λ n srv c0. add_or_remove-IsGranted name n a srv c0 authzs) servers c

  -- So does removing one.
  pub remove_authz-AllGranted :
      (name : String) (authzs : AuthzIndex ip) (servers : SrvIndex ip) (c : Configs ip)
      → AllGranted authzs servers
      → AllGranted (remove name authzs) (remove_authz name servers c).0
  unfolding remove_authz
  remove_authz-AllGranted name authzs servers c =
      for_each-AllGranted _ authzs (remove name authzs)
        (λ n srv c0. server_remove-IsGranted name n srv c0 authzs) servers c

  apply_entry-IsGranted :
      (srv : K8s.Server) (authzs : AuthzIndex ip) (o : Option (Server ip)) (c : Configs ip)
      → Distinct authzs
      → ((entry : Server ip) → o ≡ some entry → IsGranted authzs srv.metadata.name entry)
      → IsGranted authzs srv.metadata.name (apply_entry srv authzs o c).0
  unfolding apply_entry
  apply_entry-IsGranted srv authzs none c d g = new_server-IsGranted srv authzs c d
  apply_entry-IsGranted srv authzs (some entry) c d g =
      update_server-IsGranted srv authzs entry c d (g entry refl)

  -- And so does a new or changed server.
  pub apply-AllGranted :
      (srv : K8s.Server) (authzs : AuthzIndex ip) (servers : SrvIndex ip) (c : Configs ip)
      → Distinct authzs
      → AllGranted authzs servers
      → AllGranted authzs (apply srv authzs servers c).0
  unfolding apply
  apply-AllGranted srv authzs servers c d all n entry h =
      let name = srv.metadata.name in
      let made = apply_entry srv authzs (get name servers) c in
      let granted = apply_entry-IsGranted srv authzs (get name servers) c d (all name) in
      elim (Bool-cases (name == n)) [
        | inl here ↦
            let e : some made.0 ≡ some entry = ground (arith, get-insert name n made.0 servers) in
            subst (λ m. IsGranted authzs m entry) ((string_eq.beq_iff name n).0 here)
              (subst (IsGranted authzs name) (some-injective made.0 entry e) granted)
        | inr other ↦ all n entry (ground (arith, get-insert name n made.0 servers))
      ]

  -- A removed server leaves the others as they were.
  pub remove-AllGranted :
      (name : String) (authzs : AuthzIndex ip) (servers : SrvIndex ip)
      → AllGranted authzs servers
      → AllGranted authzs (remove name servers)
  remove-AllGranted name authzs servers all n entry h =
      all n entry (ground (arith, get-remove name n servers))
