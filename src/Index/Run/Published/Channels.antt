-- ===== src/Index/Run/Published/Channels.antt =====
-- The channels of all the servers, and of the default modes.
use polixy.Prelude.{
  ℕ, String, ◌≡◌, ◌<◌, refl, sym, ap, subst, ◌∙◌, true, false, Option, none, some, [], inl, inr,
  arith, ◌==◌, nat_eq, string_eq, Bool-cases, if◌then◌else◌,
}
use polixy.Map.{Map, get, insert}
use polixy.Map.Laws.{get-insert}
use polixy.Core.{Ipnet, InboundServer}
use polixy.DefaultAllow.{DefaultAllow, DefaultAllows, get_rx}
use polixy.Watch.{borrow}
use polixy.Server.{SrvIndex, Configs}
use polixy.Server.Publishing.{has_rx, Published, Effect, has_rx-lt, frame-Published}
use polixy.Index.{Namespace, NamespaceIndex, or_new, namespace_or_new}

module _ {ip : Ipnet} where
  -- the servers of a namespace, none where it is not there
  abbrev pub servers_in : Option (Namespace ip) → SrvIndex ip
  servers_in none = []
  servers_in (some ns) = ns.servers

  abbrev pub servers_of : String → Map String (Namespace ip) → SrvIndex ip
  servers_of n index = servers_in (get n index)

  pub servers_of-insert :
      (name n : String) (ns : Namespace ip) (index : Map String (Namespace ip))
      → servers_of n (insert name ns index) ≡ (if name == n then ns.servers else servers_of n index)
  servers_of-insert name n ns index = elim (Bool-cases (name == n)) [
    | inl e ↦ rw (get-insert name n ns index, e) refl
    | inr e ↦ rw (get-insert name n ns index, e) refl
  ]

  or_new-servers :
      (mode : DefaultAllow) (o : Option (Namespace ip)) → (or_new mode o).servers ≡ servers_in o
  unfolding or_new
  or_new-servers mode none = refl
  or_new-servers mode (some ns) = refl

  pub namespace-servers :
      (name : String) (nss : NamespaceIndex ip)
      → (namespace_or_new name nss).servers ≡ servers_of name nss.index
  unfolding namespace_or_new
  namespace-servers name nss = or_new-servers nss.default_allow (get name nss.index)

  module _ (config : DefaultAllow → InboundServer ip) where
    -- Each server, and each default mode, has a channel of its own, which holds its configuration.
    pub record AllPublished (allows : DefaultAllows) (index : Map String (Namespace ip))
        (c : Configs ip) : Type 0 where
      pub held : (n : String) → Published (servers_of n index) c
      pub own :
          (n n' : String) (i : ℕ)
          → has_rx i (servers_of n index) ≡ true
          → has_rx i (servers_of n' index) ≡ true
          → n ≡ n'
      pub modes : (m : DefaultAllow) → borrow (get_rx allows m) c ≡ config m
      pub below : (m : DefaultAllow) → get_rx allows m < c.next
      pub apart :
          (m : DefaultAllow) (n : String) → has_rx (get_rx allows m) (servers_of n index) ≡ false

    -- one namespace is replaced, after an operation on its servers
    Effect-AllPublished :
        (allows : DefaultAllows) (index : Map String (Namespace ip)) (c c' : Configs ip)
        (name : String) (ns : Namespace ip)
        → AllPublished allows index c
        → Effect (servers_of name index) c ns.servers c'
        → AllPublished allows (insert name ns index) c'
    Effect-AllPublished allows index c c' name ns all e = record {
      held = λ n. rw (servers_of-insert name n ns index) (elim (Bool-cases (name == n)) [
        | inl here ↦ rw here e.published
        | inr other ↦ rw other (
            frame-Published (servers_of n index) c c'
              (λ i h.
                e.frame i (has_rx-lt i (servers_of n index) c (all.held n) h)
                  (ground (arith, all.own name n i, string_eq.beq_iff name n)))
              e.grows (all.held n))
      ]);
      own = λ n n' i h k.
          let a = rw (servers_of-insert name n ns index) at h in
          let b = rw (servers_of-insert name n' ns index) at k in
          let lt = λ (j : String). has_rx-lt i (servers_of j index) c (all.held j) in
          ground (
            arith,
            lt n,
            lt n',
            e.rxs i,
            all.own name n i,
            all.own name n' i,
            all.own n name i,
            all.own n n' i,
            string_eq.beq_iff name n,
            string_eq.beq_iff name n',
            a,
            b,
          );
      modes = λ m. e.frame (get_rx allows m) (all.below m) (all.apart m name) ∙ all.modes m;
      below = λ m. omega (arith, all.below m, e.grows);
      apart = λ m n. ground (
        arith,
        ap (λ index'. has_rx (get_rx allows m) index') (servers_of-insert name n ns index),
        e.rxs (get_rx allows m) (all.below m) (all.apart m name),
        all.apart m n,
      );
    }

    -- the same, where the operation begins with the servers of `ns`
    pub put-AllPublished :
        (allows : DefaultAllows) (index : Map String (Namespace ip)) (c c' : Configs ip)
        (name : String) (ns ns' : Namespace ip)
        → ns.servers ≡ servers_of name index
        → (Published ns.servers c → Effect ns.servers c ns'.servers c')
        → AllPublished allows index c
        → AllPublished allows (insert name ns' index) c'
    put-AllPublished allows index c c' name ns ns' from effect all =
        Effect-AllPublished allows index c c' name ns' all (
          subst (λ servers. Effect servers c ns'.servers c') from
            (effect (subst (λ servers. Published servers c) (sym from) (all.held name))))

    pub same-AllPublished :
        (allows : DefaultAllows) (index : Map String (Namespace ip)) (c : Configs ip)
        (name : String) (ns : Namespace ip)
        → ns.servers ≡ servers_of name index
        → AllPublished allows index c
        → AllPublished allows (insert name ns index) c
    same-AllPublished allows index c name ns from all =
        put-AllPublished allows index c c name ns ns from
          (λ p. record {
            published = p;
            grows = omega arith;
            rxs = λ i l h. h;
            frame = λ i l h. refl;
          })
          all
