-- ===== src/DefaultAllow/Modes.antt =====
-- The modes as text, and the configuration of each mode.
use polixy.Prelude.{ℕ, String, ◌≡◌, ◌↔◌, refl, List, [], ◌∷◌, map, arith, string_eq}
use polixy.Result.{ok}
use polixy.Core.{
  Ipnet, ClientAuthentication, ClientAuthorization, InboundServer, unauthenticated,
  tls_authenticated, suffix, detect, net_match,
}
use polixy.Map.{Map}
use polixy.Map.Sorted
use polixy.Watch.{Channels, channel, borrow}
use polixy.DefaultAllow.{
  DefaultAllow, all_authenticated, all_unauthenticated, cluster_authenticated,
  cluster_unauthenticated, deny, from_str, display, spawn, get_rx,
}

from_str-display : (m : DefaultAllow) → from_str (display m) ≡ ok m
unfolding from_str display
from_str-display all_authenticated = refl
from_str-display all_unauthenticated = refl
from_str-display cluster_authenticated = refl
from_str-display cluster_unauthenticated = refl
from_str-display deny = refl

display_of_from_str : (s : String) (m : DefaultAllow) → from_str s ≡ ok m → s ≡ display m
unfolding from_str display
display_of_from_str s m h = ground (
  arith,
  string_eq.beq_iff s "all-authenticated",
  string_eq.beq_iff s "all-unauthenticated",
  string_eq.beq_iff s "cluster-authenticated",
  string_eq.beq_iff s "cluster-unauthenticated",
  string_eq.beq_iff s "deny",
)

-- A text is accepted as a mode exactly when it is the way that mode is displayed; so parsing what
-- was displayed gives the mode back, and no other text is accepted.
pub from_str_iff : (s : String) (m : DefaultAllow) → (from_str s ≡ ok m) ↔ (s ≡ display m)
from_str_iff s m = (display_of_from_str s m, λ e. rw e (from_str-display m))

module _ {ip : Ipnet} where
  abbrev only : String → List ip.IpNet → ClientAuthentication → Map String (ClientAuthorization ip)
  only name nets authn =
      (name, record { networks = map (net_match ip) nets; authentication = authn }) ∷ []

  -- The authorizations that a mode stands for: every address or the cluster's networks, with a mesh
  -- identity or without; none when denied.
  abbrev pub allowed : List ip.IpNet → DefaultAllow → Map String (ClientAuthorization ip)
  allowed nets all_authenticated =
      only "_all_authed" (ip.any_v4 ∷ ip.any_v6 ∷ []) (tls_authenticated (suffix [] ∷ []))
  allowed nets all_unauthenticated =
      only "_all_unauthed" (ip.any_v4 ∷ ip.any_v6 ∷ []) unauthenticated
  allowed nets cluster_authenticated =
      only "_cluster_authed" nets (tls_authenticated (suffix [] ∷ []))
  allowed nets cluster_unauthenticated = only "_cluster_unauthed" nets unauthenticated
  allowed nets deny = []

  -- After the channels are opened, the receiver of each mode reads a configuration that detects the
  -- protocol with the given timeout and has exactly the authorizations of the mode.
  pub spawn_lem :
      (nets : List ip.IpNet) (timeout : ℕ) (c : Channels (InboundServer ip)) (m : DefaultAllow)
      → borrow (get_rx (spawn nets timeout c).0 m) (spawn nets timeout c).1
        ≡ record { protocol = detect timeout; authorizations = allowed nets m }
  unfolding spawn get_rx borrow channel Sorted.extend Sorted.insert
  spawn_lem nets timeout c all_authenticated = ground arith
  spawn_lem nets timeout c all_unauthenticated = ground arith
  spawn_lem nets timeout c cluster_authenticated = ground arith
  spawn_lem nets timeout c cluster_unauthenticated = ground arith
  spawn_lem nets timeout c deny = ground arith
