-- ===== src/DefaultAllow.antt =====
-- controller/k8s/index/src/default_allow.rs: the policies for ports that no server selects.
pub mod Modes
use polixy.Prelude.{
  ℕ, String, Option, none, some, List, [], ◌∷◌, map, ◌==◌, string_eq, if◌then◌else◌,
}
use polixy.Result.{Result, ok, err, invalid_mode, ◌>>=◌}
use polixy.Map.{get}
use polixy.Map.Sorted
use polixy.Core.{
  Ipnet, ClientAuthentication, ClientAuthorization, InboundServer, unauthenticated,
  tls_authenticated, suffix, detect, net_match,
}
use polixy.K8s.{ObjectMeta}
use polixy.Watch.{Channels, channel}

pub data DefaultAllow : Type 0 where
  all_authenticated all_unauthenticated cluster_authenticated cluster_unauthenticated deny :
      DefaultAllow

-- `FromStr`
unfoldable pub from_str : String → Result DefaultAllow
from_str s =
    if s == "all-authenticated"
    then ok all_authenticated
    else if s == "all-unauthenticated"
    then ok all_unauthenticated
    else if s == "cluster-authenticated"
    then ok cluster_authenticated
    else if s == "cluster-unauthenticated"
    then ok cluster_unauthenticated
    else if s == "deny"
    then ok deny
    else err (invalid_mode s)

-- `Display`
unfoldable pub display : DefaultAllow → String
display all_authenticated = "all-authenticated"
display all_unauthenticated = "all-unauthenticated"
display cluster_authenticated = "cluster-authenticated"
display cluster_unauthenticated = "cluster-unauthenticated"
display deny = "deny"

abbrev pub annotation : String
annotation = "polixy.linkerd.io/default-allow"

unfoldable pub from_annotation : ObjectMeta → Result (Option DefaultAllow)
from_annotation meta = elim (get annotation meta.annotations) [
  | none ↦ ok none
  | some v ↦ do mode ← from_str v; ok (some mode)
]

-- the receivers, by the numbers of their channels
pub record DefaultAllows : Type 0 where
  pub all_authed_rx : ℕ
  pub all_unauthed_rx : ℕ
  pub cluster_authed_rx : ℕ
  pub cluster_unauthed_rx : ℕ
  pub deny_rx : ℕ

module _ {ip : Ipnet} where
  unfoldable pub mk_detect_config :
      String → ℕ → List ip.IpNet → ClientAuthentication → InboundServer ip
  mk_detect_config name timeout nets authentication =
      let authz : ClientAuthorization ip = record {
        networks = map (net_match ip) nets;
        authentication = authentication;
      } in
      record { protocol = detect timeout; authorizations = Sorted.collect ((name, authz) ∷ []) }

abbrev pub any_authenticated : ClientAuthentication
any_authenticated = tls_authenticated (suffix [] ∷ [])

module _ {ip : Ipnet} where
  -- the senders live as long as the receivers, and send nothing
  unfoldable pub spawn :
      List ip.IpNet → ℕ → Channels (InboundServer ip) → DefaultAllows × Channels (InboundServer ip)
  unfolding mk_detect_config
  spawn cluster_nets timeout c0 =
      let all_nets : List ip.IpNet = ip.any_v4 ∷ ip.any_v6 ∷ [] in
      let (a, c1) =
        channel (mk_detect_config "_all_authed" timeout all_nets any_authenticated) c0 in
      let (b, c2) =
        channel (mk_detect_config "_all_unauthed" timeout all_nets unauthenticated) c1 in
      let (c, c3) =
        channel (mk_detect_config "_cluster_authed" timeout cluster_nets any_authenticated) c2 in
      let (d, c4) =
        channel (mk_detect_config "_cluster_unauthed" timeout cluster_nets unauthenticated) c3 in
      let (e, c5) = channel (record { protocol = detect timeout; authorizations = [] }) c4 in
      (
        record {
          all_authed_rx = a;
          all_unauthed_rx = b;
          cluster_authed_rx = c;
          cluster_unauthed_rx = d;
          deny_rx = e;
        },
        c5,
      )

-- `DefaultAllows::get`
unfoldable pub get_rx : DefaultAllows → DefaultAllow → ℕ
get_rx allows all_authenticated = allows.all_authed_rx
get_rx allows all_unauthenticated = allows.all_unauthed_rx
get_rx allows cluster_authenticated = allows.cluster_authed_rx
get_rx allows cluster_unauthenticated = allows.cluster_unauthed_rx
get_rx allows deny = allows.deny_rx
