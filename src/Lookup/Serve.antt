-- ===== src/Lookup/Serve.antt =====
-- The configuration that a lookup serves.
use polixy.Prelude.{map, string_eq}
use polixy.Core.{Ipnet, ClientAuthorization, unauthenticated, addr_match}
use polixy.Node.{KubeletIps}

module _ {ip : Ipnet} where
  -- the authorization that is put beside those of the server
  abbrev pub health_check : KubeletIps → ClientAuthorization ip
  health_check kubelet = record {
    networks = map (addr_match ip) kubelet;
    authentication = unauthenticated;
  }
