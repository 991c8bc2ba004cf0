-- ===== src/Proto/Route.antt =====
-- `RouteMode` of natforge-proto/src/lib.rs.
use natforge_thesis.Prelude.{Bool, true, false, Bytes, codes}

pub data RouteMode : Type 0 where
  http https tcp udp both : RouteMode

unfoldable pub as_str : RouteMode → Bytes
as_str http = codes "http"
as_str https = codes "https"
as_str tcp = codes "tcp"
as_str udp = codes "udp"
as_str both = codes "both"

unfoldable pub is_host_routed : RouteMode → Bool
is_host_routed http = true
is_host_routed https = true
is_host_routed _ = false
