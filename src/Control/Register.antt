-- ===== src/Control/Register.antt =====
-- `register_node` of natforge-backend/src/db/queries.rs, which a node's start and each of its heartbeats
-- runs. The columns that no other part reads are left out.
pub mod Kept
use natforge_thesis.Prelude.{
  ℕ, zero, suc, ◌+◌, ◌-◌, true, Bytes, Option, none, some, Map, get, insert, nat_eq, bytes_eq,
  if◌then◌else◌,
}
use natforge_thesis.Proto.Claims.{is_some}
use natforge_thesis.Control.Ports.{Holder, Ports, Pool, ports_on}
use natforge_thesis.Control.Site.{Node}

-- What a node says of itself.
pub record Registration : Type 0 where
  pub node_id : Bytes
  pub name : Bytes
  pub region : Option Bytes
  pub public_host : Bytes
  pub control_endpoint : Bytes
  pub internal_url : Bytes
  pub port_min : ℕ
  pub port_max : ℕ
  pub control_cert_fp : Option Bytes

abbrev pub first_entry : ℕ → Registration → Node
first_entry now r = record {
  node_id = r.node_id;
  name = r.name;
  region = r.region;
  public_host = r.public_host;
  control_endpoint = r.control_endpoint;
  internal_url = r.internal_url;
  active = true;
  control_cert_fp = r.control_cert_fp;
  last_seen = some now;
  created_at = now;
}

-- `ON CONFLICT (node_id) DO UPDATE`: the name, the region and the switch stay.
abbrev pub seen_again : ℕ → Registration → Node → Node
seen_again now r n = record n {
  public_host = r.public_host;
  control_endpoint = r.control_endpoint;
  internal_url = r.internal_url;
  control_cert_fp = r.control_cert_fp;
  last_seen = some now;
}

abbrev pub upsert : ℕ → Registration → Option Node → Node
upsert now r none = first_entry now r
upsert now r (some n) = seen_again now r n

-- `generate_series`, `count` ports from `port` on, each added unless it is there.
unfoldable pub add_ports : ℕ → ℕ → Ports → Ports
add_ports port zero ports = ports
add_ports port (suc count) ports =
    add_ports (port + 1) count (if is_some (get port ports) then ports else insert port none ports)

unfoldable pub register_node : ℕ → Registration → Map Bytes Node → Pool → Map Bytes Node × Pool
unfolding add_ports
register_node now r nodes pool = (
  insert r.node_id (upsert now r (get r.node_id nodes)) nodes,
  insert r.node_id (add_ports r.port_min (r.port_max + 1 - r.port_min) (ports_on r.node_id pool))
      pool,
)
