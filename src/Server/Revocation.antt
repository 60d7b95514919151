-- ===== src/Server/Revocation.antt =====
-- hope-server/src/agents.rs: the revocation of an agent, and the end of an installation.
pub mod Shut
use hope.Base.{
  IpAddr, String, Bool, true, false, not, Option, none, some, List, [], ◌∷◌, any, map, float,
  str_eq, if◌then◌else◌,
}
use hope.Protocol.Types.{Host, Network}
use hope.Server.Addresses.{primary_ip}
use hope.Server.Database.{AgentRow, Database, is_text, find_host, put_agent_host}
use hope.Server.Errors.{ApiResult, ok, err, not_found}
use hope.Server.Updates.{clear_request}

-- UPDATE agents SET revoked=1 WHERE id=?
abbrev pub revoked_row : String → AgentRow → AgentRow
revoked_row id row = if str_eq row.id id then record row { revoked = true } else row

unfoldable pub revoke_row : String → List AgentRow → List AgentRow
revoke_row id rows = map (revoked_row id) rows

abbrev revoked_host : String → Host → Host
revoked_host id h = if is_text h.agent_id id then record h { agent_revoked = true } else h

unfoldable pub revoke_by_id : String → Database → Database
unfolding revoke_row
revoke_by_id id db = record db {
  agents = revoke_row id db.agents;
  hosts = map (revoked_host id) db.hosts;
}

abbrev name_or_id : Host → Option String → String
name_or_id h none = h.id
name_or_id h (some address) = address

module _ (contains : String → IpAddr → Bool) (refresh : Host → Host) (networks : List Network) where
  -- The host goes back to the devices that a scan finds.
  unfoldable pub uninstalled_host : Host → Host
  unfolding primary_ip clear_request
  uninstalled_host h =
      let address = primary_ip contains h.addresses networks in
      refresh (record (clear_request h) {
        agent_revoked = true;
        agent_uninstalled = true;
        last_seen = float 0;
        discovery_method = "tcp";
        primary_ip = address;
        name = name_or_id h address;
      })

  abbrev pub uninstalled : String → Option Host → Database → Database × ApiResult {0} Unit
  uninstalled id none db = (db, err not_found)
  uninstalled id (some h) db = (
    record db {
      agents = revoke_row id db.agents;
      hosts = put_agent_host id (uninstalled_host h) db.hosts;
    },
    ok tt,
  )

  unfoldable pub complete_uninstall_by_id : String → Database → Database × ApiResult {0} Unit
  unfolding revoke_row uninstalled_host find_host put_agent_host
  complete_uninstall_by_id id db =
      if not (any (λ a. str_eq a.id id) db.agents)
      then (db, err not_found)
      else uninstalled id (find_host id db) db
