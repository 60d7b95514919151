-- ===== src/Server/Database.antt =====
-- The tables that the handlers of hope-server/src/agents.rs work on (schema.sql and the migrations),
-- with the statements that read and write them. A row of a host is its decoded body; a body that does
-- not decode, and any other failure of the database, is not modelled. A statement on the hosts of an
-- agent goes by the agent of the body, which is the agent of the row.
use hope.Base.{
  ℕ, String, Bool, false, not, ◌&&◌, ◌||◌, Option, none, some, List, [], ◌∷◌, filter, any, find,
  sort_by, F64, str_eq, str_lt, to_ascii_lowercase, if◌then◌else◌,
}
use hope.Protocol.Types.{Host, Metrics}

-- A row of `agents`.
pub record AgentRow : Type 0 where
  pub id : String
  pub credential_hash : String
  pub revoked : Bool

-- A row of `metrics`.
pub record MetricRow : Type 0 where
  pub agent_id : String
  pub report_id : String
  pub collected_at : F64
  pub resolution : ℕ
  pub body : Metrics

-- A row of `agent_report_heads`: the newest report of an agent by its number.
pub record Head : Type 0 where
  pub sequence : ℕ
  pub report_id : String

-- A row of `source_devices`, as far as its retirement needs it.
pub record SourceRow : Type 0 where
  pub id : String
  pub host_id : Option String

pub record Database : Type 0 where
  pub meta : String → Option String
  pub agents : List AgentRow
  pub hosts : List Host
  pub heads : String → Option Head
  pub metrics : List MetricRow
  pub retired : List String
  pub source_devices : List SourceRow

-- `as_deref() == Some(text)`.
abbrev pub is_text : Option String → String → Bool
is_text none text = false
is_text (some t) text = str_eq t text

-- A map with one key assigned.
abbrev pub assign {ℓ} : {A : Type ℓ} → String → A → (String → Option A) → String → Option A
assign key a m k = if str_eq k key then some a else m k

unfoldable pub set_meta : String → String → Database → Database
set_meta key value db = record db { meta = assign key value db.meta }

unfoldable pub find_agent : String → Database → Option AgentRow
find_agent id db = find (λ a. str_eq a.id id) db.agents

unfoldable pub find_host : String → Database → Option Host
find_host agent_id db = find (λ h. is_text h.agent_id agent_id) db.hosts

-- UPDATE hosts SET body=? WHERE id=?
unfoldable pub put_host : Host → List Host → List Host
put_host h [] = []
put_host h (k ∷ ks) = (if str_eq k.id h.id then h else k) ∷ put_host h ks

-- UPDATE hosts SET name=?,body=? WHERE agent_id=?
unfoldable pub put_agent_host : String → Host → List Host → List Host
put_agent_host agent_id h [] = []
put_agent_host agent_id h (k ∷ ks) =
    (if is_text k.agent_id agent_id then h else k) ∷ put_agent_host agent_id h ks

-- SELECT body FROM hosts ORDER BY name COLLATE NOCASE; equal names in the order of the list.
unfoldable pub hosts_by_name : Database → List Host
hosts_by_name db =
    sort_by (λ a b. str_lt (to_ascii_lowercase a.name) (to_ascii_lowercase b.name)) db.hosts

-- A source device of a host.
abbrev linked : String → String → SourceRow → Bool
linked host_id device_id row = str_eq row.id device_id && is_text row.host_id host_id

-- `clear_retired_host` of state.rs.
unfoldable pub clear_retired_host : String → Database → Database
clear_retired_host id db = record db {
  retired = filter (λ d. not (str_eq d id || any (linked id d) db.source_devices)) db.retired;
}
