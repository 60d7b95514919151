-- ===== src/Server/Enrollment.antt =====
-- hope-server/src/agents.rs: the enrollment of an agent with a token. A new identity is an
-- argument, and all readings of the clock are one time. A statement that breaks a constraint of the schema ends in an internal error.
pub mod Capacity
pub mod Used
pub mod Spent
pub mod Once
pub mod Handler
use hope.Base.{
  ℕ, ◌*◌, String, Bool, true, false, not, ◌&&◌, ◌||◌, Option, none, some, List, [], ◌∷◌, ◌++◌, all,
  any, filter, map, F64, float, f64_lt, f64_sub, str_eq, leb, ◌==◌, length, codes, byte_len,
  is_hex_digit, if◌then◌else◌,
}
use hope.Protocol.Types.{
  EnrollmentRequest, EnrollmentResponse, Host, new_host, schema_version_number,
}
use hope.Protocol.Validation.Values.{Verdict, valid, invalid}
use hope.Protocol.Validation.Inventory.{inventory}
use hope.Server.Addresses.{inventory_addresses, inventory_macs}
use hope.Server.Database.{
  AgentRow, Database, is_text, assign, find_agent, find_host, put_agent_host, clear_retired_host,
}
use hope.Server.Errors.{
  ApiError, ApiResult, ok, err, bad, unauthorized, internal, too_many, not_found,
}
use hope.Server.Ingestion.{Elsewhere}
use hope.Server.Limiter.{Keys, Limiter, check, hit}
use hope.Server.Updates.{clear_request}
use hope.Server.Tokens.{Token, Registry, is_none, consume, fits_reset, fits_retry, fits_new}

-- `ensure_agent_capacity`: the agents that are not revoked.
unfoldable pub active : List AgentRow → ℕ
active rows = length (filter (λ a. not a.revoked) rows)

unfoldable pub has_capacity : Database → Bool
unfolding active
has_capacity db = not (leb 250 (active db.agents))

-- UPDATE agents SET revoked=0,credential_hash=? WHERE id=?
abbrev pub restored : String → String → AgentRow → AgentRow
restored id credential_hash row =
    if str_eq row.id id
    then record row { revoked = false; credential_hash = credential_hash }
    else row

unfoldable pub restore_agent : String → String → List AgentRow → List AgentRow
restore_agent id credential_hash rows = map (restored id credential_hash) rows

-- The hash of a credential is unique.
unfoldable pub is_taken : String → String → List AgentRow → Bool
is_taken id credential_hash rows =
    any (λ a. str_eq a.credential_hash credential_hash && not (str_eq a.id id)) rows

-- The agent of a host is unique, too.
unfoldable pub is_bound : String → String → List Host → Bool
is_bound agent_id host_id hosts =
    any (λ h. is_text h.agent_id agent_id && not (str_eq h.id host_id)) hosts

-- INSERT INTO hosts … ON CONFLICT(id) DO UPDATE
unfoldable pub upsert_host : Host → List Host → List Host
upsert_host h [] = h ∷ []
upsert_host h (k ∷ ks) =
    let rest = upsert_host h ks in if str_eq k.id h.id then h ∷ ks else k ∷ rest

unfoldable pub request_ok : (String → Bool) → EnrollmentRequest → Bool
request_ok is_uuid q =
    (q.schema_version == schema_version_number)
    && is_uuid q.agent_id
    && (byte_len (codes q.credential) == 64)
    && all is_hex_digit (codes q.credential)

abbrev response : EnrollmentRequest → EnrollmentResponse
response q = record { credential = q.credential; report_interval_seconds = 30 }

abbrev conflict : ApiError
conflict = record {
  status = 409;
  message =
      "Agent identity is already enrolled or revoked; preserve its credential or explicitly reset its identity";
}

-- A discovered host without an agent, known by one of the addresses.
abbrev is_candidate : List String → Host → Bool
is_candidate macs h = is_none h.agent_id && any (λ m. any (str_eq m) macs) h.macs

abbrev chosen_host : String → List Host → Host
chosen_host id (h ∷ []) = h
chosen_host id _ = new_host id "" "agent"

module _ (elsewhere : Elsewhere) (now : F64) (q : EnrollmentRequest) where
  unfoldable pub enrolled_host : String → Option String → Database → Host
  enrolled_host new_id version db =
      let macs = inventory_macs q.inventory in
      let chosen = chosen_host new_id (filter (is_candidate macs) db.hosts) in
      let addresses = inventory_addresses q.inventory in
      elsewhere.refresh (record chosen {
        agent_id = some q.agent_id;
        name = q.inventory.hostname;
        addresses = addresses;
        macs = macs;
        inventory = some q.inventory;
        agent_version = version;
        network_ids = elsewhere.matching_networks addresses;
      })

  -- A revoked identity takes a new credential, with a token that names it.
  abbrev pub reset_with :
      Option (String → Option Token)
      → AgentRow
      → Option Host
      → Registry
      → Registry × ApiResult EnrollmentResponse
  reset_with none row h s = (s, err unauthorized)
  reset_with (some tokens) row none s =
      if str_eq row.credential_hash (elsewhere.hash q.credential)
      then (s, err unauthorized)
      else (s, err internal)
  reset_with (some tokens) row (some h) s =
      let freed = record h { agent_revoked = false; agent_uninstalled = false } in
      let restored_db = record s.db {
        agents = restore_agent q.agent_id (elsewhere.hash q.credential) s.db.agents;
        hosts = put_agent_host q.agent_id freed s.db.hosts;
      } in
      if str_eq row.credential_hash (elsewhere.hash q.credential)
      then (s, err unauthorized)
      else if is_taken q.agent_id (elsewhere.hash q.credential) s.db.agents
      then (s, err internal)
      else (record { db = clear_retired_host h.id restored_db; tokens = tokens }, ok (response q))

  unfoldable pub reset_agent : AgentRow → Registry → Registry × ApiResult EnrollmentResponse
  unfolding has_capacity fits_reset restore_agent is_taken put_agent_host clear_retired_host
      find_host
  reset_agent row s =
      if not (has_capacity s.db)
      then (s, err (bad "This installation supports at most 250 active agent identities"))
      else reset_with
          (consume (fits_reset q.agent_id) (elsewhere.hash q.token) q.agent_id now s.tokens) row
          (find_host q.agent_id s.db) s

  abbrev pub retried :
      Option (String → Option Token) → Registry → Registry × ApiResult EnrollmentResponse
  retried none s = (s, err unauthorized)
  retried (some tokens) s = (record s { tokens = tokens }, ok (response q))

  -- The answer to an enrollment was lost.
  unfoldable pub retry_agent : AgentRow → Registry → Registry × ApiResult EnrollmentResponse
  unfolding fits_retry
  retry_agent row s =
      if not (str_eq row.credential_hash (elsewhere.hash q.credential))
      then (s, err conflict)
      else retried
          (consume (fits_retry q.agent_id) (elsewhere.hash q.token) q.agent_id now s.tokens) s

  abbrev pub new_row : AgentRow
  new_row = record {
    id = q.agent_id;
    credential_hash = elsewhere.hash q.credential;
    revoked = false;
  }

  abbrev reconciled_db : Database → Database
  reconciled_db db =
      let after = elsewhere.reconcile db in
      record db { source_devices = after.0; retired = after.1 }

  abbrev pub added :
      Option (String → Option Token) → Host → Registry → Registry × ApiResult EnrollmentResponse
  added none h s = (s, err unauthorized)
  added (some tokens) h s =
      let with_agent = record s.db {
        agents = s.db.agents ++ (new_row ∷ []);
        hosts = upsert_host h s.db.hosts;
      } in
      if is_taken q.agent_id (elsewhere.hash q.credential) s.db.agents
        || is_bound q.agent_id h.id s.db.hosts
      then (s, err internal)
      else (
        record { db = reconciled_db (clear_retired_host h.id with_agent); tokens = tokens },
        ok (response q),
      )

  unfoldable pub add_agent :
      String → Option String → Registry → Registry × ApiResult EnrollmentResponse
  unfolding has_capacity fits_new upsert_host is_taken is_bound clear_retired_host enrolled_host
  add_agent new_id version s =
      if not (has_capacity s.db)
      then (s, err (bad "This installation supports at most 250 active agent identities"))
      else added (consume fits_new (elsewhere.hash q.token) q.agent_id now s.tokens)
          (enrolled_host new_id version s.db) s

  unfoldable pub enroll_known :
      String → Option String → Option AgentRow → Registry → Registry × ApiResult EnrollmentResponse
  unfolding reset_agent retry_agent add_agent
  enroll_known new_id version none s = add_agent new_id version s
  enroll_known new_id version (some row) s =
      if row.revoked then reset_agent row s else retry_agent row s

  unfoldable pub enroll_checked :
      String → Option String → Verdict → Registry → Registry × ApiResult EnrollmentResponse
  unfolding enroll_known find_agent
  enroll_checked new_id version (invalid reason) s = (s, err (bad reason))
  enroll_checked new_id version valid s = enroll_known new_id version (find_agent q.agent_id s.db) s

  -- `enroll_inner`.
  unfoldable pub enroll_inner :
      String → Option String → Registry → Registry × ApiResult EnrollmentResponse
  unfolding request_ok inventory enroll_checked
  enroll_inner new_id version s =
      if not (request_ok elsewhere.is_uuid q)
      then (s, err (bad "Unsupported schema or invalid agent identity"))
      else enroll_checked new_id version (inventory q.inventory) s
