-- ===== src/Server/Ingestion/Handler.antt =====
-- The handler `report` of hope-server/src/agents.rs: the tests before the lock, the transaction,
-- and the answer after the next round of the schedule.
use hope.Base.{String, not, Option, none, some, find, F64, str_eq, strip_text, if◌then◌else◌}
use hope.Protocol.Types.{Host, ReportResponse}
use hope.Server.Addresses.{agent_version}
use hope.Server.Database.{AgentRow, Database, find_agent, find_host}
use hope.Server.Errors.{ApiResult, ok, err, unauthorized, agent_revoked, too_many}
use hope.Server.Limiter.{check, hit}
use hope.Server.Rollout.{schedule}
use hope.Server.Ingestion.{Request, Server, Elsewhere, denied_limiter, report_limiter, bearer}
use hope.Server.Ingestion.Transaction.{with_update, ingest}

module _ (elsewhere : Elsewhere) where
  -- The tests before the lock: the server after them, and the credential.
  abbrev pub admit_known : String → F64 → String → Server → Server × ApiResult String
  admit_known agent_id now credential s = elim (check report_limiter agent_id now s.report_limit) [
    | some wait ↦ (s, err (too_many wait))
    | none ↦
        (record s { report_limit = hit report_limiter agent_id now s.report_limit }, ok credential)
  ]

  abbrev pub denied : Request → F64 → Server → Server × ApiResult String
  denied q now s = (
    record s { report_denied = hit denied_limiter q.client now s.report_denied },
    err unauthorized,
  )

  abbrev pub admit_row :
      Request → F64 → String → Option AgentRow → Server → Server × ApiResult String
  admit_row q now credential none s = denied q now s
  admit_row q now credential (some row) s =
      if not (str_eq row.credential_hash (elsewhere.hash credential))
      then denied q now s
      else if row.revoked
      then (s, err agent_revoked)
      else admit_known q.report.agent_id now credential s

  unfoldable pub admit_bearer : Request → F64 → Option String → Server → Server × ApiResult String
  unfolding find_agent
  admit_bearer q now none s = denied q now s
  admit_bearer q now (some credential) s =
      admit_row q now credential (find_agent q.report.agent_id s.db) s

  unfoldable pub admit : Request → F64 → Server → Server × ApiResult String
  unfolding admit_bearer check hit strip_text
  admit q now s = elim (check denied_limiter q.client now s.report_denied) [
    | some wait ↦ (s, err (too_many wait))
    | none ↦ admit_bearer q now (bearer q.authorization) s
  ]

  abbrev refreshed : F64 → Option Host → ReportResponse → ReportResponse
  refreshed at none response = response
  refreshed at (some h) response = with_update elsewhere at h response

  abbrev row_of : Option Host → Database → Option Host
  row_of none db = none
  row_of (some h) db = find (λ k. str_eq k.id h.id) db.hosts

  -- What follows the commit: one round of the schedule, and the update that it may have asked for.
  unfoldable pub conclude :
      F64 → Option Host → Database × ApiResult ReportResponse → Database × ApiResult ReportResponse
  unfolding schedule with_update
  conclude at h (db, err e) = (db, err e)
  conclude at h (db, ok response) =
      let after =
        schedule elsewhere.float_text elsewhere.offered at (elsewhere.before_schedule db) in
      if response.duplicate
      then (db, ok response)
      else (after, ok (refreshed at (row_of h after) response))

  abbrev pub report_locked :
      Request → F64 → F64 → Server × ApiResult String → Server × ApiResult ReportResponse
  report_locked q at later (s, err e) = (s, err e)
  report_locked q at later (s, ok credential) =
      let locked = elsewhere.before_lock s.db in
      let (after, answer) =
        conclude later (find_host q.report.agent_id locked)
          (ingest elsewhere at credential (agent_version q.user_agent) q.report locked) in
      (record s { db = after }, answer)

  -- The handler, with the times before the lock, under it, and after the commit.
  unfoldable pub report : Request → F64 → F64 → F64 → Server → Server × ApiResult ReportResponse
  unfolding admit conclude ingest find_host agent_version
  report q now at later s = report_locked q at later (admit q now s)
