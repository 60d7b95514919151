-- ===== src/Server/Ingestion.antt =====
-- `report` of hope-server/src/agents.rs: an agent's report, from its credential to the row of its
-- host. One handler works under the write lock; what other handlers do before it has the lock, and
-- before the schedule of updates has it, is a function. The clock is read once for each part, and
-- the aliases of an identity are not resolved. The hash and the test for a UUID are parameters, as
-- are the networks of a host, the guess of its kind, and the reconciliation, which writes source
-- devices and their retirement.
pub mod Transaction
pub mod Handler
pub mod Accepted
pub mod Untouched
pub mod Latest
pub mod Written
pub mod Newest
pub mod Again
pub mod Admission
pub mod Revoked
pub mod Told
use hope.Base.{
  ℕ, ◌+◌, ◌*◌, ◌/◌, String, Bool, true, false, not, ◌&&◌, ◌||◌, Option, none, some, List, [], ◌∷◌,
  any, find, F64, finite, pos, unit, float, is_finite, f64_lt, f64_le, f64_add, f64_sub, str_eq,
  ltb, leb, ◌==◌, or_default, strip_text, if◌then◌else◌,
}
use hope.Protocol.Types.{
  AgentReport, Host, Inventory, ReportResponse, max_report_sequence, schema_version_number,
  update_request_seconds,
}
use hope.Protocol.Validation.Values.{Verdict, valid, invalid, ◌then_check◌, collectors}
use hope.Protocol.Validation.Metrics.{metrics}
use hope.Protocol.Validation.Inventory.{inventory}
use hope.Protocol.Version.{version_newer}
use hope.Server.Addresses.{inventory_addresses, inventory_macs, agent_version}
use hope.Server.Database.{
  AgentRow, Database, Head, MetricRow, SourceRow, is_text, assign, set_meta, find_agent, find_host,
  put_agent_host, clear_retired_host,
}
use hope.Server.Errors.{
  ApiError, ApiResult, ok, err, bad, unauthorized, agent_revoked, not_found, too_many,
}
use hope.Server.Limiter.{Keys, Limiter, check, hit}
use hope.Server.Rollout.{FloatText, schedule}
use hope.Server.Updates.{
  is_given, pending_update, settle_update_request, reported_failure, clear_request,
}

-- The client's key, two headers, and the body.
pub record Request : Type 0 where
  pub client : String
  pub authorization : Option String
  pub user_agent : Option String
  pub report : AgentReport

pub record Server : Type 0 where
  pub report_denied : Keys
  pub report_limit : Keys
  pub db : Database

pub record Elsewhere : Type 0 where
  pub hash : String → String
  pub is_uuid : String → Bool
  pub float_text : FloatText
  pub report_interval : ℕ
  pub offered : Option (String × String)
  pub matching_networks : List String → List String
  pub refresh : Host → Host
  pub reconcile : Database → List SourceRow × List String
  pub before_lock : Database → Database
  pub before_schedule : Database → Database

abbrev pub denied_limiter : Limiter
denied_limiter = record { window = float 60; per_key = 30 }

abbrev pub report_limiter : Limiter
report_limiter = record { window = float 60; per_key = 120 }

abbrev pub bearer : Option String → Option String
bearer none = none
bearer (some header) = strip_text "Bearer " header

-- What the row of an agent says of a credential: under the lock, a wrong one and a revoked agent.
unfoldable pub credential_error :
    (String → String) → Option String → Option AgentRow → Option ApiError
credential_error hash none row = some unauthorized
credential_error hash (some credential) none = some unauthorized
credential_error hash (some credential) (some row) =
    if not (str_eq row.credential_hash (hash credential))
    then some unauthorized
    else if row.revoked
    then some agent_revoked
    else none

-- The stamps that a report carries.
unfoldable pub stamps_ok : (String → Bool) → F64 → AgentReport → Bool
stamps_ok is_uuid at r =
    (r.schema_version == schema_version_number)
    && is_uuid r.report_id
    && elim r.sequence [ none ↦ true | some n ↦ not (n == 0) && leb n max_report_sequence ]
    && is_finite r.collected_at
    && not (f64_lt (f64_add at (float 300)) r.collected_at)
    && not (f64_lt r.collected_at (f64_sub at (float 86400)))

abbrev inventory_verdict : Option Inventory → Verdict
inventory_verdict none = valid
inventory_verdict (some i) = inventory i

unfoldable pub body_verdict : (String → Bool) → AgentReport → Verdict
body_verdict is_uuid r =
    metrics is_uuid r.metrics
    then_check collectors r.collectors
    then_check inventory_verdict r.inventory

-- Whether a report supplies the live figures, from its number, the head, its time, and the time of
-- the live figures.
unfoldable pub is_live : Option ℕ → Option Head → F64 → Option F64 → Bool
is_live (some n) (some head) collected last = ltb head.sequence n
is_live (some n) none collected last = true
is_live none (some head) collected last = false
is_live none none collected last = f64_le (or_default (float 0) last) collected

abbrev heads_report : Option Head → String → Bool
heads_report none report_id = false
heads_report (some head) report_id = str_eq head.report_id report_id

unfoldable pub is_duplicate : AgentReport → Option Head → Database → Bool
is_duplicate r head db =
    heads_report head r.report_id
    || any (λ row. str_eq row.agent_id r.agent_id && str_eq row.report_id r.report_id) db.metrics

abbrev head_sequence : Option Head → Option ℕ
head_sequence none = none
head_sequence (some head) = some head.sequence

abbrev watermark : Bool → Option ℕ → Option Head → Option ℕ
watermark true (some n) head = some n
watermark true none head = head_sequence head
watermark false n head = head_sequence head

-- The raw samples of an agent lie at least this far apart.
abbrev spacing : F64
spacing = finite (pos (27 * unit + unit / 2))

unfoldable pub is_crowded : AgentReport → Database → Bool
is_crowded r db =
    any
      (λ row.
        str_eq row.agent_id r.agent_id
        && (row.resolution == 30)
        && f64_lt (f64_sub r.collected_at spacing) row.collected_at
        && f64_lt row.collected_at (f64_add r.collected_at spacing))
      db.metrics

-- INSERT OR IGNORE INTO metrics: the report is no duplicate, so that its key is free.
unfoldable pub add_sample : AgentReport → Database → Database
unfolding is_crowded
add_sample r db = if is_crowded r db then db else record db {
  metrics =
      record {
        agent_id = r.agent_id;
        report_id = r.report_id;
        collected_at = r.collected_at;
        resolution = 30;
        body = r.metrics;
      }
      ∷ db.metrics;
}

abbrev or_kept {ℓ} : {A : Type ℓ} → Option A → Option A → Option A
or_kept none old = old
or_kept (some a) old = some a

unfoldable pub touched : F64 → Option String → Host → Host
touched at version h = record h {
  last_report = some at;
  last_seen = at;
  agent_version = or_kept version h.agent_version;
}

abbrev with_reported : Option Inventory → Host → Host
with_reported none h = h
with_reported (some i) h = record h {
  name = i.hostname;
  addresses = inventory_addresses i;
  macs = inventory_macs i;
  inventory = some i;
}

-- The live figures of the host.
unfoldable pub show_live : F64 → AgentReport → Host → Host
show_live at r h =
    let shown =
      with_reported r.inventory
        (record h { last_collected_at = some r.collected_at; metrics_received_at = some at }) in
    record shown { metrics = some r.metrics; collectors = r.collectors }

abbrev with_head : Option ℕ → String → String → Database → Database
with_head none agent_id report_id db = db
with_head (some n) agent_id report_id db = record db {
  heads = assign agent_id (record { sequence = n; report_id = report_id }) db.heads;
}
