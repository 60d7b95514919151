-- ===== src/Examples/Reports.antt =====
-- Reports of an agent, and the rollout of a release.
use hope.Base.{
  ℕ, ◌≡◌, refl, String, Bool, true, false, Option, none, some, List, [], ◌∷◌, F64, float, is_finite,
  f64_lt, f64_add, f64_sub, ◌+ℤ◌, ◌-ℤ◌, str_eq, str_eq_iff, strip_text, ◌==◌, ◌≤◌, Bool-cases, inl,
  inr, arith, length, filter, if◌then◌else◌,
}
use hope.Protocol.Types.{Host, ReportResponse, new_host, no_metrics}
use hope.Protocol.Validation.Values.{valid, collectors}
use hope.Protocol.Validation.Groups.{no_metrics-valid}
use hope.Server.Updates.{pending_update, settle_update_request}
use hope.Agent.Delivery.{Wire, replied, revoked, report_outcome}
use hope.Agent.Delivery.Answers.{revoked_iff, bounded_json-short}
use hope.Examples.Data.{beat}
use hope.Server.Database.{
  Database, AgentRow, find_agent, find_host, put_agent_host, clear_retired_host,
}
use hope.Server.Errors.{ApiResult, ok, err, agent_revoked, error_code, retry_header}
use hope.Server.Ingestion.{
  Elsewhere, Request, Server, credential_error, stamps_ok, body_verdict, is_live, is_duplicate,
  is_crowded, add_sample, touched, show_live,
}
use hope.Server.Ingestion.Accepted.{IsAccepted, IsAccepted-ingest}
use hope.Server.Ingestion.Handler.{admit, admit_bearer, report}
use hope.Server.Limiter.{check, get, judge}
use hope.Server.Ingestion.Latest.{KeepsLive, Shows, observe, shown}
use hope.Server.Ingestion.Newest.{shown_after, ingest-Shows}
use hope.Server.Ingestion.Again.{ingest-again}
use hope.Server.Ingestion.Told.{reply_of, Reads, report-told_revoked}
use hope.Server.Ingestion.Revoked.{IsRevoked}
use hope.Server.Ingestion.Transaction.{
  settle_outcome, record_success, record_failure, changes_identity, settled_host, finished_host,
  apply_report, first_response, with_update, take_report, ingest,
}
use hope.Server.Rollout.{FloatText, in_flight, schedule}
use hope.Server.Rollout.Single.{IsKeyed, IsSingle, schedule-IsSingle}

-- Floats that are written as one text and read as none.
abbrev pub plain_text : FloatText
plain_text = record { show = λ x. "0"; read = λ s. none }

abbrev pub quiet : Elsewhere
quiet = record {
  hash = λ s. s;
  is_uuid = λ s. true;
  float_text = plain_text;
  report_interval = 10;
  offered = none;
  matching_networks = λ addresses. [];
  refresh = λ h. h;
  reconcile = λ db. (db.source_devices, db.retired);
  before_lock = λ db. db;
  before_schedule = λ db. db;
}

abbrev kept_live : KeepsLive quiet.refresh
kept_live = record { same = λ h. refl }

abbrev pub own_host : Host
own_host = record (new_host "h" "host" "agent") { agent_id = some "a" }

abbrev pub row : Bool → AgentRow
row gone = record { id = "a"; credential_hash = "secret"; revoked = gone }

abbrev pub tables : Bool → Database
tables gone = record {
  meta = λ key. none;
  agents = row gone ∷ [];
  hosts = own_host ∷ [];
  heads = λ agent. none;
  metrics = [];
  retired = [];
  source_devices = [];
}

ingest-Shows_example :
    let (after, answer) = ingest quiet (float 100) "secret" none (beat 7) (tables false) in
    Shows "a" after (shown_after answer none (beat 7))
ingest-Shows_example =
    ingest-Shows quiet kept_live (float 100) "secret" none (beat 7) (tables false) none refl

stamps : (at : ℕ) → at ≡ 100 → stamps_ok quiet.is_uuid (float at) (beat 7) ≡ true
unfolding stamps_ok is_finite f64_lt f64_add f64_sub ◌+ℤ◌ ◌-ℤ◌
stamps at e = rw e refl

body : body_verdict quiet.is_uuid (beat 7) ≡ valid
unfolding body_verdict collectors
body = rw (no_metrics-valid quiet.is_uuid) refl

IsAccepted-seven : IsAccepted quiet (float 100) "secret" none (beat 7) (tables false) own_host
unfolding credential_error find_agent find_host
IsAccepted-seven = record {
  credential_right = refl;
  stamps = stamps 100 refl;
  body = body;
  row = refl;
}

abbrev taken_seven : Database × ApiResult ReportResponse
taken_seven = take_report quiet (float 100) none (beat 7) own_host (tables false)

same_seven : ingest quiet (float 100) "secret" none (beat 7) (tables false) ≡ taken_seven
same_seven =
    IsAccepted-ingest quiet (float 100) "secret" none (beat 7) (tables false) own_host
      IsAccepted-seven

abbrev live_host : Host
live_host = record own_host {
  last_seen = float 100;
  last_report = some (float 100);
  last_collected_at = some (float 100);
  metrics_received_at = some (float 100);
  metrics = some no_metrics;
}

test_hosts : taken_seven.0.hosts ≡ live_host ∷ []
unfolding take_report is_duplicate is_live apply_report clear_retired_host add_sample is_crowded
    settled_host touched show_live settle_outcome settle_update_request pending_update finished_host
    put_agent_host record_success record_failure changes_identity f64_lt f64_sub ◌-ℤ◌ ◌+ℤ◌ f64_add
test_hosts = refl

shown_seven : shown_after taken_seven.1 none (beat 7) ≡ some (shown 7 (beat 7))
unfolding take_report is_duplicate is_live first_response with_update observe
shown_seven = refl

IsAccepted-again : IsAccepted quiet (float 100) "secret" none (beat 7) taken_seven.0 live_host
unfolding take_report is_duplicate is_live apply_report clear_retired_host add_sample is_crowded
    settled_host touched show_live settle_outcome settle_update_request pending_update finished_host
    put_agent_host record_success record_failure changes_identity f64_lt f64_sub ◌-ℤ◌ ◌+ℤ◌ f64_add
    credential_error find_agent find_host
IsAccepted-again = record {
  credential_right = refl;
  stamps = stamps 100 refl;
  body = body;
  row = refl;
}

ingest-again_example :
    let after = (ingest quiet (float 100) "secret" none (beat 7) (tables false)).0 in
    (answer : ReportResponse) × (ingest quiet (float 100) "secret" none (beat 7) after
      ≡ (after, ok answer))
    × (answer.duplicate ≡ true)
    × (answer.live_applied ≡ some true)
    × (answer.report_sequence ≡ some 7)
ingest-again_example =
    ingest-again quiet kept_live (float 100) (float 100) "secret" none none (beat 7) 7
      (tables false) none refl (rw same_seven shown_seven) live_host
      (rw same_seven IsAccepted-again)

-- A wire that carries only whether an error is a revocation.
abbrev write_code : String → String → List ℕ
write_code code message = (if str_eq code "agent_revoked" then 1 else 0) ∷ []

abbrev read_code : List ℕ → Option String
read_code (n ∷ []) = if n == 1 then some "agent_revoked" else none
read_code _ = none

abbrev code_wire : Wire ReportResponse
code_wire = record { error_code = read_code; response = λ bytes. none; http_date = λ text. none }

reads_codes : Reads code_wire write_code (λ response. [])
reads_codes code message e = elim (Bool-cases (str_eq code "agent_revoked")) [
  | inl same ↦ (str_eq_iff code "agent_revoked").0 same
  | inr other ↦ cc (rw other at e)
]

abbrev asked : Request
asked = record {
  client = "c";
  authorization = some "Bearer secret";
  user_agent = none;
  report = beat 7;
}

abbrev server : Bool → Server
server gone = record { report_denied = []; report_limit = []; db = tables gone }

test_revoked :
    (report quiet asked (float 100) (float 100) (float 100) (server true)).1 ≡ err agent_revoked
unfolding report admit admit_bearer check get judge strip_text find_agent
test_revoked = refl

told :
    report_outcome code_wire 5 (
      replied (
        reply_of write_code
          (λ response. [])
          (report quiet asked (float 100) (float 100) (float 100) (server true)).1))
    ≡ revoked
unfolding error_code retry_header
told =
    (revoked_iff (λ r. r.accepted) code_wire 5 _).1
      (rw test_revoked (inl refl, bounded_json-short read_code (1 ∷ []) 401 none (omega arith)))

report-told_revoked_example : IsRevoked quiet asked (server true)
report-told_revoked_example =
    report-told_revoked quiet asked (server true) code_wire write_code (λ response. []) 5
      (float 100) (float 100) (float 100) reads_codes told

-- A host that has been asked.
abbrev waiting_host : Host
waiting_host = record own_host {
  update_requested_at = some (float 50);
  update_target = some "2.0";
  update_target_release_id = some "rel";
  update_request_source = some "automatic";
}

one_host : (h : Host) → IsKeyed (h ∷ [])
one_host h id = elim (Bool-cases (str_eq h.id id)) [
  | inl own ↦ rw own (omega arith)
  | inr other ↦ rw other (omega arith)
]

one_flight : (at : F64) (h : Host) → length (filter (in_flight at) (h ∷ [])) ≤ 1
one_flight at h = elim (Bool-cases (in_flight at h)) [
  | inl flies ↦ rw flies (omega arith)
  | inr lands ↦ rw lands (omega arith)
]

schedule-IsSingle_example : IsSingle (float 100) (
    schedule plain_text
      (some ("rel", "2.0"))
      (float 100)
      (record (tables false) { hosts = waiting_host ∷ [] }))
schedule-IsSingle_example =
    schedule-IsSingle plain_text (some ("rel", "2.0")) (float 100)
      (record (tables false) { hosts = waiting_host ∷ [] })
      (record { keyed = one_host waiting_host; few = one_flight (float 100) waiting_host })
