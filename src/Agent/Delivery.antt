-- ===== src/Agent/Delivery.antt =====
-- hope-agent/src/delivery.rs: the queue of agent reports, and what the answer to a sent report
-- means. The HTTP client, serde_json and httpdate are not modelled: an answer is a value, and the
-- three parsers are the parameters of `Wire`.
pub mod Answers
use hope.Base.{
  ℕ, ◌+◌, ◌-◌, ◌*◌, ◌/◌, ◌%◌, ◌^◌, ◌≤◌, min, max, String, Bool, true, false, ◌&&◌, ◌||◌, Option,
  none, some, List, [], ◌∷◌, ◌++◌, F64, str_eq, ltb, leb, ◌==◌, length, codes, parse_unsigned,
  u64_max, if◌then◌else◌,
}
use hope.Protocol.Types.{AgentReport, ReportResponse}
use hope.Agent.Queue
use hope.Agent.Queue.{Item, Spool}

-- MAX_REPORTS: one hour of reports at the shortest interval the server can choose.
abbrev pub max_reports : ℕ
max_reports = 720

-- serde_json at the type of the reports.
pub record Json (A : Type 0) : Type 0 where
  pub len : A → Option ℕ
  pub to_array : List A → Option (List ℕ)
  pub parse_array : List ℕ → Option (List A)

abbrev pub report_item : Json AgentReport → Item AgentReport
report_item json = record {
  identity = λ r. r.agent_id;
  key = λ r. r.report_id;
  stamp = λ r. r.collected_at;
  max_items = max_reports;
  json_len = json.len;
  to_json_array = json.to_array;
  parse_array = json.parse_array;
}

module _ (json : Json AgentReport) where
  abbrev pub decode : List ℕ → String → F64 → Option (Spool AgentReport)
  decode = Queue.decode (report_item json)

  abbrev pub push : AgentReport → F64 → Spool AgentReport → Option (Option (Spool AgentReport))
  push = Queue.push (report_item json)

  abbrev pub trim : F64 → Spool AgentReport → Option (Spool AgentReport)
  trim = Queue.trim (report_item json)

  abbrev pub encode : Spool AgentReport → Option (List ℕ)
  encode = Queue.encode (report_item json)

  abbrev pub remove : String → Spool AgentReport → Option (Spool AgentReport)
  remove = Queue.remove (report_item json)

-- `ErrorResponse.code`, a report's answer, and an HTTP date in seconds since the epoch.
pub record Wire (R : Type 0) : Type 0 where
  pub error_code : List ℕ → Option String
  pub response : List ℕ → Option R
  pub http_date : String → Option ℕ

-- A response: its status, its `Retry-After` if that is text, and its body chunk by chunk, which
-- may break off in an error.
pub record Reply : Type 0 where
  pub status : ℕ
  pub retry_after_header : Option String
  pub chunks : List (List ℕ)
  pub broken : Bool

pub data Sent : Type 0 where
  unreachable : Sent
  replied : Reply → Sent

-- A delay is in seconds.
pub data Outcome (R : Type 0) : Type 0 where
  accepted : R → Outcome R
  retry : Option ℕ → Outcome R
  invalid : ℕ → Outcome R
  revoked : Outcome R

unfoldable pub clamp : ℕ → ℕ → ℕ → ℕ
clamp lo hi n = min (max n lo) hi

nanos : ℕ
nanos = 1_000_000_000

-- The time until a date that stands in whole seconds, from a clock in nanoseconds.
pub seconds_until : ℕ → ℕ → ℕ
unfolding nanos
seconds_until date now = (date * nanos - now) / nanos

unfoldable pub or_else {ℓ} : {A : Type ℓ} → Option A → Option A → Option A
or_else none b = b
or_else (some a) b = some a

unfoldable pub retry_after_text : (String → Option ℕ) → String → ℕ → Option ℕ
unfolding or_else
retry_after_text http_date text now =
    or_else (parse_unsigned u64_max (codes text))
      (elim (http_date text) [ none ↦ none | some date ↦ some (seconds_until date now) ])

unfoldable pub retry_after : (String → Option ℕ) → Option String → ℕ → Option ℕ
unfolding clamp
retry_after http_date none now = none
retry_after http_date (some text) now = elim (retry_after_text http_date text now) [
  | none ↦ none
  | some seconds ↦ some (clamp 1 900 seconds)
]

-- Arithmetic on u64 that stops at the largest value.
unfoldable pub saturating_mul : ℕ → ℕ → ℕ
saturating_mul a b = min (a * b) u64_max

unfoldable pub saturating_pow : ℕ → ℕ → ℕ
saturating_pow a b = min (a ^ b) u64_max

pub backoff : ℕ → ℕ → ℕ
unfolding saturating_mul saturating_pow
backoff failures jitter =
    min (saturating_mul 30 (saturating_pow 2 (min failures 5)) + jitter % 31) 900

-- The bytes of a body of at most 16384 bytes.
pub collect_body : List ℕ → List (List ℕ) → Bool → Option (List ℕ)
collect_body seen [] true = none
collect_body seen [] false = some seen
collect_body seen (c ∷ cs) broken =
    if leb (length seen + length c) 16384 then collect_body (seen ++ c) cs broken else none

pub bounded_json {ℓ} : {A : Type ℓ} → (List ℕ → Option A) → Reply → Option A
unfolding collect_body
bounded_json parse reply = elim (collect_body [] reply.chunks reply.broken) [
  | none ↦ none
  | some bytes ↦ parse bytes
]

-- StatusCode::is_server_error, is_client_error, is_success.
abbrev pub in_hundred : ℕ → ℕ → Bool
in_hundred h status = leb (h * 100) status && ltb status (h * 100 + 100)

module _ {R : Type 0} (is_accepted : R → Bool) (wire : Wire R) where
  on_denied : Reply → Outcome R
  unfolding bounded_json
  on_denied reply = elim (bounded_json wire.error_code reply) [
    | none ↦ retry none
    | some code ↦ if str_eq code "agent_revoked" then revoked else retry none
  ]

  on_success : Reply → Outcome R
  unfolding bounded_json
  on_success reply = elim (bounded_json wire.response reply) [
    | none ↦ retry none
    | some r ↦ if is_accepted r then accepted r else retry none
  ]

  -- The match of `send`, its guards in order.
  pub classify : ℕ → Sent → Outcome R
  classify now unreachable = retry none
  classify now (replied reply) =
      if (reply.status == 401) || (reply.status == 403)
      then on_denied reply
      else if (reply.status == 429) || in_hundred 5 reply.status
      then retry (retry_after wire.http_date reply.retry_after_header now)
      else if in_hundred 4 reply.status
      then invalid reply.status
      else if in_hundred 2 reply.status
      then on_success reply
      else retry none

-- `send`'s outcome for an agent report.
abbrev pub report_outcome : Wire ReportResponse → ℕ → Sent → Outcome ReportResponse
report_outcome wire = classify (λ r. r.accepted) wire
