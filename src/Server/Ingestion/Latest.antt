-- ===== src/Server/Ingestion/Latest.antt =====
-- What a host shows of its agent, told apart from how it is stored: the report with the largest
-- number so far.
use hope.Base.{ℕ, ◌≡◌, String, Option, none, some, List, F64, ltb, if◌then◌else◌}
use hope.Protocol.Types.{AgentReport, CollectorStatus, Host, Metrics}
use hope.Server.Database.{Database, find_host}
use hope.Server.Ingestion.Untouched.{live_part}

-- What a host shows: the report that it was last brought up to date by.
pub record Latest : Type 0 where
  pub sequence : ℕ
  pub report_id : String
  pub collected_at : F64
  pub metrics : Metrics
  pub collectors : List CollectorStatus

abbrev pub shown : ℕ → AgentReport → Latest
shown n r = record {
  sequence = n;
  report_id = r.report_id;
  collected_at = r.collected_at;
  metrics = r.metrics;
  collectors = r.collectors;
}

abbrev pub newer : ℕ → AgentReport → Option Latest → Option Latest
newer n r none = some (shown n r)
newer n r (some l) = if ltb l.sequence n then some (shown n r) else some l

-- One more report: it takes over where its number is larger.
unfoldable pub observe : Option Latest → AgentReport → Option Latest
observe l r = elim r.sequence [ none ↦ l | some n ↦ newer n r l ]

-- The live figures of a host.
pub record HasLive (h : Host) (l : Latest) : Type 0 where
  pub collected_at : h.last_collected_at ≡ some l.collected_at
  pub metrics : h.metrics ≡ some l.metrics
  pub collectors : h.collectors ≡ l.collectors

abbrev pub ShowsHost : Option Host → Latest → Type 0
ShowsHost none l = ⊥
ShowsHost (some h) l = HasLive h l

-- The head of an agent, and the live figures of its host.
abbrev pub Shows : String → Database → Option Latest → Type 0
Shows agent_id db none = db.heads agent_id ≡ none
Shows agent_id db (some l) =
    (db.heads agent_id ≡ some (record { sequence = l.sequence; report_id = l.report_id }))
    × ShowsHost (find_host agent_id db) l

-- The guess of a host's kind leaves its agent and its live figures alone.
pub record KeepsLive (refresh : Host → Host) : Type 0 where
  pub same : (h : Host) → live_part (refresh h) ≡ live_part h
