-- ===== src/Examples/Data.antt =====
-- Concrete reports, batches and a small JSON for the examples.
use hope.Base.{ℕ, String, Bool, true, none, some, List, [], ◌∷◌, float}
use hope.Protocol.Types.{AgentReport, no_metrics}
use hope.Agent.Queue.{Item, Queued, Spool}
use hope.Agent.Delivery.{Json, report_item}

-- A report with the given number, sent at the given second.
abbrev pub beat : ℕ → AgentReport
beat n = record {
  schema_version = 1;
  report_id = "r";
  agent_id = "a";
  sequence = some n;
  collected_at = float 100;
  inventory = none;
  metrics = no_metrics;
  collectors = [];
}

abbrev pub number_of : AgentReport → ℕ
number_of r = elim r.sequence [ none ↦ 0 | some n ↦ n ]

-- Three bytes for each report.
abbrev pub write_items : ℕ → List AgentReport → List ℕ
write_items sep [] = b']' ∷ []
write_items sep (r ∷ rs) = sep ∷ b'{' ∷ number_of r ∷ b'}' ∷ write_items b',' rs

abbrev pub read_items : List ℕ → List AgentReport
read_items (sep ∷ brace ∷ n ∷ end ∷ rest) = beat n ∷ read_items rest
read_items _ = []

abbrev pub small_json : Json AgentReport
small_json = record {
  len = λ r. some 3;
  to_array = λ rs. some (write_items b'[' rs);
  parse_array = λ bytes. some (read_items bytes);
}

abbrev pub small_item : Item AgentReport
small_item = report_item small_json

abbrev pub queued_beat : ℕ → Queued AgentReport
queued_beat n = record { report = beat n; serialized_bytes = 3 }

abbrev pub two_beats : Spool AgentReport
two_beats = record { reports = queued_beat 1 ∷ queued_beat 2 ∷ []; content_bytes = 6 }

abbrev pub no_uuid : String → Bool
no_uuid text = true
