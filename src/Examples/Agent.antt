-- ===== src/Examples/Agent.antt =====
-- The agent's counter, its deliveries and its samples at concrete inputs.
use hope.Base.{
  ℕ, ◌≡◌, ◌↔◌, ◌⊎◌, ◌+◌, ◌*◌, ◌%◌, ◌^◌, ◌≤◌, ◌<◌, refl, true, false, some, none, Option, [], ◌∷◌,
  float, arith,
}
use hope.Protocol.Types.{AgentReport, ReportResponse, no_metrics, Inventory}
use hope.Protocol.Validation.Values.{valid, disks, gpus}
use hope.Protocol.Validation.Metrics.{metrics}
use hope.Agent.Sequence.{
  stored, written, load, next, queued_max, read_counter, own_reserved, checked, after_write,
  write_result, advance, issue,
}
use hope.Agent.Sequence.Issued.{Falls, here, more, issues, Reach-Falls}
use hope.Agent.Delivery.{Wire, Reply, replied, revoked, backoff, report_outcome}
use hope.Agent.Delivery.Answers.{backoff_lem, SaysRevoked, revoked_iff}
use hope.Agent.Telemetry.{Sample, Group, group_name, probe, isolate}
use hope.Agent.Telemetry.Groups.{Reports}
use hope.Agent.Telemetry.Isolated.{isolate_lem, isolate_group_lem}
use hope.Agent.Telemetry.Bound.{
  shed_order, bound_report, is_absent, shed_inventory, drop_inventory, shed, fitting,
}
use hope.Agent.Telemetry.Bounded.{IsSmall, Sheds, bound_report_total, bound_report_lem}
use hope.Examples.Data.{beat, no_uuid}

Reach-Falls_example : Falls (8 ∷ [])
unfolding load next queued_max read_counter own_reserved checked after_write write_result advance
    issue
Reach-Falls_example =
    Reach-Falls "a" (stored (record { agent_id = "a"; reserved = 5 })) (beat 7 ∷ [])
      (record { agent_id = "a"; reserved = 7 })
      (record {
        store = record {
          counter = record { agent_id = "a"; reserved = 8 };
          file = stored (record { agent_id = "a"; reserved = 8 });
        };
        issued = 8 ∷ [];
      })
      refl (more here (issues _ written _ 8 refl))

backoff_lem_example :
    (30 ≤ backoff 2 7)
    × (backoff 2 7 ≤ 900)
    × (2 < 5 → backoff 2 7 ≡ 30 * 2 ^ 2 + 7 % 31)
    × (5 ≤ 2 → backoff 2 7 ≡ 900)
backoff_lem_example = backoff_lem 2 7

abbrev wire : Wire ReportResponse
wire = record {
  error_code = λ bytes. some "agent_revoked";
  response = λ bytes. some (record {
    accepted = true;
    duplicate = false;
    live_applied = some true;
    report_sequence = some 8;
    report_interval_seconds = some 30;
    update_to = none;
    update_release_id = none;
  });
  http_date = λ text. none;
}

abbrev with_status : ℕ → Reply
with_status status = record {
  status = status;
  retry_after_header = none;
  chunks = (b'{' ∷ b'}' ∷ []) ∷ [];
  broken = false;
}

abbrev answered : ReportResponse
answered = record {
  accepted = true;
  duplicate = false;
  live_applied = some true;
  report_sequence = some 8;
  report_interval_seconds = some 30;
  update_to = none;
  update_release_id = none;
}

revoked_iff_example :
    (report_outcome wire 0 (replied (with_status 401)) ≡ revoked)
    ↔ SaysRevoked (λ r. r.accepted) wire (replied (with_status 401))
revoked_iff_example = revoked_iff (λ r. r.accepted) wire 0 (replied (with_status 401))

abbrev no_inventory : Inventory
no_inventory = record {
  hostname = "h";
  os = "";
  architecture = "";
  cpu_model = "";
  cpu_cores = 4;
  memory_total_bytes = float 1;
  interfaces = [];
  disks = [];
  gpus = [];
  collectors = [];
}

-- A sample whose processor reading is impossible.
abbrev hot : Sample
hot = record {
  inventory = no_inventory;
  metrics = record no_metrics { cpu_percent = some (float 101) };
  collectors = [];
}

isolate_lem_example :
    (metrics no_uuid (isolate no_uuid hot).metrics ≡ valid)
    × (disks (isolate no_uuid hot).inventory.disks ≡ true)
    × (gpus (isolate no_uuid hot).inventory.gpus ≡ true)
isolate_lem_example = isolate_lem no_uuid hot

isolate_group_lem_example :
    ((metrics no_uuid (probe Group.cpu hot.metrics) ≡ valid)
      × (probe Group.cpu (isolate no_uuid hot).metrics ≡ probe Group.cpu hot.metrics))
    ⊎ ((¬ (metrics no_uuid (probe Group.cpu hot.metrics) ≡ valid))
        × (probe Group.cpu (isolate no_uuid hot).metrics ≡ no_metrics)
        × Reports (group_name Group.cpu) (isolate no_uuid hot).collectors)
isolate_group_lem_example = isolate_group_lem no_uuid hot Group.cpu

abbrev weight : Option Inventory → ℕ
weight none = 100
weight (some i) = 1_000_000

-- A size that depends on the inventory alone.
abbrev heavy : AgentReport → Option ℕ
heavy r = some (weight r.inventory)

abbrev with_inventory : AgentReport
with_inventory = record (beat 1) { inventory = some no_inventory }

bound_report_total_example :
    (t : AgentReport) × (bound_report heavy with_inventory ≡ some t) × IsSmall heavy t
unfolding is_absent shed_inventory drop_inventory
bound_report_total_example =
    bound_report_total heavy (λ r. (weight r.inventory, refl)) with_inventory
      (100, refl, omega arith)

bound_report_lem_example : Sheds heavy shed_order with_inventory (shed_inventory with_inventory)
unfolding is_absent shed_inventory drop_inventory shed fitting bound_report
bound_report_lem_example =
    bound_report_lem heavy with_inventory (shed_inventory with_inventory) refl
