-- ===== src/Agent/Telemetry/Bound.antt =====
-- `bound_report`: a report that is too large sheds its optional collections in a fixed order, and
-- its inventory last. serde_json is not modelled: the size of a report is a parameter, `none`
-- where it cannot be serialized.
use hope.Base.{ℕ, String, Bool, true, false, Option, none, some, List, [], ◌∷◌, leb, if◌then◌else◌}
use hope.Protocol.Types.{Metrics, AgentReport, Inventory, max_agent_report_bytes}
use hope.Agent.Telemetry.{degraded}

pub data Collection : Type 0 where
  containers services monitors temperatures disk_devices : Collection
  pools gpus network_interfaces filesystems : Collection

unfoldable pub label : Collection → String
label containers = "docker_containers"
label services = "services"
label monitors = "monitors"
label temperatures = "temperatures"
label disk_devices = "disk_devices"
label pools = "storage_pools"
label gpus = "gpu_metrics"
label network_interfaces = "network"
label filesystems = "storage"

abbrev no_items : {A : Type 0} → List A → Bool
no_items [] = true
no_items (x ∷ xs) = false

unfoldable pub is_absent : Collection → Metrics → Bool
is_absent containers m = no_items m.containers
is_absent services m = no_items m.services
is_absent monitors m = no_items m.monitors
is_absent temperatures m = no_items m.temperatures
is_absent disk_devices m = no_items m.disk_io
is_absent pools m = no_items m.pools
is_absent gpus m = no_items m.gpus
is_absent network_interfaces m = no_items m.network_interfaces
is_absent filesystems m = no_items m.disks

unfoldable pub clear : Collection → Metrics → Metrics
clear containers m = record m { containers = [] }
clear services m = record m { services = [] }
clear monitors m = record m { monitors = [] }
clear temperatures m = record m { temperatures = [] }
clear disk_devices m = record m { disk_io = [] }
clear pools m = record m { pools = [] }
clear gpus m = record m { gpus = [] }
clear network_interfaces m = record m { network_interfaces = [] }
clear filesystems m = record m { disks = [] }

-- In the order in which they are given up.
abbrev pub shed_order : List Collection
shed_order =
    containers ∷ services ∷ monitors ∷ temperatures ∷ disk_devices ∷ pools ∷ gpus
    ∷ network_interfaces ∷ filesystems ∷ []

unfoldable pub shed_one : Collection → AgentReport → AgentReport
shed_one c r = record r {
  metrics = clear c r.metrics;
  collectors = degraded (label c) "report exceeds the server payload budget" r.collectors;
}

unfoldable pub drop_inventory : Option Inventory → AgentReport → AgentReport
drop_inventory none r = r
drop_inventory (some _) r = record r {
  inventory = none;
  collectors = degraded "inventory" "inventory exceeds the server payload budget" r.collectors;
}

unfoldable pub shed_inventory : AgentReport → AgentReport
unfolding drop_inventory
shed_inventory r = drop_inventory r.inventory r

module _ (size : AgentReport → Option ℕ) where
  -- The report, if it can be serialized within the budget.
  unfoldable pub fitting : AgentReport → Option AgentReport
  fitting r = elim (size r) [
    | none ↦ none
    | some n ↦ if leb n max_agent_report_bytes then some r else none
  ]

  -- The collections that are left to give up; `none` is an error.
  unfoldable pub shed : List Collection → AgentReport → Option AgentReport
  shed [] r = fitting (shed_inventory r)
  shed (c ∷ cs) r = elim (is_absent c r.metrics) [
    | true ↦ shed cs r
    | false ↦ elim (size (shed_one c r)) [
      | none ↦ none
      | some n ↦ elim (leb n max_agent_report_bytes) [
        | true ↦ some (shed_one c r)
        | false ↦ shed cs (shed_one c r)
      ]
    ]
  ]

  unfoldable pub bound_report : AgentReport → Option AgentReport
  bound_report r = elim (size r) [
    | none ↦ none
    | some n ↦ if leb n max_agent_report_bytes then some r else shed shed_order r
  ]
