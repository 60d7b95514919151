-- ===== src/Agent/Telemetry.antt =====
-- hope-agent/src/telemetry.rs: invalid groups of a sample are dropped one by one, and a report
-- that is too large sheds its optional collections one by one.
pub mod Groups
pub mod Isolate
pub mod Isolated
pub mod Bound
pub mod Cleared
pub mod Bounded
use Prim.Native.String.{◌++◌ as joined}
use hope.Base.{
  ℕ, String, Bool, true, false, Option, none, some, List, [], ◌∷◌, str_eq, leb, if◌then◌else◌,
}
use hope.Protocol.Types.{
  Inventory, Metrics, no_metrics, CollectorStatus, AgentReport, max_agent_report_bytes,
}
use hope.Protocol.Validation.Values.{Verdict, valid, invalid, disks, gpus}
use hope.Protocol.Validation.Metrics.{metrics}

unfoldable pub lost : String → String → CollectorStatus
lost name reason = record {
  name = name;
  available = false;
  detail = some (joined "Invalid collector output omitted: " reason);
}

-- The first status of this name is marked; where there is none, one is added.
unfoldable pub degraded : String → String → List CollectorStatus → List CollectorStatus
unfolding lost
degraded name reason [] = lost name reason ∷ []
degraded name reason (status ∷ rest) =
    if str_eq status.name name
    then record status { available = false; detail = (lost name reason).detail } ∷ rest
    else status ∷ degraded name reason rest

-- The groups of `isolate`, each with the fields that are checked and dropped together.
pub data Group : Type 0 where
  cpu memory memory_breakdown swap load_average network disk_io docker_containers monitors : Group
  storage gpu_metrics disk_devices storage_pools temperatures network_counters uptime services :
      Group

unfoldable pub group_name : Group → String
group_name cpu = "cpu"
group_name memory = "memory"
group_name memory_breakdown = "memory_breakdown"
group_name swap = "swap"
group_name load_average = "load_average"
group_name network = "network"
group_name disk_io = "disk_io"
group_name docker_containers = "docker_containers"
group_name monitors = "monitors"
group_name storage = "storage"
group_name gpu_metrics = "gpu_metrics"
group_name disk_devices = "disk_devices"
group_name storage_pools = "storage_pools"
group_name temperatures = "temperatures"
group_name network_counters = "network"
group_name uptime = "uptime"
group_name services = "services"

-- A sample that has the fields of one group and no others.
unfoldable pub probe : Group → Metrics → Metrics
probe cpu m = record no_metrics { cpu_percent = m.cpu_percent }
probe memory m = record no_metrics {
  memory_used_bytes = m.memory_used_bytes;
  memory_total_bytes = m.memory_total_bytes;
}
probe memory_breakdown m = record no_metrics {
  memory_cached_bytes = m.memory_cached_bytes;
  memory_zfs_arc_bytes = m.memory_zfs_arc_bytes;
}
probe swap m = record no_metrics {
  swap_used_bytes = m.swap_used_bytes;
  swap_total_bytes = m.swap_total_bytes;
}
probe load_average m = record no_metrics { load_average = m.load_average }
probe network m = record no_metrics {
  network_rx_bytes_per_second = m.network_rx_bytes_per_second;
  network_tx_bytes_per_second = m.network_tx_bytes_per_second;
}
probe disk_io m = record no_metrics {
  disk_read_bytes_per_second = m.disk_read_bytes_per_second;
  disk_write_bytes_per_second = m.disk_write_bytes_per_second;
}
probe docker_containers m = record no_metrics { containers = m.containers }
probe monitors m = record no_metrics { monitors = m.monitors }
probe storage m = record no_metrics { disks = m.disks }
probe gpu_metrics m = record no_metrics { gpus = m.gpus }
probe disk_devices m = record no_metrics { disk_io = m.disk_io }
probe storage_pools m = record no_metrics { pools = m.pools }
probe temperatures m = record no_metrics { temperatures = m.temperatures }
probe network_counters m = record no_metrics { network_interfaces = m.network_interfaces }
probe uptime m = record no_metrics { system_uptime = m.system_uptime }
probe services m = record no_metrics { services = m.services; service_summary = m.service_summary }

-- The sample without the fields of one group.
unfoldable pub without : Group → Metrics → Metrics
without cpu m = record m { cpu_percent = none }
without memory m = record m { memory_used_bytes = none; memory_total_bytes = none }
without memory_breakdown m = record m { memory_cached_bytes = none; memory_zfs_arc_bytes = none }
without swap m = record m { swap_used_bytes = none; swap_total_bytes = none }
without load_average m = record m { load_average = none }
without network m = record m {
  network_rx_bytes_per_second = none;
  network_tx_bytes_per_second = none;
}
without disk_io m = record m {
  disk_read_bytes_per_second = none;
  disk_write_bytes_per_second = none;
}
without docker_containers m = record m { containers = [] }
without monitors m = record m { monitors = [] }
without storage m = record m { disks = [] }
without gpu_metrics m = record m { gpus = [] }
without disk_devices m = record m { disk_io = [] }
without storage_pools m = record m { pools = [] }
without temperatures m = record m { temperatures = [] }
without network_counters m = record m { network_interfaces = [] }
without uptime m = record m { system_uptime = none }
without services m = record m { services = []; service_summary = none }

-- In the order of the source.
abbrev pub all_groups : List Group
all_groups =
    cpu ∷ memory ∷ memory_breakdown ∷ swap ∷ load_average ∷ network ∷ disk_io ∷ docker_containers
    ∷ monitors ∷ storage ∷ gpu_metrics ∷ disk_devices ∷ storage_pools ∷ temperatures
    ∷ network_counters ∷ uptime ∷ services ∷ []

pub record Sample : Type 0 where
  pub inventory : Inventory
  pub metrics : Metrics
  pub collectors : List CollectorStatus

module _ (is_uuid : String → Bool) where
  unfoldable pub isolate_group : Group → Sample → Sample
  isolate_group g s = elim (metrics is_uuid (probe g s.metrics)) [
    | valid ↦ s
    | invalid reason ↦ record s {
      metrics = without g s.metrics;
      collectors = degraded (group_name g) reason s.collectors;
    }
  ]

  unfoldable pub isolate_groups : List Group → Sample → Sample
  isolate_groups [] s = s
  isolate_groups (g ∷ gs) s = isolate_groups gs (isolate_group g s)

unfoldable pub isolate_disks : Sample → Sample
isolate_disks s = if disks s.inventory.disks then s else record s {
  inventory = record s.inventory { disks = [] };
  collectors = degraded "storage" "invalid filesystem inventory" s.collectors;
}

unfoldable pub isolate_gpus : Sample → Sample
isolate_gpus s = if gpus s.inventory.gpus then s else record s {
  inventory = record s.inventory { gpus = [] };
  collectors = degraded "gpu_inventory" "invalid GPU inventory" s.collectors;
}

unfoldable pub isolate : (String → Bool) → Sample → Sample
isolate is_uuid s = isolate_gpus (isolate_disks (isolate_groups is_uuid all_groups s))
