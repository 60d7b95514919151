-- ===== src/Protocol/Types/Report.antt =====
-- `Metrics`, the agent's report and the server's answer to it, and the shared constants.
use hope.Base.{ℕ, ◌-◌, ◌*◌, ◌^◌, String, Bool, Option, none, List, [], F64, float}
use hope.Protocol.Types.Telemetry.{
  Disk, Gpu, CollectorStatus, Inventory, NetworkCounter, LoadAverage, Temperature, DiskIo,
  StoragePool, ServiceUnit, ServiceSummary, MonitorResult,
}
use hope.Protocol.Types.Children.{Container}

abbrev pub schema_version_number : ℕ
schema_version_number = 1

-- MAX_AGENT_REPORT_BYTES
abbrev pub max_agent_report_bytes : ℕ
max_agent_report_bytes = 256 * 1024

-- MAX_REPORT_SEQUENCE
abbrev pub max_report_sequence : ℕ
max_report_sequence = 2 ^ 53 - 1

-- HISTORY_SAMPLE_SECONDS
abbrev pub history_sample_seconds : F64
history_sample_seconds = float 30

-- UPDATE_REQUEST_SECONDS
abbrev pub update_request_seconds : F64
update_request_seconds = float 86400

pub data UptimeScope : Type 0 where
  system container_kernel : UptimeScope

pub record SystemUptime : Type 0 where
  pub seconds : F64
  pub boot_time : Option F64
  pub boot_id : Option String
  pub scope : UptimeScope

pub record Metrics : Type 0 where
  pub system_uptime : Option SystemUptime
  pub cpu_percent : Option F64
  pub memory_used_bytes : Option F64
  pub memory_total_bytes : Option F64
  pub memory_cached_bytes : Option F64
  pub memory_zfs_arc_bytes : Option F64
  pub swap_used_bytes : Option F64
  pub swap_total_bytes : Option F64
  pub load_average : Option LoadAverage
  pub network_rx_bytes_per_second : Option F64
  pub network_tx_bytes_per_second : Option F64
  pub network_interfaces : List NetworkCounter
  pub disk_read_bytes_per_second : Option F64
  pub disk_write_bytes_per_second : Option F64
  pub disks : List Disk
  pub disk_io : List DiskIo
  pub pools : List StoragePool
  pub gpus : List Gpu
  pub temperatures : List Temperature
  pub services : List ServiceUnit
  pub service_summary : Option ServiceSummary
  pub monitors : List MonitorResult
  pub containers : List Container

-- `Metrics::default()`.
abbrev pub no_metrics : Metrics
no_metrics = record {
  system_uptime = none;
  cpu_percent = none;
  memory_used_bytes = none;
  memory_total_bytes = none;
  memory_cached_bytes = none;
  memory_zfs_arc_bytes = none;
  swap_used_bytes = none;
  swap_total_bytes = none;
  load_average = none;
  network_rx_bytes_per_second = none;
  network_tx_bytes_per_second = none;
  network_interfaces = [];
  disk_read_bytes_per_second = none;
  disk_write_bytes_per_second = none;
  disks = [];
  disk_io = [];
  pools = [];
  gpus = [];
  temperatures = [];
  services = [];
  service_summary = none;
  monitors = [];
  containers = [];
}

pub record AgentReport : Type 0 where
  pub schema_version : ℕ
  pub report_id : String
  pub agent_id : String
  pub sequence : Option ℕ
  pub collected_at : F64
  pub inventory : Option Inventory
  pub metrics : Metrics
  pub collectors : List CollectorStatus

pub record ReportResponse : Type 0 where
  pub accepted : Bool
  pub duplicate : Bool
  pub live_applied : Option Bool
  pub report_sequence : Option ℕ
  pub report_interval_seconds : Option ℕ
  pub update_to : Option String
  pub update_release_id : Option String
