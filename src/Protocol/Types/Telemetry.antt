-- ===== src/Protocol/Types/Telemetry.antt =====
-- What a collector measures: the parts of `Inventory` and `Metrics`.
use hope.Base.{ℕ, String, Bool, Option, List, F64}

pub record Interface : Type 0 where
  pub name : String
  pub mac : Option String
  pub addresses : List String
  pub gateway : Option String

pub record Disk : Type 0 where
  pub name : String
  pub mount : String
  pub filesystem : String
  pub total_bytes : F64
  pub available_bytes : F64

pub record Gpu : Type 0 where
  pub id : Option String
  pub name : String
  pub vendor : String
  pub utilization_percent : Option F64
  pub memory_used_bytes : Option F64
  pub memory_total_bytes : Option F64
  pub temperature_celsius : Option F64

pub record CollectorStatus : Type 0 where
  pub name : String
  pub available : Bool
  pub detail : Option String

pub record Inventory : Type 0 where
  pub hostname : String
  pub os : String
  pub architecture : String
  pub cpu_model : String
  pub cpu_cores : ℕ
  pub memory_total_bytes : F64
  pub interfaces : List Interface
  pub disks : List Disk
  pub gpus : List Gpu
  pub collectors : List CollectorStatus

pub record NetworkCounter : Type 0 where
  pub name : String
  pub received_bytes : F64
  pub transmitted_bytes : F64
  pub rx_bytes_per_second : Option F64
  pub tx_bytes_per_second : Option F64
  pub included_in_total : Bool

pub record LoadAverage : Type 0 where
  pub one : F64
  pub five : F64
  pub fifteen : F64

pub record Temperature : Type 0 where
  pub sensor : String
  pub label : String
  pub celsius : F64

pub record DiskIo : Type 0 where
  pub device : String
  pub read_bytes_per_second : Option F64
  pub write_bytes_per_second : Option F64
  pub busy_percent : Option F64
  pub root : Bool

pub record StoragePool : Type 0 where
  pub name : String
  pub kind : String
  pub size_bytes : F64
  pub allocated_bytes : F64
  pub health : String
  pub read_bytes_per_second : Option F64
  pub write_bytes_per_second : Option F64
  pub root : Bool

pub record ServiceUnit : Type 0 where
  pub name : String
  pub state : String
  pub sub_state : String
  pub description : String
  pub watched : Bool

pub record ServiceSummary : Type 0 where
  pub active : ℕ
  pub failed : ℕ
  pub total : ℕ

pub record MonitorResult : Type 0 where
  pub target : String
  pub kind : String
  pub up : Bool
  pub latency_ms : Option F64
  pub status_code : Option ℕ
  pub detail : Option String
