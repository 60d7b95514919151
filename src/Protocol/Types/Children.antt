-- ===== src/Protocol/Types/Children.antt =====
-- Containers, guests and the batches that report them.
use hope.Base.{ℕ, String, Bool, Option, List, F64}
use hope.Protocol.Types.Telemetry.{Interface}

pub record ContainerNetwork : Type 0 where
  pub name : String
  pub network_id : Option String
  pub ipv4 : Option String
  pub ipv6 : Option String
  pub mac : Option String
  pub gateway : Option String

pub record ContainerPort : Type 0 where
  pub host_ip : Option String
  pub container_port : ℕ
  pub host_port : Option ℕ
  pub protocol : String

pub record Container : Type 0 where
  pub id : String
  pub name : String
  pub image : String
  pub state : String
  pub status : String
  pub ports : String
  pub created_at : Option F64
  pub health : Option String
  pub compose_project : Option String
  pub compose_service : Option String
  pub networks : List ContainerNetwork
  pub published_ports : List ContainerPort
  pub restart_count : Option ℕ
  pub cpu_percent : Option F64
  pub cpu_capacity_cores : Option F64
  pub memory_used_bytes : Option F64
  pub memory_limit_bytes : Option F64
  pub memory_percent : Option F64
  pub network_rx_bytes : Option F64
  pub network_tx_bytes : Option F64
  pub block_read_bytes : Option F64
  pub block_write_bytes : Option F64
  pub pids : Option ℕ

pub data ChildSourceKind : Type 0 where
  docker proxmox : ChildSourceKind

pub data ChildDeviceKind : Type 0 where
  docker_container proxmox_vm proxmox_lxc : ChildDeviceKind

pub data DeviceLifecycle : Type 0 where
  running stopped stale archived : DeviceLifecycle

pub data MemoryMeasurement : Type 0 where
  docker_working_set hypervisor_guest guest_operating_system : MemoryMeasurement

pub data CpuMeasurement : Type 0 where
  docker_engine hypervisor_guest guest_operating_system : CpuMeasurement

pub data GuestAgentStatus : Type 0 where
  available disabled unavailable : GuestAgentStatus

pub record SourceIdentity : Type 0 where
  pub kind : ChildDeviceKind
  pub scope : String
  pub key : String
  pub incarnation : String

pub record ChildMetrics : Type 0 where
  pub cpu_percent : Option F64
  pub cpu_capacity_cores : Option F64
  pub cpu_measurement : Option CpuMeasurement
  pub memory_used_bytes : Option F64
  pub memory_total_bytes : Option F64
  pub memory_measurement : Option MemoryMeasurement
  pub disk_used_bytes : Option F64
  pub disk_total_bytes : Option F64
  pub disk_read_bytes : Option F64
  pub disk_write_bytes : Option F64
  pub disk_read_bytes_per_second : Option F64
  pub disk_write_bytes_per_second : Option F64
  pub uptime_seconds : Option F64
  pub network_rx_bytes_per_second : Option F64
  pub network_tx_bytes_per_second : Option F64
  pub network_rx_bytes : Option F64
  pub network_tx_bytes : Option F64

pub record GuestOsMetadata : Type 0 where
  pub hostname : Option String
  pub name : Option String
  pub kernel_release : Option String
  pub observed_at : F64

pub record GuestFilesystem : Type 0 where
  pub mountpoint : String
  pub filesystem_type : Option String
  pub total_bytes : F64
  pub used_bytes : F64
  pub observed_at : F64

pub record GuestNetworkConfiguration : Type 0 where
  pub name : String
  pub bridge : Option String
  pub vlan_tag : Option ℕ
  pub model : Option String
  pub mac : Option String

pub record GuestDiskConfiguration : Type 0 where
  pub name : String
  pub storage : Option String
  pub volume : Option String
  pub size_bytes : Option F64

pub record ChildDeviceReport : Type 0 where
  pub identity : SourceIdentity
  pub ownership_generation : Option ℕ
  pub legacy_incarnation : Option String
  pub name : String
  pub lifecycle : DeviceLifecycle
  pub status : Option String
  pub health : Option String
  pub restart_count : Option ℕ
  pub parent_key : Option String
  pub node : Option String
  pub tags : List String
  pub interfaces : List Interface
  pub cpu_cores : Option F64
  pub memory_bytes : Option F64
  pub image : Option String
  pub compose_project : Option String
  pub compose_service : Option String
  pub published_ports : List ContainerPort
  pub guest_agent_status : Option GuestAgentStatus
  pub guest_os : Option GuestOsMetadata
  pub guest_filesystems : List GuestFilesystem
  pub network_configuration : List GuestNetworkConfiguration
  pub disk_configuration : List GuestDiskConfiguration
  pub metrics : ChildMetrics

pub record ProxmoxGuestPresence : Type 0 where
  pub kind : ChildDeviceKind
  pub key : String
  pub incarnation : Option String

pub record LegacySourceIdentity : Type 0 where
  pub kind : ChildDeviceKind
  pub key : String
  pub incarnation : String
  pub canonical_incarnation : String

pub record ChildReportBatch : Type 0 where
  pub schema_version : ℕ
  pub batch_id : String
  pub agent_id : String
  pub source : ChildSourceKind
  pub source_scope : String
  pub source_token : Option String
  pub legacy_source_scope : Option String
  pub legacy_identities : List LegacySourceIdentity
  pub proxmox_guest_presence : Option (List ProxmoxGuestPresence)
  pub sequence : ℕ
  pub inventory_generation : ℕ
  pub inventory_id : Option String
  pub chunk_index : ℕ
  pub chunk_count : ℕ
  pub complete : Bool
  pub observed_at : F64
  pub devices : List ChildDeviceReport
