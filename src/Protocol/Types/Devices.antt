-- ===== src/Protocol/Types/Devices.antt =====
-- `Host`, the server's record of a device, and its parts.
use hope.Base.{ℕ, String, Bool, false, Option, none, List, [], F64, float}
use hope.Protocol.Types.Telemetry.{CollectorStatus, Inventory}
use hope.Protocol.Types.Children.{ChildDeviceReport, DeviceLifecycle, SourceIdentity}
use hope.Protocol.Types.Report.{Metrics}

pub record Service : Type 0 where
  pub port : ℕ
  pub name : String
  pub observed_at : F64

pub record DeviceEvidence : Type 0 where
  pub dns_name : Option String
  pub mdns_name : Option String
  pub mdns_services : List String
  pub mdns_model : Option String
  pub mdns_instances : List String
  pub ssdp_server : Option String
  pub upnp_device_type : Option String
  pub upnp_friendly_name : Option String
  pub upnp_manufacturer : Option String
  pub upnp_model : Option String
  pub http_title : Option String
  pub http_server : Option String

pub record DeviceGuess : Type 0 where
  pub kind : String
  pub label : String
  pub confidence : ℕ
  pub reasons : List String
  pub manual : Bool

pub record UptimeSettings : Type 0 where
  pub enabled : Bool
  pub device : Bool
  pub ports : List ℕ

pub data EnrichmentStatus : Type 0 where
  pending running completed failed cancelled : EnrichmentStatus

pub data RelationshipKind : Type 0 where
  runs_on connected_to exposes_service : RelationshipKind

pub record DeviceRelationship : Type 0 where
  pub from_device_id : String
  pub to_device_id : String
  pub kind : RelationshipKind
  pub detail : Option String

pub data AssociationStatus : Type 0 where
  suggested confirmed rejected : AssociationStatus

pub record DeviceAssociation : Type 0 where
  pub host_id : String
  pub host_name : String
  pub status : AssociationStatus
  pub reason : String
  pub evidence : List String

pub record Host : Type 0 where
  pub uptime : UptimeSettings
  pub id : String
  pub agent_id : Option String
  pub name : String
  pub name_override : Option String
  pub icon_override : Option String
  pub addresses : List String
  pub primary_ip : Option String
  pub macs : List String
  pub network_ids : List String
  pub last_seen : F64
  pub last_report : Option F64
  pub last_collected_at : Option F64
  pub metrics_received_at : Option F64
  pub agent_revoked : Bool
  pub agent_uninstalled : Bool
  pub retired : Bool
  pub enrichment_status : EnrichmentStatus
  pub discovery_method : String
  pub inventory : Option Inventory
  pub metrics : Option Metrics
  pub collectors : List CollectorStatus
  pub services : List Service
  pub vendor : Option String
  pub device : Option DeviceGuess
  pub evidence : DeviceEvidence
  pub ports_scanned_at : Option F64
  pub parent_id : Option String
  pub parent_reason : Option String
  pub agent_version : Option String
  pub update_requested_at : Option F64
  pub update_target : Option String
  pub update_target_release_id : Option String
  pub update_request_source : Option String
  pub update_failure_predates_request : Bool
  pub auto_update_excluded : Bool
  pub auto_update_failed_release_id : Option String
  pub source : Option SourceIdentity
  pub lifecycle : Option DeviceLifecycle
  pub source_observed_at : Option F64
  pub relationships : List DeviceRelationship
  pub source_device_id : Option String
  pub associations : List DeviceAssociation
  pub child : Option ChildDeviceReport

-- `UptimeSettings::default()` and `DeviceEvidence::default()`.
abbrev no_uptime : UptimeSettings
no_uptime = record { enabled = false; device = false; ports = [] }

abbrev no_evidence : DeviceEvidence
no_evidence = record {
  dns_name = none;
  mdns_name = none;
  mdns_services = [];
  mdns_model = none;
  mdns_instances = [];
  ssdp_server = none;
  upnp_device_type = none;
  upnp_friendly_name = none;
  upnp_manufacturer = none;
  upnp_model = none;
  http_title = none;
  http_server = none;
}

-- `Host::new`: a host with no observations yet.
abbrev pub new_host : String → String → String → Host
new_host id name discovery_method = record {
  uptime = no_uptime;
  id = id;
  agent_id = none;
  name = name;
  name_override = none;
  icon_override = none;
  addresses = [];
  primary_ip = none;
  macs = [];
  network_ids = [];
  last_seen = float 0;
  last_report = none;
  last_collected_at = none;
  metrics_received_at = none;
  agent_revoked = false;
  agent_uninstalled = false;
  retired = false;
  enrichment_status = EnrichmentStatus.pending;
  discovery_method = discovery_method;
  inventory = none;
  metrics = none;
  collectors = [];
  services = [];
  vendor = none;
  device = none;
  evidence = no_evidence;
  ports_scanned_at = none;
  parent_id = none;
  parent_reason = none;
  agent_version = none;
  update_requested_at = none;
  update_target = none;
  update_target_release_id = none;
  update_request_source = none;
  update_failure_predates_request = false;
  auto_update_excluded = false;
  auto_update_failed_release_id = none;
  source = none;
  lifecycle = none;
  source_observed_at = none;
  relationships = [];
  source_device_id = none;
  associations = [];
  child = none;
}

pub record Network : Type 0 where
  pub id : String
  pub name : String
  pub cidr : String
  pub enabled : Bool
  pub interval_minutes : ℕ

pub record EnrollmentRequest : Type 0 where
  pub schema_version : ℕ
  pub token : String
  pub agent_id : String
  pub credential : String
  pub inventory : Inventory

pub record EnrollmentResponse : Type 0 where
  pub credential : String
  pub report_interval_seconds : ℕ
