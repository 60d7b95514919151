-- ===== src/Examples/Protocol.antt =====
-- Versions and child batches at concrete inputs.
use hope.Base.{
  ◌≡◌, ◌↔◌, refl, true, false, none, [], ◌∷◌, float, byte_len, is_control, is_finite, f64_le,
  String,
}
use hope.Protocol.Types.{
  ChildReportBatch, ChildSourceKind, ChildDeviceKind, DeviceLifecycle, ChildMetrics,
  ChildDeviceReport,
}
use hope.Protocol.Version.{parts, version_newer}
use hope.Protocol.Version.Order.{Later, version_newer_iff, version_newer-strict}
use hope.Protocol.Validation.Values.{text, number, optional}
use hope.Protocol.Validation.Batch.{
  child_batch, header_ok, legacy_ok, named, presence_ok, schema_version,
}
use hope.Protocol.Validation.Batch.Device.{
  devices_ok, origin_ok, kind_matches_source, details_ok, same_identity, same_source_key,
}
use hope.Protocol.Validation.Batch.Sound.{Sound, child_batch-Sound}
use hope.Examples.Data.{no_uuid}

test_newer : version_newer "v0.10.0" "0.9.12" ≡ true
unfolding version_newer parts
test_newer = refl

test_same : version_newer "1.2" "1.2.0" ≡ false
unfolding version_newer parts
test_same = refl

version_newer_iff_example :
    (version_newer "1.10" "1.9.3" ≡ true) ↔ Later (parts "1.10") (parts "1.9.3")
version_newer_iff_example = version_newer_iff "1.10" "1.9.3"

version_newer-strict_example :
    ((version_newer "1.9" "1.8" ≡ true) → version_newer "1.10" "1.8" ≡ true)
    × (version_newer "1.9" "1.10" ≡ false)
unfolding version_newer parts
version_newer-strict_example = version_newer-strict "1.10" "1.9" "1.8" refl

abbrev no_child_metrics : ChildMetrics
no_child_metrics = record {
  cpu_percent = none;
  cpu_capacity_cores = none;
  cpu_measurement = none;
  memory_used_bytes = none;
  memory_total_bytes = none;
  memory_measurement = none;
  disk_used_bytes = none;
  disk_total_bytes = none;
  disk_read_bytes = none;
  disk_write_bytes = none;
  disk_read_bytes_per_second = none;
  disk_write_bytes_per_second = none;
  uptime_seconds = none;
  network_rx_bytes_per_second = none;
  network_tx_bytes_per_second = none;
  network_rx_bytes = none;
  network_tx_bytes = none;
}

abbrev pub container : String → ChildDeviceReport
container key = record {
  identity = record {
    kind = ChildDeviceKind.docker_container;
    scope = "engine";
    key = key;
    incarnation = "i";
  };
  ownership_generation = none;
  legacy_incarnation = none;
  name = "web";
  lifecycle = DeviceLifecycle.running;
  status = none;
  health = none;
  restart_count = none;
  parent_key = none;
  node = none;
  tags = [];
  interfaces = [];
  cpu_cores = none;
  memory_bytes = none;
  image = none;
  compose_project = none;
  compose_service = none;
  published_ports = [];
  guest_agent_status = none;
  guest_os = none;
  guest_filesystems = [];
  network_configuration = [];
  disk_configuration = [];
  metrics = no_child_metrics;
}

abbrev pub two_containers : ChildReportBatch
two_containers = record {
  schema_version = 1;
  batch_id = "b";
  agent_id = "a";
  source = ChildSourceKind.docker;
  source_scope = "engine";
  source_token = none;
  legacy_source_scope = none;
  legacy_identities = [];
  proxmox_guest_presence = none;
  sequence = 1;
  inventory_generation = 1;
  inventory_id = none;
  chunk_index = 0;
  chunk_count = 1;
  complete = true;
  observed_at = float 100;
  devices = container "x" ∷ container "y" ∷ [];
}

child_batch-Sound_example : Sound two_containers
unfolding child_batch header_ok legacy_ok devices_ok named presence_ok schema_version text byte_len
    is_control number is_finite f64_le origin_ok kind_matches_source details_ok optional
    same_identity same_source_key
child_batch-Sound_example = child_batch-Sound no_uuid two_containers refl
