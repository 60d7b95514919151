-- ===== src/Protocol/Validation/Batch/Device.antt =====
-- The loop of `child_batch` in hope-protocol/src/validation.rs over the devices of a batch.
use hope.Base.{
  Bool, true, false, not, ◌&&◌, ◌||◌, List, [], ◌∷◌, float, str_eq, leb, length, all, any, i64_max,
}
use hope.Protocol.Types.{
  ChildSourceKind, ChildDeviceKind, DeviceLifecycle, ContainerPort, GuestOsMetadata,
  GuestFilesystem, GuestNetworkConfiguration, GuestDiskConfiguration, ChildMetrics,
  ChildDeviceReport, ChildReportBatch,
}
use hope.Protocol.Validation.Values.{
  is_none_or, is_empty, is_some, ten_to, text, number, optional, mac_ok, ip_ok,
}
use hope.Protocol.Validation.Inventory.{interface_ok}

abbrev pub same_kind : ChildDeviceKind → ChildDeviceKind → Bool
same_kind ChildDeviceKind.docker_container ChildDeviceKind.docker_container = true
same_kind ChildDeviceKind.proxmox_vm ChildDeviceKind.proxmox_vm = true
same_kind ChildDeviceKind.proxmox_lxc ChildDeviceKind.proxmox_lxc = true
same_kind _ _ = false

-- Each element could be inserted into the set of those before it.
abbrev pub distinct_by {ℓ} : {A : Type ℓ} → (A → A → Bool) → List A → List A → Bool
distinct_by same seen [] = true
distinct_by same seen (x ∷ xs) = not (any (same x) seen) && distinct_by same (x ∷ seen) xs

unfoldable pub kind_matches_source : ChildSourceKind → ChildDeviceKind → Bool
kind_matches_source ChildSourceKind.docker ChildDeviceKind.docker_container = true
kind_matches_source ChildSourceKind.docker _ = false
kind_matches_source ChildSourceKind.proxmox _ = true

unfoldable pub same_identity : ChildDeviceReport → ChildDeviceReport → Bool
same_identity a b =
    same_kind a.identity.kind b.identity.kind
    && str_eq a.identity.scope b.identity.scope
    && str_eq a.identity.key b.identity.key
    && str_eq a.identity.incarnation b.identity.incarnation

unfoldable pub same_source_key : ChildDeviceReport → ChildDeviceReport → Bool
same_source_key a b =
    same_kind a.identity.kind b.identity.kind && str_eq a.identity.key b.identity.key

-- A lifecycle that an agent may report.
abbrev reported : DeviceLifecycle → Bool
reported DeviceLifecycle.archived = false
reported _ = true

guest_os_ok : GuestOsMetadata → Bool
guest_os_ok os =
    is_none_or (λ v. text v 255) os.hostname
    && is_none_or (λ v. text v 255) os.name
    && is_none_or (λ v. text v 255) os.kernel_release
    && number os.observed_at (float 4_102_444_800)

filesystem_ok : GuestFilesystem → Bool
filesystem_ok f =
    text f.mountpoint 4096
    && not (is_empty f.mountpoint)
    && is_none_or (λ v. text v 128) f.filesystem_type
    && number f.total_bytes (ten_to 18)
    && number f.used_bytes f.total_bytes
    && number f.observed_at (float 4_102_444_800)

network_ok : GuestNetworkConfiguration → Bool
network_ok n =
    text n.name 128
    && not (is_empty n.name)
    && is_none_or (λ v. text v 128) n.bridge
    && is_none_or (λ v. text v 64) n.model
    && is_none_or mac_ok n.mac

disk_configuration_ok : GuestDiskConfiguration → Bool
disk_configuration_ok d =
    text d.name 128
    && not (is_empty d.name)
    && is_none_or (λ v. text v 128) d.storage
    && is_none_or (λ v. text v 255) d.volume
    && optional d.size_bytes (ten_to 18)

port_ok : ContainerPort → Bool
port_ok p =
    (str_eq p.protocol "tcp" || str_eq p.protocol "udp" || str_eq p.protocol "sctp")
    && is_none_or ip_ok p.host_ip

child_metrics_ok : ChildMetrics → Bool
child_metrics_ok m =
    optional m.cpu_percent (float 100_000)
    && optional m.cpu_capacity_cores (float 65_536)
    && optional m.memory_used_bytes (ten_to 18)
    && optional m.memory_total_bytes (ten_to 18)
    && optional m.disk_used_bytes (ten_to 18)
    && optional m.disk_total_bytes (ten_to 18)
    && optional m.disk_read_bytes (ten_to 20)
    && optional m.disk_write_bytes (ten_to 20)
    && optional m.disk_read_bytes_per_second (ten_to 15)
    && optional m.disk_write_bytes_per_second (ten_to 15)
    && optional m.uptime_seconds (ten_to 12)
    && optional m.network_rx_bytes_per_second (ten_to 15)
    && optional m.network_tx_bytes_per_second (ten_to 15)
    && optional m.network_rx_bytes (ten_to 20)
    && optional m.network_tx_bytes (ten_to 20)

-- Where the device is from, and what maps it to an older identity.
unfoldable pub origin_ok : ChildReportBatch → ChildDeviceReport → Bool
unfolding kind_matches_source
origin_ok value device =
    kind_matches_source value.source device.identity.kind
    && str_eq device.identity.scope value.source_scope
    && not (is_empty device.identity.key)
    && text device.identity.key 256
    && not (is_empty device.identity.incarnation)
    && text device.identity.incarnation 128
    && is_none_or (λ g. leb g i64_max) device.ownership_generation
    && is_none_or (λ i. not (is_empty i) && text i 128) device.legacy_incarnation
    && (not (is_some device.legacy_incarnation) || is_some value.legacy_source_scope)

unfoldable pub details_ok : ChildDeviceReport → Bool
unfolding guest_os_ok filesystem_ok network_ok disk_configuration_ok port_ok child_metrics_ok
details_ok device =
    not (is_empty device.name)
    && text device.name 256
    && reported device.lifecycle
    && is_none_or (λ v. text v 256) device.status
    && is_none_or (λ v. text v 32) device.health
    && is_none_or (λ v. leb v 1_000_000_000) device.restart_count
    && is_none_or (λ v. not (is_empty v) && text v 256) device.parent_key
    && is_none_or (λ v. text v 128) device.node
    && leb (length device.tags) 64
    && all (λ tag. text tag 128) device.tags
    && leb (length device.interfaces) 32
    && all (interface_ok 32) device.interfaces
    && is_none_or guest_os_ok device.guest_os
    && leb (length device.guest_filesystems) 128
    && all filesystem_ok device.guest_filesystems
    && leb (length device.network_configuration) 32
    && all network_ok device.network_configuration
    && leb (length device.disk_configuration) 64
    && all disk_configuration_ok device.disk_configuration
    && optional device.cpu_cores (float 65_536)
    && optional device.memory_bytes (ten_to 18)
    && is_none_or (λ v. text v 512) device.image
    && is_none_or (λ v. text v 128) device.compose_project
    && is_none_or (λ v. text v 128) device.compose_service
    && leb (length device.published_ports) 128
    && all port_ok device.published_ports
    && child_metrics_ok device.metrics

unfoldable pub devices_ok : ChildReportBatch → List ChildDeviceReport → Bool
unfolding origin_ok details_ok same_identity same_source_key
devices_ok value devices =
    all (λ device. origin_ok value device && details_ok device) devices
    && distinct_by same_identity [] devices
    && distinct_by same_source_key [] devices
