-- ===== src/Protocol/Validation/Groups.antt =====
-- A sample is valid exactly when each group of its fields is.
use hope.Base.{◌≡◌, refl, String, Bool, true, arith, float}
use hope.Protocol.Types.{Metrics, no_metrics}
use hope.Protocol.Validation.Values.{
  valid, is_none_or, unwrap_or, ten_to, optional, disks, gpus, distinct_ids, unique, unique_from,
}
use hope.Protocol.Validation.Metrics.{
  memory_breakdown_ok, load_ok, temperatures_ok, disk_io_ok, pools_ok, services_ok, containers_ok,
  monitors_ok, extended, interfaces_ok, core_ok, uptime_ok, metrics,
}

module _ (is_uuid : String → Bool) where
  pub record IsValid (v : Metrics) : Type 0 where
    pub uptime : is_none_or (uptime_ok is_uuid) v.system_uptime ≡ true
    pub cached : optional v.memory_cached_bytes (ten_to 18) ≡ true
    pub arc : optional v.memory_zfs_arc_bytes (ten_to 18) ≡ true
    pub swap_total : optional v.swap_total_bytes (ten_to 18) ≡ true
    pub swap_used : optional v.swap_used_bytes (unwrap_or v.swap_total_bytes (ten_to 18)) ≡ true
    pub load : load_ok v.load_average ≡ true
    pub temperatures : temperatures_ok v.temperatures ≡ true
    pub disk_io : disk_io_ok v.disk_io ≡ true
    pub pools : pools_ok v.pools ≡ true
    pub services : services_ok v.services v.service_summary ≡ true
    pub containers : containers_ok v.containers ≡ true
    pub monitors : monitors_ok v.monitors ≡ true
    pub interfaces : interfaces_ok v.network_interfaces ≡ true
    pub cpu : optional v.cpu_percent (float 100) ≡ true
    pub memory_total : optional v.memory_total_bytes (ten_to 18) ≡ true
    pub memory_used :
        optional v.memory_used_bytes (unwrap_or v.memory_total_bytes (ten_to 18)) ≡ true
    pub network_rx : optional v.network_rx_bytes_per_second (ten_to 15) ≡ true
    pub network_tx : optional v.network_tx_bytes_per_second (ten_to 15) ≡ true
    pub disk_read : optional v.disk_read_bytes_per_second (ten_to 15) ≡ true
    pub disk_write : optional v.disk_write_bytes_per_second (ten_to 15) ≡ true
    pub filesystems : disks v.disks ≡ true
    pub adapters : gpus v.gpus ≡ true

  pub metrics-IsValid : (v : Metrics) → metrics is_uuid v ≡ valid → IsValid v
  unfolding metrics extended memory_breakdown_ok core_ok
  metrics-IsValid v h = ground arith

  pub IsValid-metrics : (v : Metrics) → IsValid v → metrics is_uuid v ≡ valid
  unfolding metrics extended memory_breakdown_ok core_ok
  IsValid-metrics v h = ground arith

  -- The empty sample is valid.
  pub no_metrics-valid : metrics is_uuid no_metrics ≡ valid
  unfolding metrics extended memory_breakdown_ok core_ok load_ok temperatures_ok disk_io_ok pools_ok
      services_ok containers_ok monitors_ok interfaces_ok optional unique unique_from distinct_ids
      disks gpus
  no_metrics-valid = refl
