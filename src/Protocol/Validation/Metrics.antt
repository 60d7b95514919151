-- ===== src/Protocol/Validation/Metrics.antt =====
-- `extended` and `metrics`: the limits on a sample, one test for each group of its fields.
use hope.Base.{
  String, Bool, not, ◌&&◌, Option, List, map, float, leb, ◌==◌, length, all, codes, byte_len,
}
use hope.Protocol.Types.{
  Metrics, SystemUptime, LoadAverage, Temperature, DiskIo, StoragePool, ServiceUnit, ServiceSummary,
  Container, ContainerNetwork, ContainerPort, MonitorResult, NetworkCounter,
}
use hope.Protocol.Validation.Values.{
  Verdict, require, ◌then_check◌, is_none_or, unwrap_or, is_empty, ten_to, text, number, optional,
  celsius_ok, disks, gpus, unique, ip_ok,
}

unfoldable pub memory_breakdown_ok : Metrics → Bool
memory_breakdown_ok value =
    optional value.memory_cached_bytes (ten_to 18)
    && optional value.memory_zfs_arc_bytes (ten_to 18)
    && optional value.swap_total_bytes (ten_to 18)
    && optional value.swap_used_bytes (unwrap_or value.swap_total_bytes (ten_to 18))

unfoldable pub load_ok : Option LoadAverage → Bool
load_ok value =
    is_none_or
      (λ l. number l.one (ten_to 6) && number l.five (ten_to 6) && number l.fifteen (ten_to 6))
      value

unfoldable pub temperatures_ok : List Temperature → Bool
temperatures_ok values =
    leb (length values) 64
    && unique (map (λ t. t.sensor) values)
    && all
        (λ t.
          not (is_empty t.sensor) && text t.sensor 128 && text t.label 128 && celsius_ok t.celsius)
        values

unfoldable pub disk_io_ok : List DiskIo → Bool
disk_io_ok values =
    leb (length values) 64
    && unique (map (λ d. d.device) values)
    && all
        (λ d.
          not (is_empty d.device)
          && text d.device 128
          && optional d.read_bytes_per_second (ten_to 15)
          && optional d.write_bytes_per_second (ten_to 15)
          && optional d.busy_percent (float 100))
        values

unfoldable pub pool_ok : StoragePool → Bool
pool_ok p =
    not (is_empty p.name)
    && text p.name 128
    && text p.kind 32
    && text p.health 32
    && number p.size_bytes (ten_to 20)
    && number p.allocated_bytes p.size_bytes
    && optional p.read_bytes_per_second (ten_to 15)
    && optional p.write_bytes_per_second (ten_to 15)

unfoldable pub pools_ok : List StoragePool → Bool
pools_ok values = leb (length values) 64 && unique (map (λ p. p.name) values) && all pool_ok values

unfoldable pub service_ok : ServiceUnit → Bool
service_ok u =
    not (is_empty u.name)
    && text u.name 256
    && text u.state 32
    && text u.sub_state 32
    && text u.description 256

unfoldable pub summary_ok : ServiceSummary → Bool
summary_ok s = leb s.total 100_000 && leb s.active s.total && leb s.failed s.total

unfoldable pub services_ok : List ServiceUnit → Option ServiceSummary → Bool
services_ok values summary =
    leb (length values) 128 && all service_ok values && is_none_or summary_ok summary

unfoldable pub container_network_ok : ContainerNetwork → Bool
container_network_ok network =
    not (is_empty network.name)
    && text network.name 128
    && is_none_or (λ value. text value 128) network.network_id
    && is_none_or (λ value. text value 64) network.ipv4
    && is_none_or (λ value. text value 128) network.ipv6
    && is_none_or (λ value. text value 32) network.mac
    && is_none_or ip_ok network.gateway

unfoldable pub container_port_ok : ContainerPort → Bool
container_port_ok port =
    not (is_empty port.protocol)
    && text port.protocol 8
    && is_none_or (λ value. text value 64) port.host_ip

unfoldable pub container_texts_ok : Container → Bool
container_texts_ok container =
    not (is_empty container.id)
    && text container.id 128
    && not (is_empty container.name)
    && text container.name 256
    && not (is_empty container.image)
    && text container.image 512
    && text container.state 32
    && text container.status 256
    && text container.ports 512

unfoldable pub container_details_ok : Container → Bool
container_details_ok container =
    is_none_or (λ value. number value (float 4_102_444_800)) container.created_at
    && is_none_or (λ value. text value 32) container.health
    && is_none_or (λ value. text value 128) container.compose_project
    && is_none_or (λ value. text value 128) container.compose_service
    && leb (length container.networks) 16
    && all container_network_ok container.networks
    && leb (length container.published_ports) 64
    && all container_port_ok container.published_ports
    && is_none_or (λ value. leb value 1_000_000_000) container.restart_count

unfoldable pub container_gauges_ok : Container → Bool
container_gauges_ok container =
    optional container.cpu_percent (ten_to 6)
    && optional container.cpu_capacity_cores (float 65_536)
    && optional container.memory_used_bytes (ten_to 18)
    && optional container.memory_limit_bytes (ten_to 18)
    && optional container.memory_percent (ten_to 6)
    && optional container.network_rx_bytes (ten_to 18)
    && optional container.network_tx_bytes (ten_to 18)
    && optional container.block_read_bytes (ten_to 18)
    && optional container.block_write_bytes (ten_to 18)

unfoldable pub container_ok : Container → Bool
container_ok container =
    container_texts_ok container && container_details_ok container && container_gauges_ok container

unfoldable pub containers_ok : List Container → Bool
containers_ok values =
    leb (length values) 128 && unique (map (λ c. c.id) values) && all container_ok values

unfoldable pub monitors_ok : List MonitorResult → Bool
monitors_ok values =
    leb (length values) 32
    && unique (map (λ m. m.target) values)
    && all
        (λ m.
          not (is_empty m.target)
          && text m.target 255
          && text m.kind 16
          && optional m.latency_ms (ten_to 9)
          && is_none_or (λ d. text d 256) m.detail)
        values

unfoldable pub extended : Metrics → Verdict
extended value =
    require (memory_breakdown_ok value) "Memory breakdown contains invalid values"
    then_check require (load_ok value.load_average) "Load average contains invalid values"
    then_check require (temperatures_ok value.temperatures) "Invalid temperature readings"
    then_check require (disk_io_ok value.disk_io) "Invalid device throughput"
    then_check require (pools_ok value.pools) "Invalid storage pools"
    then_check require (services_ok value.services value.service_summary) "Invalid service units"
    then_check require (containers_ok value.containers) "Invalid containers"
    then_check require (monitors_ok value.monitors) "Invalid monitor results"

unfoldable pub interfaces_ok : List NetworkCounter → Bool
interfaces_ok values =
    leb (length values) 128
    && all
        (λ i.
          text i.name 128
          && number i.received_bytes (ten_to 20)
          && number i.transmitted_bytes (ten_to 20)
          && optional i.rx_bytes_per_second (ten_to 15)
          && optional i.tx_bytes_per_second (ten_to 15))
        values

unfoldable pub core_ok : Metrics → Bool
core_ok value =
    optional value.cpu_percent (float 100)
    && optional value.memory_total_bytes (ten_to 18)
    && optional value.memory_used_bytes (unwrap_or value.memory_total_bytes (ten_to 18))
    && optional value.network_rx_bytes_per_second (ten_to 15)
    && optional value.network_tx_bytes_per_second (ten_to 15)
    && optional value.disk_read_bytes_per_second (ten_to 15)
    && optional value.disk_write_bytes_per_second (ten_to 15)
    && disks value.disks
    && gpus value.gpus

module _ (is_uuid : String → Bool) where
  unfoldable pub uptime_ok : SystemUptime → Bool
  uptime_ok uptime =
      number uptime.seconds (ten_to 12)
      && optional uptime.boot_time (ten_to 12)
      && is_none_or (λ id. (byte_len (codes id) == 36) && is_uuid id) uptime.boot_id

  unfoldable pub metrics : Metrics → Verdict
  metrics value =
      require (is_none_or uptime_ok value.system_uptime) "Invalid system uptime"
      then_check extended value
      then_check require (interfaces_ok value.network_interfaces) "Invalid interface counters"
      then_check require (core_ok value) "Metrics contain invalid values"
