-- ===== src/Protocol/Validation/Inventory.antt =====
-- `inventory` of hope-protocol/src/validation.rs: the limits of a host's inventory.
use hope.Base.{ℕ, Bool, not, ◌&&◌, leb, length, all}
use hope.Protocol.Types.{Interface, Inventory}
use hope.Protocol.Validation.Values.{
  Verdict, require, ◌then_check◌, is_none_or, is_empty, ten_to, text, number, disks, gpus,
  collectors, mac_ok, ip_ok,
}

-- The test on an interface of the host or of a child; the bound is on its addresses.
unfoldable pub interface_ok : ℕ → Interface → Bool
interface_ok limit i =
    text i.name 128
    && leb (length i.addresses) limit
    && all ip_ok i.addresses
    && is_none_or ip_ok i.gateway
    && is_none_or mac_ok i.mac

unfoldable pub inventory_ok : Inventory → Bool
unfolding interface_ok
inventory_ok value =
    not (is_empty value.hostname)
    && text value.hostname 255
    && text value.os 255
    && text value.architecture 64
    && text value.cpu_model 255
    && leb value.cpu_cores 65536
    && number value.memory_total_bytes (ten_to 18)
    && disks value.disks
    && gpus value.gpus
    && leb (length value.interfaces) 128
    && all (interface_ok 64) value.interfaces

unfoldable pub inventory : Inventory → Verdict
unfolding inventory_ok
inventory value =
    require (inventory_ok value) "Inventory exceeds supported limits or contains invalid values"
    then_check collectors value.collectors
