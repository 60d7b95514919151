-- ===== src/Server/Notify/Arrival.antt =====
-- hope-server/src/notify.rs, `new_device`: a device that a scan sees for the first time.
use Prim.Native.String.{◌++◌}
use hope.Base.{
  String, Bool, false, not, ◌||◌, Option, none, some, List, [], ◌∷◌, F64, str_eq, or_default,
  if◌then◌else◌,
}
use hope.Protocol.Types.{Host}
use hope.Server.Outbox.{NotificationSettings, Message, Outbox, Calls, enqueue}

abbrev first_of : List String → Option String
first_of [] = none
first_of (a ∷ as_) = some a

-- `join(", ")` of the vendor and the hardware address, where they are known.
abbrev detail_of : Option String → Option String → String
detail_of none none = ""
detail_of none (some mac) = mac
detail_of (some vendor) none = vendor
detail_of (some vendor) (some mac) = vendor ++ (", " ++ mac)

abbrev arrival_body : String → String → String
arrival_body address detail =
    if str_eq detail ""
    then address ++ " joined a monitored range."
    else address ++ (" (" ++ (detail ++ ") joined a monitored range."))

abbrev arrival : Host → Message
arrival host = record {
  title = "New device on your network: " ++ host.name;
  body =
      arrival_body (or_default "" (first_of host.addresses))
        (detail_of host.vendor (first_of host.macs));
  priority = 3;
  tags = "new";
  host_id = some host.id;
}

abbrev after_enqueue : Outbox → Option (Outbox × Bool) → Outbox
after_enqueue box none = box
after_enqueue box (some told) = told.0

-- `settings` is `none` where they cannot be read, `scanned_before` whether a scan of the range has
-- completed; a message that cannot be queued is only logged.
unfoldable pub new_device :
    Calls → Option NotificationSettings → Bool → Host → F64 → Outbox → Outbox
unfolding enqueue
new_device calls none scanned_before host now box = box
new_device calls (some s) scanned_before host now box =
    if not s.ntfy_enabled || not s.notify_new_devices || not scanned_before
    then box
    else after_enqueue box
        (enqueue calls s (host.id ++ ":new_device") "new_device" false (arrival host) now box)
