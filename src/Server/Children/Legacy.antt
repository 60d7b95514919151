-- ===== src/Server/Children/Legacy.antt =====
-- hope-server/src/source_ingestion.rs: the older rows of a device of a shared scope. What the
-- functions of identity.rs that change the tables do is a parameter; each of them may fail.
use hope.Base.{
  String, Bool, not, ◌&&◌, Option, none, some, List, [], ◌∷◌, ◌++◌, float, f64_le, f64_lt, f64_sub,
  str_eq, filter, find, any, to_ascii_lowercase, if◌then◌else◌,
}
use hope.Protocol.Types.{ChildDeviceReport, ChildReportBatch, GuestNetworkConfiguration, Interface}
use hope.Protocol.Validation.Batch.Device.{same_kind}
use hope.Server.Children.{same_source, SourceDevice, DeviceTables, PendingIdentity}
use hope.Server.Errors.{ApiResult, ok, ◌>>=◌}

-- Before the devices of a batch, before a device of a shared scope, with the surviving and the
-- older id of one device, and at the end.
pub record Identities : Type 0 where
  pub reconcile_maps : Bool → ChildReportBatch → DeviceTables → ApiResult DeviceTables
  pub reconcile_shared :
      ChildReportBatch → ChildDeviceReport → DeviceTables → ApiResult DeviceTables
  pub merge : String → String → String → DeviceTables → ApiResult DeviceTables
  pub reconcile_sources : List String → DeviceTables → ApiResult DeviceTables
  pub new_id : String → ChildDeviceReport → String

abbrev add_mac : Option String → List String → List String
add_mac none rest = rest
add_mac (some mac) rest = to_ascii_lowercase mac ∷ rest

abbrev interface_macs : List Interface → List String
interface_macs [] = []
interface_macs (i ∷ is) = add_mac i.mac (interface_macs is)

abbrev network_macs : List GuestNetworkConfiguration → List String
network_macs [] = []
network_macs (n ∷ ns) = add_mac n.mac (network_macs ns)

abbrev macs : ChildDeviceReport → List String
macs d = interface_macs d.interfaces ++ network_macs d.network_configuration

unfoldable pub same_interface_mac : ChildDeviceReport → ChildDeviceReport → Bool
unfolding to_ascii_lowercase
same_interface_mac left right = any (λ mac. any (str_eq mac) (macs left)) (macs right)

abbrev pub is_pending : ChildReportBatch → ChildDeviceReport → PendingIdentity → Bool
is_pending b d p =
    same_source p.source b.source
    && str_eq p.source_scope b.source_scope
    && str_eq p.source_key d.identity.key
    && str_eq p.canonical_incarnation d.identity.incarnation

-- DELETE FROM pending_legacy_identities
abbrev pub drop_pending :
    ChildReportBatch → ChildDeviceReport → PendingIdentity → DeviceTables → DeviceTables
drop_pending b d p t = record t {
  pending =
      filter
        (λ q. not (
          is_pending b d q
          && str_eq q.parent_agent_id p.parent_agent_id
          && str_eq q.legacy_source_device_id p.legacy_source_device_id))
        t.pending;
}

-- The row that a pending identity names.
abbrev pub pending_device :
    ChildReportBatch → ChildDeviceReport → PendingIdentity → DeviceTables → Option SourceDevice
pending_device b d p t =
    find
      (λ (row : SourceDevice).
        str_eq row.id p.legacy_source_device_id
        && str_eq row.parent_agent_id p.parent_agent_id
        && same_source row.source b.source
        && same_kind row.kind d.identity.kind)
      t.devices

-- Older, but not by more than thirty days, and of the same hardware address.
abbrev pub proves_pending : ChildReportBatch → ChildDeviceReport → SourceDevice → Bool
proves_pending b d old =
    not (f64_lt b.observed_at old.observed_at)
    && not (f64_lt (float 2592000) (f64_sub b.observed_at old.observed_at))
    && same_interface_mac d old.body

abbrev is_legacy : ChildReportBatch → ChildDeviceReport → String → String → SourceDevice → Bool
is_legacy b d scope incarnation row =
    str_eq row.parent_agent_id b.agent_id
    && same_source row.source b.source
    && str_eq row.source_scope scope
    && str_eq row.source_key d.identity.key
    && str_eq row.incarnation incarnation
    && same_kind row.kind d.identity.kind

abbrev legacy_row :
    ChildReportBatch
    → ChildDeviceReport
    → Option String
    → Option String
    → DeviceTables
    → Option SourceDevice
legacy_row b d (some scope) (some incarnation) t = find (is_legacy b d scope incarnation) t.devices
legacy_row b d _ _ t = none

abbrev proven : ChildReportBatch → ChildDeviceReport → Option SourceDevice → Option String
proven b d none = none
proven b d (some old) =
    if f64_le (f64_sub b.observed_at old.observed_at) (float 2592000)
      && same_interface_mac d old.body
    then some old.id
    else none

abbrev pub legacy_id :
    ChildReportBatch → ChildDeviceReport → Option String → DeviceTables → Option String
legacy_id b d (some id) t = some id
legacy_id b d none t = proven b d (legacy_row b d b.legacy_source_scope d.legacy_incarnation t)

module _ (identities : Identities) where
  abbrev pub merged : String → String → String → DeviceTables → ApiResult DeviceTables
  merged survivor old parent t =
      if str_eq survivor old then ok t else identities.merge survivor old parent t

  -- Into the row of the identity, else into the first that was found, else it is the first.
  abbrev pub merge_pending :
      Option String
      → Option String
      → PendingIdentity
      → DeviceTables
      → ApiResult (Option String × DeviceTables)
  merge_pending (some canonical) found p t = do
    after ← merged canonical p.legacy_source_device_id p.parent_agent_id t
    ok (found, after)
  merge_pending none (some survivor) p t = do
    after ← merged survivor p.legacy_source_device_id p.parent_agent_id t
    ok (some survivor, after)
  merge_pending none none p t = ok (some p.legacy_source_device_id, t)

  module _ (b : ChildReportBatch) (d : ChildDeviceReport) where
    abbrev pub take_pending :
        Option SourceDevice
        → Option String
        → Option String
        → PendingIdentity
        → DeviceTables
        → ApiResult (Option String × DeviceTables)
    take_pending none mapped found p t = ok (found, drop_pending b d p t)
    take_pending (some old) mapped found p t =
        if not (proves_pending b d old)
        then ok (found, t)
        else do after ← merge_pending mapped found p t; ok (after.0, drop_pending b d p after.1)

    -- The loop over the pending identities.
    unfoldable pub take_all_pending :
        Option String
        → Option String
        → List PendingIdentity
        → DeviceTables
        → ApiResult (Option String × DeviceTables)
    unfolding same_interface_mac
    take_all_pending mapped found [] t = ok (found, t)
    take_all_pending mapped found (p ∷ ps) t = do
      after ← take_pending (pending_device b d p t) mapped found p t
      take_all_pending mapped after.0 ps after.1

    abbrev pub merge_legacy : Option String → Option String → DeviceTables → ApiResult DeviceTables
    merge_legacy (some canonical) (some old) t = merged canonical old b.agent_id t
    merge_legacy _ _ t = ok t

    -- The tables after it, and the older row of the device.
    unfoldable pub migrate_shared :
        Option String → DeviceTables → ApiResult (DeviceTables × Option String)
    unfolding take_all_pending
    migrate_shared mapped t = do
      after ← take_all_pending mapped none (filter (is_pending b d) t.pending) t
      let old = legacy_id b d after.0 after.1
      tables ← merge_legacy mapped old after.1
      ok (tables, old)
