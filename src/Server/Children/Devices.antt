-- ===== src/Server/Children/Devices.antt =====
-- hope-server/src/source_ingestion.rs: the rows of the devices of a batch, and what an inventory
-- that is whole says of the devices it does not name.
use hope.Base.{
  ℕ, ◌+◌, String, Bool, true, false, not, ◌&&◌, ◌||◌, Option, none, some, List, [], ◌∷◌, ◌++◌, F64,
  float, f64_le, f64_lt, f64_sub, str_eq, ltb, leb, ◌==◌, filter, find, any, map, min, or_default,
  i64_max, if◌then◌else◌,
}
use hope.Protocol.Types.{
  ChildDeviceKind, ChildDeviceReport, ChildReportBatch, DeviceLifecycle, Host, ProxmoxGuestPresence,
}
use hope.Protocol.Validation.Batch.Device.{same_kind}
use hope.Server.Children.{
  same_source, SourceDevice, SourceMetric, IdentityRow, DeviceTables, Observation, BatchRow,
  chunks_of,
}
use hope.Server.Children.Legacy.{Identities, migrate_shared}
use hope.Server.Errors.{ApiResult, ok, ◌>>=◌}

-- UPDATE source_devices … WHERE id=?
abbrev pub updated : ChildReportBatch → ChildDeviceReport → SourceDevice → SourceDevice
updated b d row = record row {
  parent_agent_id = b.agent_id;
  kind = d.identity.kind;
  lifecycle = d.lifecycle;
  name = d.name;
  observed_at = b.observed_at;
  inventory_generation = b.inventory_generation;
  ownership_generation = or_default 0 d.ownership_generation;
  missing_complete_count = 0;
  missing_since = none;
  missing_inventory_generation = 0;
  body = d;
}

abbrev pub inserted : ChildReportBatch → ChildDeviceReport → String → SourceDevice
inserted b d id = record {
  id = id;
  parent_agent_id = b.agent_id;
  source = b.source;
  source_scope = b.source_scope;
  source_key = d.identity.key;
  incarnation = d.identity.incarnation;
  kind = d.identity.kind;
  host_id = none;
  lifecycle = d.lifecycle;
  name = d.name;
  observed_at = b.observed_at;
  inventory_generation = b.inventory_generation;
  ownership_generation = or_default 0 d.ownership_generation;
  missing_complete_count = 0;
  missing_since = none;
  missing_inventory_generation = 0;
  body = d;
}

-- A later owner, or the same one with what is not older.
abbrev pub is_newer : ChildReportBatch → ChildDeviceReport → Option SourceDevice → Bool
is_newer b d none = true
is_newer b d (some row) =
    ltb row.ownership_generation (or_default 0 d.ownership_generation)
    || ((or_default 0 d.ownership_generation == row.ownership_generation)
        && str_eq row.parent_agent_id b.agent_id
        && f64_le row.observed_at b.observed_at)

abbrev pub with_id : String → SourceDevice → Bool
with_id id row = str_eq row.id id

unfoldable pub write_device :
    ChildReportBatch → ChildDeviceReport → String → List SourceDevice → List SourceDevice
write_device b d id rows =
    if any (with_id id) rows
    then map (λ row. if str_eq row.id id then updated b d row else row) rows
    else rows ++ (inserted b d id ∷ [])

-- The tables, the ids of the keys, the last one first, and the ids that were written.
pub record Stored : Type 0 where
  pub tables : DeviceTables
  pub observations : List Observation
  pub ids : List (String × String)
  pub fresh : List String

abbrev is_observation : String → String → Observation → Bool
is_observation id batch_id o = str_eq o.source_device_id id && str_eq o.batch_id batch_id

-- INSERT OR IGNORE INTO source_observations
abbrev pub observe : String → String → List Observation → List Observation
observe id batch_id rows =
    if any (is_observation id batch_id) rows
    then rows
    else rows ++ (record { source_device_id = id; batch_id = batch_id } ∷ [])

-- Who an identity belongs to.
abbrev pub owner_of : Bool → ChildReportBatch → String
owner_of shared b = if shared then "@shared" else b.agent_id

abbrev is_identity : Bool → ChildReportBatch → ChildDeviceReport → IdentityRow → Bool
is_identity shared b d r =
    same_source r.source b.source
    && str_eq r.identity_owner (owner_of shared b)
    && str_eq r.source_scope b.source_scope
    && str_eq r.source_key d.identity.key
    && str_eq r.incarnation d.identity.incarnation

-- INSERT INTO source_device_identities … ON CONFLICT … DO UPDATE
unfoldable pub put_identity :
    Bool → ChildReportBatch → ChildDeviceReport → String → List IdentityRow → List IdentityRow
put_identity shared b d id rows =
    record {
      source = b.source;
      identity_owner = owner_of shared b;
      source_scope = b.source_scope;
      source_key = d.identity.key;
      incarnation = d.identity.incarnation;
      source_device_id = id;
    }
    ∷ filter (λ r. not (is_identity shared b d r)) rows

abbrev mapped_id : Option IdentityRow → Option String
mapped_id none = none
mapped_id (some r) = some r.source_device_id

abbrev is_natural : ChildReportBatch → ChildDeviceReport → SourceDevice → Bool
is_natural b d row =
    str_eq row.parent_agent_id b.agent_id
    && same_source row.source b.source
    && str_eq row.source_scope b.source_scope
    && str_eq row.source_key d.identity.key
    && str_eq row.incarnation d.identity.incarnation

-- The row by the identity, else by an older identity, else by its natural key.
abbrev pub existing_row :
    ChildReportBatch
    → ChildDeviceReport
    → Option String
    → Option String
    → List SourceDevice
    → Option SourceDevice
existing_row b d (some id) legacy rows = find (with_id id) rows
existing_row b d none (some id) rows = find (with_id id) rows
existing_row b d none none rows = find (is_natural b d) rows

abbrev is_metric : String → String → SourceMetric → Bool
is_metric id report_id row = str_eq row.source_device_id id && str_eq row.report_id report_id

-- INSERT OR IGNORE INTO source_metrics
abbrev put_metric :
    ChildReportBatch → ChildDeviceReport → String → List SourceMetric → List SourceMetric
put_metric b d id rows =
    if any (is_metric id b.batch_id) rows
    then rows
    else rows
      ++ (record {
        source_device_id = id;
        report_id = b.batch_id;
        observed_at = b.observed_at;
        body = d.metrics;
      }
          ∷ [])

module _ (identities : Identities) (shared : Bool) (b : ChildReportBatch) where
  abbrev pub prepared : ChildDeviceReport → DeviceTables → ApiResult DeviceTables
  prepared d t = if shared then identities.reconcile_shared b d t else ok t

  abbrev pub migrated :
      ChildDeviceReport → Option String → DeviceTables → ApiResult (DeviceTables × Option String)
  migrated d mapped t = if shared then migrate_shared identities b d mapped t else ok (t, none)

  abbrev pub row_id : ChildDeviceReport → Option SourceDevice → String
  row_id d none = identities.new_id b.batch_id d
  row_id d (some row) = row.id

  -- The row of a device that is known as `existing`, or not yet.
  unfoldable pub store_row :
      ChildDeviceReport → Option SourceDevice → DeviceTables → Stored → Stored
  unfolding write_device put_identity
  store_row d existing t s =
      let id = row_id d existing in
      let newer = is_newer b d existing in
      record {
        tables = record t {
          devices = if newer then write_device b d id t.devices else t.devices;
          identities = put_identity shared b d id t.identities;
          metrics = put_metric b d id t.metrics;
        };
        observations = observe id b.batch_id s.observations;
        ids = (d.identity.key, id) ∷ s.ids;
        fresh = if newer then id ∷ s.fresh else s.fresh;
      }

  -- One turn of the loop over the devices.
  unfoldable pub store_device : ChildDeviceReport → Stored → ApiResult Stored
  unfolding store_row migrate_shared
  store_device d s = do
    before ← prepared d s.tables
    let mapped = mapped_id (find (is_identity shared b d) before.identities)
    after ← migrated d mapped before
    ok (store_row d (existing_row b d mapped after.1 after.0.devices) after.0 s)

  unfoldable pub store_devices : List ChildDeviceReport → Stored → ApiResult Stored
  unfolding store_device
  store_devices [] s = ok s
  store_devices (d ∷ ds) s = store_device d s >>= store_devices ds

-- The keys and incarnations that an inventory names.
abbrev pub Seen : Type 0
Seen = List (String × String)

abbrev pub observed_in : List BatchRow → String → List Observation → Bool
observed_in chunks id observations =
    any (λ o. str_eq o.source_device_id id && any (λ c. str_eq c.batch_id o.batch_id) chunks)
      observations

abbrev pub seen_by :
    ChildReportBatch → Option String → List BatchRow → List Observation → List SourceDevice → Seen
seen_by b none rows observations devices =
    map (λ (d : ChildDeviceReport). (d.identity.key, d.identity.incarnation)) b.devices
seen_by b (some inventory_id) rows observations devices =
    map (λ (row : SourceDevice). (row.source_key, row.incarnation))
      (filter (λ row. observed_in (chunks_of b inventory_id rows) row.id observations) devices)

abbrev pub is_seen : Seen → String → String → Bool
is_seen seen key incarnation = any (λ pair. str_eq pair.0 key && str_eq pair.1 incarnation) seen

abbrev of_incarnation : Option String → String → Bool
of_incarnation none incarnation = true
of_incarnation (some value) incarnation = str_eq value incarnation

-- A guest that Proxmox says is there.
abbrev pub is_present_guest :
    Option (List ProxmoxGuestPresence) → ChildDeviceKind → String → String → Bool
is_present_guest none kind key incarnation = false
is_present_guest (some members) kind key incarnation =
    any (λ m. same_kind m.kind kind && str_eq m.key key && of_incarnation m.incarnation incarnation)
      members

abbrev seen_lately : F64 → String → Host → Bool
seen_lately at id h = str_eq h.id id && f64_lt (f64_sub at h.last_seen) (float 600)

-- Its host was seen by a scan within ten minutes.
abbrev pub present_elsewhere : List Host → F64 → Option String → Bool
present_elsewhere hosts at none = false
present_elsewhere hosts at (some id) = any (seen_lately at id) hosts

abbrev pub is_archived : DeviceLifecycle → Bool
is_archived DeviceLifecycle.archived = true
is_archived _ = false

-- The rows that the inventory could name.
abbrev pub in_scope : ChildReportBatch → SourceDevice → Bool
in_scope b row =
    str_eq row.parent_agent_id b.agent_id
    && same_source row.source b.source
    && str_eq row.source_scope b.source_scope
    && not (is_archived row.lifecycle)

abbrev pub missed_lifecycle : F64 → List Host → ℕ → F64 → Option String → DeviceLifecycle
missed_lifecycle at hosts count since host_id =
    if leb 3 count
      && f64_le (float 300) (f64_sub at since)
      && not (present_elsewhere hosts at host_id)
    then DeviceLifecycle.archived
    else DeviceLifecycle.stale

-- A row that a further whole inventory does not name; the count stops at the largest i64.
abbrev pub missed_row : ChildReportBatch → List Host → SourceDevice → SourceDevice
missed_row b hosts row =
    let since = or_default b.observed_at row.missing_since in
    let count = min (row.missing_complete_count + 1) i64_max in
    record row {
      lifecycle = missed_lifecycle b.observed_at hosts count since row.host_id;
      missing_complete_count = count;
      missing_since = some since;
      missing_inventory_generation = b.inventory_generation;
    }

-- One turn of the loop over the rows.
unfoldable pub settle_row : ChildReportBatch → List Host → Seen → SourceDevice → SourceDevice
settle_row b hosts seen row =
    if not (in_scope b row)
      || is_seen seen row.source_key row.incarnation
      || is_present_guest b.proxmox_guest_presence row.kind row.source_key row.incarnation
      || leb b.inventory_generation row.missing_inventory_generation
    then row
    else missed_row b hosts row

unfoldable pub settle_missing :
    ChildReportBatch → List Host → Seen → List SourceDevice → List SourceDevice
unfolding settle_row
settle_missing b hosts seen rows = map (settle_row b hosts seen) rows
