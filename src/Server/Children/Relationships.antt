-- ===== src/Server/Children/Relationships.antt =====
-- hope-server/src/source_ingestion.rs: where devices run and what they expose, and devices that are
-- no longer retired (state.rs).
use Prim.Native.String.{◌++◌ as ◌joined◌}
use hope.Base.{
  String, Bool, true, false, not, ◌&&◌, ◌||◌, Option, none, some, List, [], ◌∷◌, any, filter, find,
  str_eq, or_default, show_ℕ, if◌then◌else◌,
}
use hope.Protocol.Types.{ChildDeviceReport, ChildReportBatch, ContainerPort, RelationshipKind}
use hope.Server.Children.{SourceDevice, Relationship}
use hope.Server.Children.Devices.{Stored}
use hope.Server.Database.{is_text}

abbrev same_relationship : RelationshipKind → RelationshipKind → Bool
same_relationship RelationshipKind.runs_on RelationshipKind.runs_on = true
same_relationship RelationshipKind.connected_to RelationshipKind.connected_to = true
same_relationship RelationshipKind.exposes_service RelationshipKind.exposes_service = true
same_relationship _ _ = false

abbrev same_primary_key : Relationship → Relationship → Bool
same_primary_key r other =
    str_eq r.from_device_id other.from_device_id
    && str_eq r.to_device_id other.to_device_id
    && same_relationship r.kind other.kind
    && str_eq r.source_device_id other.source_device_id

-- INSERT OR REPLACE INTO device_relationships
abbrev put_relationship : Relationship → List Relationship → List Relationship
put_relationship r rows = r ∷ filter (λ other. not (same_primary_key r other)) rows

abbrev id_of : String → List (String × String) → Option String
id_of key [] = none
id_of key ((k, id) ∷ rest) = if str_eq k key then some id else id_of key rest

abbrev parent_of : Option String → List (String × String) → String → String
parent_of none ids parent_host = parent_host
parent_of (some key) ids parent_host = or_default parent_host (id_of key ids)

abbrev address_of : Option String → String
address_of none = "*"
address_of (some ip) = if str_eq ip "" then "*" else ip

module _ (b : ChildReportBatch) where
  abbrev expose_port : String → String → ContainerPort → List Relationship → List Relationship
  expose_port id parent port rows = elim port.host_port [
    | none ↦ rows
    | some host_port ↦
        put_relationship
          (record {
            from_device_id = id;
            to_device_id = parent;
            kind = RelationshipKind.exposes_service;
            detail = some (
                port.protocol
                joined ("://"
                    joined (address_of port.host_ip
                        joined (":"
                            joined (show_ℕ host_port
                                joined (" → container:" joined show_ℕ port.container_port))))));
            source_device_id = id;
            observed_at = b.observed_at;
          })
          rows
  ]

  unfoldable pub expose_ports :
      String → String → List ContainerPort → List Relationship → List Relationship
  unfolding show_ℕ
  expose_ports id parent [] rows = rows
  expose_ports id parent (port ∷ ports) rows =
      expose_ports id parent ports (expose_port id parent port rows)

  abbrev relate : String → String → List ContainerPort → List Relationship → List Relationship
  relate id parent ports rows = expose_ports id parent ports (
      put_relationship
        (record {
          from_device_id = id;
          to_device_id = parent;
          kind = RelationshipKind.runs_on;
          detail = none;
          source_device_id = id;
          observed_at = b.observed_at;
        })
        (filter (λ (r : Relationship). not (str_eq r.source_device_id id)) rows))

  -- Each key of the batch has an id.
  abbrev relate_device : String → Stored → ChildDeviceReport → List Relationship → List Relationship
  relate_device parent_host s d rows = elim (id_of d.identity.key s.ids) [
    | none ↦ rows
    | some id ↦
        if any (str_eq id) s.fresh
        then relate id (parent_of d.parent_key s.ids parent_host) d.published_ports rows
        else rows
  ]

  -- The second loop over the devices.
  unfoldable pub relate_devices :
      String → Stored → List ChildDeviceReport → List Relationship → List Relationship
  unfolding expose_ports
  relate_devices parent_host s [] rows = rows
  relate_devices parent_host s (d ∷ ds) rows =
      relate_devices parent_host s ds (relate_device parent_host s d rows)

abbrev host_of : String → List SourceDevice → Option String
host_of id devices = elim (find (λ (row : SourceDevice). str_eq row.id id) devices) [
  | none ↦ none
  | some row ↦ row.host_id
]

abbrev pub clear_retired : List SourceDevice → List String → List String → List String
clear_retired devices [] retired = retired
clear_retired devices (id ∷ ids) retired =
    clear_retired devices ids
      (filter (λ device. not (str_eq device id || is_text (host_of id devices) device)) retired)
