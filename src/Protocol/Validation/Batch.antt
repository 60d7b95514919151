-- ===== src/Protocol/Validation/Batch.antt =====
-- `child_batch` of hope-protocol/src/validation.rs, up to its devices: the batch itself, the guests
-- it says are present, and the identities it maps. The parser of UUIDs is a parameter.
pub mod Device
pub mod Sound
use hope.Base.{
  ℕ, ◌*◌, ◌^◌, String, Bool, true, false, not, ◌&&◌, ◌||◌, Option, none, some, List, [], ◌∷◌, ◌++◌,
  float, str_eq, ltb, leb, ◌==◌, length, all, any, codes, byte_len, is_hex_digit, parse_unsigned,
  u64_max, i64_max, if◌then◌else◌,
}
use hope.Protocol.Types.{
  ChildSourceKind, ChildDeviceKind, LegacySourceIdentity, ProxmoxGuestPresence, ChildDeviceReport,
  ChildReportBatch,
}
use hope.Protocol.Validation.Values.{
  Verdict, require, ◌then_check◌, is_none_or, is_empty, is_some, text, number,
}
use hope.Protocol.Validation.Batch.Device.{same_kind, distinct_by, devices_ok}

unfoldable pub schema_version : ℕ
schema_version = 1

unfoldable pub token_ok : String → Bool
token_ok token = (byte_len (codes token) == 64) && all is_hex_digit (codes token)

-- Not empty, and within the limit.
unfoldable pub named : String → ℕ → Bool
named value maximum = not (is_empty value) && text value maximum

abbrev is_proxmox : ChildSourceKind → Bool
is_proxmox ChildSourceKind.docker = false
is_proxmox ChildSourceKind.proxmox = true

abbrev is_guest : ChildDeviceKind → Bool
is_guest ChildDeviceKind.docker_container = false
is_guest _ = true

same_member : ProxmoxGuestPresence → ProxmoxGuestPresence → Bool
same_member a b = same_kind a.kind b.kind && str_eq a.key b.key

unfoldable pub presence_ok : ChildReportBatch → List ProxmoxGuestPresence → Bool
unfolding named same_member
presence_ok value members =
    is_proxmox value.source
    && is_some value.source_token
    && leb (length members) 500
    && all
        (λ m.
          is_guest m.kind
          && is_some (parse_unsigned u64_max (codes m.key))
          && named m.key 32
          && is_none_or (λ i. named i 128) m.incarnation)
        members
    && distinct_by same_member [] members

same_legacy : LegacySourceIdentity → LegacySourceIdentity → Bool
same_legacy a b =
    same_kind a.kind b.kind && str_eq a.key b.key && str_eq a.incarnation b.incarnation

unfoldable pub legacy_ok : List LegacySourceIdentity → Bool
unfolding named same_legacy
legacy_ok values =
    all
      (λ l.
        is_guest l.kind
        && named l.key 256
        && named l.incarnation 128
        && named l.canonical_incarnation 128)
      values
    && distinct_by same_legacy [] values

abbrev no_elements {ℓ} : {A : Type ℓ} → List A → Bool
no_elements [] = true
no_elements (x ∷ xs) = false

module _ (is_uuid : String → Bool) where
  unfoldable pub header_ok : ChildReportBatch → Bool
  unfolding named presence_ok schema_version
  header_ok value =
      (value.schema_version == schema_version)
      && is_uuid value.agent_id
      && is_uuid value.batch_id
      && named value.source_scope 128
      && is_none_or token_ok value.source_token
      && is_none_or (λ scope. named scope 128) value.legacy_source_scope
      && leb (length value.legacy_identities) 500
      && (is_some value.legacy_source_scope || no_elements value.legacy_identities)
      && is_none_or (presence_ok value) value.proxmox_guest_presence
      && not (value.sequence == 0)
      && leb value.sequence i64_max
      && not (value.inventory_generation == 0)
      && leb value.inventory_generation i64_max
      && not (value.chunk_count == 0)
      && leb value.chunk_count 512
      && ltb value.chunk_index value.chunk_count
      && is_none_or is_uuid value.inventory_id
      && (is_some value.inventory_id || ((value.chunk_index == 0) && (value.chunk_count == 1)))
      && number value.observed_at (float 4_102_444_800)
      && leb (length value.devices) 512

  unfoldable pub child_batch : ChildReportBatch → Verdict
  child_batch value =
      require (header_ok value) "Invalid child inventory batch"
      then_check require (legacy_ok value.legacy_identities) "Invalid legacy child identity mapping"
      then_check require (devices_ok value value.devices) "Invalid child device inventory"
