-- ===== src/Server/Children.antt =====
-- hope-server/src/source_ingestion.rs: the tables that a batch of child devices is stored in, the
-- scopes that several agents share, the order of batches, and when an inventory is whole. A
-- sequence that stands in the ledger twice is excluded by the heads.
pub mod Legacy
pub mod Devices
pub mod Relationships
pub mod Handler
pub mod Complete
pub mod Kept
pub mod Written
pub mod Archived
pub mod Named
pub mod Received
pub mod Shares
pub mod Ordered
pub mod Scheduled
use hope.Base.{
  ℕ, zero, suc, ◌+◌, ◌-◌, String, Bool, true, false, not, ◌&&◌, ◌||◌, Option, none, some, List, [],
  ◌∷◌, ◌++◌, F64, str_eq, ltb, leb, ◌==◌, length, filter, find, all, any, map, min, max, codes,
  byte_len, is_hex_digit, if◌then◌else◌,
}
use hope.Protocol.Types.{
  ChildSourceKind, ChildDeviceKind, ChildDeviceReport, ChildMetrics, ChildReportBatch,
  DeviceLifecycle, RelationshipKind,
}
use hope.Server.Database.{is_text}
use hope.Server.Errors.{ApiError, bad}

abbrev pub same_source : ChildSourceKind → ChildSourceKind → Bool
same_source ChildSourceKind.docker ChildSourceKind.docker = true
same_source ChildSourceKind.proxmox ChildSourceKind.proxmox = true
same_source _ _ = false

-- A row of `shared_source_scopes`.
pub record SharedScope : Type 0 where
  pub source : ChildSourceKind
  pub source_scope : String
  pub token_hash : String

-- A row of `shared_source_members`.
pub record Member : Type 0 where
  pub source : ChildSourceKind
  pub source_scope : String
  pub agent_id : String

-- A row of `child_batches`.
pub record BatchRow : Type 0 where
  pub batch_id : String
  pub parent_agent_id : String
  pub source : ChildSourceKind
  pub source_scope : String
  pub sequence : ℕ
  pub inventory_generation : ℕ
  pub inventory_id : Option String
  pub chunk_index : ℕ
  pub chunk_count : ℕ

-- A row of `child_batch_heads`.
pub record BatchHead : Type 0 where
  pub parent_agent_id : String
  pub source : ChildSourceKind
  pub source_scope : String
  pub sequence : ℕ
  pub inventory_generation : ℕ
  pub observed_at : F64
  pub complete_generation : ℕ
  pub complete_observed_at : Option F64

-- A row of `source_devices`.
pub record SourceDevice : Type 0 where
  pub id : String
  pub parent_agent_id : String
  pub source : ChildSourceKind
  pub source_scope : String
  pub source_key : String
  pub incarnation : String
  pub kind : ChildDeviceKind
  pub host_id : Option String
  pub lifecycle : DeviceLifecycle
  pub name : String
  pub observed_at : F64
  pub inventory_generation : ℕ
  pub ownership_generation : ℕ
  pub missing_complete_count : ℕ
  pub missing_since : Option F64
  pub missing_inventory_generation : ℕ
  pub body : ChildDeviceReport

-- A row of `source_device_identities`.
pub record IdentityRow : Type 0 where
  pub source : ChildSourceKind
  pub identity_owner : String
  pub source_scope : String
  pub source_key : String
  pub incarnation : String
  pub source_device_id : String

-- A row of `pending_legacy_identities`.
pub record PendingIdentity : Type 0 where
  pub source : ChildSourceKind
  pub parent_agent_id : String
  pub legacy_source_device_id : String
  pub source_scope : String
  pub source_key : String
  pub canonical_incarnation : String

-- A row of `device_relationships`.
pub record Relationship : Type 0 where
  pub from_device_id : String
  pub to_device_id : String
  pub kind : RelationshipKind
  pub detail : Option String
  pub source_device_id : String
  pub observed_at : F64

-- A row of `source_metrics`; its resolution is 30.
pub record SourceMetric : Type 0 where
  pub source_device_id : String
  pub report_id : String
  pub observed_at : F64
  pub body : ChildMetrics

-- The tables of devices. Of `retired_devices` there are the ids.
pub record DeviceTables : Type 0 where
  pub devices : List SourceDevice
  pub identities : List IdentityRow
  pub pending : List PendingIdentity
  pub relationships : List Relationship
  pub metrics : List SourceMetric
  pub retired : List String

-- A row of `source_observations`.
pub record Observation : Type 0 where
  pub source_device_id : String
  pub batch_id : String

pub record ChildTables : Type 0 where
  pub scopes : List SharedScope
  pub members : List Member
  pub batches : List BatchRow
  pub heads : List BatchHead
  pub device_tables : DeviceTables
  pub observations : List Observation

-- A row of the batch's reporter, source and scope.
abbrev pub is_head_of : ChildReportBatch → BatchHead → Bool
is_head_of b h =
    str_eq h.parent_agent_id b.agent_id
    && same_source h.source b.source
    && str_eq h.source_scope b.source_scope

unfoldable pub find_head : ChildReportBatch → List BatchHead → Option BatchHead
find_head b heads = find (is_head_of b) heads

abbrev pub is_behind : ChildReportBatch → Option BatchHead → Bool
is_behind b none = false
is_behind b (some h) =
    leb b.sequence h.sequence || ltb b.inventory_generation h.inventory_generation

unfoldable pub out_of_order : ChildReportBatch → List BatchHead → Bool
unfolding find_head
out_of_order b heads = is_behind b (find_head b heads)

-- What an earlier batch of the same identity makes of this one.
pub data Replay : Type 0 where
  new repeated reused : Replay

abbrev pub replay_of : ChildReportBatch → Option BatchRow → Replay
replay_of b none = new
replay_of b (some row) =
    if str_eq row.parent_agent_id b.agent_id
      && str_eq row.source_scope b.source_scope
      && (row.sequence == b.sequence)
    then repeated
    else reused

unfoldable pub replay : ChildReportBatch → List BatchRow → Replay
replay b rows = replay_of b (find (λ r. str_eq r.batch_id b.batch_id) rows)

-- A shared scope that the batch's token opens.
pub data Sharing : Type 0 where
  refused : ApiError → Sharing
  granted : Bool → List SharedScope → List Member → Sharing

abbrev is_scope_of : ChildReportBatch → SharedScope → Bool
is_scope_of b s = same_source s.source b.source && str_eq s.source_scope b.source_scope

abbrev is_member_of : ChildReportBatch → Member → Bool
is_member_of b m =
    same_source m.source b.source
    && str_eq m.source_scope b.source_scope
    && str_eq m.agent_id b.agent_id

-- INSERT OR IGNORE INTO shared_source_members
abbrev joined : ChildReportBatch → List Member → List Member
joined b members =
    if any (is_member_of b) members
    then members
    else members
      ++ (record { source = b.source; source_scope = b.source_scope; agent_id = b.agent_id } ∷ [])

abbrev bound_to : ChildReportBatch → String → Option SharedScope → ChildTables → Sharing
bound_to b token_hash none t =
    granted true
      (t.scopes
        ++ (record { source = b.source; source_scope = b.source_scope; token_hash = token_hash }
            ∷ []))
      (joined b t.members)
bound_to b token_hash (some s) t =
    if str_eq s.token_hash token_hash
    then granted true t.scopes (joined b t.members)
    else refused (bad "Shared source token does not match this cluster")

abbrev share_by : (String → String) → ChildReportBatch → Option String → ChildTables → Sharing
share_by hash b none t = granted false t.scopes t.members
share_by hash b (some token) t =
    if not (byte_len (codes token) == 64) || not (all is_hex_digit (codes token))
    then refused (bad "Invalid shared source token")
    else bound_to b (hash token) (find (is_scope_of b) t.scopes) t

unfoldable pub share : (String → String) → ChildReportBatch → ChildTables → Sharing
share hash b t = share_by hash b b.source_token t

abbrev pub batch_row : ChildReportBatch → BatchRow
batch_row b = record {
  batch_id = b.batch_id;
  parent_agent_id = b.agent_id;
  source = b.source;
  source_scope = b.source_scope;
  sequence = b.sequence;
  inventory_generation = b.inventory_generation;
  inventory_id = b.inventory_id;
  chunk_index = b.chunk_index;
  chunk_count = b.chunk_count;
}

-- The batches of one inventory.
abbrev pub is_chunk_of : ChildReportBatch → String → BatchRow → Bool
is_chunk_of b inventory_id r =
    str_eq r.parent_agent_id b.agent_id
    && same_source r.source b.source
    && str_eq r.source_scope b.source_scope
    && is_text r.inventory_id inventory_id
    && (r.inventory_generation == b.inventory_generation)

abbrev pub chunks_of : ChildReportBatch → String → List BatchRow → List BatchRow
chunks_of b inventory_id rows = filter (is_chunk_of b inventory_id) rows

-- MIN and MAX of a column; of no rows they are NULL.
abbrev pub min_of : List ℕ → Option ℕ
min_of [] = none
min_of (n ∷ ns) = elim (min_of ns) [ none ↦ some n | some m ↦ some (min n m) ]

abbrev pub max_of : List ℕ → Option ℕ
max_of [] = none
max_of (n ∷ ns) = elim (max_of ns) [ none ↦ some n | some m ↦ some (max n m) ]

abbrev pub is_number : ℕ → Option ℕ → Bool
is_number n none = false
is_number n (some m) = m == n

-- As many rows as the batch says, with indexes from 0 to the last one and the same count in each.
-- `chunk_count` is not zero.
unfoldable pub group_complete : ℕ → List BatchRow → Bool
group_complete count rows =
    let indexes = map (λ (r : BatchRow). r.chunk_index) rows in
    let counts = map (λ (r : BatchRow). r.chunk_count) rows in
    (length rows == count)
    && is_number 0 (min_of indexes)
    && is_number (count - 1) (max_of indexes)
    && is_number count (min_of counts)
    && is_number count (max_of counts)

abbrev all_chunks : ChildReportBatch → Option String → List BatchRow → Bool
all_chunks b none rows = (b.chunk_count == 1) && (b.chunk_index == 0)
all_chunks b (some id) rows = group_complete b.chunk_count (chunks_of b id rows)

abbrev is_docker : ChildSourceKind → Bool
is_docker ChildSourceKind.docker = true
is_docker ChildSourceKind.proxmox = false

abbrev is_given {ℓ} : {A : Type ℓ} → Option A → Bool
is_given none = false
is_given (some a) = true

-- The batch makes its inventory whole; of Proxmox, only in a shared scope that says who is there.
unfoldable pub authoritative : Bool → ChildReportBatch → List BatchRow → Bool
unfolding group_complete
authoritative shared b rows =
    b.complete
    && all_chunks b b.inventory_id rows
    && (is_docker b.source || (shared && is_given b.proxmox_guest_presence))
