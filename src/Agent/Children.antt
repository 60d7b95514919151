-- ===== src/Agent/Children.antt =====
-- hope-agent/src/reporting.rs, `ChildSchedule`: when the containers and guests of a source are
-- reported, under which numbers, and in how many batches. The map of counters is an association
-- list. The sizes of JSON texts, their parsers, and new random identities are parameters.
pub mod Chunks
pub mod Reported
use Prim.Native.String.{◌++◌}
use mathlib.Core.List.{◌++◌ as ◌+++◌}
use hope.Base.{
  ℕ, zero, suc, ◌+◌, ◌-◌, ◌*◌, ◌%◌, ◌^◌, String, Bool, true, false, not, ◌&&◌, ◌||◌, Option, none,
  some, List, [], ◌∷◌, F64, finite, pos, float, is_finite, f64_lt, f64_le, f64_sub, str_eq, ltb,
  leb, ◌==◌, length, filter, all, u64_max, i64_max, if◌then◌else◌, or_default,
}
use hope.Protocol.Types.{
  ChildSourceKind, ChildDeviceReport, ChildReportBatch, LegacySourceIdentity, ProxmoxGuestPresence,
  max_agent_report_bytes, schema_version_number,
}
use hope.Agent.Queue.{◌>>=◌}
use hope.Agent.Delivery.{or_else}

pub record ChildSnapshot : Type 0 where
  pub source : ChildSourceKind
  pub source_scope : String
  pub source_token : Option String
  pub legacy_source_scope : Option String
  pub legacy_identities : List LegacySourceIdentity
  pub proxmox_guest_presence : Option (List ProxmoxGuestPresence)
  pub observed_at : F64
  pub devices : List ChildDeviceReport
  pub inventory_complete : Bool

pub record ChildCounters : Type 0 where
  pub sequence : ℕ
  pub generation : ℕ
  pub last_inventory_at : F64
  pub last_report_at : F64

abbrev pub new_counters : ChildCounters
new_counters = record {
  sequence = 0;
  generation = 0;
  last_inventory_at = float 0;
  last_report_at = float 0;
}

pub record ChildSchedule : Type 0 where
  pub counters : List (String × ChildCounters)
  pub disabled : Bool

abbrev pub new_schedule : ChildSchedule
new_schedule = record { counters = []; disabled = false }

abbrev pub disabled_schedule : ChildSchedule
disabled_schedule = record { counters = []; disabled = true }

-- child-sequence.json: absent, not readable, or its bytes.
pub data ScheduleFile : Type 0 where
  absent unreadable : ScheduleFile
  bytes : List ℕ → ScheduleFile

-- serde_json at the two types that the file may hold.
pub record ScheduleJson : Type 0 where
  pub schedule : List ℕ → Option ChildSchedule
  pub counters : List ℕ → Option ChildCounters

unfoldable pub counters_ok : ChildCounters → Bool
counters_ok c =
    is_finite c.last_inventory_at
    && is_finite c.last_report_at
    && leb c.sequence i64_max
    && leb c.generation i64_max

abbrev legacy_schedule : Option ChildCounters → ChildSchedule
legacy_schedule none = disabled_schedule
legacy_schedule (some c) =
    if counters_ok c
    then record { counters = ("*", c) ∷ []; disabled = false }
    else disabled_schedule

abbrev read_schedule : Option ChildCounters → Option ChildSchedule → ChildSchedule
read_schedule legacy none = legacy_schedule legacy
read_schedule legacy (some s) =
    if all (λ entry. counters_ok entry.1) s.counters then s else legacy_schedule legacy

unfoldable pub load_schedule : ScheduleJson → ScheduleFile → ChildSchedule
unfolding counters_ok
load_schedule json absent = new_schedule
load_schedule json unreadable = disabled_schedule
load_schedule json (bytes bs) = read_schedule (json.counters bs) (json.schedule bs)

abbrev pub lookup : String → List (String × ChildCounters) → Option ChildCounters
lookup key [] = none
lookup key ((k, c) ∷ rest) = if str_eq k key then some c else lookup key rest

-- `HashMap::insert`, after `remove("*")`.
abbrev pub replace :
    String → ChildCounters → List (String × ChildCounters) → List (String × ChildCounters)
replace key c counters =
    (key, c) ∷ filter (λ entry. not (str_eq entry.0 "*") && not (str_eq entry.0 key)) counters

abbrev source_name : ChildSourceKind → String
source_name ChildSourceKind.docker = "Docker"
source_name ChildSourceKind.proxmox = "Proxmox"

unfoldable pub source_key : ChildSourceKind → String → String
source_key source scope = source_name source ++ (":" ++ scope)

unfoldable pub counters_of : String → ChildSchedule → ChildCounters
unfolding or_else
counters_of key s =
    or_default new_counters (or_else (lookup key s.counters) (lookup "*" s.counters))

unfoldable pub checked_add : ℕ → ℕ → Option ℕ
checked_add a b = if leb (a + b) u64_max then some (a + b) else none

-- `== 0.0`
unfoldable pub is_zero : F64 → Bool
is_zero (finite (pos n)) = n == 0
is_zero _ = false

-- `as u32`
unfoldable pub u32 : ℕ → ℕ
u32 n = n % 2 ^ 32

-- Sizes of JSON texts, `none` where the value cannot be written.
pub record Sizes : Type 0 where
  pub batch : ChildReportBatch → Option ℕ
  pub device : ChildDeviceReport → Option ℕ

-- New identities: of the inventory, of the group of several batches, and of each batch.
pub record Names : Type 0 where
  pub inventory : String
  pub group : String
  pub batch : ℕ → String

abbrev pub no_devices : List ChildDeviceReport → Bool
no_devices [] = true
no_devices (d ∷ ds) = false

-- The comma before a further device.
abbrev pub comma : List ChildDeviceReport → ℕ
comma current = if no_devices current then 0 else 1

-- One of several batches.
unfoldable pub part_of :
    ChildReportBatch
    → Names
    → Option String
    → Bool
    → ℕ
    → ℕ
    → ℕ
    → List ChildDeviceReport
    → ChildReportBatch
unfolding u32
part_of template names group complete count index sequence ds = record template {
  batch_id = names.batch index;
  sequence = sequence;
  chunk_index = u32 index;
  chunk_count = u32 count;
  inventory_id = group;
  complete = complete && (suc index == u32 count);
  devices = ds;
}

module _ (sizes : Sizes) where
  -- The devices of each batch: the current one, its size, and those that follow.
  unfoldable pub chunks :
      ℕ
      → List ChildDeviceReport
      → ℕ
      → List ChildDeviceReport
      → Option (List (List ChildDeviceReport))
  chunks base current size [] = some (current ∷ [])
  chunks base current size (d ∷ ds) = elim (sizes.device d) [
    | none ↦ none
    | some n ↦
        let split = chunks base (d ∷ []) (base + n) ds >>= (λ rest. some (current ∷ rest)) in
        let more = chunks base (current +++ (d ∷ [])) (size + n + comma current) ds in
        if ltb max_agent_report_bytes (size + (n + comma current))
        then (if no_devices current || ltb max_agent_report_bytes (base + n) then none else split)
        else more
  ]

  -- The batches, numbered: the index of the first, the number of all, and the first sequence.
  unfoldable pub number_parts :
      ChildReportBatch
      → Names
      → Option String
      → Bool
      → ℕ
      → ℕ
      → ℕ
      → List (List ChildDeviceReport)
      → Option (List ChildReportBatch)
  unfolding checked_add part_of
  number_parts template names group complete first count index [] = some []
  number_parts template names group complete first count index (ds ∷ rest) = do
    sequence ← checked_add first index
    let part = part_of template names group complete count index sequence ds
    size ← sizes.batch part
    parts ← number_parts template names group complete first count (suc index) rest
    if ltb max_agent_report_bytes size then none else some (part ∷ parts)

-- The counters of a batch that is due, and whether the whole inventory is.
abbrev pub inventory_due : F64 → ChildCounters → Bool
inventory_due at c =
    is_zero c.last_inventory_at || f64_le (float 60) (f64_sub at c.last_inventory_at)

abbrev pub renewed : F64 → ChildCounters → Option ChildCounters
renewed at c = do
  generation ← checked_add c.generation 1
  some (record c { generation = generation; last_inventory_at = at })

abbrev pub next_counters : F64 → ChildCounters → Option ChildCounters
next_counters at c = do
  next ← if inventory_due at c then renewed at c else some c
  some (record next { last_report_at = at })

abbrev pub too_soon : F64 → ChildCounters → Bool
too_soon at c = f64_lt (float 0) c.last_report_at && f64_lt (f64_sub at c.last_report_at) (float 30)

abbrev pub first_batch : ChildSnapshot → String → Names → Bool → Bool → ℕ → ℕ → ChildReportBatch
first_batch snapshot agent_id names due complete first generation = record {
  schema_version = schema_version_number;
  batch_id = names.batch 0;
  agent_id = agent_id;
  source = snapshot.source;
  source_scope = snapshot.source_scope;
  source_token = snapshot.source_token;
  legacy_source_scope = snapshot.legacy_source_scope;
  legacy_identities = snapshot.legacy_identities;
  proxmox_guest_presence = snapshot.proxmox_guest_presence;
  sequence = first;
  inventory_generation = generation;
  inventory_id = if due then some names.inventory else none;
  chunk_index = 0;
  chunk_count = 512;
  complete = complete;
  observed_at = snapshot.observed_at;
  devices = [];
}

-- The batch as it is sized: with the longest numbers.
abbrev pub sizing : ChildReportBatch → ChildReportBatch
sizing batch = record batch {
  sequence = i64_max;
  inventory_generation = i64_max;
  chunk_index = 511;
  chunk_count = 512;
}

abbrev pub group_id : Option String → Names → ℕ → Option String
group_id (some inventory) names count = some inventory
group_id none names count = if ltb 1 count then some names.group else none

module _ (sizes : Sizes) where
  -- The batches of a snapshot whose counters are `next` now.
  unfoldable pub batches_of :
      ChildSnapshot → String → Names → Bool → ℕ → ChildCounters → Option (List ChildReportBatch)
  unfolding chunks number_parts
  batches_of snapshot agent_id names due first next = do
    let complete = due && snapshot.inventory_complete
    let template = first_batch snapshot agent_id names due complete first next.generation
    base ← sizes.batch (sizing template)
    groups ← chunks sizes base [] base snapshot.devices
    let group = group_id template.inventory_id names (length groups)
    number_parts sizes template names group complete first (length groups) 0 groups

  -- `ChildSchedule::batch`; `none` changes nothing.
  unfoldable pub batch :
      ChildSnapshot
      → String
      → F64
      → Names
      → ChildSchedule
      → Option (List ChildReportBatch × ChildSchedule)
  unfolding counters_of checked_add is_zero batches_of source_key
  batch snapshot agent_id at names s =
      let key = source_key snapshot.source snapshot.source_scope in
      let old = counters_of key s in
      if s.disabled || too_soon at old then none else do
        first ← checked_add old.sequence 1
        next ← next_counters at old
        parts ← batches_of snapshot agent_id names (inventory_due at old) first next
        last ← checked_add first (length parts - 1)
        some (
          parts,
          record s { counters = replace key (record next { sequence = last }) s.counters },
        )
