-- ===== src/Examples/Children.antt =====
-- Containers, from the agent's schedule to the server's tables.
use hope.Base.{
  ℕ, ◌≤◌, ◌≡◌, refl, String, true, false, none, some, List, [], ◌∷◌, F64, All, float, f64_le,
  f64_lt, f64_sub, ◌-ℤ◌, arith,
}
use mathlib.Core.List.{Memᴰ}
use hope.Protocol.Types.{ChildDeviceReport, ChildReportBatch, ChildSourceKind, DeviceLifecycle}
use hope.Agent.Children.{
  ChildSnapshot, ChildSchedule, Sizes, Names, new_schedule, first_batch, part_of, counters_of,
  too_soon, batch, batches_of, chunks, number_parts, checked_add, is_zero, u32, source_key,
}
use hope.Agent.Children.Reported.{IsReport, batch_lem, key}
use hope.Examples.Protocol.{container, two_containers}
use hope.Examples.Reports.{tables}
use hope.Server.Children.{BatchHead}
use hope.Server.Children.{
  BatchRow, ChildTables, DeviceTables, SourceDevice, batch_row, authoritative, group_complete,
  chunks_of, replay, share, out_of_order, find_head,
}
use hope.Server.Children.Kept.{IsSame, KeepsRows, KeepsDevices}
use hope.Server.Children.Archived.{Absent}
use hope.Server.Children.Received.{Arrival, rounds, received-archived}
use hope.Server.Children.Complete.{AreApart, count_at, authoritative-each}
use hope.Server.Children.Legacy.{Identities}
use hope.Server.Children.Devices.{
  inserted, settle_missing, settle_row, store_device, store_devices, store_row, write_device,
}
use hope.Server.Children.Handler.{put_head, store_batch, take_batch, duplicate}
use hope.Server.Children.Scheduled.{Delivery, done, taken, AreInOrder, IsWithin, batch-AreInOrder}
use hope.Server.Children.Ordered.{IsHead, take_batch-once}
use hope.Server.Database.{find_host}
use hope.Server.Errors.{ok}

abbrev engine : ChildSnapshot
engine = record {
  source = ChildSourceKind.docker;
  source_scope = "engine";
  source_token = none;
  legacy_source_scope = none;
  legacy_identities = [];
  proxmox_guest_presence = none;
  observed_at = float 1000;
  devices = container "c1" ∷ container "c2" ∷ [];
  inventory_complete = true;
}

abbrev sizes : Sizes
sizes = record { batch = λ b. some 1000; device = λ d. some 150_000 }

abbrev fresh_names : Names
fresh_names = record { inventory = "inv"; group = "group"; batch = λ i. "b" }

abbrev template : ChildReportBatch
template = first_batch engine "a" fresh_names true true 1 1

abbrev half : ℕ → ℕ → String → ChildReportBatch
half index sequence name =
    part_of template fresh_names (some "inv") true 2 index sequence (container name ∷ [])

abbrev halves : List ChildReportBatch
halves = half 0 1 "c1" ∷ half 1 2 "c2" ∷ []

abbrev after_report : ChildSchedule
after_report = record {
  counters =
      (
        "Docker:engine",
        record {
          sequence = 2;
          generation = 1;
          last_inventory_at = float 1000;
          last_report_at = float 1000;
        },
      )
      ∷ [];
  disabled = false;
}

batch_lem_example :
    IsReport sizes engine "a"
      (float 1000)
      fresh_names
      (counters_of (key sizes engine "a" (float 1000) fresh_names) new_schedule)
      (counters_of (key sizes engine "a" (float 1000) fresh_names) after_report)
      halves
    × (false ≡ false)
    × (too_soon
          (float 1000)
          (counters_of (key sizes engine "a" (float 1000) fresh_names) new_schedule)
        ≡ false)
unfolding batch batches_of chunks number_parts checked_add counters_of is_zero u32 part_of
    source_key f64_le f64_lt f64_sub
batch_lem_example =
    batch_lem sizes engine "a" (float 1000) fresh_names new_schedule after_report halves
      (omega arith) refl

abbrev ledger : List BatchRow
ledger = batch_row (half 0 1 "c1") ∷ batch_row (half 1 2 "c2") ∷ []

ledger-AreApart : AreApart (chunks_of (half 1 2 "c2") "inv" ledger)
unfolding part_of u32
ledger-AreApart i = ground arith

authoritative-each_example :
    (true ≡ true) × (count_at 0 (chunks_of (half 1 2 "c2") "inv" ledger) ≡ 1)
unfolding part_of u32 authoritative group_complete
authoritative-each_example =
    authoritative-each false (half 1 2 "c2") "inv" ledger 0 refl (omega arith) ledger-AreApart
      (omega arith) refl

abbrev own_ids : Identities
own_ids = record {
  reconcile_maps = λ shared b t. ok t;
  reconcile_shared = λ b d t. ok t;
  merge = λ survivor old parent t. ok t;
  reconcile_sources = λ ids t. ok t;
  new_id = λ batch_id d. "row";
}

abbrev no_tables : ChildTables
no_tables = record {
  scopes = [];
  members = [];
  batches = [];
  heads = [];
  device_tables = record {
    devices = [];
    identities = [];
    pending = [];
    relationships = [];
    metrics = [];
    retired = [];
  };
  observations = [];
}

take_batch-once_example :
    let out = take_batch (λ s. s) own_ids two_containers (tables false) no_tables in
    (out_of_order two_containers no_tables.heads ≡ false)
    × IsHead two_containers out.0 two_containers.sequence two_containers.inventory_generation
    × (take_batch (λ s. s) own_ids two_containers (tables true) out.0 ≡ (out.0, ok duplicate))
unfolding take_batch replay share out_of_order find_host find_head
take_batch-once_example =
    take_batch-once (λ s. s) own_ids two_containers (tables false) (tables true) no_tables refl

abbrev inventory_at : ℕ → String → F64 → List ChildDeviceReport → Arrival
inventory_at number name at devices = record {
  batch = record two_containers {
    batch_id = name;
    sequence = number;
    inventory_generation = number;
    observed_at = at;
    devices = devices;
  };
  db = tables false;
}

-- One container, which three whole inventories do not name then.
abbrev inventories : List Arrival
inventories =
    inventory_at 4 "b4" (float 1400) []
    ∷ inventory_at 3 "b3" (float 1100) []
    ∷ inventory_at 2 "b2" (float 1000) []
    ∷ inventory_at 1 "b1" (float 900) (container "x" ∷ [])
    ∷ []

abbrev gone_container : SourceDevice
gone_container =
    record (inserted (inventory_at 1 "b1" (float 900) []).batch (container "x") "row") {
      lifecycle = DeviceLifecycle.archived;
      missing_complete_count = 3;
      missing_since = some (float 1000);
      missing_inventory_generation = 4;
    }

each_kept :
    (rows whole : List SourceDevice)
    → ((row : SourceDevice) → Memᴰ row rows → Memᴰ row whole)
    → All (λ row. (old : SourceDevice) × Memᴰ old whole × IsSame old row) rows
each_kept [] whole within = tt
each_kept (row ∷ rows) whole within = (
  (
    row,
    within row (Memᴰ.head refl),
    record {
      key = refl;
      incarnation = refl;
      kind = refl;
      lifecycle = refl;
      count = refl;
      since = refl;
      generation = refl;
    },
  ),
  each_kept rows whole (λ old m. within old (Memᴰ.tail m)),
)

own_ids-KeepsDevices : KeepsDevices own_ids
own_ids-KeepsDevices =
    let kept : (t : DeviceTables) → KeepsRows t t =
      λ t. each_kept t.devices t.devices (λ row m. m) in
    record {
      maps = λ shared b t. kept t;
      reconciles = λ b d t. kept t;
      merges = λ survivor old parent t. kept t;
      sources = λ fresh t. kept t;
    }

received-archived_example :
    (n g : ℕ) × (since last : F64) × Absent gone_container
      (rounds (λ s. s) own_ids inventories no_tables)
      n
      g
      since
      last
    × (3 ≤ n)
    × (f64_le (float 300) (f64_sub last since) ≡ true)
unfolding take_batch replay share out_of_order find_host find_head store_batch store_devices
    store_device store_row write_device settle_missing settle_row authoritative put_head f64_le
    f64_lt f64_sub ◌-ℤ◌
received-archived_example =
    received-archived (λ s. s) own_ids inventories no_tables gone_container own_ids-KeepsDevices
      refl tt (Memᴰ.head refl) refl

abbrev no_heads : List BatchHead
no_heads = []

abbrev heads_after : List BatchHead
heads_after = put_head true (half 1 2 "c2") (put_head false (half 0 1 "c1") no_heads)

both : Delivery no_heads halves heads_after
both = taken false (taken true done)

nothing-IsWithin : IsWithin two_containers no_heads 0 0
unfolding find_head
nothing-IsWithin = record { last = λ h e. cc }

batch-AreInOrder_example :
    AreInOrder both
    × IsWithin two_containers heads_after
        (counters_of (key sizes engine "a" (float 1000) fresh_names) after_report).sequence
        (counters_of (key sizes engine "a" (float 1000) fresh_names) after_report).generation
unfolding batch batches_of chunks number_parts checked_add counters_of is_zero u32 part_of
    source_key f64_le f64_lt f64_sub
batch-AreInOrder_example =
    batch-AreInOrder sizes engine "a" (float 1000) fresh_names new_schedule after_report halves
      two_containers no_heads heads_after (omega arith) refl
      (record { agent = refl; source = refl; scope = refl }) nothing-IsWithin both
