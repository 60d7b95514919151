-- ===== src/Server/Children/Received.antt =====
-- A server that receives batches: `take_batch` of Handler.antt, one after the other. What other
-- handlers do to the rows of devices between them (hosts that are merged) is left out.
use hope.Base.{
  ℕ, ◌≤◌, ◌≡◌, refl, sym, ap, subst, ◌∙◌, inl, inr, String, Bool, true, false, not, Option, none,
  some, List, [], ◌∷◌, ◌++◌, F64, float, f64_le, f64_sub, All, all, if◌then◌else◌, if_both,
  and_true, Bool-cases,
}
use mathlib.Core.List.{Memᴰ}
use hope.Protocol.Types.{ChildReportBatch, Host}
use hope.Agent.ChildDelivery.{ChildReportResponse}
use hope.Server.Children.{
  ChildTables, DeviceTables, SourceDevice, Sharing, refused, granted, Replay, new, repeated, reused,
  share, replay, out_of_order, batch_row, authoritative,
}
use hope.Server.Children.Legacy.{Identities}
use hope.Server.Children.Devices.{Seen, Stored, is_archived, seen_by, settle_missing}
use hope.Server.Children.Handler.{committed, in_order, replayed, shared_by, store_batch, take_batch}
use hope.Server.Children.Kept.{
  IsFresh, After, KeepsDevices, All-lookup, All-map, All-weaken, After-bind, all_kept,
}
use hope.Server.Children.Archived.{
  Round, seen_of, Absent, Follows, Follows-IsSame, skipped, settle_row-Follows, told,
}
use hope.Server.Children.Ordered.{is_first}
use hope.Server.Database.{Database, find_host}
use hope.Server.Errors.{ApiResult, ok, err, ◌>>=◌}
use hope.Server.Children.Written.{store_devices-Holds}
use hope.Server.Children.Named.{seen_by-settle_missing}

-- A batch and the other tables at its time.
pub record Arrival : Type 0 where
  pub batch : ChildReportBatch
  pub db : Database

abbrev pub is_granted : Sharing → Bool
is_granted (refused e) = false
is_granted (granted shared scopes members) = shared

-- One round more, when the batch was taken as a new one.
abbrev pub with_round :
    Bool → ChildReportBatch → List Round → ChildTables × ApiResult ChildReportResponse → List Round
with_round shared b es out =
    if is_first out.1 then record { shared = shared; batch = b; after = out.0 } ∷ es else es

module _ (hash : String → String) (identities : Identities) where
  -- The tables after batches, the latest one first.
  abbrev pub received : List Arrival → ChildTables → ChildTables
  received [] t = t
  received (a ∷ earlier) t = (take_batch hash identities a.batch a.db (received earlier t)).0

  -- The batches that were taken as new ones.
  abbrev pub rounds : List Arrival → ChildTables → List Round
  rounds [] t = []
  rounds (a ∷ earlier) t =
      with_round (is_granted (share hash a.batch (received earlier t))) a.batch (rounds earlier t)
        (take_batch hash identities a.batch a.db (received earlier t))

-- No device of the batch is reported as archived; the validation sees to it.
abbrev pub reports_live : Arrival → Bool
reports_live a = all (λ d. not (is_archived d.lifecycle)) a.batch.devices

abbrev Hold : List Round → DeviceTables → Type 0
Hold es t = All (Follows es) t.devices

-- Each row follows the rounds when the batch has been answered.
abbrev AllFollow :
    Bool → ChildReportBatch → List Round → ChildTables × ApiResult ChildReportResponse → Type 0
AllFollow shared b es out = Hold (with_round shared b es out) out.0.device_tables

-- Each row follows the rounds with that of the batch.
abbrev Stores : Bool → ChildReportBatch → List Round → ChildTables → Type 0
Stores shared b es after =
    Hold (record { shared = shared; batch = b; after = after } ∷ es) after.device_tables

module _ (identities : Identities) (keeps : KeepsDevices identities) (b : ChildReportBatch)
    (live : all (λ d. not (is_archived d.lifecycle)) b.devices ≡ true) (es : List Round)
    (shared : Bool) where
  settled-Stores :
      (hosts : List Host) (seen : Seen) (rows : List SourceDevice) (after : ChildTables)
      → All (Follows es) rows
      → (after.device_tables.devices ≡ (
          if authoritative shared b after.batches then settle_missing b hosts seen rows else rows))
      → seen ≡ seen_by b b.inventory_id after.batches after.observations rows
      → Stores shared b es after
  unfolding settle_missing
  settled-Stores hosts seen rows after h is same =
      let e : Round = record { shared = shared; batch = b; after = after } in
      elim (Bool-cases (authoritative shared b after.batches)) [
        | inr part ↦
            subst (All (Follows (e ∷ es))) (sym (is ∙ rw part refl))
              (All-weaken (Follows es) (Follows (e ∷ es)) rows (skipped e es) h)
        | inl whole ↦
            let moved : after.device_tables.devices ≡ settle_missing b hosts seen rows =
              is ∙ rw whole refl in
            let own : seen ≡ seen_of e =
              same
              ∙ seen_by-settle_missing b b b.inventory_id after.batches after.observations hosts
                  seen rows
              ∙ ap (seen_by b b.inventory_id after.batches after.observations) (sym moved) in
            subst (All (Follows (e ∷ es))) (sym moved) (
              All-map (Follows es) (Follows (e ∷ es)) _ rows
                (λ row f. settle_row-Follows hosts seen e es row whole own f) h)
      ]

  module _ (hash : String → String) (parent_host : String) (hosts : List Host)
      (t : ChildTables) where
    reconciled-Stores :
        (stored : Stored)
        → All (Follows es) stored.tables.devices
        → (related : DeviceTables) → related.devices ≡ stored.tables.devices
        → (finish : DeviceTables → ChildTables)
        → ((reconciled : DeviceTables)
            → Hold es reconciled
            → Stores shared b es (finish reconciled))
        → After
            (Stores shared b es)
            (identities.reconcile_sources stored.fresh related >>= (λ r. ok (finish r)))
    reconciled-Stores stored h related same finish stores =
        After-bind (Hold es) (Stores shared b es) _ _
          (all_kept (Follows es) (Follows-IsSame es) related _
            (subst (All (Follows es)) (sym same) h) (keeps.sources stored.fresh related))
          stores

    store_batch-Stores :
        Hold es t.device_tables
        → After (Stores shared b es) (store_batch hash identities shared b parent_host hosts t)
    unfolding store_batch
    store_batch-Stores h =
        let rows = t.batches ++ (batch_row b ∷ []) in
        After-bind (Hold es) (Stores shared b es) _ _
          (all_kept (Follows es) (Follows-IsSame es) t.device_tables _ h
            (keeps.maps shared b t.device_tables))
          (λ mapped m.
            After-bind (λ (a : Stored). Hold es a.tables) (Stores shared b es) _ _
              (store_devices-Holds (Follows es) (Follows-IsSame es) (λ row f. inl f) identities
                keeps shared b b.devices
                (record { tables = mapped; observations = t.observations; ids = []; fresh = [] })
                live m)
              (λ stored s. reconciled-Stores stored s _ refl _ (λ reconciled r.
                settled-Stores hosts
                  (seen_by b b.inventory_id rows stored.observations reconciled.devices)
                  reconciled.devices _ r refl refl)))

  module _ (hash : String → String) (db : Database) (t : ChildTables)
      (h : Hold es t.device_tables) where
    committed-AllFollow :
        (r : ApiResult ChildTables)
        → After (Stores shared b es) r
        → AllFollow shared b es (committed hash identities r t)
    committed-AllFollow (ok after) s = s
    committed-AllFollow (err e) s = h

    in_order-AllFollow :
        (host : Option Host) (opened : ChildTables)
        → Hold es opened.device_tables
        → AllFollow shared b es (in_order hash identities shared b host db opened t)
    in_order-AllFollow none opened o = h
    in_order-AllFollow (some parent) opened o =
        committed-AllFollow _ (store_batch-Stores hash parent.id db.hosts opened o)

    replayed-AllFollow :
        (r : Replay) (opened : ChildTables)
        → Hold es opened.device_tables
        → AllFollow shared b es (replayed hash identities r shared b db opened t)
    replayed-AllFollow repeated opened o = h
    replayed-AllFollow reused opened o = h
    replayed-AllFollow new opened o =
        if_both (AllFollow shared b es) (out_of_order b t.heads) h
          (in_order-AllFollow (find_host b.agent_id db) opened o)

module _ (identities : Identities) (keeps : KeepsDevices identities) (hash : String → String) where
  shared_by-AllFollow :
      (sharing : Sharing) (b : ChildReportBatch) (db : Database) (t : ChildTables) (es : List Round)
      → all (λ d. not (is_archived d.lifecycle)) b.devices ≡ true
      → All (Follows es) t.device_tables.devices
      → AllFollow (is_granted sharing) b es (shared_by hash identities sharing b db t)
  shared_by-AllFollow (refused e) b db t es live h = h
  shared_by-AllFollow (granted shared scopes members) b db t es live h =
      replayed-AllFollow identities keeps b live es shared hash db t h (replay b t.batches)
        (record t { scopes = scopes; members = members }) h

  received-Follows :
      (arrivals : List Arrival) (t : ChildTables)
      → all reports_live arrivals ≡ true
      → All IsFresh t.device_tables.devices
      → All
          (Follows (rounds hash identities arrivals t))
          (received hash identities arrivals t).device_tables.devices
  unfolding take_batch
  received-Follows [] t live fresh = All-weaken IsFresh (Follows []) _ (λ row f. inl f) fresh
  received-Follows (a ∷ earlier) t live fresh =
      let (own, rest) = and_true (reports_live a) _ live in
      let before = received hash identities earlier t in
      shared_by-AllFollow (share hash a.batch before) a.batch a.db before
        (rounds hash identities earlier t) own (received-Follows earlier t rest fresh)

-- A server that starts with devices that no inventory has missed, and receives batches, none of
-- which reports a device as archived, has archived a device only when at least three of the batches
-- that it took as new ones, over five minutes and of rising generations, each made an inventory
-- whole that does not name the device and does not say that it is there. The functions of
-- identity.rs are taken to leave the rows of devices as they are but for their hosts, or to delete
-- them.
pub received-archived :
    (hash : String → String) (identities : Identities) (arrivals : List Arrival) (t : ChildTables)
    (row : SourceDevice)
    → KeepsDevices identities
    → all reports_live arrivals ≡ true
    → All IsFresh t.device_tables.devices
    → Memᴰ row (received hash identities arrivals t).device_tables.devices
    → is_archived row.lifecycle ≡ true
    → (n g : ℕ) × (since last : F64) × Absent row (rounds hash identities arrivals t) n g since last
      × (3 ≤ n)
      × (f64_le (float 300) (f64_sub last since) ≡ true)
received-archived hash identities arrivals t row keeps live fresh there gone =
    let follows =
      All-lookup _ _ row (received-Follows identities keeps hash arrivals t live fresh) there in
    told (rounds hash identities arrivals t) row follows gone
