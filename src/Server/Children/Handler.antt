-- ===== src/Server/Children/Handler.antt =====
-- The handler `child_report` of hope-server/src/source_ingestion.rs. What other handlers do before
-- it has the lock is a function. What the reconciliation of devices does to hosts is left out.
use hope.Base.{
  String, Bool, true, false, not, ◌&&◌, ◌||◌, Option, none, some, List, [], ◌∷◌, ◌++◌, any, filter,
  max, F64, float, f64_lt, f64_add, f64_sub, str_eq, ltb, length, if◌then◌else◌,
}
use hope.Protocol.Types.{ChildReportBatch, Host, LegacySourceIdentity}
use hope.Protocol.Validation.Values.{Verdict, valid, invalid}
use hope.Protocol.Validation.Batch.{child_batch}
use hope.Agent.ChildDelivery.{ChildReportResponse}
use hope.Server.Children.{
  BatchHead, ChildTables, Replay, new, repeated, reused, Sharing, refused, granted, share, replay,
  out_of_order, is_head_of, find_head, batch_row, authoritative,
}
use hope.Server.Children.Legacy.{Identities}
use hope.Server.Children.Relationships.{relate_devices, clear_retired}
use hope.Server.Children.Devices.{store_devices, settle_missing, seen_by}
use hope.Server.Database.{AgentRow, Database, find_agent, find_host}
use hope.Server.Errors.{
  ApiError, ApiResult, ok, err, bad, unauthorized, agent_revoked, not_found, too_many, ◌>>=◌,
}
use hope.Server.Ingestion.{denied_limiter, report_limiter, bearer, credential_error}
use hope.Server.Limiter.{Keys, check, hit}

abbrev pub duplicate : ChildReportResponse
duplicate = record { accepted = true; duplicate = true }

abbrev pub first_answer : ChildReportResponse
first_answer = record { accepted = true; duplicate = false }

-- INSERT INTO child_batch_heads … ON CONFLICT … DO UPDATE
abbrev pub new_head : Bool → ChildReportBatch → Option BatchHead → BatchHead
new_head whole b none = record {
  parent_agent_id = b.agent_id;
  source = b.source;
  source_scope = b.source_scope;
  sequence = b.sequence;
  inventory_generation = b.inventory_generation;
  observed_at = b.observed_at;
  complete_generation = if whole then b.inventory_generation else 0;
  complete_observed_at = if whole then some b.observed_at else none;
}
new_head whole b (some h) = record h {
  sequence = b.sequence;
  inventory_generation = max h.inventory_generation b.inventory_generation;
  observed_at = b.observed_at;
  complete_generation =
      if whole && ltb 0 b.inventory_generation
      then b.inventory_generation
      else h.complete_generation;
  complete_observed_at =
      if whole && ltb 0 b.inventory_generation then some b.observed_at else h.complete_observed_at;
}

unfoldable pub put_head : Bool → ChildReportBatch → List BatchHead → List BatchHead
unfolding find_head
put_head whole b heads =
    new_head whole b (find_head b heads) ∷ filter (λ h. not (is_head_of b h)) heads

module _ (hash : String → String) (identities : Identities) where
  -- What a batch that is in order writes; the host is that of its reporter.
  unfoldable pub store_batch :
      Bool → ChildReportBatch → String → List Host → ChildTables → ApiResult ChildTables
  unfolding authoritative store_devices settle_missing put_head relate_devices
  store_batch shared b parent_host hosts t = do
    let rows = t.batches ++ (batch_row b ∷ [])
    let whole = authoritative shared b rows
    mapped ← identities.reconcile_maps shared b t.device_tables
    stored ←
        store_devices identities shared b b.devices
          (record { tables = mapped; observations = t.observations; ids = []; fresh = [] })
    let related = record stored.tables {
      relationships = relate_devices b parent_host stored b.devices stored.tables.relationships;
    }
    reconciled ← identities.reconcile_sources stored.fresh related
    let seen = seen_by b b.inventory_id rows stored.observations reconciled.devices
    ok (record t {
      batches = rows;
      heads = put_head whole b t.heads;
      device_tables = record reconciled {
        devices =
            if whole then settle_missing b hosts seen reconciled.devices else reconciled.devices;
        retired = clear_retired reconciled.devices stored.fresh reconciled.retired;
      };
      observations = stored.observations;
    })

  abbrev pub committed :
      ApiResult ChildTables → ChildTables → ChildTables × ApiResult ChildReportResponse
  committed (ok after) t = (after, ok first_answer)
  committed (err e) t = (t, err e)

  abbrev pub in_order :
      Bool
      → ChildReportBatch
      → Option Host
      → Database
      → ChildTables
      → ChildTables
      → ChildTables × ApiResult ChildReportResponse
  in_order shared b none db opened t = (t, err not_found)
  in_order shared b (some h) db opened t = committed (store_batch shared b h.id db.hosts opened) t

  abbrev pub replayed :
      Replay
      → Bool
      → ChildReportBatch
      → Database
      → ChildTables
      → ChildTables
      → ChildTables × ApiResult ChildReportResponse
  replayed repeated shared b db opened t = (t, ok duplicate)
  replayed reused shared b db opened t = (t, err (bad "Child inventory batch identity was reused"))
  replayed new shared b db opened t =
      if out_of_order b t.heads
      then (t, err (bad "Child inventory sequence or generation is out of order"))
      else in_order shared b (find_host b.agent_id db) db opened t

  abbrev pub shared_by :
      Sharing
      → ChildReportBatch
      → Database
      → ChildTables
      → ChildTables × ApiResult ChildReportResponse
  shared_by (refused e) b db t = (t, err e)
  shared_by (granted shared scopes members) b db t =
      replayed (replay b t.batches) shared b db (record t { scopes = scopes; members = members }) t

  -- The transaction; an error leaves the tables as they were.
  unfoldable pub take_batch :
      ChildReportBatch → Database → ChildTables → ChildTables × ApiResult ChildReportResponse
  unfolding share replay out_of_order store_batch find_host
  take_batch b db t = shared_by (share hash b t) b db t

abbrev no_name : String → Bool
no_name name = str_eq name ""

abbrev is_unnamed : LegacySourceIdentity → Bool
is_unnamed l = no_name l.key || no_name l.incarnation || no_name l.canonical_incarnation

-- The tests of the body; the two readings of the clock are one time.
abbrev content_error : F64 → ChildReportBatch → Verdict → Option ApiError
content_error at b (invalid reason) = some (bad reason)
content_error at b valid =
    if ltb 500 (length b.legacy_identities) || any is_unnamed b.legacy_identities
    then some (bad "Invalid legacy child identity map")
    else if f64_lt (f64_add at (float 300)) b.observed_at
        || f64_lt b.observed_at (f64_sub at (float 86400))
    then some (bad "Invalid child inventory timestamp")
    else none

pub record ChildRequest : Type 0 where
  pub client : String
  pub authorization : Option String
  pub batch : ChildReportBatch

pub record ChildServer : Type 0 where
  pub report_denied : Keys
  pub report_limit : Keys
  pub db : Database
  pub tables : ChildTables

module _ (hash : String → String) (is_uuid : String → Bool) (identities : Identities)
    (before_lock : Database → Database) where
  -- Under the lock, the credential once more, and the transaction.
  unfoldable pub child_locked :
      String → ChildRequest → ChildServer → ChildServer × ApiResult ChildReportResponse
  unfolding credential_error find_agent take_batch
  child_locked credential q s =
      let db = before_lock s.db in
      elim (credential_error hash (some credential) (find_agent q.batch.agent_id db)) [
        | some e ↦ (record s { db = db }, err e)
        | none ↦
            let (tables, answer) = take_batch hash identities q.batch db s.tables in
            (record s { db = db; tables = tables }, answer)
      ]

  abbrev child_checked :
      F64 → String → ChildRequest → ChildServer → ChildServer × ApiResult ChildReportResponse
  child_checked at credential q s = elim (content_error at q.batch (child_batch is_uuid q.batch)) [
    | some e ↦ (s, err e)
    | none ↦ child_locked credential q s
  ]

  abbrev child_limited :
      F64 → String → ChildRequest → ChildServer → ChildServer × ApiResult ChildReportResponse
  child_limited at credential q s = elim (check report_limiter q.batch.agent_id at s.report_limit) [
    | some wait ↦ (s, err (too_many wait))
    | none ↦
        child_checked at credential q
          (record s { report_limit = hit report_limiter q.batch.agent_id at s.report_limit })
  ]

  abbrev child_denied :
      F64 → ChildRequest → ChildServer → ChildServer × ApiResult ChildReportResponse
  child_denied at q s = (
    record s { report_denied = hit denied_limiter q.client at s.report_denied },
    err unauthorized,
  )

  abbrev child_row :
      F64
      → String
      → Option AgentRow
      → ChildRequest
      → ChildServer
      → ChildServer × ApiResult ChildReportResponse
  child_row at credential none q s = child_denied at q s
  child_row at credential (some row) q s =
      if not (str_eq row.credential_hash (hash credential))
      then child_denied at q s
      else if row.revoked
      then (s, err agent_revoked)
      else child_limited at credential q s

  abbrev child_known :
      F64 → Option String → ChildRequest → ChildServer → ChildServer × ApiResult ChildReportResponse
  child_known at none q s = child_denied at q s
  child_known at (some credential) q s =
      child_row at credential (find_agent q.batch.agent_id s.db) q s

  -- The handler.
  unfoldable pub child_report :
      F64 → ChildRequest → ChildServer → ChildServer × ApiResult ChildReportResponse
  unfolding credential_error find_agent check hit child_batch child_locked
  child_report at q s = elim (check denied_limiter q.client at s.report_denied) [
    | some wait ↦ (s, err (too_many wait))
    | none ↦ child_known at (bearer q.authorization) q s
  ]
