-- ===== src/Server/Children/Ordered.antt =====
-- Batches are taken in order, and each once.
use hope.Base.{
  ◌⊎◌, sym, ℕ, ◌≤◌, ◌≡◌, refl, ap, ◌∙◌, inl, inr, String, Bool, true, false, not, ◌&&◌, Option,
  none, some, List, [], ◌∷◌, ◌++◌, find, find-some, arith, ◌==◌, ==_iff, str_eq, Bool-cases,
  Option-cases,
}
use hope.Protocol.Types.{ChildReportBatch, Host}
use hope.Agent.ChildDelivery.{ChildReportResponse}
use hope.Server.Children.{
  DeviceTables, BatchRow, BatchHead, ChildTables, Replay, new, repeated, reused, Sharing, refused,
  granted, share, replay, is_head_of, find_head, out_of_order, batch_row, authoritative,
}
use hope.Server.Children.Legacy.{Identities}
use hope.Server.Children.Devices.{Stored, store_devices}
use hope.Server.Children.Relationships.{relate_devices}
use hope.Server.Children.Handler.{
  duplicate, new_head, put_head, store_batch, in_order, replayed, shared_by, take_batch,
}
use hope.Server.Database.{Database, find_host}
use hope.Server.Errors.{ApiError, ApiResult, ok, err}
use hope.Server.Children.Shares.{
  find-append, same_source_refl, str_eq_refl, share-IsGranted, IsGranted, scopes_of,
}

abbrev pub is_first : ApiResult ChildReportResponse → Bool
is_first (ok r) = not r.duplicate
is_first (err e) = false

-- The last number of a reporter, source and scope.
abbrev pub IsHead : ChildReportBatch → ChildTables → ℕ → ℕ → Type 0
IsHead b t sequence generation =
    (h : BatchHead) × (find_head b t.heads ≡ some h)
    × (h.sequence ≡ sequence)
    × (generation ≤ h.inventory_generation)

ApiResult-cases {ℓ} :
    {A : Type ℓ} (r : ApiResult A) → ((a : A) × (r ≡ ok a)) ⊎ ((e : ApiError) × (r ≡ err e))
ApiResult-cases (ok a) = inl (a, refl)
ApiResult-cases (err e) = inr (e, refl)

ok_eq {ℓ} : {A : Type ℓ} {a b : A} → ok a ≡ ok b → a ≡ b
ok_eq {a} e = ap (λ r. elim r [ ok x ↦ x | err error ↦ a ]) e

-- What a stored batch changes of the ledger, the heads and the scopes.
store_batch-ledger :
    (hash : String → String) (identities : Identities) (shared : Bool) (b : ChildReportBatch)
    (parent_host : String) (hosts : List Host) (t after : ChildTables)
    → store_batch hash identities shared b parent_host hosts t ≡ ok after
    → (after.batches ≡ t.batches ++ (batch_row b ∷ []))
      × (after.heads
          ≡ put_head (authoritative shared b (t.batches ++ (batch_row b ∷ []))) b t.heads)
      × (after.scopes ≡ t.scopes)
unfolding store_batch
store_batch-ledger hash identities shared b parent_host hosts t after h =
    elim (ApiResult-cases (identities.reconcile_maps shared b t.device_tables)) [
      | inr (e, fails) ↦ cc (rw (fails, store_batch) at h)
      | inl (mapped, maps) ↦
          let start : Stored = record {
            tables = mapped;
            observations = t.observations;
            ids = [];
            fresh = [];
          } in
          elim (ApiResult-cases (store_devices identities shared b b.devices start)) [
            | inr (e, fails) ↦ cc (rw (maps, fails, store_batch) at h)
            | inl (stored, stores) ↦
                let related : DeviceTables = record stored.tables {
                  relationships =
                      relate_devices b parent_host stored b.devices stored.tables.relationships;
                } in
                elim (ApiResult-cases (identities.reconcile_sources stored.fresh related)) [
                  | inr (e, fails) ↦ cc (rw (maps, stores, fails, store_batch) at h)
                  | inl (reconciled, reconciles) ↦
                      let is = ok_eq (rw (maps, stores, reconciles, store_batch) at h) in
                      (
                        sym (ap (λ (x : ChildTables). x.batches) is),
                        sym (ap (λ (x : ChildTables). x.heads) is),
                        sym (ap (λ (x : ChildTables). x.scopes) is),
                      )
                ]
          ]
    ]

module _ (hash : String → String) (identities : Identities) (b : ChildReportBatch) (db : Database)
    (t : ChildTables) where
  abbrev Result : Type 0
  Result = ChildTables × ApiResult ChildReportResponse

  -- How a batch that is answered as a new one was taken.
  record Taken (out : Result) : Type 0 where
    shared : Bool
    opened : ChildTables
    rows : opened.batches ≡ t.batches
    granted_scopes : opened.scopes ≡ scopes_of hash b (share hash b t)
    shares : IsGranted (share hash b t)
    fresh : replay b t.batches ≡ new
    order : out_of_order b t.heads ≡ false
    parent_host : String
    stored : store_batch hash identities shared b parent_host db.hosts opened ≡ ok out.0

  in_order-Taken :
      (host : Option Host) (shared : Bool) (opened : ChildTables)
      → opened.batches ≡ t.batches
      → opened.scopes ≡ scopes_of hash b (share hash b t)
      → IsGranted (share hash b t)
      → replay b t.batches ≡ new
      → out_of_order b t.heads ≡ false
      → is_first (in_order hash identities shared b host db opened t).1 ≡ true
      → Taken (in_order hash identities shared b host db opened t)
  in_order-Taken none shared opened rows scopes shares fresh order e = cc
  in_order-Taken (some h) shared opened rows scopes shares fresh order e =
      elim (ApiResult-cases (store_batch hash identities shared b h.id db.hosts opened)) [
        | inr (error, fails) ↦ cc (rw fails at e)
        | inl (after, stored) ↦ rw stored (record {
          shared = shared;
          opened = opened;
          rows = rows;
          granted_scopes = scopes;
          shares = shares;
          fresh = fresh;
          order = order;
          parent_host = h.id;
          stored = stored;
        })
      ]

  replayed-Taken :
      (r : Replay) (shared : Bool) (opened : ChildTables)
      → opened.batches ≡ t.batches
      → opened.scopes ≡ scopes_of hash b (share hash b t)
      → IsGranted (share hash b t)
      → replay b t.batches ≡ r
      → is_first (replayed hash identities r shared b db opened t).1 ≡ true
      → Taken (replayed hash identities r shared b db opened t)
  replayed-Taken repeated shared opened rows scopes shares fresh e = cc
  replayed-Taken reused shared opened rows scopes shares fresh e = cc
  replayed-Taken new shared opened rows scopes shares fresh e =
      elim (Bool-cases (out_of_order b t.heads)) [
        | inl late ↦ cc (rw late at e)
        | inr order ↦ rw order (
            in_order-Taken (find_host b.agent_id db) shared opened rows scopes shares fresh order
              (rw order at e))
      ]

  shared_by-Taken :
      (sharing : Sharing)
      → share hash b t ≡ sharing
      → is_first (shared_by hash identities sharing b db t).1 ≡ true
      → Taken (shared_by hash identities sharing b db t)
  shared_by-Taken (refused e) same first = cc
  shared_by-Taken (granted shared scopes members) same first =
      replayed-Taken (replay b t.batches) shared (record t { scopes = scopes; members = members })
        refl (rw same refl) (rw same tt) refl first

  take_batch-Taken :
      is_first (take_batch hash identities b db t).1 ≡ true
      → Taken (take_batch hash identities b db t)
  unfolding take_batch
  take_batch-Taken first = shared_by-Taken (share hash b t) refl first

replay-new :
    (b : ChildReportBatch) (rows : List BatchRow)
    → replay b rows ≡ new
    → find (λ r. str_eq r.batch_id b.batch_id) rows ≡ none
unfolding replay
replay-new b rows e = elim (Option-cases (find (λ r. str_eq r.batch_id b.batch_id) rows)) [
  | inl free ↦ free
  | inr (row, found) ↦
      elim (Bool-cases (
        str_eq row.parent_agent_id b.agent_id
        && str_eq row.source_scope b.source_scope
        && (row.sequence == b.sequence))) [
          | inl same ↦ cc (rw (found, same) at e)
          | inr other ↦ cc (rw (found, other) at e)
        ]
]

replay-append :
    (b : ChildReportBatch) (rows : List BatchRow)
    → replay b rows ≡ new
    → replay b (rows ++ (batch_row b ∷ [])) ≡ repeated
unfolding replay
replay-append b rows fresh =
    let found =
      find-append (λ r. str_eq r.batch_id b.batch_id) rows (batch_row b) (replay-new b rows fresh)
        (str_eq_refl b.batch_id) in
    rw
      (
        found,
        str_eq_refl b.agent_id,
        str_eq_refl b.source_scope,
        (==_iff b.sequence b.sequence).1 refl,
      )
      refl

shared_by-repeated :
    (hash : String → String) (identities : Identities) (b : ChildReportBatch) (db : Database)
    (t : ChildTables) (sharing : Sharing)
    → IsGranted sharing
    → replay b t.batches ≡ repeated
    → shared_by hash identities sharing b db t ≡ (t, ok duplicate)
shared_by-repeated hash identities b db t (refused e) g again = absurd g
shared_by-repeated hash identities b db t (granted shared scopes members) g again = rw again refl

new_head-sequence :
    (whole : Bool) (b : ChildReportBatch) (o : Option BatchHead)
    → ((new_head whole b o).sequence ≡ b.sequence)
      × (b.inventory_generation ≤ (new_head whole b o).inventory_generation)
new_head-sequence whole b none = (refl, omega arith)
new_head-sequence whole b (some h) = (refl, omega arith)

new_head-own :
    (whole : Bool) (b : ChildReportBatch) (o : Option BatchHead)
    → ((h : BatchHead) → o ≡ some h → is_head_of b h ≡ true)
    → is_head_of b (new_head whole b o) ≡ true
new_head-own whole b none own =
    rw (str_eq_refl b.agent_id, same_source_refl b.source, str_eq_refl b.source_scope) refl
new_head-own whole b (some h) own = own h refl

pub find_head-put_head :
    (whole : Bool) (b : ChildReportBatch) (heads : List BatchHead)
    → find_head b (put_head whole b heads) ≡ some (new_head whole b (find_head b heads))
unfolding put_head find_head
find_head-put_head whole b heads =
    let own = new_head-own whole b (find_head b heads) (λ h e. find-some (is_head_of b) heads e) in
    rw own refl

put_head-IsHead :
    (whole : Bool) (b : ChildReportBatch) (heads : List BatchHead)
    → (h : BatchHead) × (find_head b (put_head whole b heads) ≡ some h)
      × (h.sequence ≡ b.sequence)
      × (b.inventory_generation ≤ h.inventory_generation)
put_head-IsHead whole b heads =
    let (sequence, generation) = new_head-sequence whole b (find_head b heads) in
    (new_head whole b (find_head b heads), find_head-put_head whole b heads, sequence, generation)

-- A batch that is taken as a new one comes after the last of its reporter, source and scope, is the
-- last then, and is answered as a duplicate when it comes again, which changes nothing.
pub take_batch-once :
    (hash : String → String) (identities : Identities) (b : ChildReportBatch) (db later : Database)
    (t : ChildTables)
    → is_first (take_batch hash identities b db t).1 ≡ true
    → let after = (take_batch hash identities b db t).0 in
      (out_of_order b t.heads ≡ false)
      × IsHead b after b.sequence b.inventory_generation
      × (take_batch hash identities b later after ≡ (after, ok duplicate))
unfolding take_batch store_batch
take_batch-once hash identities b db later t first =
    let out = take_batch hash identities b db t in
    let taken = take_batch-Taken hash identities b db t first in
    let opened = taken.opened in
    let (rows, heads, same_scopes) =
      store_batch-ledger hash identities taken.shared b taken.parent_host db.hosts opened out.0
        taken.stored in
    let again : replay b out.0.batches ≡ repeated =
      rw (rows, taken.rows) (replay-append b t.batches taken.fresh) in
    let whole = authoritative taken.shared b (opened.batches ++ (batch_row b ∷ [])) in
    let scopes : out.0.scopes ≡ scopes_of hash b (share hash b t) =
      same_scopes ∙ taken.granted_scopes in
    let (h, found, sequence, generation) = put_head-IsHead whole b opened.heads in
    let shares = share-IsGranted hash b t out.0 scopes taken.shares in
    (
      taken.order,
      (h, ap (find_head b) heads ∙ found, sequence, generation),
      shared_by-repeated hash identities b later out.0 (share hash b out.0) shares again,
    )
