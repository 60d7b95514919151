-- ===== src/Server/Children/Archived.antt =====
-- A device is archived on the word of three inventories.
use hope.Base.{
  ℕ, suc, ◌+◌, ◌≤◌, ◌<◌, ◌≡◌, ◌⊎◌, refl, sym, ap, subst, ◌∙◌, inl, inr, String, Bool, true, false,
  not, ◌&&◌, ◌||◌, Option, some, List, ◌∷◌, arith, F64, float, f64_le, f64_sub, leb, min,
  or_default, i64_max, or_false, and_true, Bool-cases,
}
use hope.Protocol.Types.{ChildReportBatch, Host}
use hope.Server.Children.{SourceDevice, ChildTables, authoritative}
use hope.Server.Children.Devices.{
  Seen, is_seen, is_present_guest, is_archived, in_scope, missed_lifecycle, missed_row,
  present_elsewhere, seen_by, settle_row,
}
use hope.Server.Children.Kept.{IsFresh, IsSame}

-- A batch that was taken as a new one: whether its scope is shared, and the tables after it.
pub record Round : Type 0 where
  pub shared : Bool
  pub batch : ChildReportBatch
  pub after : ChildTables

-- The inventory of the batch is whole then.
abbrev pub is_whole : Round → Bool
is_whole e = authoritative e.shared e.batch e.after.batches

-- The keys and incarnations that it names.
abbrev pub seen_of : Round → Seen
seen_of e =
    seen_by e.batch e.batch.inventory_id e.after.batches e.after.observations
      e.after.device_tables.devices

-- The inventory names the device, or says that it is there.
abbrev pub names : SourceDevice → Round → Bool
names row e =
    is_seen (seen_of e) row.source_key row.incarnation
    || is_present_guest e.batch.proxmox_guest_presence row.kind row.source_key row.incarnation

-- A number of whole inventories that do not name the device, each of a later generation than the
-- one before, with the generation of the last, and the times of the first and the last.
pub data Absent (row : SourceDevice) : List Round → ℕ → ℕ → F64 → F64 → Type 0 where
  first :
      (e : Round) (es : List Round)
      → is_whole e ≡ true
      → names row e ≡ false
      → 0 < e.batch.inventory_generation
      → Absent row (e ∷ es) 1 e.batch.inventory_generation e.batch.observed_at e.batch.observed_at
  skip :
      (e : Round) {es : List Round} {n g : ℕ} {since last : F64}
      → Absent row es n g since last
      → Absent row (e ∷ es) n g since last
  again :
      (e : Round) {es : List Round} {n g : ℕ} {since last : F64}
      → Absent row es n g since last
      → is_whole e ≡ true
      → names row e ≡ false
      → g < e.batch.inventory_generation
      → Absent row (e ∷ es) (suc n) e.batch.inventory_generation since e.batch.observed_at

Absent-names :
    (old row : SourceDevice)
    → ((e : Round) → names row e ≡ names old e)
    → {es : List Round} {n g : ℕ} {since last : F64} → Absent old es n g since last
    → Absent row es n g since last
Absent-names old row same (first e es whole unnamed later) =
    first e es whole (same e ∙ unnamed) later
Absent-names old row same (skip e a) = skip e (Absent-names old row same a)
Absent-names old row same (again e a whole unnamed later) =
    again e (Absent-names old row same a) whole (same e ∙ unnamed) later

-- What a row says of the inventories that have missed it.
pub record Tracks (es : List Round) (row : SourceDevice) : Type 0 where
  pub n : ℕ
  pub from : F64
  pub to : F64
  pub absent : Absent row es n row.missing_inventory_generation from to
  pub count : row.missing_complete_count ≤ n
  pub since : row.missing_since ≡ some from
  pub archived :
      is_archived row.lifecycle ≡ true
      → (3 ≤ row.missing_complete_count) × (f64_le (float 300) (f64_sub to from) ≡ true)

-- What holds of a row after batches.
abbrev pub Follows : List Round → SourceDevice → Type 0
Follows es row = IsFresh row ⊎ Tracks es row

pub Follows-IsSame :
    (es : List Round) (old row : SourceDevice) → IsSame old row → Follows es old → Follows es row
Follows-IsSame es old row same (inl fresh) = inl (record {
  count = same.count ∙ fresh.count;
  since = same.since ∙ fresh.since;
  generation = same.generation ∙ fresh.generation;
  lifecycle = ap is_archived same.lifecycle ∙ fresh.lifecycle;
})
Follows-IsSame es old row same (inr t) = inr (record {
  n = t.n;
  from = t.from;
  to = t.to;
  absent =
      subst (λ g. Absent row es t.n g t.from t.to) (sym same.generation)
        (Absent-names old row (λ e. rw (same.key, same.incarnation, same.kind) refl) t.absent);
  count = omega (arith, t.count, same.count);
  since = same.since ∙ t.since;
  archived = λ gone.
      let kept = t.archived (ap is_archived (sym same.lifecycle) ∙ gone) in
      (omega (arith, kept.0, same.count), kept.1);
})

pub skipped :
    (e : Round) (es : List Round) (row : SourceDevice) → Follows es row → Follows (e ∷ es) row
skipped e es row (inl fresh) = inl fresh
skipped e es row (inr t) = inr (record {
  n = t.n;
  from = t.from;
  to = t.to;
  absent = skip e t.absent;
  count = t.count;
  since = t.since;
  archived = t.archived;
})

missed_lifecycle-archived :
    (at since : F64) (hosts : List Host) (count : ℕ) (host_id : Option String)
    → is_archived (missed_lifecycle at hosts count since host_id) ≡ true
    → (3 ≤ count) × (f64_le (float 300) (f64_sub at since) ≡ true)
missed_lifecycle-archived at since hosts count host_id e =
    elim (Bool-cases (
      leb 3 count
      && f64_le (float 300) (f64_sub at since)
      && not (present_elsewhere hosts at host_id))) [
        | inr stays ↦ cc (rw stays at e)
        | inl old ↦
            let (two, away) = and_true _ (not (present_elsewhere hosts at host_id)) old in
            let (three, long) = and_true (leb 3 count) _ two in (ground (arith, three), long)
      ]

module _ (hosts : List Host) (e : Round) (es : List Round) (whole : is_whole e ≡ true)
    (row : SourceDevice) (unnamed : names row e ≡ false) where
  missed-first :
      IsFresh row
      → 0 < e.batch.inventory_generation
      → Tracks (e ∷ es) (missed_row e.batch hosts row)
  missed-first fresh later = record {
    n = 1;
    from = e.batch.observed_at;
    to = e.batch.observed_at;
    absent = first e es whole unnamed later;
    count = omega (arith, fresh.count);
    since = rw fresh.since refl;
    archived = λ h.
        let (three, long) =
          missed_lifecycle-archived e.batch.observed_at
            (or_default e.batch.observed_at row.missing_since) hosts
            (min (row.missing_complete_count + 1) i64_max) row.host_id h in
        absurd (omega (arith, three, fresh.count));
  }

  missed-again :
      Tracks es row
      → row.missing_inventory_generation < e.batch.inventory_generation
      → Tracks (e ∷ es) (missed_row e.batch hosts row)
  missed-again t later =
      let next = missed_row e.batch hosts row in
      let same : Absent next es t.n row.missing_inventory_generation t.from t.to =
        Absent-names row next (λ d. refl) t.absent in
      record {
        n = suc t.n;
        from = t.from;
        to = e.batch.observed_at;
        absent = again e same whole unnamed later;
        count = omega (arith, t.count);
        since = rw t.since refl;
        archived = λ h.
            let kept = rw t.since at (
              missed_lifecycle-archived e.batch.observed_at
                (or_default e.batch.observed_at row.missing_since) hosts
                (min (row.missing_complete_count + 1) i64_max) row.host_id h) in
            kept;
      }

  missed :
      Follows es row
      → row.missing_inventory_generation < e.batch.inventory_generation
      → Tracks (e ∷ es) (missed_row e.batch hosts row)
  missed (inl fresh) later = missed-first fresh (omega (arith, later, fresh.generation))
  missed (inr t) later = missed-again t later

pub settle_row-Follows :
    (hosts : List Host) (seen : Seen) (e : Round) (es : List Round) (row : SourceDevice)
    → is_whole e ≡ true
    → seen ≡ seen_of e
    → Follows es row
    → Follows (e ∷ es) (settle_row e.batch hosts seen row)
unfolding settle_row
settle_row-Follows hosts seen e es row whole same f =
    let tests =
      not (in_scope e.batch row)
      || is_seen seen row.source_key row.incarnation
      || is_present_guest e.batch.proxmox_guest_presence row.kind row.source_key row.incarnation
      || leb e.batch.inventory_generation row.missing_inventory_generation in
    elim (Bool-cases tests) [
      | inl stays ↦ rw (stays, settle_row) (skipped e es row f)
      | inr moves ↦
          let (three, later) =
            or_false _ (leb e.batch.inventory_generation row.missing_inventory_generation) moves in
          let (two, guest) =
            or_false _
              (is_present_guest e.batch.proxmox_guest_presence row.kind row.source_key
                row.incarnation)
              three in
          let (scope, unseen) =
            or_false (not (in_scope e.batch row)) (is_seen seen row.source_key row.incarnation)
              two in
          let unnamed : names row e ≡ false = rw (sym same, unseen, guest) refl in
          let next : Follows (e ∷ es) (missed_row e.batch hosts row) =
            inr (missed hosts e es whole row unnamed f (ground (arith, later))) in
          rw (moves, settle_row) next
    ]

pub told :
    (es : List Round) (row : SourceDevice)
    → Follows es row
    → is_archived row.lifecycle ≡ true
    → (n g : ℕ) × (since last : F64) × Absent row es n g since last
      × (3 ≤ n)
      × (f64_le (float 300) (f64_sub last since) ≡ true)
told es row (inl fresh) gone = cc (fresh.lifecycle, gone)
told es row (inr t) gone =
    let (three, long) = t.archived gone in
    (
      t.n,
      row.missing_inventory_generation,
      t.from,
      t.to,
      t.absent,
      omega (arith, three, t.count),
      long,
    )
