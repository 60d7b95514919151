-- ===== src/Server/Children/Named.antt =====
-- That the settling of devices does not change whom an inventory names.
use hope.Base.{
  ◌≡◌, refl, inl, inr, String, Bool, Option, none, some, List, [], ◌∷◌, filter, map, if_both,
  Bool-cases,
}
use hope.Protocol.Types.{ChildReportBatch, Host}
use hope.Server.Children.{SourceDevice, Observation, BatchRow, chunks_of}
use hope.Server.Children.Devices.{Seen, observed_in, seen_by, settle_missing, settle_row}

abbrev pair_of : SourceDevice → String × String
pair_of row = (row.source_key, row.incarnation)

settle_row-keeps :
    (b : ChildReportBatch) (hosts : List Host) (seen : Seen) (row : SourceDevice)
    → ((settle_row b hosts seen row).id ≡ row.id)
      × (pair_of (settle_row b hosts seen row) ≡ pair_of row)
unfolding settle_row
settle_row-keeps b hosts seen row =
    if_both (λ (r : SourceDevice). (r.id ≡ row.id) × (pair_of r ≡ pair_of row)) _ (refl, refl)
      (refl, refl)

settle_missing-seen :
    (p : String → Bool) (b : ChildReportBatch) (hosts : List Host) (seen : Seen)
    (rows : List SourceDevice)
    → map pair_of (filter (λ row. p row.id) rows)
      ≡ map pair_of (filter (λ row. p row.id) (settle_missing b hosts seen rows))
unfolding settle_missing
settle_missing-seen p b hosts seen [] = refl
settle_missing-seen p b hosts seen (row ∷ rows) =
    let (id, pair) = settle_row-keeps b hosts seen row in
    let rest = settle_missing-seen p b hosts seen rows in
    elim (Bool-cases (p row.id)) [
      | inl own ↦ rw (id, own, pair, rest) refl
      | inr other ↦ rw (id, other, rest) refl
    ]

pub seen_by-settle_missing :
    (b c : ChildReportBatch) (inventory_id : Option String) (ledger : List BatchRow)
    (observations : List Observation) (hosts : List Host) (seen : Seen) (rows : List SourceDevice)
    → seen_by b inventory_id ledger observations rows
      ≡ seen_by b inventory_id ledger observations (settle_missing c hosts seen rows)
seen_by-settle_missing b c none ledger observations hosts seen rows = refl
seen_by-settle_missing b c (some id) ledger observations hosts seen rows =
    settle_missing-seen (λ i. observed_in (chunks_of b id ledger) i observations) c hosts seen rows
