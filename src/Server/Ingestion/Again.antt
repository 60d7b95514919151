-- ===== src/Server/Ingestion/Again.antt =====
-- A report whose acknowledgment was lost is sent again.
use hope.Base.{
  ℕ, ◌≡◌, refl, ◌∙◌, subst, String, Bool, true, false, ◌&&◌, Option, some, F64, str_eq, str_eq_iff,
}
use hope.Protocol.Types.{AgentReport, Host, ReportResponse}
use hope.Server.Database.{Database, Head}
use hope.Server.Errors.{ok}
use hope.Server.Ingestion.{Elsewhere, is_live, is_duplicate}
use hope.Server.Ingestion.Accepted.{IsAccepted, IsAccepted-ingest}
use hope.Server.Ingestion.Latest.{KeepsLive, Latest, Shows, shown}
use hope.Server.Ingestion.Newest.{shown_after, ingest-Shows}
use hope.Server.Ingestion.Transaction.{take_report, first_response, with_update, ingest}

and_false : (b : Bool) → (b && false) ≡ false
and_false true = refl
and_false false = refl

module _ (elsewhere : Elsewhere) where
  -- A duplicate of the head.
  take_report-head :
      (at : F64) (version : Option String) (r : AgentReport) (h : Host) (db : Database)
      (head : Head)
      → db.heads r.agent_id ≡ some head
      → head.report_id ≡ r.report_id
      → (answer : ReportResponse) × (take_report elsewhere at version r h db ≡ (db, ok answer))
        × (answer.duplicate ≡ true)
        × (answer.live_applied ≡ some true)
        × (answer.report_sequence ≡ some head.sequence)
  unfolding take_report first_response with_update is_duplicate
  take_report-head at version r h db head e same =
      let own : str_eq head.report_id r.report_id ≡ true = (str_eq_iff _ _).1 same in
      let live = is_live r.sequence (some head) r.collected_at h.last_collected_at in
      let duplicate : is_duplicate r (some head) db ≡ true = rw own refl in
      (
        first_response elsewhere at live true (some head) r h,
        rw (e, duplicate, take_report) refl,
        refl,
        rw (and_false live, own) refl,
        rw (and_false live) refl,
      )

  -- Where a report is what its host shows after it was taken, the same report, sent again and
  -- passing the tests again, changes nothing and is answered as a duplicate that is live, with its
  -- own number. The guess of a host's kind leaves the agent and the live figures alone.
  pub ingest-again :
      (law : KeepsLive elsewhere.refresh) (at later : F64) (credential : String)
      (version later_version : Option String) (r : AgentReport) (n : ℕ) (db : Database)
      (l : Option Latest)
      → let (after, first) = ingest elsewhere at credential version r db in
        Shows r.agent_id db l
        → shown_after first l r ≡ some (shown n r)
        → (h : Host) → IsAccepted elsewhere later credential later_version r after h
        → (answer : ReportResponse) × (ingest elsewhere later credential later_version r after
            ≡ (after, ok answer))
          × (answer.duplicate ≡ true)
          × (answer.live_applied ≡ some true)
          × (answer.report_sequence ≡ some n)
  ingest-again law at later credential version later_version r n db l before taken h accepted =
      let (after, first) = ingest elsewhere at credential version r db in
      let shows : Shows r.agent_id after (some (shown n r)) =
        subst (λ m. Shows r.agent_id after m) taken
          (ingest-Shows elsewhere law at credential version r db l before) in
      let (answer, told, duplicate, live, number) =
        take_report-head later later_version r h after
          (record { sequence = n; report_id = r.report_id }) shows.0 refl in
      (
        answer,
        IsAccepted-ingest elsewhere later credential later_version r after h accepted ∙ told,
        duplicate,
        live,
        number,
      )
