-- ===== src/Server/Ingestion/Transaction.antt =====
-- The transaction of `report` of hope-server/src/agents.rs.
use hope.Base.{
  ◌*◌, String, Bool, true, false, not, ◌&&◌, ◌||◌, Option, none, some, F64, float, f64_lt, f64_le,
  f64_sub, str_eq, if◌then◌else◌,
}
use hope.Protocol.Types.{AgentReport, Host, ReportResponse, update_request_seconds}
use hope.Protocol.Validation.Values.{Verdict, valid, invalid}
use hope.Protocol.Version.{version_newer}
use hope.Server.Database.{
  Database, Head, is_text, set_meta, find_agent, find_host, put_agent_host, clear_retired_host,
}
use hope.Server.Errors.{ApiResult, ok, err, bad, not_found}
use hope.Server.Updates.{
  is_given, pending_update, settle_update_request, reported_failure, clear_request,
}
use hope.Server.Ingestion.{
  Elsewhere, credential_error, stamps_ok, body_verdict, is_live, heads_report, is_duplicate,
  watermark, add_sample, touched, show_live, with_head,
}

-- What the report says of the update that was asked of its agent.
pub record Settled : Type 0 where
  pub host : Host
  pub success : Bool
  pub failure : Option String

abbrev pub unsettled : Host → Settled
unsettled h = record { host = h; success = false; failure = none }

abbrev pub failed_by_hand : Bool × Host → Host
failed_by_hand (true, h) = clear_request h
failed_by_hand (false, h) = h

-- A failed manual request ends.
abbrev pub settle_manual : Option String → Host → Host
settle_manual none h = h
settle_manual (some release_id) h = failed_by_hand (reported_failure h release_id)

abbrev pub given_up : String → Host → Settled
given_up release_id h = record {
  host = clear_request (record h { auto_update_failed_release_id = some release_id });
  success = false;
  failure = some release_id;
}

abbrev pub failed_rollout : String → Bool × Host → Settled
failed_rollout release_id (true, h) = given_up release_id h
failed_rollout release_id (false, h) = unsettled h

abbrev overdue : F64 → Option F64 → Bool
overdue at none = false
overdue at (some requested) = f64_le update_request_seconds (f64_sub at requested)

abbrev reached : String → Option String → Bool
reached target none = false
reached target (some have) = not (version_newer target have)

abbrev pub rolled_out : Host → Settled
rolled_out h = record {
  host = clear_request (record h { auto_update_failed_release_id = none });
  success = true;
  failure = none;
}

abbrev pub settle_automatic : F64 → Option String → Option String → Host → Settled
settle_automatic at (some target) (some release_id) h =
    if overdue at h.update_requested_at
    then given_up release_id h
    else if reached target h.agent_version
    then rolled_out h
    else failed_rollout release_id (reported_failure h release_id)
settle_automatic at target release_id h = unsettled h

unfoldable pub settle_outcome : F64 → Bool → Host → Settled
unfolding reported_failure clear_request
settle_outcome at live h =
    let manual =
      if live && is_text h.update_request_source "manual"
      then settle_manual h.update_target_release_id h
      else h in
    if live && is_text manual.update_request_source "automatic"
    then settle_automatic at manual.update_target manual.update_target_release_id manual
    else unsettled manual

-- The entries of the rollout that the outcome changes.
unfoldable pub record_success : String → F64 → (F64 → String) → Bool → Database → Database
unfolding set_meta
record_success agent_id at show success db =
    if success
      && str_eq (elim (db.meta "auto_update_canary_agent") [ none ↦ "" | some canary ↦ canary ])
          agent_id
    then set_meta "auto_update_last_queued_at" (show at)
        (set_meta "auto_update_canary_passed" "true" db)
    else db

unfoldable pub record_failure : Option String → Database → Database
unfolding set_meta
record_failure none db = db
record_failure (some release_id) db = set_meta "auto_update_blocked_release_id" release_id db

-- The devices are matched again where a report may have moved its host.
unfoldable pub changes_identity : F64 → Bool → AgentReport → Host → Bool
changes_identity at live r h =
    live && is_given r.inventory || f64_lt h.last_seen (f64_sub at (float (7 * 86400)))

module _ (elsewhere : Elsewhere) where
  abbrev release_for : Option String → Host → Option String
  release_for none h = none
  release_for (some target) h = h.update_target_release_id

  unfoldable pub with_update : F64 → Host → ReportResponse → ReportResponse
  unfolding pending_update
  with_update at h response = record response {
    update_to = pending_update h at;
    update_release_id = release_for (pending_update h at) h;
  }

  -- The answer as it stands before the report is applied.
  unfoldable pub first_response :
      F64 → Bool → Bool → Option Head → AgentReport → Host → ReportResponse
  unfolding with_update
  first_response at live duplicate head r h = with_update at h (record {
    accepted = true;
    duplicate = duplicate;
    live_applied =
        some (live && (not duplicate || not (is_given head)) || heads_report head r.report_id);
    report_sequence = watermark (live && not duplicate) r.sequence head;
    report_interval_seconds = some elsewhere.report_interval;
    update_to = none;
    update_release_id = none;
  })

  -- The host's record after the report, as far as the report itself decides it.
  unfoldable pub settled_host : F64 → Bool → Option String → AgentReport → Host → Settled
  unfolding touched show_live settle_outcome
  settled_host at live version r h =
      let seen = touched at version h in
      settle_outcome at live (if live then show_live at r seen else seen)

  -- The fields that are worked out last.
  unfoldable pub finished_host : Host → Host
  finished_host h =
      elsewhere.refresh (record h { network_ids = elsewhere.matching_networks h.addresses })

  abbrev pub reconciled : Bool → Database → Database
  reconciled false db = db
  reconciled true db =
      let after = elsewhere.reconcile db in
      record db { source_devices = after.0; retired = after.1 }

  -- A report that is no duplicate, and the record that its answer goes by.
  unfoldable pub apply_report :
      F64 → Bool → Option String → AgentReport → Host → Database → Database × Host
  unfolding clear_retired_host add_sample settled_host settle_update_request finished_host
      changes_identity put_agent_host record_success record_failure
  apply_report at live version r h db =
      let sampled = add_sample r (clear_retired_host h.id db) in
      let headed = if live then with_head r.sequence r.agent_id r.report_id sampled else sampled in
      let settled = settled_host at live version r h in
      let after = settle_update_request at settled.host in
      let written = record headed {
        hosts = put_agent_host r.agent_id (finished_host after) headed.hosts;
      } in
      (
        record_failure settled.failure (
            record_success r.agent_id at elsewhere.float_text.show settled.success
              (reconciled (changes_identity at live r h) written)),
        after,
      )

  -- The report of a host with the given head.
  unfoldable pub take_report :
      F64 → Option String → AgentReport → Host → Database → Database × ApiResult ReportResponse
  unfolding is_live is_duplicate first_response apply_report with_update
  take_report at version r h db =
      let head = db.heads r.agent_id in
      let live = is_live r.sequence head r.collected_at h.last_collected_at in
      let duplicate = is_duplicate r head db in
      let response = first_response at live duplicate head r h in
      let (after, shown) = apply_report at live version r h db in
      if duplicate then (db, ok response) else (after, ok (with_update at shown response))

  unfoldable pub take_valid :
      F64
      → Option String
      → AgentReport
      → Option Host
      → Database
      → Database × ApiResult ReportResponse
  unfolding take_report
  take_valid at version r none db = (db, err not_found)
  take_valid at version r (some h) db = take_report at version r h db

  unfoldable pub take_checked :
      F64 → Option String → AgentReport → Verdict → Database → Database × ApiResult ReportResponse
  unfolding take_valid find_host
  take_checked at version r (invalid reason) db = (db, err (bad reason))
  take_checked at version r valid db = take_valid at version r (find_host r.agent_id db) db

  -- What the handler does under the lock.
  unfoldable pub ingest :
      F64 → String → Option String → AgentReport → Database → Database × ApiResult ReportResponse
  unfolding credential_error find_agent stamps_ok body_verdict take_checked
  ingest at credential version r db =
      elim (credential_error elsewhere.hash (some credential) (find_agent r.agent_id db)) [
        | some e ↦ (db, err e)
        | none ↦
            if not (stamps_ok elsewhere.is_uuid at r)
            then (db, err (bad "Invalid report version, identity, or timestamp"))
            else take_checked at version r (body_verdict elsewhere.is_uuid r) db
      ]
