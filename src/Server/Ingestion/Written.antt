-- ===== src/Server/Ingestion/Written.antt =====
-- What a report that is applied leaves in the database for its agent.
use hope.Base.{
  ℕ, ◌≡◌, refl, ap, ◌∙◌, inl, inr, String, Bool, true, false, Option, none, some, List, F64,
  Option-cases, find-some, if◌then◌else◌,
}
use hope.Protocol.Types.{AgentReport, CollectorStatus, Host, Metrics}
use hope.Server.Database.{Database, is_text, assign, find_host, put_agent_host, clear_retired_host}
use hope.Server.Updates.{settle_update_request}
use hope.Server.Ingestion.{Elsewhere, add_sample, touched, show_live, with_head}
use hope.Server.Ingestion.Untouched.{
  live_part, settle_outcome-live, settle_update_request-live, SameReports, SameReports-trans,
  record_failure-SameReports, record_success-SameReports, reconciled-SameReports,
  add_sample-SameReports, find-put_agent_host,
}
use hope.Server.Ingestion.Transaction.{changes_identity, settled_host, finished_host, apply_report}
use hope.Server.Ingestion.Latest.{KeepsLive}

-- What a report that is taken makes of the live figures.
abbrev pub live_after :
    Bool → AgentReport → Host → Option String × Option F64 × Option Metrics × List CollectorStatus
live_after true r h = (h.agent_id, some r.collected_at, some r.metrics, r.collectors)
live_after false r h = live_part h

show_live-live :
    (at : F64) (r : AgentReport) (h : Host) → live_part (show_live at r h) ≡ live_after true r h
unfolding show_live
show_live-live at r h = elim (Option-cases r.inventory) [
  | inl none_given ↦ rw (none_given, show_live) refl
  | inr (i, given) ↦ rw (given, show_live) refl
]

settled_host-live :
    (elsewhere : Elsewhere) (at : F64) (live : Bool) (version : Option String) (r : AgentReport)
    (h : Host)
    → live_part (settled_host elsewhere at live version r h).host ≡ live_after live r h
unfolding settled_host touched
settled_host-live elsewhere at true version r h =
    settle_outcome-live at true (show_live at r (touched at version h))
    ∙ show_live-live at r (touched at version h)
settled_host-live elsewhere at false version r h =
    settle_outcome-live at false (touched at version h)

abbrev pub headed : Bool → AgentReport → Database → Database
headed live r db = if live then with_head r.sequence r.agent_id r.report_id db else db

abbrev with_written : String → Host → Database → Database
with_written agent_id h db = record db { hosts = put_agent_host agent_id h db.hosts }

with_written-SameReports :
    (agent_id : String) (h : Host) {a b : Database}
    → SameReports a b
    → SameReports (with_written agent_id h a) (with_written agent_id h b)
with_written-SameReports agent_id h same = record {
  heads = same.heads;
  hosts = ap (put_agent_host agent_id h) same.hosts;
}

with_head-SameReports :
    (n : Option ℕ) (agent_id report_id : String) {a b : Database}
    → SameReports a b
    → SameReports (with_head n agent_id report_id a) (with_head n agent_id report_id b)
with_head-SameReports none agent_id report_id same = same
with_head-SameReports (some n) agent_id report_id same = record {
  heads = ap (assign agent_id (record { sequence = n; report_id = report_id })) same.heads;
  hosts = same.hosts;
}

headed-SameReports :
    (live : Bool) (r : AgentReport) {a b : Database}
    → SameReports a b
    → SameReports (headed live r a) (headed live r b)
headed-SameReports true r same = with_head-SameReports r.sequence r.agent_id r.report_id same
headed-SameReports false r same = same

sampled-SameReports :
    (r : AgentReport) (id : String) (db : Database)
    → SameReports (add_sample r (clear_retired_host id db)) db
unfolding clear_retired_host
sampled-SameReports r id db =
    SameReports-trans (add_sample-SameReports r (clear_retired_host id db))
      (record { heads = refl; hosts = refl })

module _ (elsewhere : Elsewhere) (law : KeepsLive elsewhere.refresh) where
  -- The record that the transaction writes.
  abbrev pub written_host : F64 → Bool → Option String → AgentReport → Host → Host
  written_host at live version r h =
      finished_host elsewhere
        (settle_update_request at (settled_host elsewhere at live version r h).host)

  written_host-live :
      (at : F64) (live : Bool) (version : Option String) (r : AgentReport) (h : Host)
      → live_part (written_host at live version r h) ≡ live_after live r h
  unfolding finished_host
  written_host-live at live version r h =
      let settled = (settled_host elsewhere at live version r h).host in
      let asked = settle_update_request at settled in
      law.same (record asked { network_ids = elsewhere.matching_networks asked.addresses })
      ∙ (settle_update_request-live at settled ∙ settled_host-live elsewhere at live version r h)

  apply_report-SameReports :
      (at : F64) (live : Bool) (version : Option String) (r : AgentReport) (h : Host)
      (db : Database)
      → SameReports
          (apply_report elsewhere at live version r h db).0
          (with_written r.agent_id (written_host at live version r h) (headed live r db))
  unfolding apply_report clear_retired_host
  apply_report-SameReports at live version r h db =
      let settled = settled_host elsewhere at live version r h in
      SameReports-trans (record_failure-SameReports settled.failure _) (
        SameReports-trans
          (record_success-SameReports r.agent_id at elsewhere.float_text.show settled.success _)
          (SameReports-trans (reconciled-SameReports elsewhere (changes_identity at live r h) _) (
            with_written-SameReports r.agent_id (written_host at live version r h)
              (headed-SameReports live r (sampled-SameReports r h.id db)))))

  -- What a taken report leaves for its agent.
  pub record Leaves (live : Bool) (r : AgentReport) (h : Host) (db after : Database) : Type 0 where
    pub heads : after.heads ≡ (headed live r db).heads
    pub host : Host
    pub found : find_host r.agent_id after ≡ some host
    pub part : live_part host ≡ live_after live r h

  headed-hosts :
      (live : Bool) (r : AgentReport) (db : Database) → (headed live r db).hosts ≡ db.hosts
  headed-hosts true r db = elim (Option-cases r.sequence) [
    | inl unnumbered ↦ rw unnumbered refl
    | inr (n, numbered) ↦ rw numbered refl
  ]
  headed-hosts false r db = refl

  live_after-agent :
      (live : Bool) (r : AgentReport) (h : Host) → (live_after live r h).0 ≡ h.agent_id
  live_after-agent true r h = refl
  live_after-agent false r h = refl

  pub apply_report-Leaves :
      (at : F64) (live : Bool) (version : Option String) (r : AgentReport) (h : Host)
      (db : Database)
      → find_host r.agent_id db ≡ some h
      → Leaves live r h db (apply_report elsewhere at live version r h db).0
  unfolding find_host
  apply_report-Leaves at live version r h db row =
      let same = apply_report-SameReports at live version r h db in
      let w = written_host at live version r h in
      let part = written_host-live at live version r h in
      let owner = ap (λ p. p.0) part ∙ live_after-agent live r h in
      let own : is_text w.agent_id r.agent_id ≡ true =
        ap (λ o. is_text o r.agent_id) owner
        ∙ find-some (λ k. is_text k.agent_id r.agent_id) db.hosts row in
      record {
        heads = same.heads;
        host = w;
        found =
            rw (same.hosts, headed-hosts live r db)
              (find-put_agent_host r.agent_id w h db.hosts own row);
        part = part;
      }
