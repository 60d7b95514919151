-- ===== src/Server/Ingestion/Newest.antt =====
-- Whatever order the numbered reports of an agent arrive in, its host shows the one with the
-- largest number.
use hope.Base.{
  ℕ, ◌≡◌, refl, sym, ap, ◌∙◌, subst, inl, inr, String, Bool, true, false, Option, none, some, F64,
  str_eq_iff, ltb, Bool-cases, Option-cases, if◌then◌else◌,
}
use hope.Protocol.Types.{AgentReport, Host, ReportResponse}
use hope.Server.Database.{Database, Head, assign, find_host}
use hope.Server.Errors.{ApiResult, ok, err}
use hope.Server.Ingestion.{Elsewhere, is_live, is_duplicate}
use hope.Server.Ingestion.Transaction.{first_response, with_update, take_report, ingest}
use hope.Server.Ingestion.Latest.{
  Latest, shown, newer, observe, HasLive, ShowsHost, Shows, KeepsLive,
}
use hope.Server.Ingestion.Written.{headed, Leaves, apply_report-Leaves}
use hope.Server.Ingestion.Accepted.{IsAccepted-ingest, ingest-cases}

module _ (elsewhere : Elsewhere) (law : KeepsLive elsewhere.refresh) where
  -- A report that is not live leaves what is shown.
  Leaves-kept :
      (r : AgentReport) (h : Host) (db after : Database) (l : Latest)
      → Leaves elsewhere law false r h db after
      → find_host r.agent_id db ≡ some h
      → Shows r.agent_id db (some l)
      → Shows r.agent_id after (some l)
  Leaves-kept r h db after l leaves row (head, shown_before) =
      let before : HasLive h l = subst (λ o. ShowsHost o l) row shown_before in
      let live : HasLive leaves.host l = record {
        collected_at = ap (λ p. p.1) leaves.part ∙ before.collected_at;
        metrics = ap (λ p. p.2) leaves.part ∙ before.metrics;
        collectors = ap (λ p. p.3) leaves.part ∙ before.collectors;
      } in
      (
        ap (λ heads. heads r.agent_id) leaves.heads ∙ head,
        subst (λ o. ShowsHost o l) (sym leaves.found) live,
      )

  assigned :
      (id : String) (head : Head) (heads : String → Option Head)
      → assign id head heads id ≡ some head
  assigned id head heads = rw ((str_eq_iff id id).1 refl) refl

  -- A live report is what is shown.
  Leaves-shown :
      (r : AgentReport) (n : ℕ) (h : Host) (db after : Database)
      → r.sequence ≡ some n
      → Leaves elsewhere law true r h db after
      → Shows r.agent_id after (some (shown n r))
  Leaves-shown r n h db after numbered leaves =
      let live : HasLive leaves.host (shown n r) = record {
        collected_at = ap (λ p. p.1) leaves.part;
        metrics = ap (λ p. p.2) leaves.part;
        collectors = ap (λ p. p.3) leaves.part;
      } in
      let head : (headed true r db).heads r.agent_id
          ≡ some (record { sequence = n; report_id = r.report_id }) =
        rw numbered
          (assigned r.agent_id (record { sequence = n; report_id = r.report_id }) db.heads) in
      (
        ap (λ heads. heads r.agent_id) leaves.heads ∙ head,
        subst (λ o. ShowsHost o (shown n r)) (sym leaves.found) live,
      )

  headed-unnumbered :
      (live : Bool) (r : AgentReport) (db : Database)
      → r.sequence ≡ none
      → (headed live r db).heads ≡ db.heads
  headed-unnumbered true r db e = rw e refl
  headed-unnumbered false r db e = refl

  observe-unnumbered : (l : Option Latest) (r : AgentReport) → r.sequence ≡ none → observe l r ≡ l
  unfolding observe
  observe-unnumbered l r e = rw e refl

  observe-numbered :
      (l : Option Latest) (n : ℕ) (r : AgentReport)
      → r.sequence ≡ some n
      → observe l r ≡ newer n r l
  unfolding observe
  observe-numbered l n r e = rw e refl

  observe-later :
      (l : Latest) (n : ℕ) (r : AgentReport)
      → r.sequence ≡ some n
      → ltb l.sequence n ≡ true
      → observe (some l) r ≡ some (shown n r)
  unfolding observe
  observe-later l n r e later = rw (e, later, observe) refl

  observe-earlier :
      (l : Latest) (n : ℕ) (r : AgentReport)
      → r.sequence ≡ some n
      → ltb l.sequence n ≡ false
      → observe (some l) r ≡ some l
  unfolding observe
  observe-earlier l n r e earlier = rw (e, earlier, observe) refl

  module _ (r : AgentReport) (h : Host) (db after : Database) where
    abbrev live_now : Bool
    live_now = is_live r.sequence (db.heads r.agent_id) r.collected_at h.last_collected_at

    Leaves-as :
        (live : Bool)
        → live_now ≡ live
        → Leaves elsewhere law live_now r h db after
        → Leaves elsewhere law live r h db after
    Leaves-as live e leaves = subst (λ b. Leaves elsewhere law b r h db after) e leaves

    -- A report that is no duplicate, by its number and what was shown before.
    Leaves-observe :
        (l : Option Latest)
        → Leaves elsewhere law live_now r h db after
        → find_host r.agent_id db ≡ some h
        → Shows r.agent_id db l
        → Shows r.agent_id after (observe l r)
    unfolding is_live observe
    Leaves-observe none leaves row before = elim (Option-cases r.sequence) [
      | inl unnumbered ↦
          rw (unnumbered, observe)
            (ap (λ heads. heads r.agent_id)
                (leaves.heads ∙ headed-unnumbered live_now r db unnumbered)
              ∙ before)
      | inr (n, numbered) ↦
          let live : live_now ≡ true = rw (numbered, before) refl in
          subst (λ l. Shows r.agent_id after l) (sym (observe-numbered none n r numbered))
            (Leaves-shown r n h db after numbered (Leaves-as true live leaves))
    ]
    Leaves-observe (some l) leaves row before = elim (Option-cases r.sequence) [
      | inl unnumbered ↦
          let late : live_now ≡ false = rw (unnumbered, before.0) refl in
          subst (λ m. Shows r.agent_id after m) (sym (observe-unnumbered (some l) r unnumbered))
            (Leaves-kept r h db after l (Leaves-as false late leaves) row before)
      | inr (n, numbered) ↦ elim (Bool-cases (ltb l.sequence n)) [
        | inl later ↦
            let live : live_now ≡ true = rw (numbered, before.0, later) refl in
            subst (λ m. Shows r.agent_id after m) (sym (observe-later l n r numbered later))
              (Leaves-shown r n h db after numbered (Leaves-as true live leaves))
        | inr earlier ↦
            let late : live_now ≡ false = rw (numbered, before.0, earlier) refl in
            subst (λ m. Shows r.agent_id after m) (sym (observe-earlier l n r numbered earlier))
              (Leaves-kept r h db after l (Leaves-as false late leaves) row before)
      ]
    ]

abbrev pub duplicate_of : ApiResult ReportResponse → Bool
duplicate_of (ok response) = response.duplicate
duplicate_of (err e) = true

-- What the host shows before a report, and after it: a refused report and a duplicate change nothing.
abbrev pub shown_after : ApiResult ReportResponse → Option Latest → AgentReport → Option Latest
shown_after answer l r = if duplicate_of answer then l else observe l r

module _ (elsewhere : Elsewhere) (law : KeepsLive elsewhere.refresh) where
  take_report-Shows :
      (at : F64) (version : Option String) (r : AgentReport) (h : Host) (db : Database)
      (l : Option Latest)
      → find_host r.agent_id db ≡ some h
      → Shows r.agent_id db l
      → let (after, answer) = take_report elsewhere at version r h db in
        Shows r.agent_id after (shown_after answer l r)
  unfolding take_report first_response with_update
  take_report-Shows at version r h db l row before =
      elim (Bool-cases (is_duplicate r (db.heads r.agent_id) db)) [
        | inl duplicate ↦ rw (duplicate, take_report) before
        | inr fresh ↦
            rw (fresh, take_report)
              (Leaves-observe elsewhere law r h db _ l
                (apply_report-Leaves elsewhere law at _ version r h db row) row before)
      ]

  -- The server refines the abstract view, in which a numbered report takes over where its number is
  -- larger than the number of what is shown: a database that shows the view before a report shows
  -- the view after it. The guess of a host's kind leaves the agent and the live figures alone.
  pub ingest-Shows :
      (at : F64) (credential : String) (version : Option String) (r : AgentReport) (db : Database)
      (l : Option Latest)
      → Shows r.agent_id db l
      → let (after, answer) = ingest elsewhere at credential version r db in
        Shows r.agent_id after (shown_after answer l r)
  ingest-Shows at credential version r db l before =
      elim (ingest-cases elsewhere at credential version r db) [
        | inl (refusal, refused, reason) ↦ rw refused before
        | inr (h, accepted) ↦
            rw (IsAccepted-ingest elsewhere at credential version r db h accepted)
              (take_report-Shows at version r h db l accepted.row before)
      ]
