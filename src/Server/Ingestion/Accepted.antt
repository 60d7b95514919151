-- ===== src/Server/Ingestion/Accepted.antt =====
-- A report is taken exactly where its credential, its stamps and its body pass, and its host is
-- there; a refusal changes nothing.
use hope.Base.{
  ◌==◌, false, ◌≡◌, ◌⊎◌, refl, inl, inr, String, true, Option, none, some, F64, Bool-cases,
  Option-cases,
}
use hope.Protocol.Types.{AgentReport, Host}
use hope.Protocol.Validation.Values.{Verdict, valid, invalid}
use hope.Server.Database.{Database, find_agent, find_host}
use hope.Server.Errors.{ApiError, err, bad, not_found}
use hope.Server.Ingestion.{Elsewhere, credential_error, stamps_ok, body_verdict}
use hope.Server.Ingestion.Transaction.{take_report, take_valid, take_checked, ingest}

stale_report : ApiError
stale_report = bad "Invalid report version, identity, or timestamp"

module _ (elsewhere : Elsewhere) (at : F64) (credential : String) (version : Option String)
    (r : AgentReport) (db : Database) where
  -- The report passes every test, for the given host.
  pub record IsAccepted (h : Host) : Type 0 where
    pub credential_right :
        credential_error elsewhere.hash (some credential) (find_agent r.agent_id db) ≡ none
    pub stamps : stamps_ok elsewhere.is_uuid at r ≡ true
    pub body : body_verdict elsewhere.is_uuid r ≡ valid
    pub row : find_host r.agent_id db ≡ some h

  pub IsAccepted-ingest :
      (h : Host)
      → IsAccepted h
      → ingest elsewhere at credential version r db ≡ take_report elsewhere at version r h db
  unfolding ingest take_checked take_valid
  IsAccepted-ingest h a = rw (a.credential_right, a.stamps, a.body, a.row, ingest) refl

  abbrev Refused : Type 0
  Refused =
      (e : ApiError) × (ingest elsewhere at credential version r db ≡ (db, err e))
      × ((credential_error elsewhere.hash (some credential) (find_agent r.agent_id db) ≡ some e)
          ⊎ ((e.status == 401) ≡ false))

  take_checked-cases :
      (v : Verdict)
      → ((e : ApiError) × (take_checked elsewhere at version r v db ≡ (db, err e))
          × ((e.status == 401) ≡ false))
        ⊎ ((v ≡ valid) × ((h : Host) × (find_host r.agent_id db ≡ some h)))
  unfolding take_checked take_valid
  take_checked-cases (invalid reason) = inl (bad reason, refl, refl)
  take_checked-cases valid = elim (Option-cases (find_host r.agent_id db)) [
    | inl gone ↦ inl (not_found, rw (gone, take_checked) refl, refl)
    | inr (h, found) ↦ inr (refl, (h, found))
  ]

  -- A report is refused and changes nothing, or it passes every test.
  pub ingest-cases : Refused ⊎ ((h : Host) × IsAccepted h)
  unfolding ingest stale_report
  ingest-cases =
      elim (Option-cases
        (credential_error elsewhere.hash (some credential) (find_agent r.agent_id db))) [
          | inr (refusal, wrong) ↦ inl (refusal, rw (wrong, ingest) refl, inl wrong)
          | inl right ↦ elim (Bool-cases (stamps_ok elsewhere.is_uuid at r)) [
            | inr stale ↦ inl (stale_report, rw (right, stale, ingest) refl, inr refl)
            | inl fresh ↦ elim (take_checked-cases (body_verdict elsewhere.is_uuid r)) [
              | inl (refusal, wrong, other) ↦
                  inl (refusal, rw (right, fresh, ingest) wrong, inr other)
              | inr (body, (h, row)) ↦
                  inr
                    (h, record { credential_right = right; stamps = fresh; body = body; row = row })
            ]
          ]
        ]
