-- ===== src/Server/Ingestion/Revoked.antt =====
-- A report is answered with a revocation only where the table of agents says so.
use hope.Base.{
  ◌≡◌, ◌≢◌, ◌⊎◌, ap, ◌∙◌, sym, subst, inl, inr, String, true, Option, some, F64, Bool-cases,
}
use hope.Protocol.Types.{Host, ReportResponse}
use hope.Server.Addresses.{agent_version}
use hope.Server.Database.{Database, find_host}
use hope.Server.Errors.{ApiError, ApiResult, ok, err, unauthorized}
use hope.Server.Ingestion.{Elsewhere, Request, Server, bearer, is_duplicate}
use hope.Server.Ingestion.Accepted.{IsAccepted-ingest, ingest-cases}
use hope.Server.Ingestion.Handler.{conclude, report_locked, report}
use hope.Server.Ingestion.Transaction.{take_report, ingest}
use hope.Server.Ingestion.Admission.{
  is_revocation, is_revocation-status, HasRow, credential_error-revoked, refused, gone, passed,
  admit-Admission,
}

abbrev credential_of : ApiResult String → String
credential_of (ok credential) = credential
credential_of (err e) = ""

abbrev error_of : {A : Type 0} → ApiResult A → ApiError
error_of (ok response) = unauthorized
error_of (err e) = e

err_eq : (x y : ApiError) (a : ApiResult ReportResponse) → a ≡ err x → a ≡ err y → x ≡ y
err_eq x y a is_x is_y = ap error_of (sym is_x ∙ is_y)

module _ (elsewhere : Elsewhere) (q : Request) (s : Server) where
  -- The right credential, whose agent is revoked in the table before the lock or under it.
  abbrev pub IsRevoked : Type 0
  IsRevoked =
      (credential : String) × (bearer q.authorization ≡ some credential)
      × (HasRow elsewhere q.report.agent_id credential true s.db
          ⊎ HasRow elsewhere q.report.agent_id credential true (elsewhere.before_lock s.db))

  conclude-err :
      (later : F64) (h : Option Host) (out : Database × ApiResult ReportResponse) (e : ApiError)
      → (conclude elsewhere later h out).1 ≡ err e
      → out.1 ≡ err e
  unfolding conclude
  conclude-err later h (db, err x) e is = is
  conclude-err later h (db, ok response) e is = elim (Bool-cases response.duplicate) [
    | inl again ↦ cc (rw again at is)
    | inr first ↦ cc (rw first at is)
  ]

  take_report-ne-err :
      (at : F64) (version : Option String) (h : Host) (db : Database) (e : ApiError)
      → (take_report elsewhere at version q.report h db).1 ≢ err e
  unfolding take_report
  take_report-ne-err at version h db e is =
      elim (Bool-cases (is_duplicate q.report (db.heads q.report.agent_id) db)) [
        | inl again ↦ cc (rw (again, take_report) at is)
        | inr first ↦ cc (rw (first, take_report) at is)
      ]

  ingest-revoked :
      (at : F64) (credential : String) (version : Option String) (db : Database) (e : ApiError)
      → (ingest elsewhere at credential version q.report db).1 ≡ err e
      → is_revocation e ≡ true
      → HasRow elsewhere q.report.agent_id credential true db
  ingest-revoked at credential version db e is r =
      elim (ingest-cases elsewhere at credential version q.report db) [
        | inr (h, accepted) ↦ absurd (
            take_report-ne-err at version h db e
              (rw (IsAccepted-ingest elsewhere at credential version q.report db h accepted) at is))
        | inl (x, unchanged, reason) ↦
            let same : x ≡ e = err_eq x e _ (ap (λ p. p.1) unchanged) is in
            elim reason [
              | inl wrong ↦
                  credential_error-revoked elsewhere q.report.agent_id credential db x wrong
                    (subst (λ y. is_revocation y ≡ true) (sym same) r)
              | inr other ↦
                  let unauthorized_x =
                    is_revocation-status x (subst (λ y. is_revocation y ≡ true) (sym same) r) in
                  cc
            ]
      ]

  -- The answer under the lock, in the database that the others have left.
  abbrev answer_locked : F64 → F64 → String → Database → ApiResult ReportResponse
  answer_locked at later credential db =
      let locked = elsewhere.before_lock db in
      (conclude elsewhere later (find_host q.report.agent_id locked)
        (ingest elsewhere at credential (agent_version q.user_agent) q.report locked)).1

  locked-err :
      (at later : F64) (out : Server × ApiResult String) (x : ApiError)
      → out.1 ≡ err x
      → (report_locked elsewhere q at later out).1 ≡ err x
  locked-err at later (t, err y) x e = ap (λ a. err (error_of a)) e
  locked-err at later (t, ok c) x e = cc

  locked-ok :
      (at later : F64) (out : Server × ApiResult String) (credential : String)
      → out.1 ≡ ok credential
      → out.0.db ≡ s.db
      → (report_locked elsewhere q at later out).1 ≡ answer_locked at later credential s.db
  locked-ok at later (t, err y) credential e kept = cc
  locked-ok at later (t, ok c) credential e kept =
      ap (λ c. answer_locked at later c t.db) (ap credential_of e)
      ∙ ap (answer_locked at later credential) kept

  -- A report is answered with a revocation only where it carries the right credential of an agent
  -- that the table holds revoked, before the lock or under it.
  pub report-revoked :
      (now at later : F64) (e : ApiError)
      → (report elsewhere q now at later s).1 ≡ err e
      → is_revocation e ≡ true
      → IsRevoked
  unfolding report
  report-revoked now at later e is r = elim (admit-Admission elsewhere q s now) [
    | refused x kept told other ↦
        let same : x ≡ e = err_eq x e _ (locked-err at later _ x told) is in
        let revoking = subst (λ y. is_revocation y ≡ true) (sym same) r in cc
    | gone credential x kept told given row ↦ (credential, given, inl row)
    | passed credential kept told given row ↦
        let locked = elsewhere.before_lock s.db in
        let answer : answer_locked at later credential s.db ≡ err e =
          sym (locked-ok at later _ credential told kept) ∙ is in
        let refusal =
          conclude-err later (find_host q.report.agent_id locked)
            (ingest elsewhere at credential (agent_version q.user_agent) q.report locked) e
            answer in
        (credential, given, inr (ingest-revoked at credential _ locked e refusal r))
  ]
