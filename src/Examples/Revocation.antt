-- ===== src/Examples/Revocation.antt =====
-- The end of an agent.
use hope.Base.{◌≡◌, ◌⊎◌, refl, inl, false, none, some, [], float}
use hope.Examples.Data.{beat}
use hope.Examples.Enrollment.{asking}
use hope.Examples.Reports.{quiet, tables, row}
use hope.Server.Database.{Database, find_agent}
use hope.Server.Enrollment.{enroll_inner}
use hope.Server.Enrollment.Used.{is_ok}
use hope.Server.Errors.{ApiError, err}
use hope.Server.Ingestion.Transaction.{ingest}
use hope.Server.Revocation.{revoke_by_id}
use hope.Server.Revocation.Shut.{IsNamed, IsEnded-shut}

abbrev revoked_tables : Database
revoked_tables = revoke_by_id "a" (tables false)

known_row : find_agent "a" (tables false) ≡ some (row false)
unfolding find_agent
known_row = refl

IsEnded-shut_example :
    ((e : ApiError) × (ingest quiet (float 100) "secret" none (beat 7) revoked_tables
        ≡ (revoked_tables, err e)))
    × ((is_ok
            (enroll_inner quiet
              (float 100)
              (asking "a")
              "new"
              none
              (record { db = revoked_tables; tokens = λ key. none })).1
          ≡ false)
        ⊎ IsNamed "token" "a" (λ key. none))
IsEnded-shut_example =
    IsEnded-shut (λ cidr ip. false) quiet.refresh [] "a" (tables false) revoked_tables (row false)
      quiet (float 100) "secret" none (beat 7) (asking "a") "new" (λ key. none) known_row (inl refl)
      refl refl
