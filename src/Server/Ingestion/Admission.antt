-- ===== src/Server/Ingestion/Admission.antt =====
-- How the tests before the lock end.
use hope.Base.{
  and_true, ℕ, ◌≡◌, refl, sym, subst, some_eq, inl, inr, String, Bool, true, false, ◌&&◌, Option,
  none, some, F64, str_eq, Bool-cases, Option-cases, ◌==◌,
}
use hope.Server.Database.{AgentRow, Database, find_agent}
use hope.Server.Errors.{ApiError, ApiResult, ok, err, unauthorized, agent_revoked, too_many}
use hope.Server.Limiter.{check}
use hope.Server.Ingestion.{
  Elsewhere, Request, Server, bearer, denied_limiter, report_limiter, credential_error,
}
use hope.Server.Ingestion.Handler.{denied, admit_known, admit_row, admit_bearer, admit}

-- The error that tells an agent that it is revoked.
unfoldable pub is_revocation : ApiError → Bool
is_revocation e = (e.status == 401) && str_eq e.message "Agent credential revoked"

pub is_revocation-status : (e : ApiError) → is_revocation e ≡ true → (e.status == 401) ≡ true
unfolding is_revocation
is_revocation-status e r =
    (and_true (e.status == 401) (str_eq e.message "Agent credential revoked") r).0

unauthorized-apart : (e : ApiError) → unauthorized ≡ e → is_revocation e ≡ true → ⊥
unfolding is_revocation
unauthorized-apart e is r = cc (subst (λ x. is_revocation x ≡ true) (sym is) r)

module _ (elsewhere : Elsewhere) (agent_id credential : String) where
  -- The table has the agent's row with the credential, revoked or not.
  pub record HasRow (revoked : Bool) (db : Database) : Type 0 where
    pub row : AgentRow
    pub found : find_agent agent_id db ≡ some row
    pub right : str_eq row.credential_hash (elsewhere.hash credential) ≡ true
    pub state : row.revoked ≡ revoked

  pub credential_error-revoked :
      (db : Database) (e : ApiError)
      → credential_error elsewhere.hash (some credential) (find_agent agent_id db) ≡ some e
      → is_revocation e ≡ true
      → HasRow true db
  unfolding credential_error
  credential_error-revoked db e is r = elim (Option-cases (find_agent agent_id db)) [
    | inl unknown ↦ absurd (unauthorized-apart e (some_eq (rw (unknown, credential_error) at is)) r)
    | inr (row, found) ↦
        elim (Bool-cases (str_eq row.credential_hash (elsewhere.hash credential))) [
          | inr wrong ↦
              absurd (unauthorized-apart e (some_eq (rw (found, wrong, credential_error) at is)) r)
          | inl right ↦ elim (Bool-cases row.revoked) [
            | inl revoked ↦ record { row = row; found = found; right = right; state = revoked }
            | inr live ↦ cc (rw (found, right, live, credential_error) at is)
          ]
        ]
  ]

module _ (elsewhere : Elsewhere) (q : Request) (s : Server) where
  -- How the tests before the lock end.
  pub data Admission (out : Server × ApiResult String) : Type 0 where
    refused :
        (e : ApiError) → out.0.db ≡ s.db → out.1 ≡ err e → is_revocation e ≡ false → Admission out
    gone :
        (credential : String) (e : ApiError)
        → out.0.db ≡ s.db
        → out.1 ≡ err e
        → bearer q.authorization ≡ some credential
        → HasRow elsewhere q.report.agent_id credential true s.db
        → Admission out
    passed :
        (credential : String)
        → out.0.db ≡ s.db
        → out.1 ≡ ok credential
        → bearer q.authorization ≡ some credential
        → HasRow elsewhere q.report.agent_id credential false s.db
        → Admission out

  denied-Admission : (now : F64) → Admission (denied elsewhere q now s)
  unfolding is_revocation
  denied-Admission now = refused unauthorized refl refl refl

  too_many-Admission : (wait : ℕ) → Admission (s, err (too_many wait))
  unfolding is_revocation too_many
  too_many-Admission wait = refused (too_many wait) refl refl refl

  known-Admission :
      (now : F64) (credential : String)
      → bearer q.authorization ≡ some credential
      → HasRow elsewhere q.report.agent_id credential false s.db
      → Admission (admit_known elsewhere q.report.agent_id now credential s)
  known-Admission now credential given row =
      elim (Option-cases (check report_limiter q.report.agent_id now s.report_limit)) [
        | inl free ↦ rw (free, admit_known) (passed credential refl refl given row)
        | inr (wait, busy) ↦ rw (busy, admit_known) (too_many-Admission wait)
      ]

  row-Admission :
      (now : F64) (credential : String) (found : Option AgentRow)
      → bearer q.authorization ≡ some credential
      → find_agent q.report.agent_id s.db ≡ found
      → Admission (admit_row elsewhere q now credential found s)
  row-Admission now credential none given is = denied-Admission now
  row-Admission now credential (some row) given is =
      elim (Bool-cases (str_eq row.credential_hash (elsewhere.hash credential))) [
        | inr wrong ↦ rw wrong (denied-Admission now)
        | inl right ↦ elim (Bool-cases row.revoked) [
          | inl revoked ↦
              rw (right, revoked)
                (gone credential agent_revoked refl refl given
                  (record { row = row; found = is; right = right; state = revoked }))
          | inr live ↦
              rw (right, live)
                (known-Admission now credential given
                  (record { row = row; found = is; right = right; state = live }))
        ]
      ]

  pub admit-Admission : (now : F64) → Admission (admit elsewhere q now s)
  unfolding admit admit_bearer
  admit-Admission now = elim (Option-cases (check denied_limiter q.client now s.report_denied)) [
    | inr (wait, busy) ↦ rw (busy, admit) (too_many-Admission wait)
    | inl free ↦ elim (Option-cases (bearer q.authorization)) [
      | inl missing ↦ rw (free, missing, admit) (denied-Admission now)
      | inr (credential, given) ↦
          rw (free, given, admit) (row-Admission now credential _ given refl)
    ]
  ]
