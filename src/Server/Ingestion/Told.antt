-- ===== src/Server/Ingestion/Told.antt =====
-- From the table of agents to the agent: what its answer makes it do.
use hope.Base.{
  ℕ, List, [], ◌∷◌, ◌≡◌, ◌≢◌, none, str_eq, ◌==◌, arith, refl, if_both, false, if◌then◌else◌, inl,
  inr, String, true, some, F64, Bool-cases,
}
use hope.Protocol.Types.{ReportResponse}
use hope.Agent.Delivery.{Wire, Reply, replied, revoked, report_outcome}
use hope.Agent.Delivery.Answers.{revoked_iff, bounded_json-one}
use hope.Server.Errors.{ApiError, ApiResult, ok, err, error_code, retry_header}
use hope.Server.Ingestion.{Elsewhere, Request, Server}
use hope.Server.Ingestion.Handler.{report}
use hope.Server.Ingestion.Admission.{is_revocation}
use hope.Server.Ingestion.Revoked.{IsRevoked, report-revoked}

-- An answer as it stands on the wire, from how an error and a response are written.
abbrev pub reply_of :
    (String → String → List ℕ) → (ReportResponse → List ℕ) → ApiResult ReportResponse → Reply
reply_of write_error write_response (ok response) = record {
  status = 200;
  retry_after_header = none;
  chunks = write_response response ∷ [];
  broken = false;
}
reply_of write_error write_response (err e) = record {
  status = e.status;
  retry_after_header = retry_header e;
  chunks = write_error (error_code e) e.message ∷ [];
  broken = false;
}

not_revoked : (t : String) → str_eq t "agent_revoked" ≡ false → t ≢ "agent_revoked"
not_revoked t other same = cc (rw same at other)

-- The codes of the other errors.
abbrev late_code : ℕ → String
late_code status =
    if status == 403
    then "forbidden"
    else if status == 404
    then "not_found"
    else if status == 409
    then "conflict"
    else if status == 429
    then "rate_limited"
    else if status == 503
    then "unavailable"
    else "internal_error"

late_code-other : (status : ℕ) → str_eq (late_code status) "agent_revoked" ≡ false
late_code-other status =
    let P : String → Type 0 = λ t. str_eq t "agent_revoked" ≡ false in
    if_both P (status == 403) refl (
      if_both P (status == 404) refl (
        if_both P (status == 409) refl
          (if_both P (status == 429) refl (if_both P (status == 503) refl refl))))

-- Only a revocation has its code.
error_code-revoked : (e : ApiError) → error_code e ≡ "agent_revoked" → is_revocation e ≡ true
unfolding error_code is_revocation
error_code-revoked e is = elim (Bool-cases (e.status == 400)) [
  | inl bad ↦ cc (rw (bad, error_code) at is)
  | inr good ↦ elim (Bool-cases (e.status == 401)) [
    | inl denied ↦ elim (Bool-cases (str_eq e.message "Agent credential revoked")) [
      | inl said ↦ rw (denied, said) refl
      | inr other ↦ cc (rw (good, denied, other, error_code) at is)
    ]
    | inr other ↦ absurd (
        not_revoked (late_code e.status) (late_code-other e.status)
          (rw (good, other, error_code) at is))
  ]
]

module _ (wire : Wire ReportResponse) (write_error : String → String → List ℕ)
    (write_response : ReportResponse → List ℕ) where
  -- An error is read as a revocation only where it was written as one.
  abbrev pub Reads : Type 0
  Reads =
      (code message : String)
      → wire.error_code (write_error code message) ≡ some "agent_revoked"
      → code ≡ "agent_revoked"

  told_revoked :
      Reads
      → (now : ℕ) (answer : ApiResult ReportResponse)
      → report_outcome wire now (replied (reply_of write_error write_response answer)) ≡ revoked
      → (e : ApiError) × (answer ≡ err e) × (is_revocation e ≡ true)
  told_revoked reads now (ok response) is =
      let says = (revoked_iff (λ r. r.accepted) wire now _).0 is in
      absurd (elim says.0 [ inl e ↦ omega arith | inr e ↦ omega arith ])
  told_revoked reads now (err e) is =
      let says = (revoked_iff (λ r. r.accepted) wire now _).0 is in
      let code = bounded_json-one wire.error_code _ _ _ says.1 in
      (e, refl, error_code-revoked e (reads (error_code e) e.message code))

-- An agent whose answer is the handler's, read as a revocation only where it is one, takes its
-- credential for revoked only where it is right and the table holds the agent revoked, before the
-- lock or under it.
pub report-told_revoked :
    (elsewhere : Elsewhere) (q : Request) (s : Server) (wire : Wire ReportResponse)
    (write_error : String → String → List ℕ) (write_response : ReportResponse → List ℕ)
    (received : ℕ) (now at later : F64)
    → Reads wire write_error write_response
    → report_outcome wire received
        (replied (reply_of write_error write_response (report elsewhere q now at later s).1))
      ≡ revoked
    → IsRevoked elsewhere q s
report-told_revoked elsewhere q s wire write_error write_response received now at later reads is =
    let (e, told, revoking) = told_revoked wire write_error write_response reads received _ is in
    report-revoked elsewhere q s now at later e told revoking
