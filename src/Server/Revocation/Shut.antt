-- ===== src/Server/Revocation/Shut.antt =====
-- A revoked agent is shut out.
use hope.Base.{
  IpAddr, ap, some_eq, ◌≡◌, ◌⊎◌, refl, inl, inr, String, Bool, true, false, Option, none, some,
  List, [], ◌∷◌, any, find, F64, str_eq, Bool-cases, Option-cases, if◌then◌else◌,
}
use hope.Protocol.Types.{AgentReport, EnrollmentRequest, EnrollmentResponse, Network, Host}
use hope.Protocol.Validation.Inventory.{inventory}
use hope.Protocol.Validation.Values.{Verdict, valid, invalid}
use hope.Server.Database.{AgentRow, Database, is_text, find_agent, find_host}
use hope.Server.Errors.{ApiError, ApiResult, ok, err, unauthorized, agent_revoked}
use hope.Server.Enrollment.{
  request_ok, has_capacity, reset_agent, enroll_known, enroll_checked, enroll_inner,
}
use hope.Server.Enrollment.Used.{is_ok, consume-unfit}
use hope.Server.Ingestion.{Elsewhere, credential_error}
use hope.Server.Ingestion.Transaction.{ingest}
use hope.Server.Revocation.{
  revoked_row, revoke_row, revoke_by_id, uninstalled, complete_uninstall_by_id,
}
use hope.Server.Tokens.{Token, Registry, is_none, consume, fits_reset}

revoked_row-own :
    (id : String) (a : AgentRow)
    → str_eq a.id id ≡ true
    → revoked_row id a ≡ record a { revoked = true }
revoked_row-own id a same = rw same refl

revoked_row-other : (id : String) (a : AgentRow) → str_eq a.id id ≡ false → revoked_row id a ≡ a
revoked_row-other id a other = rw other refl

find-revoke_row :
    (id : String) (rows : List AgentRow) (row : AgentRow)
    → find (λ a. str_eq a.id id) rows ≡ some row
    → find (λ a. str_eq a.id id) (revoke_row id rows) ≡ some (record row { revoked = true })
unfolding revoke_row
find-revoke_row id [] row e = cc
find-revoke_row id (a ∷ rows) row e = elim (Bool-cases (str_eq a.id id)) [
  | inl same ↦
      let is = rw same at e in
      rw (revoked_row-own id a same, same)
        (ap (λ (r : AgentRow). some (record r { revoked = true })) (some_eq is))
  | inr other ↦
      let is = rw other at e in
      rw (revoked_row-other id a other, other) (find-revoke_row id rows row is)
]

-- The agent is no longer served: it was revoked, or its installation was removed.
abbrev pub IsEnded :
    (String → IpAddr → Bool) → (Host → Host) → List Network → String → Database → Database → Type 0
IsEnded contains refresh networks id db after =
    (after ≡ revoke_by_id id db)
    ⊎ ((after, ok tt) ≡ complete_uninstall_by_id contains refresh networks id db)

module _ (contains : String → IpAddr → Bool) (refresh : Host → Host) (networks : List Network)
    (id : String) (db after : Database) where
  uninstalled-agents :
      (h : Option Host)
      → (after, ok tt) ≡ uninstalled contains refresh networks id h db
      → after.agents ≡ revoke_row id db.agents
  uninstalled-agents none e = cc
  uninstalled-agents (some h) e = ap (λ (out : Database × ApiResult {0} Unit). out.0.agents) e

  IsEnded-agents :
      IsEnded contains refresh networks id db after → after.agents ≡ revoke_row id db.agents
  unfolding revoke_by_id complete_uninstall_by_id
  IsEnded-agents (inl e) = ap (λ (d : Database). d.agents) e
  IsEnded-agents (inr e) = elim (Bool-cases (any (λ a. str_eq a.id id) db.agents)) [
    | inl known ↦ uninstalled-agents (find_host id db) (rw (known, complete_uninstall_by_id) at e)
    | inr unknown ↦ let is = rw (unknown, complete_uninstall_by_id) at e in cc
  ]

-- The token of a key is unused and was issued for a new credential of the agent.
pub record IsNamed (key agent_id : String) (tokens : String → Option Token) : Type 0 where
  pub row : Token
  pub found : tokens key ≡ some row
  pub unused : is_none row.used_at ≡ true
  pub named : is_text row.reset_agent_id agent_id ≡ true

module _ (elsewhere : Elsewhere) (now : F64) where
  ingest-shut :
      (credential : String) (version : Option String) (r : AgentReport) (db : Database)
      (row : AgentRow)
      → find_agent r.agent_id db ≡ some row
      → row.revoked ≡ true
      → (e : ApiError) × (ingest elsewhere now credential version r db ≡ (db, err e))
  unfolding ingest credential_error
  ingest-shut credential version r db row found gone =
      elim (Bool-cases (str_eq row.credential_hash (elsewhere.hash credential))) [
        | inl right ↦ (agent_revoked, rw (found, right, gone, ingest, credential_error) refl)
        | inr wrong ↦ (unauthorized, rw (found, wrong, ingest, credential_error) refl)
      ]

  module _ (q : EnrollmentRequest) (s : Registry) where
    -- Refused, or by a token that names the agent.
    abbrev pub IsReset : Registry × ApiResult EnrollmentResponse → Type 0
    IsReset out = (is_ok out.1 ≡ false) ⊎ IsNamed (elsewhere.hash q.token) q.agent_id s.tokens

    reset_agent-refused :
        (row : AgentRow)
        → consume (fits_reset q.agent_id) (elsewhere.hash q.token) q.agent_id now s.tokens ≡ none
        → IsReset (reset_agent elsewhere now q row s)
    unfolding reset_agent
    reset_agent-refused row nothing = elim (Bool-cases (has_capacity s.db)) [
      | inl room ↦ inl (rw (room, nothing, reset_agent) refl)
      | inr full ↦ inl (rw (full, reset_agent) refl)
    ]

    reset_agent-unfit :
        (row : AgentRow) (t : Token)
        → s.tokens (elsewhere.hash q.token) ≡ some t
        → fits_reset q.agent_id t ≡ false
        → IsReset (reset_agent elsewhere now q row s)
    reset_agent-unfit row t found unfit =
        reset_agent-refused row
          (consume-unfit (fits_reset q.agent_id) _ q.agent_id now s.tokens t found unfit)

    reset_agent-IsReset : (row : AgentRow) → IsReset (reset_agent elsewhere now q row s)
    unfolding fits_reset
    reset_agent-IsReset row = elim (Option-cases (s.tokens (elsewhere.hash q.token))) [
      | inl missing ↦ reset_agent-refused row (rw (missing, consume) refl)
      | inr (t, found) ↦ elim (Bool-cases (is_none t.used_at)) [
        | inr used ↦ reset_agent-unfit row t found (rw used refl)
        | inl unused ↦ elim (Bool-cases (is_text t.reset_agent_id q.agent_id)) [
          | inr other ↦ reset_agent-unfit row t found (rw (unused, other) refl)
          | inl named ↦ inr (record { row = t; found = found; unused = unused; named = named })
        ]
      ]
    ]

    if-IsReset :
        (b : Bool) (x y : Registry × ApiResult EnrollmentResponse)
        → b ≡ true
        → IsReset x
        → IsReset (if b then x else y)
    if-IsReset true x y e reset = reset
    if-IsReset false x y e reset = cc

    enroll_checked-IsReset :
        (new_id : String) (version : Option String) (v : Verdict) (row : AgentRow)
        → find_agent q.agent_id s.db ≡ some row
        → row.revoked ≡ true
        → IsReset (enroll_checked elsewhere now q new_id version v s)
    unfolding enroll_checked enroll_known
    enroll_checked-IsReset new_id version (invalid reason) row found gone = inl refl
    enroll_checked-IsReset new_id version valid row found gone =
        rw (found, enroll_known) (if-IsReset row.revoked _ _ gone (reset_agent-IsReset row))

    enroll_inner-IsReset :
        (new_id : String) (version : Option String) (row : AgentRow)
        → find_agent q.agent_id s.db ≡ some row
        → row.revoked ≡ true
        → IsReset (enroll_inner elsewhere now q new_id version s)
    unfolding enroll_inner
    enroll_inner-IsReset new_id version row found gone =
        elim (Bool-cases (request_ok elsewhere.is_uuid q)) [
          | inl fine ↦
              rw (fine, enroll_inner)
                (enroll_checked-IsReset new_id version (inventory q.inventory) row found gone)
          | inr wrong ↦ inl (rw (wrong, enroll_inner) refl)
        ]

-- Once an agent is revoked, or its installation removed, its reports are refused and change nothing,
-- and each enrollment under its identity is refused too, but with an unused token that names it.
pub IsEnded-shut :
    (contains : String → IpAddr → Bool) (refresh : Host → Host) (networks : List Network)
    (id : String) (db after : Database) (row : AgentRow) (elsewhere : Elsewhere) (now : F64)
    (credential : String) (version : Option String) (r : AgentReport) (q : EnrollmentRequest)
    (new_id : String) (tokens : String → Option Token)
    → find_agent id db ≡ some row
    → IsEnded contains refresh networks id db after
    → r.agent_id ≡ id
    → q.agent_id ≡ id
    → ((e : ApiError) × (ingest elsewhere now credential version r after ≡ (after, err e)))
      × ((is_ok
              (enroll_inner elsewhere now q new_id version
                (record { db = after; tokens = tokens })).1
            ≡ false)
          ⊎ IsNamed (elsewhere.hash q.token) q.agent_id tokens)
unfolding find_agent
IsEnded-shut contains refresh networks id db after row elsewhere now credential version r q new_id
      tokens known ended reporter enrolled =
    let gone = record row { revoked = true } in
    let agents = IsEnded-agents contains refresh networks id db after ended in
    let found : find_agent id after ≡ some gone =
      rw agents (find-revoke_row id db.agents row known) in
    (
      ingest-shut elsewhere now credential version r after gone (rw reporter found) refl,
      enroll_inner-IsReset elsewhere now q (record { db = after; tokens = tokens }) new_id version
          gone (rw enrolled found) refl,
    )
