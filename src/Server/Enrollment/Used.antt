-- ===== src/Server/Enrollment/Used.antt =====
-- What an enrollment does with its token, and one with a used token.
use hope.Base.{
  ◌⊎◌, ◌≡◌, refl, inl, inr, String, Bool, true, false, not, ◌&&◌, ◌||◌, Option, none, some, F64,
  f64_lt, str_eq, str_eq_iff, Bool-cases, Option-cases, if_both, if◌then◌else◌,
}
use hope.Protocol.Types.{EnrollmentRequest, EnrollmentResponse, Host}
use hope.Protocol.Validation.Inventory.{inventory}
use hope.Protocol.Validation.Values.{Verdict, valid, invalid}
use hope.Server.Database.{AgentRow, find_host}
use hope.Server.Errors.{ApiResult, ok, err}
use hope.Server.Enrollment.{
  has_capacity, is_taken, is_bound, request_ok, enrolled_host, reset_with, reset_agent, retried,
  retry_agent, added, add_agent, enroll_known, enroll_checked, enroll_inner,
}
use hope.Server.Tokens.{Token, Registry, is_none, consume, fits_reset, fits_retry, fits_new}
use hope.Server.Ingestion.{Elsewhere}

-- The token of a key is used, by the given agent.
pub record IsUsed (key agent_id : String) (tokens : String → Option Token) : Type 0 where
  pub row : Token
  pub found : tokens key ≡ some row
  pub used : is_none row.used_at ≡ false
  pub by : row.agent_id ≡ some agent_id

-- The token of a key is gone, or used by the given agent.
abbrev pub IsSpent : String → String → (String → Option Token) → Type 0
IsSpent key agent_id tokens = (tokens key ≡ none) ⊎ IsUsed key agent_id tokens

abbrev pub is_ok : ApiResult EnrollmentResponse → Bool
is_ok (ok response) = true
is_ok (err e) = false

-- What a statement has consumed, if anything.
abbrev Consumed : String → String → Option (String → Option Token) → Type 0
Consumed key agent_id none = Unit
Consumed key agent_id (some tokens) = IsUsed key agent_id tokens

consume-Consumed :
    (fits : Token → Bool) (key agent_id : String) (now : F64) (tokens : String → Option Token)
    → Consumed key agent_id (consume fits key agent_id now tokens)
consume-Consumed fits key agent_id now tokens = elim (Option-cases (tokens key)) [
  | inl missing ↦ rw (missing, consume, Consumed) tt
  | inr (t, found) ↦ elim (Bool-cases (f64_lt now t.expires_at && fits t)) [
    | inr unfit ↦ rw (found, unfit, consume, Consumed) tt
    | inl fit ↦
        rw (found, fit, consume, Consumed)
          (record {
            row = record t { used_at = some now; agent_id = some agent_id };
            found = rw ((str_eq_iff key key).1 refl) refl;
            used = refl;
            by = refl;
          })
  ]
]

-- A statement consumes no token that it does not fit.
pub consume-unfit :
    (fits : Token → Bool) (key agent_id : String) (now : F64) (tokens : String → Option Token)
    (t : Token)
    → tokens key ≡ some t
    → fits t ≡ false
    → consume fits key agent_id now tokens ≡ none
consume-unfit fits key agent_id now tokens t found unfit =
    elim (Bool-cases (f64_lt now t.expires_at)) [
      | inl fresh ↦ rw (found, fresh, unfit, consume) refl
      | inr late ↦ rw (found, late, consume) refl
    ]

module _ (elsewhere : Elsewhere) (now : F64) (q : EnrollmentRequest) where
  abbrev key : String
  key = elsewhere.hash q.token

  -- An accepted enrollment leaves its token used by its agent.
  abbrev Uses : Registry × ApiResult EnrollmentResponse → Type 0
  Uses out = is_ok out.1 ≡ true → IsUsed key q.agent_id out.0.tokens

  reset_with-Uses :
      (tokens : Option (String → Option Token)) (row : AgentRow) (h : Option Host) (s : Registry)
      → Consumed key q.agent_id tokens
      → Uses (reset_with elsewhere now q tokens row h s)
  reset_with-Uses none row h s c e = cc
  reset_with-Uses (some tokens) row none s c e =
      elim (Bool-cases (str_eq row.credential_hash (elsewhere.hash q.credential))) [
        | inl same ↦ cc (rw same at e)
        | inr other ↦ cc (rw other at e)
      ]
  reset_with-Uses (some tokens) row (some h) s c e =
      elim (Bool-cases (str_eq row.credential_hash (elsewhere.hash q.credential))) [
        | inl same ↦ cc (rw same at e)
        | inr other ↦
            elim (Bool-cases (is_taken q.agent_id (elsewhere.hash q.credential) s.db.agents)) [
              | inl taken ↦ cc (rw (other, taken) at e)
              | inr free ↦ rw (other, free) c
            ]
      ]

  retried-Uses :
      (tokens : Option (String → Option Token)) (s : Registry)
      → Consumed key q.agent_id tokens
      → Uses (retried elsewhere now q tokens s)
  retried-Uses none s c e = cc
  retried-Uses (some tokens) s c e = c

  added-Uses :
      (tokens : Option (String → Option Token)) (h : Host) (s : Registry)
      → Consumed key q.agent_id tokens
      → Uses (added elsewhere now q tokens h s)
  added-Uses none h s c e = cc
  added-Uses (some tokens) h s c e =
      elim (Bool-cases (
        is_taken q.agent_id (elsewhere.hash q.credential) s.db.agents
        || is_bound q.agent_id h.id s.db.hosts)) [
          | inl taken ↦ cc (rw taken at e)
          | inr free ↦ rw free c
        ]

  -- A refusal uses nothing.
  refused-Uses :
      (b : Bool) (x y : Registry × ApiResult EnrollmentResponse)
      → is_ok x.1 ≡ false
      → Uses y
      → Uses (if b then x else y)
  refused-Uses true x y fails uses e = cc
  refused-Uses false x y fails uses e = uses e

  enroll_known-Uses :
      (new_id : String) (version : Option String) (found : Option AgentRow) (s : Registry)
      → Uses (enroll_known elsewhere now q new_id version found s)
  unfolding enroll_known reset_agent retry_agent add_agent
  enroll_known-Uses new_id version none s = refused-Uses (not (has_capacity s.db)) _ _ refl (
      added-Uses _ (enrolled_host elsewhere now q new_id version s.db) s
        (consume-Consumed fits_new key q.agent_id now s.tokens))
  enroll_known-Uses new_id version (some row) s =
      if_both (λ (out : Registry × ApiResult EnrollmentResponse). Uses out) row.revoked
        {x = reset_agent elsewhere now q row s} {y = retry_agent elsewhere now q row s}
        (refused-Uses (not (has_capacity s.db)) _ _ refl (
          reset_with-Uses _ row (find_host q.agent_id s.db) s
            (consume-Consumed (fits_reset q.agent_id) key q.agent_id now s.tokens)))
        (refused-Uses (not (str_eq row.credential_hash (elsewhere.hash q.credential))) _ _ refl
          (retried-Uses _ s (consume-Consumed (fits_retry q.agent_id) key q.agent_id now s.tokens)))

  enroll_checked-Uses :
      (new_id : String) (version : Option String) (v : Verdict) (s : Registry)
      → Uses (enroll_checked elsewhere now q new_id version v s)
  unfolding enroll_checked
  enroll_checked-Uses new_id version (invalid reason) s e = cc
  enroll_checked-Uses new_id version valid s e = enroll_known-Uses new_id version _ s e

  pub enroll_inner-Uses :
      (new_id : String) (version : Option String) (s : Registry)
      → Uses (enroll_inner elsewhere now q new_id version s)
  unfolding enroll_inner
  enroll_inner-Uses new_id version s =
      refused-Uses (not (request_ok elsewhere.is_uuid q)) _ _ refl
        (enroll_checked-Uses new_id version (inventory q.inventory) s)

-- Nor a spent token, where it fits no used token of that agent.
consume-IsSpent :
    (fits : Token → Bool) (key a agent_id : String) (now : F64) (tokens : String → Option Token)
    → ((t : Token) → is_none t.used_at ≡ false → t.agent_id ≡ some a → fits t ≡ false)
    → IsSpent key a tokens
    → consume fits key agent_id now tokens ≡ none
consume-IsSpent fits key a agent_id now tokens unfit (inl gone) = rw (gone, consume) refl
consume-IsSpent fits key a agent_id now tokens unfit (inr u) =
    consume-unfit fits key agent_id now tokens u.row u.found (unfit u.row u.used u.by)

module _ (elsewhere : Elsewhere) (now : F64) (q : EnrollmentRequest) (a : String) (s : Registry)
    (apart : str_eq a q.agent_id ≡ false)
    (spent : IsSpent (elsewhere.hash q.token) a s.tokens) where
  Fails : Registry × ApiResult EnrollmentResponse → Type 0
  Fails out = is_ok out.1 ≡ false

  reset_agent-Fails : (row : AgentRow) → Fails (reset_agent elsewhere now q row s)
  unfolding Fails reset_agent fits_reset
  reset_agent-Fails row =
      let nothing =
        consume-IsSpent (fits_reset q.agent_id) _ a q.agent_id now s.tokens
          (λ t used by. rw used refl) spent in
      elim (Bool-cases (has_capacity s.db)) [
        | inl room ↦ rw (room, nothing, reset_agent) refl
        | inr full ↦ rw (full, reset_agent) refl
      ]

  retry_agent-Fails : (row : AgentRow) → Fails (retry_agent elsewhere now q row s)
  unfolding Fails retry_agent fits_retry
  retry_agent-Fails row =
      let nothing =
        consume-IsSpent (fits_retry q.agent_id) _ a q.agent_id now s.tokens
          (λ t used by. rw (used, by, apart) refl) spent in
      elim (Bool-cases (str_eq row.credential_hash (elsewhere.hash q.credential))) [
        | inl same ↦ rw (same, nothing, retry_agent) refl
        | inr other ↦ rw (other, retry_agent) refl
      ]

  add_agent-Fails :
      (new_id : String) (version : Option String)
      → Fails (add_agent elsewhere now q new_id version s)
  unfolding Fails add_agent fits_new
  add_agent-Fails new_id version =
      let nothing =
        consume-IsSpent fits_new _ a q.agent_id now s.tokens (λ t used by. rw used refl) spent in
      elim (Bool-cases (has_capacity s.db)) [
        | inl room ↦ rw (room, nothing, add_agent) refl
        | inr full ↦ rw (full, add_agent) refl
      ]

  enroll_known-Fails :
      (new_id : String) (version : Option String) (found : Option AgentRow)
      → Fails (enroll_known elsewhere now q new_id version found s)
  unfolding enroll_known
  enroll_known-Fails new_id version none = add_agent-Fails new_id version
  enroll_known-Fails new_id version (some row) =
      if_both Fails row.revoked {x = reset_agent elsewhere now q row s}
        {y = retry_agent elsewhere now q row s} (reset_agent-Fails row) (retry_agent-Fails row)

  enroll_checked-Fails :
      (new_id : String) (version : Option String) (v : Verdict)
      → Fails (enroll_checked elsewhere now q new_id version v s)
  unfolding Fails enroll_checked
  enroll_checked-Fails new_id version (invalid reason) = refl
  enroll_checked-Fails new_id version valid = enroll_known-Fails new_id version _

  pub enroll_inner-Fails :
      (new_id : String) (version : Option String)
      → is_ok (enroll_inner elsewhere now q new_id version s).1 ≡ false
  unfolding Fails enroll_inner
  enroll_inner-Fails new_id version = elim (Bool-cases (request_ok elsewhere.is_uuid q)) [
    | inl fine ↦
        rw (fine, enroll_inner) (enroll_checked-Fails new_id version (inventory q.inventory))
    | inr wrong ↦ rw (wrong, enroll_inner) refl
  ]
