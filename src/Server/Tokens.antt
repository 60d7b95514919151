-- ===== src/Server/Tokens.antt =====
-- hope-server/src/agents.rs: the enrollment tokens, their issue and the statements that consume one.
-- The table of tokens is a function of its key, the hash of the token. A new secret is an argument.
-- A statement that breaks a constraint of the schema ends in an internal error.
use hope.Base.{
  String, Bool, true, false, not, ◌&&◌, ◌||◌, Option, none, some, F64, float, f64_lt, f64_add,
  f64_sub, if◌then◌else◌,
}
use hope.Server.Database.{AgentRow, Database, is_text, assign, find_agent}
use hope.Server.Errors.{ApiResult, ok, err, bad, internal}

-- A row of `enrollment_tokens`.
pub record Token : Type 0 where
  pub expires_at : F64
  pub used_at : Option F64
  pub agent_id : Option String
  pub reset_agent_id : Option String

pub record Registry : Type 0 where
  pub db : Database
  pub tokens : String → Option Token

abbrev pub is_none {ℓ} : {A : Type ℓ} → Option A → Bool
is_none none = true
is_none (some a) = false

abbrev pub lapsed_token : F64 → Option Token → Option Token
lapsed_token now none = none
lapsed_token now (some t) = if f64_lt t.expires_at (f64_sub now (float 86400)) then none else some t

abbrev is_revoked_row : Option AgentRow → Bool
is_revoked_row none = false
is_revoked_row (some row) = row.revoked

abbrev pub may_reset : Option String → Database → Bool
may_reset none db = true
may_reset (some id) db = is_revoked_row (find_agent id db)

-- `issue_token_for_reset`, with its two readings of the clock.
unfoldable pub issue_token :
    (String → String) → String → Option String → F64 → F64 → Registry → Registry × ApiResult String
unfolding find_agent
issue_token hash token reset now at s =
    let kept : String → Option Token = λ key. lapsed_token now (s.tokens key) in
    if not (may_reset reset s.db)
    then (s, err (bad "Credential replacement requires an existing revoked agent"))
    else if not (is_none (kept (hash token)))
    then (record s { tokens = kept }, err internal)
    else (
      record s {
        tokens =
            assign (hash token)
              (record {
                expires_at = f64_add at (float 900);
                used_at = none;
                agent_id = none;
                reset_agent_id = reset;
              })
              kept;
      },
      ok token,
    )

-- The statements that consume a token, by what they require of its row.
abbrev pub consume :
    (Token → Bool)
    → String
    → String
    → F64
    → (String → Option Token)
    → Option (String → Option Token)
consume fits key agent_id now tokens = elim (tokens key) [
  | none ↦ none
  | some t ↦
      if f64_lt now t.expires_at && fits t
      then some (assign key (record t { used_at = some now; agent_id = some agent_id }) tokens)
      else none
]

unfoldable pub fits_reset : String → Token → Bool
fits_reset id t = is_none t.used_at && is_text t.reset_agent_id id

unfoldable pub fits_retry : String → Token → Bool
fits_retry id t =
    (is_none t.used_at || is_text t.agent_id id)
    && (is_none t.reset_agent_id || is_text t.reset_agent_id id)

unfoldable pub fits_new : Token → Bool
fits_new t = is_none t.used_at && is_none t.reset_agent_id
