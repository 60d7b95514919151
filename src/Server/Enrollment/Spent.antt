-- ===== src/Server/Enrollment/Spent.antt =====
-- The issue of a token and an enrollment leave a used token with its agent, or it is deleted.
use hope.Base.{
  some_eq, ◌≡◌, refl, sym, ap, ◌∙◌, subst, inl, inr, String, Bool, true, false, not, ◌&&◌, ◌||◌,
  Option, none, some, F64, f64_lt, f64_sub, float, str_eq, str_eq_iff, and_true, Bool-cases,
  Option-cases, if_both,
}
use hope.Protocol.Types.{EnrollmentRequest, EnrollmentResponse, Host}
use hope.Protocol.Validation.Inventory.{inventory}
use hope.Protocol.Validation.Values.{Verdict, valid, invalid}
use hope.Server.Database.{AgentRow, assign, is_text, find_agent, find_host}
use hope.Server.Errors.{ApiResult}
use hope.Server.Enrollment.{
  has_capacity, is_taken, is_bound, request_ok, enrolled_host, reset_with, reset_agent, retried,
  retry_agent, added, add_agent, enroll_known, enroll_checked, enroll_inner,
}
use hope.Server.Enrollment.Used.{IsSpent}
use hope.Server.Ingestion.{Elsewhere}
use hope.Server.Tokens.{
  Token, Registry, is_none, lapsed_token, may_reset, issue_token, consume, fits_reset, fits_retry,
  fits_new,
}

module _ (key a : String) where
  -- A statement that a used token fits only for its own agent.
  abbrev IsOwn : String → (Token → Bool) → Type 0
  IsOwn agent_id fits =
      (t : Token) → is_none t.used_at ≡ false → t.agent_id ≡ some a → fits t ≡ true → agent_id ≡ a

  abbrev Leaves : Option (String → Option Token) → Type 0
  Leaves none = Unit
  Leaves (some tokens) = IsSpent key a tokens

  abbrev Keeps : Registry × ApiResult EnrollmentResponse → Type 0
  Keeps out = IsSpent key a out.0.tokens

  IsSpent-same :
      {before after : String → Option Token}
      → after key ≡ before key
      → IsSpent key a before
      → IsSpent key a after
  IsSpent-same same (inl gone) = inl (same ∙ gone)
  IsSpent-same same (inr u) =
      inr (record { row = u.row; found = same ∙ u.found; used = u.used; by = u.by })

  IsSpent-own :
      (agent_id : String) (now : F64) (fits : Token → Bool) (tokens : String → Option Token)
      (t : Token)
      → IsOwn agent_id fits
      → tokens key ≡ some t
      → fits t ≡ true
      → IsSpent key a tokens
      → IsSpent key a
          (assign key (record t { used_at = some now; agent_id = some agent_id }) tokens)
  IsSpent-own agent_id now fits tokens t own found fit (inl gone) = cc (gone, found)
  IsSpent-own agent_id now fits tokens t own found fit (inr u) =
      let same : u.row ≡ t = some_eq (sym u.found ∙ found) in
      let used = subst (λ (x : Token). is_none x.used_at ≡ false) same u.used in
      let by = subst (λ (x : Token). x.agent_id ≡ some a) same u.by in
      inr (record {
        row = record t { used_at = some now; agent_id = some agent_id };
        found = rw ((str_eq_iff key key).1 refl) refl;
        used = refl;
        by = ap some (own t used by fit);
      })

  consume-Leaves :
      (fits : Token → Bool) (other_key agent_id : String) (now : F64)
      (tokens : String → Option Token)
      → IsOwn agent_id fits
      → IsSpent key a tokens
      → Leaves (consume fits other_key agent_id now tokens)
  consume-Leaves fits other_key agent_id now tokens own spent =
      elim (Option-cases (tokens other_key)) [
        | inl missing ↦ rw (missing, consume, Leaves) tt
        | inr (t, found) ↦ elim (Bool-cases (f64_lt now t.expires_at && fits t)) [
          | inr unfit ↦ rw (found, unfit, consume, Leaves) tt
          | inl fit ↦
              let row : Token = record t { used_at = some now; agent_id = some agent_id } in
              let after : IsSpent key a (assign other_key row tokens) =
                elim (Bool-cases (str_eq key other_key)) [
                  | inr apart ↦ IsSpent-same (rw apart refl) spent
                  | inl equal ↦
                      let is = sym ((str_eq_iff key other_key).0 equal) in
                      let here : tokens key ≡ some t = subst (λ k. tokens k ≡ some t) is found in
                      subst (λ k. IsSpent key a (assign k row tokens)) (sym is)
                        (IsSpent-own agent_id now fits tokens t own here (and_true _ (fits t) fit).1
                          spent)
                ] in
              rw (found, fit, consume, Leaves) after
        ]
      ]

  module _ (elsewhere : Elsewhere) (now : F64) (q : EnrollmentRequest) (s : Registry)
      (spent : IsSpent key a s.tokens) where
    reset_with-Keeps :
        (tokens : Option (String → Option Token)) (row : AgentRow) (h : Option Host)
        → Leaves tokens
        → Keeps (reset_with elsewhere now q tokens row h s)
    reset_with-Keeps none row h l = spent
    reset_with-Keeps (some tokens) row none l =
        if_both Keeps (str_eq row.credential_hash (elsewhere.hash q.credential)) spent spent
    reset_with-Keeps (some tokens) row (some h) l =
        if_both Keeps (str_eq row.credential_hash (elsewhere.hash q.credential)) spent
          (if_both Keeps (is_taken q.agent_id (elsewhere.hash q.credential) s.db.agents) spent l)

    retried-Keeps :
        (tokens : Option (String → Option Token))
        → Leaves tokens
        → Keeps (retried elsewhere now q tokens s)
    retried-Keeps none l = spent
    retried-Keeps (some tokens) l = l

    added-Keeps :
        (tokens : Option (String → Option Token)) (h : Host)
        → Leaves tokens
        → Keeps (added elsewhere now q tokens h s)
    added-Keeps none h l = spent
    added-Keeps (some tokens) h l =
        if_both Keeps
          (is_taken q.agent_id (elsewhere.hash q.credential) s.db.agents
            || is_bound q.agent_id h.id s.db.hosts)
          spent l

    reset-IsOwn : IsOwn q.agent_id (fits_reset q.agent_id)
    unfolding fits_reset
    reset-IsOwn t used by fit = cc (rw used at fit)

    new-IsOwn : IsOwn q.agent_id fits_new
    unfolding fits_new
    new-IsOwn t used by fit = cc (rw used at fit)

    retry-IsOwn : IsOwn q.agent_id (fits_retry q.agent_id)
    unfolding fits_retry
    retry-IsOwn t used by fit =
        let (own, reset) = and_true (is_none t.used_at || is_text t.agent_id q.agent_id) _ fit in
        let same : str_eq a q.agent_id ≡ true = rw (used, by) at own in
        sym ((str_eq_iff a q.agent_id).0 same)

    enroll_known-Keeps :
        (new_id : String) (version : Option String) (found : Option AgentRow)
        → Keeps (enroll_known elsewhere now q new_id version found s)
    unfolding enroll_known reset_agent retry_agent add_agent
    enroll_known-Keeps new_id version none = if_both Keeps (not (has_capacity s.db)) spent (
        added-Keeps (consume fits_new (elsewhere.hash q.token) q.agent_id now s.tokens)
          (enrolled_host elsewhere now q new_id version s.db)
          (consume-Leaves fits_new (elsewhere.hash q.token) q.agent_id now s.tokens new-IsOwn
            spent))
    enroll_known-Keeps new_id version (some row) =
        if_both Keeps row.revoked {x = reset_agent elsewhere now q row s}
          {y = retry_agent elsewhere now q row s}
          (if_both Keeps (not (has_capacity s.db)) spent (
            reset_with-Keeps
              (consume (fits_reset q.agent_id) (elsewhere.hash q.token) q.agent_id now s.tokens) row
              (find_host q.agent_id s.db)
              (consume-Leaves (fits_reset q.agent_id) (elsewhere.hash q.token) q.agent_id now
                s.tokens reset-IsOwn spent)))
          (if_both Keeps (not (str_eq row.credential_hash (elsewhere.hash q.credential))) spent (
            retried-Keeps
              (consume (fits_retry q.agent_id) (elsewhere.hash q.token) q.agent_id now s.tokens)
              (consume-Leaves (fits_retry q.agent_id) (elsewhere.hash q.token) q.agent_id now
                s.tokens retry-IsOwn spent)))

    enroll_checked-Keeps :
        (new_id : String) (version : Option String) (v : Verdict)
        → Keeps (enroll_checked elsewhere now q new_id version v s)
    unfolding enroll_checked
    enroll_checked-Keeps new_id version (invalid reason) = spent
    enroll_checked-Keeps new_id version valid =
        enroll_known-Keeps new_id version (find_agent q.agent_id s.db)

    pub enroll_inner-Keeps :
        (new_id : String) (version : Option String)
        → Keeps (enroll_inner elsewhere now q new_id version s)
    unfolding enroll_inner
    enroll_inner-Keeps new_id version =
        if_both Keeps (not (request_ok elsewhere.is_uuid q)) spent
          (enroll_checked-Keeps new_id version (inventory q.inventory))

  lapsed-Spent :
      (now : F64) (tokens : String → Option Token)
      → IsSpent key a tokens
      → IsSpent key a (λ k. lapsed_token now (tokens k))
  lapsed-Spent now tokens (inl gone) = inl (rw gone refl)
  lapsed-Spent now tokens (inr u) =
      elim (Bool-cases (f64_lt u.row.expires_at (f64_sub now (float 86400)))) [
        | inl late ↦ inl (rw (u.found, late) refl)
        | inr kept ↦
            inr (record { row = u.row; found = rw (u.found, kept) refl; used = u.used; by = u.by })
      ]

  pub issue_token-Spent :
      (hash : String → String) (token : String) (reset : Option String) (now at : F64)
      (s : Registry)
      → str_eq key (hash token) ≡ false
      → IsSpent key a s.tokens
      → IsSpent key a (issue_token hash token reset now at s).0.tokens
  unfolding issue_token
  issue_token-Spent hash token reset now at s apart spent =
      let P : Registry × ApiResult String → Type 0 = λ out. IsSpent key a out.0.tokens in
      let kept = lapsed-Spent now s.tokens spent in
      if_both P (not (may_reset reset s.db)) spent (
        if_both P (not (is_none (lapsed_token now (s.tokens (hash token))))) kept
          (IsSpent-same (rw apart refl) kept))
