-- ===== src/Agent/Delivery/Answers.antt =====
-- What an answer can make the agent do.
use hope.Base.{
  ℕ, ◌+◌, ◌*◌, ◌%◌, ◌^◌, zero, suc, ◌≤◌, ◌<◌, ◌≡◌, ◌≢◌, ◌↔◌, ◌⊎◌, inl, inr, refl, Bool, true, false,
  List, [], ◌∷◌, length, Option, none, some, String, arith, str_eq_iff, min, Option-cases,
}
use hope.Agent.Delivery.{
  Wire, Reply, Sent, unreachable, replied, Outcome, accepted, revoked, retry_after, backoff,
  bounded_json, collect_body, classify, on_denied, on_success,
}

-- The delay for an exponent that the failures have reached.
delay_at : ℕ → ℕ → ℕ
delay_at k jitter = min (30 * k + jitter % 31) 900

backoff_at :
    (failures jitter : ℕ)
    → (k : ℕ) × (backoff failures jitter ≡ delay_at k jitter)
      × (1 ≤ k)
      × (k ≤ 32)
      × (failures < 5 → k ≡ 2 ^ failures)
      × (5 ≤ failures → k ≡ 32)
unfolding backoff delay_at
backoff_at zero jitter = (1, refl, omega arith, omega arith, (λ h. refl), λ h. absurd (omega arith))
backoff_at (suc zero) jitter =
    (2, refl, omega arith, omega arith, (λ h. refl), λ h. absurd (omega arith))
backoff_at (suc (suc zero)) jitter =
    (4, refl, omega arith, omega arith, (λ h. refl), λ h. absurd (omega arith))
backoff_at (suc (suc (suc zero))) jitter =
    (8, refl, omega arith, omega arith, (λ h. refl), λ h. absurd (omega arith))
backoff_at (suc (suc (suc (suc zero)))) jitter =
    (16, refl, omega arith, omega arith, (λ h. refl), λ h. absurd (omega arith))
backoff_at (suc (suc (suc (suc (suc f))))) jitter =
    let five : min (suc (suc (suc (suc (suc f))))) 5 ≡ 5 = omega arith in
    (32, rw (five, backoff), omega arith, omega arith, (λ h. absurd (omega arith)), λ h. refl)

-- The delay after a failure, in seconds: it doubles from thirty with each of the first five
-- failures, carries a jitter of at most thirty, never leaves the range from half a minute to a
-- quarter of an hour, and stays at a quarter of an hour from the fifth failure on.
pub backoff_lem :
    (failures jitter : ℕ)
    → (30 ≤ backoff failures jitter)
      × (backoff failures jitter ≤ 900)
      × (failures < 5 → backoff failures jitter ≡ 30 * 2 ^ failures + jitter % 31)
      × (5 ≤ failures → backoff failures jitter ≡ 900)
unfolding delay_at
backoff_lem failures jitter =
    let (k, e, low, high, few, many) = backoff_at failures jitter in
    (
      rw e (omega arith),
      rw e (omega arith),
      (λ h. rw e (rw (← few h) (omega (arith, half k high failures h (few h))))),
      (λ h. rw e (omega (arith, many h))),
    )
  where
    half : (k : ℕ) → k ≤ 32 → (f : ℕ) → f < 5 → k ≡ 2 ^ f → k ≤ 16
    half k high zero h e = omega (arith, e)
    half k high (suc zero) h e = omega (arith, e)
    half k high (suc (suc zero)) h e = omega (arith, e)
    half k high (suc (suc (suc zero))) h e = omega (arith, e)
    half k high (suc (suc (suc (suc zero)))) h e = omega (arith, e)
    half k high (suc (suc (suc (suc (suc f))))) h e = absurd (omega arith)

-- A server's `Retry-After` delays by at least a second and at most a quarter of an hour.
pub retry_after_bounds :
    (http_date : String → Option ℕ) (header : Option String) (now : ℕ) {seconds : ℕ}
    → retry_after http_date header now ≡ some seconds
    → (1 ≤ seconds) × (seconds ≤ 900)
unfolding retry_after
retry_after_bounds http_date none now e = cc
retry_after_bounds http_date (some text) now {seconds} e = ground arith

-- A body of one chunk is read whole, or not at all.
pub bounded_json-one {ℓ} :
    {A : Type ℓ} (parse : List ℕ → Option A) (b : List ℕ) (status : ℕ) (header : Option String)
    {a : A}
    → bounded_json parse
        (record { status = status; retry_after_header = header; chunks = b ∷ []; broken = false })
      ≡ some a
    → parse b ≡ some a
unfolding bounded_json collect_body
bounded_json-one parse b status header e = ground (arith, e)

pub bounded_json-short {ℓ} :
    {A : Type ℓ} (parse : List ℕ → Option A) (b : List ℕ) (status : ℕ) (header : Option String)
    → length b ≤ 16384
    → bounded_json parse
        (record { status = status; retry_after_header = header; chunks = b ∷ []; broken = false })
      ≡ parse b
unfolding bounded_json collect_body
bounded_json-short parse b status header h = ground (arith, h)

module _ {R : Type 0} (is_accepted : R → Bool) (wire : Wire R) where
  abbrev pub outcome : ℕ → Sent → Outcome R
  outcome = classify is_accepted wire

  on_denied_iff :
      (reply : Reply)
      → (on_denied is_accepted wire reply ≡ revoked)
        ↔ (bounded_json wire.error_code reply ≡ some "agent_revoked")
  unfolding on_denied
  on_denied_iff reply = elim (Option-cases (bounded_json wire.error_code reply)) [
    | inl e ↦ ground (arith, e)
    | inr (code, e) ↦ ground (arith, e, str_eq_iff code "agent_revoked")
  ]

  on_success-ne-revoked : (reply : Reply) → on_success is_accepted wire reply ≢ revoked
  unfolding on_success
  on_success-ne-revoked reply e = ground (arith, e)

  -- A 401 or 403 answer whose body, within 16384 bytes, has the error code of a revocation.
  abbrev pub SaysRevoked : Sent → Type 0
  SaysRevoked unreachable = ⊥
  SaysRevoked (replied reply) =
      ((reply.status ≡ 401) ⊎ (reply.status ≡ 403))
      × (bounded_json wire.error_code reply ≡ some "agent_revoked")

  -- A 2xx answer whose body, within 16384 bytes, is a response that says it accepted the report.
  abbrev pub SaysAccepted : R → Sent → Type 0
  SaysAccepted r unreachable = ⊥
  SaysAccepted r (replied reply) =
      (200 ≤ reply.status)
      × (reply.status < 300)
      × (bounded_json wire.response reply ≡ some r)
      × (is_accepted r ≡ true)

  -- The agent takes itself for revoked on an explicit revocation and on nothing else.
  pub revoked_iff : (now : ℕ) (sent : Sent) → (outcome now sent ≡ revoked) ↔ SaysRevoked sent
  unfolding classify
  revoked_iff now unreachable = ((λ e. cc), λ h. absurd h)
  revoked_iff now (replied reply) =
      let denied = on_denied_iff reply in
      let other = on_success-ne-revoked reply in
      ((λ e. (ground (arith, other), ground (arith, denied, other))), λ h. ground (arith, denied))

  on_success_iff :
      (reply : Reply) (r : R)
      → (on_success is_accepted wire reply ≡ accepted r)
        ↔ ((bounded_json wire.response reply ≡ some r) × (is_accepted r ≡ true))
  unfolding on_success
  on_success_iff reply r = elim (Option-cases (bounded_json wire.response reply)) [
    | inl e ↦ ((λ h. (ground (arith, e), ground (arith, e))), λ h. ground (arith, e))
    | inr (q, e) ↦ ((λ h. (ground (arith, e), ground (arith, e))), λ h. ground (arith, e))
  ]

  on_denied-ne-accepted : (reply : Reply) (r : R) → on_denied is_accepted wire reply ≢ accepted r
  unfolding on_denied
  on_denied-ne-accepted reply r e = ground (arith, e)

  -- A report counts as delivered on an explicit acceptance and on nothing else.
  pub accepted_iff :
      (now : ℕ) (sent : Sent) (r : R) → (outcome now sent ≡ accepted r) ↔ SaysAccepted r sent
  unfolding classify
  accepted_iff now unreachable r = ((λ e. cc), λ h. absurd h)
  accepted_iff now (replied reply) r =
      let done = on_success_iff reply r in
      let other = on_denied-ne-accepted reply r in
      (
        (λ e. (
          ground (arith, other),
          ground (arith, other),
          ground (arith, done, other),
          ground (arith, done, other),
        )),
        λ h. ground (arith, done),
      )
