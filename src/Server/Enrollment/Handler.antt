-- ===== src/Server/Enrollment/Handler.antt =====
-- The handler `enroll` of hope-server/src/agents.rs: the limit on failed enrollments of a client,
-- and the enrollment. Requests of others are not let in between its steps.
use hope.Base.{String, Option, none, some, Option-cases, inl, inr, F64, float}
use hope.Protocol.Types.{EnrollmentRequest, EnrollmentResponse}
use hope.Server.Addresses.{agent_version}
use hope.Server.Enrollment.{enroll_inner}
use hope.Server.Enrollment.Capacity.{IsBounded, enroll_inner-IsBounded}
use hope.Server.Errors.{ApiResult, ok, err, too_many}
use hope.Server.Ingestion.{Elsewhere}
use hope.Server.Limiter.{Keys, Limiter, check, hit}
use hope.Server.Tokens.{Registry}

-- The part of the state that an enrollment changes.
pub record Desk : Type 0 where
  pub enroll_limit : Keys
  pub registry : Registry

abbrev enroll_limiter : Limiter
enroll_limiter = record { window = float 60; per_key = 20 }

module _ (elsewhere : Elsewhere) where
  -- A failure is counted, at a later time.
  abbrev counted_failure :
      String
      → F64
      → Keys
      → Registry × ApiResult EnrollmentResponse
      → Desk × ApiResult EnrollmentResponse
  counted_failure client at keys (after, ok response) =
      (record { enroll_limit = keys; registry = after }, ok response)
  counted_failure client at keys (after, err e) =
      (record { enroll_limit = hit enroll_limiter client at keys; registry = after }, err e)

  -- The times are those of the check, of the enrollment and of the count.
  unfoldable pub enroll :
      String
      → Option String
      → EnrollmentRequest
      → String
      → F64
      → F64
      → F64
      → Desk
      → Desk × ApiResult EnrollmentResponse
  unfolding check hit enroll_inner agent_version
  enroll client user_agent q new_id first now last s =
      elim (check enroll_limiter client first s.enroll_limit) [
        | some wait ↦ (s, err (too_many wait))
        | none ↦
            counted_failure client last s.enroll_limit
              (enroll_inner elsewhere now q new_id (agent_version user_agent) s.registry)
      ]

  counted_failure-IsBounded :
      (client : String) (at : F64) (keys : Keys) (out : Registry × ApiResult EnrollmentResponse)
      → IsBounded out.0.db.agents
      → IsBounded (counted_failure client at keys out).0.registry.db.agents
  counted_failure-IsBounded client at keys (after, ok response) bounded = bounded
  counted_failure-IsBounded client at keys (after, err e) bounded = bounded

-- A request to enroll keeps each identity once in the table of agents, and at most 250 of them
-- active, whether it adds an agent, gives a revoked one a new credential, repeats an answer or is
-- refused, by the limit on the client's failures or later.
pub enroll-IsBounded :
    (elsewhere : Elsewhere) (client : String) (user_agent : Option String) (q : EnrollmentRequest)
    (new_id : String) (first now last : F64) (s : Desk)
    → IsBounded s.registry.db.agents
    → IsBounded (enroll elsewhere client user_agent q new_id first now last s).0.registry.db.agents
unfolding enroll
enroll-IsBounded elsewhere client user_agent q new_id first now last s bounded =
    elim (Option-cases (check enroll_limiter client first s.enroll_limit)) [
      | inl clear ↦
          rw (clear, enroll)
            (counted_failure-IsBounded elsewhere client last s.enroll_limit _ (
              enroll_inner-IsBounded elsewhere now q new_id (agent_version user_agent) s.registry
                bounded))
      | inr (wait, limited) ↦ rw (limited, enroll) bounded
    ]
