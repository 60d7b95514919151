-- ===== src/Server/Enrollment/Capacity.antt =====
-- At most 250 agents are active at a time.
use hope.Base.{
  ◌||◌, ℕ, suc, ◌+◌, ◌≤◌, ◌≡◌, refl, subst, str_eq_iff, inl, inr, String, Bool, true, not, Option,
  none, some, List, [], ◌∷◌, ◌++◌, arith, length, filter, find, F64, str_eq, Bool-cases, leb,
  if_both,
}
use hope.Protocol.Types.{EnrollmentRequest, EnrollmentResponse, Host}
use hope.Protocol.Validation.Values.{Verdict, valid, invalid}
use hope.Protocol.Validation.Inventory.{inventory}
use hope.Server.Database.{AgentRow, clear_retired_host, find_agent, find_host}
use hope.Server.Errors.{ApiResult}
use hope.Server.Enrollment.{
  request_ok, enrolled_host, active, has_capacity, restore_agent, is_taken, is_bound, reset_with,
  reset_agent, retried, retry_agent, new_row, added, add_agent, enroll_known, enroll_checked,
  enroll_inner,
}
use hope.Server.Tokens.{Token, Registry}
use hope.Server.Ingestion.{Elsewhere}

-- The table of agents, whose key is the identity.
abbrev pub IsKeyed : List AgentRow → Type 0
IsKeyed rows = (id : String) → length (filter (λ a. str_eq a.id id) rows) ≤ 1

-- One identity becomes active at most.
active-restore :
    (id key : String) (rows : List AgentRow)
    → active (restore_agent id key rows) ≤ active rows + length (filter (λ a. str_eq a.id id) rows)
unfolding active restore_agent
active-restore id key [] = omega arith
active-restore id key (a ∷ rows) = ground (arith, active-restore id key rows)

active-append :
    (rows : List AgentRow) (a : AgentRow) → active (rows ++ (a ∷ [])) ≤ suc (active rows)
unfolding active
active-append [] a = ground arith
active-append (b ∷ rows) a = ground (arith, active-append rows a)

restore-ids :
    (id key other : String) (rows : List AgentRow)
    → length (filter (λ a. str_eq a.id other) (restore_agent id key rows))
      ≡ length (filter (λ a. str_eq a.id other) rows)
unfolding restore_agent
restore-ids id key other [] = refl
restore-ids id key other (a ∷ rows) = ground (arith, restore-ids id key other rows)

count-append :
    (p : AgentRow → Bool) (rows : List AgentRow) (a : AgentRow)
    → length (filter p (rows ++ (a ∷ []))) ≡ length (filter p rows) + length (filter p (a ∷ []))
count-append p [] a = omega arith
count-append p (b ∷ rows) a = ground (arith, count-append p rows a)

none-count :
    (p : AgentRow → Bool) (rows : List AgentRow) → find p rows ≡ none → length (filter p rows) ≡ 0
none-count p [] e = refl
none-count p (b ∷ rows) e = ground (arith, none-count p rows)

append-ids :
    (rows : List AgentRow) (a : AgentRow) (other : String)
    → find (λ b. str_eq b.id a.id) rows ≡ none
    → length (filter (λ b. str_eq b.id other) rows) ≤ 1
    → length (filter (λ b. str_eq b.id other) (rows ++ (a ∷ []))) ≤ 1
append-ids rows a other free few =
    let sum = count-append (λ b. str_eq b.id other) rows a in
    elim (Bool-cases (str_eq a.id other)) [
      | inl same ↦
          let equal = (str_eq_iff a.id other).0 same in
          let empty : length (filter (λ b. str_eq b.id other) rows) ≡ 0 =
            none-count (λ b. str_eq b.id other) rows
              (subst (λ id. find (λ b. str_eq b.id id) rows ≡ none) equal free) in
          rw (sum, empty, same) (omega arith)
      | inr apart ↦ rw (sum, apart) (omega (arith, few))
    ]

-- Each identity stands once, and at most 250 agents are active.
pub record IsBounded (rows : List AgentRow) : Type 0 where
  pub keyed : IsKeyed rows
  pub capped : active rows ≤ 250

below : (n : ℕ) → not (leb 250 n) ≡ true → n ≤ 249
below n h = ground (arith, h)

module _ (elsewhere : Elsewhere) (now : F64) (q : EnrollmentRequest) where
  abbrev agents_of : Registry × ApiResult EnrollmentResponse → List AgentRow
  agents_of out = out.0.db.agents

  restored-IsBounded :
      (rows : List AgentRow) (key : String)
      → IsBounded rows
      → active rows ≤ 249
      → IsBounded (restore_agent q.agent_id key rows)
  restored-IsBounded rows key bounded room = record {
    keyed = λ id. rw (restore-ids q.agent_id key id rows) (bounded.keyed id);
    capped = omega (arith, active-restore q.agent_id key rows, bounded.keyed q.agent_id);
  }

  reset_with-IsBounded :
      (tokens : Option (String → Option Token)) (row : AgentRow) (h : Option Host) (s : Registry)
      → IsBounded s.db.agents
      → active s.db.agents ≤ 249
      → IsBounded (agents_of (reset_with elsewhere now q tokens row h s))
  unfolding clear_retired_host
  reset_with-IsBounded none row h s bounded room = bounded
  reset_with-IsBounded (some tokens) row none s bounded room =
      elim (Bool-cases (str_eq row.credential_hash (elsewhere.hash q.credential))) [
        | inl same ↦ rw same bounded
        | inr other ↦ rw other bounded
      ]
  reset_with-IsBounded (some tokens) row (some h) s bounded room =
      elim (Bool-cases (str_eq row.credential_hash (elsewhere.hash q.credential))) [
        | inl same ↦ rw same bounded
        | inr other ↦
            elim (Bool-cases (is_taken q.agent_id (elsewhere.hash q.credential) s.db.agents)) [
              | inl taken ↦ rw (other, taken) bounded
              | inr free ↦ rw (other, free) (restored-IsBounded s.db.agents _ bounded room)
            ]
      ]

  reset_agent-IsBounded :
      (row : AgentRow) (s : Registry)
      → IsBounded s.db.agents
      → IsBounded (agents_of (reset_agent elsewhere now q row s))
  unfolding reset_agent has_capacity
  reset_agent-IsBounded row s bounded = elim (Bool-cases (not (leb 250 (active s.db.agents)))) [
    | inl room ↦
        rw (room, reset_agent, has_capacity)
          (reset_with-IsBounded _ row (find_host q.agent_id s.db) s bounded
            (below (active s.db.agents) room))
    | inr full ↦ rw (full, reset_agent, has_capacity) bounded
  ]

  retried-IsBounded :
      (tokens : Option (String → Option Token)) (s : Registry)
      → IsBounded s.db.agents
      → IsBounded (agents_of (retried elsewhere now q tokens s))
  retried-IsBounded none s bounded = bounded
  retried-IsBounded (some tokens) s bounded = bounded

  retry_agent-IsBounded :
      (row : AgentRow) (s : Registry)
      → IsBounded s.db.agents
      → IsBounded (agents_of (retry_agent elsewhere now q row s))
  unfolding retry_agent
  retry_agent-IsBounded row s bounded =
      elim (Bool-cases (str_eq row.credential_hash (elsewhere.hash q.credential))) [
        | inl same ↦ rw (same, retry_agent) (retried-IsBounded _ s bounded)
        | inr other ↦ rw (other, retry_agent) bounded
      ]

  added-IsBounded :
      (tokens : Option (String → Option Token)) (h : Host) (s : Registry)
      → find_agent q.agent_id s.db ≡ none
      → IsBounded s.db.agents
      → active s.db.agents ≤ 249
      → IsBounded (agents_of (added elsewhere now q tokens h s))
  unfolding clear_retired_host find_agent
  added-IsBounded none h s free bounded room = bounded
  added-IsBounded (some tokens) h s free bounded room =
      let row = new_row elsewhere now q in
      elim (Bool-cases (
        is_taken q.agent_id (elsewhere.hash q.credential) s.db.agents
        || is_bound q.agent_id h.id s.db.hosts)) [
          | inl taken ↦ rw taken bounded
          | inr unique ↦ rw unique (record {
            keyed = λ id. append-ids s.db.agents row id free (bounded.keyed id);
            capped = omega (arith, active-append s.db.agents row);
          })
        ]

  add_agent-IsBounded :
      (new_id : String) (version : Option String) (s : Registry)
      → find_agent q.agent_id s.db ≡ none
      → IsBounded s.db.agents
      → IsBounded (agents_of (add_agent elsewhere now q new_id version s))
  unfolding add_agent has_capacity
  add_agent-IsBounded new_id version s free bounded =
      elim (Bool-cases (not (leb 250 (active s.db.agents)))) [
        | inl room ↦
            rw (room, add_agent, has_capacity)
              (added-IsBounded _ (enrolled_host elsewhere now q new_id version s.db) s free bounded
                (below (active s.db.agents) room))
        | inr full ↦ rw (full, add_agent, has_capacity) bounded
      ]

  enroll_known-IsBounded :
      (new_id : String) (version : Option String) (found : Option AgentRow) (s : Registry)
      → find_agent q.agent_id s.db ≡ found
      → IsBounded s.db.agents
      → IsBounded (agents_of (enroll_known elsewhere now q new_id version found s))
  unfolding enroll_known
  enroll_known-IsBounded new_id version none s free bounded =
      add_agent-IsBounded new_id version s free bounded
  enroll_known-IsBounded new_id version (some row) s known bounded =
      if_both (λ (out : Registry × ApiResult EnrollmentResponse). IsBounded (agents_of out))
        row.revoked {x = reset_agent elsewhere now q row s} {y = retry_agent elsewhere now q row s}
        (reset_agent-IsBounded row s bounded) (retry_agent-IsBounded row s bounded)

  enroll_checked-IsBounded :
      (new_id : String) (version : Option String) (v : Verdict) (s : Registry)
      → IsBounded s.db.agents
      → IsBounded (agents_of (enroll_checked elsewhere now q new_id version v s))
  unfolding enroll_checked
  enroll_checked-IsBounded new_id version (invalid reason) s bounded = bounded
  enroll_checked-IsBounded new_id version valid s bounded =
      enroll_known-IsBounded new_id version _ s refl bounded

-- An enrollment keeps each identity once in the table of agents, and at most 250 of them active,
-- whether it adds an agent, gives a revoked one a new credential, repeats an answer or is refused.
pub enroll_inner-IsBounded :
    (elsewhere : Elsewhere) (now : F64) (q : EnrollmentRequest) (new_id : String)
    (version : Option String) (s : Registry)
    → IsBounded s.db.agents
    → IsBounded (enroll_inner elsewhere now q new_id version s).0.db.agents
unfolding enroll_inner
enroll_inner-IsBounded elsewhere now q new_id version s bounded =
    elim (Bool-cases (request_ok elsewhere.is_uuid q)) [
      | inl fine ↦
          rw (fine, enroll_inner)
            (enroll_checked-IsBounded elsewhere now q new_id version (inventory q.inventory) s
              bounded)
      | inr wrong ↦ rw (wrong, enroll_inner) bounded
    ]
