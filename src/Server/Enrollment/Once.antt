-- ===== src/Server/Enrollment/Once.antt =====
-- An enrollment token serves one agent, whatever happens after its use. Of the handlers of the
-- server only the issue of a token and an enrollment write the table of tokens.
use hope.Base.{
  str_eq_sym, ◌≡◌, refl, sym, ◌∙◌, subst, inr, String, Bool, true, false, not, Option, List, [],
  ◌∷◌, all, F64, str_eq, and_true,
}
use hope.Protocol.Types.{EnrollmentRequest}
use hope.Server.Database.{Database}
use hope.Server.Enrollment.{enroll_inner}
use hope.Server.Enrollment.Used.{IsSpent, is_ok, enroll_inner-Uses, enroll_inner-Fails}
use hope.Server.Ingestion.{Elsewhere}
use hope.Server.Tokens.{Registry, issue_token}
use hope.Server.Enrollment.Spent.{issue_token-Spent, enroll_inner-Keeps}

-- What happens to the agents and the tokens: a token is issued, a request to enroll is handled, or
-- another handler changes the tables other than that of the tokens.
pub data Event : Type 0 where
  issue : String → Option String → F64 → F64 → Event
  enroll : EnrollmentRequest → String → Option String → F64 → Event
  other : (Database → Database) → Event

module _ (elsewhere : Elsewhere) where
  unfoldable pub happen : Event → Registry → Registry
  unfolding issue_token enroll_inner
  happen (issue token reset now at) s = (issue_token elsewhere.hash token reset now at s).0
  happen (enroll q new_id version now) s = (enroll_inner elsewhere now q new_id version s).0
  happen (other f) s = record s { db = f s.db }

  unfoldable pub happen_all : List Event → Registry → Registry
  unfolding happen
  happen_all [] s = s
  happen_all (e ∷ es) s = happen_all es (happen e s)

  -- No token of the key is issued.
  abbrev pub spares : String → Event → Bool
  spares key (issue token reset now at) = not (str_eq (elsewhere.hash token) key)
  spares key _ = true

not-true : (b : Bool) → not b ≡ true → b ≡ false
not-true true h = cc
not-true false h = refl

module _ (key a : String) where
  happen-Spent :
      (elsewhere : Elsewhere) (e : Event) (s : Registry)
      → spares elsewhere key e ≡ true
      → IsSpent key a s.tokens
      → IsSpent key a (happen elsewhere e s).tokens
  unfolding happen
  happen-Spent elsewhere (issue token reset now at) s spared spent =
      issue_token-Spent key a elsewhere.hash token reset now at s
        (str_eq_sym key (elsewhere.hash token)
          ∙ not-true (str_eq (elsewhere.hash token) key) spared)
        spent
  happen-Spent elsewhere (enroll q new_id version now) s spared spent =
      enroll_inner-Keeps key a elsewhere now q s spent new_id version
  happen-Spent elsewhere (other f) s spared spent = spent

  happen_all-Spent :
      (elsewhere : Elsewhere) (es : List Event) (s : Registry)
      → all (spares elsewhere key) es ≡ true
      → IsSpent key a s.tokens
      → IsSpent key a (happen_all elsewhere es s).tokens
  unfolding happen_all
  happen_all-Spent elsewhere [] s spared spent = spent
  happen_all-Spent elsewhere (e ∷ es) s spared spent =
      let (first, rest) =
        and_true (spares elsewhere key e) (all (spares elsewhere key) es) spared in
      happen_all-Spent elsewhere es (happen elsewhere e s) rest
        (happen-Spent elsewhere e s first spent)

-- A token with which one agent has enrolled enrolls no other. Whatever tokens are issued later, if
-- none has its hash, whoever enrolls, and whatever other handlers do to the other tables, a request
-- of another agent that carries a token of that hash is refused, at any time.
pub enroll_inner-once :
    (elsewhere : Elsewhere) (now later : F64) (q r : EnrollmentRequest) (new_id later_id : String)
    (version later_version : Option String) (events : List Event) (s : Registry)
    → let (after, answer) = enroll_inner elsewhere now q new_id version s in
      is_ok answer ≡ true
      → elsewhere.hash r.token ≡ elsewhere.hash q.token
      → str_eq q.agent_id r.agent_id ≡ false
      → all (spares elsewhere (elsewhere.hash q.token)) events ≡ true
      → is_ok
          (enroll_inner elsewhere later r later_id later_version
            (happen_all elsewhere events after)).1
        ≡ false
enroll_inner-once elsewhere now later q r new_id later_id version later_version events s accepted
      same apart spared =
    let after = (enroll_inner elsewhere now q new_id version s).0 in
    let used = enroll_inner-Uses elsewhere now q new_id version s accepted in
    let last = happen_all elsewhere events after in
    let spent =
      happen_all-Spent (elsewhere.hash q.token) q.agent_id elsewhere events after spared
        (inr used) in
    let still = subst (λ key. IsSpent key q.agent_id last.tokens) (sym same) spent in
    enroll_inner-Fails elsewhere later r q.agent_id last apart still later_id later_version
