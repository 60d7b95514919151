-- ===== src/Server/Outbox/Bounds.antt =====
-- The bounds of the notification queue and of its delays, and what makes a message done with.
use hope.Base.{
  ℕ, zero, suc, ◌+◌, ◌*◌, ◌^◌, ◌≤◌, ◌<◌, ◌≡◌, ◌≢◌, refl, ap, sym, subst, ◌∙◌, ◌⊎◌, inl, inr, min,
  String, Bool, true, false, not, Option, none, some, List, [], ◌∷◌, map, arith, F64, str_eq,
  str_eq_iff, some_eq, ltb, ◌==◌, length, filter, All, length-append, length-filter-le, Bool-cases,
  Option-cases, if◌then◌else◌,
}
use mathlib.Core.List.{◌++◌}
use hope.Agent.Delivery.{saturating_mul, saturating_pow}
use hope.Server.Outbox.{
  NotificationSettings, Message, Row, Outbox, Calls, Outcome, max_pending, delay, postponed,
  settle_one, settle, enqueue, attempt, wanted, destination,
}

-- At most 4096 messages, each with an id that has been given out.
pub record IsQueue (box : Outbox) : Type 0 where
  pub bounded : length box.rows ≤ max_pending
  pub given : All (λ r. r.id < box.next_id) box.rows

All-filter :
    (p : Row → Bool) (n : ℕ) (rs : List Row)
    → All (λ r. r.id < n) rs
    → All (λ r. r.id < n) (filter p rs)
All-filter p n [] h = h
All-filter p n (r ∷ rs) h = elim (Bool-cases (p r)) [
  | inl keep ↦ rw keep (h.0, All-filter p n rs h.1)
  | inr drop ↦ rw drop (All-filter p n rs h.1)
]

id-postponed : (now : F64) (o : Outcome) (r : Row) → (postponed now o r).id ≡ r.id
unfolding postponed
id-postponed now o r = elim (Bool-cases (r.id == o.id)) [
  | inl same ↦ rw same refl
  | inr other ↦ rw other refl
]

All-map :
    (now : F64) (o : Outcome) (n : ℕ) (rs : List Row)
    → All (λ r. r.id < n) rs
    → All (λ r. r.id < n) (map (postponed now o) rs)
All-map now o n [] h = h
All-map now o n (r ∷ rs) h =
    (subst (λ i. i < n) (sym (id-postponed now o r)) h.0, All-map now o n rs h.1)

length-map : (f : Row → Row) (rs : List Row) → length (map f rs) ≡ length rs
length-map f [] = refl
length-map f (r ∷ rs) = ap suc (length-map f rs)

settle_one-IsQueue :
    (now : F64) (o : Outcome) (box : Outbox) → IsQueue box → IsQueue (settle_one now o box)
unfolding settle_one
settle_one-IsQueue now o box q = elim (Bool-cases o.accepted) [
  | inl done ↦ rw done (record {
    bounded = omega (arith, length-filter-le (λ row. not (row.id == o.id)) box.rows, q.bounded);
    given = All-filter (λ row. not (row.id == o.id)) box.next_id box.rows q.given;
  })
  | inr again ↦ rw again (record {
    bounded = omega (arith, length-map (postponed now o) box.rows, q.bounded);
    given = All-map now o box.next_id box.rows q.given;
  })
]

-- Whatever the outcomes, the table stays within its bound, and every id in it is below the next one.
pub settle-IsQueue :
    (now : F64) (os : List (Option Outcome)) (n : ℕ) (box : Outbox)
    → IsQueue box
    → IsQueue (settle now os n box).0
unfolding settle
settle-IsQueue now [] n box q = q
settle-IsQueue now (none ∷ os) n box q = q
settle-IsQueue now (some o ∷ os) n box q =
    settle-IsQueue now os (if o.accepted then n + 1 else n) (settle_one now o box)
      (settle_one-IsQueue now o box q)

All-append :
    (n : ℕ) (rs : List Row) (r : Row)
    → All (λ x. x.id < n) rs
    → r.id < suc n
    → All (λ x. x.id < suc n) (rs ++ (r ∷ []))
All-append n [] r h at = (at, tt)
All-append n (x ∷ xs) r h at = (omega (arith, h.0), All-append n xs r h.1 at)

delay_at :
    (attempts : ℕ)
    → (k : ℕ) × (delay attempts ≡ k)
      × (5 ≤ k)
      × (k ≤ 900)
      × (attempts < 8 → k ≡ 5 * 2 ^ attempts)
      × (8 ≤ attempts → k ≡ 900)
unfolding delay saturating_mul saturating_pow
delay_at zero = (5, refl, omega arith, omega arith, (λ h. refl), λ h. absurd (omega arith))
delay_at (suc zero) = (10, refl, omega arith, omega arith, (λ h. refl), λ h. absurd (omega arith))
delay_at (suc (suc zero)) =
    (20, refl, omega arith, omega arith, (λ h. refl), λ h. absurd (omega arith))
delay_at (suc (suc (suc zero))) =
    (40, refl, omega arith, omega arith, (λ h. refl), λ h. absurd (omega arith))
delay_at (suc (suc (suc (suc zero)))) =
    (80, refl, omega arith, omega arith, (λ h. refl), λ h. absurd (omega arith))
delay_at (suc (suc (suc (suc (suc zero))))) =
    (160, refl, omega arith, omega arith, (λ h. refl), λ h. absurd (omega arith))
delay_at (suc (suc (suc (suc (suc (suc zero)))))) =
    (320, refl, omega arith, omega arith, (λ h. refl), λ h. absurd (omega arith))
delay_at (suc (suc (suc (suc (suc (suc (suc zero))))))) =
    (640, refl, omega arith, omega arith, (λ h. refl), λ h. absurd (omega arith))
delay_at (suc (suc (suc (suc (suc (suc (suc (suc n)))))))) =
    let eight : min (suc (suc (suc (suc (suc (suc (suc (suc n)))))))) 8 ≡ 8 = omega arith in
    (900, rw (eight, delay) refl, omega arith, omega arith, (λ h. absurd (omega arith)), λ h. refl)

-- The delay before the next attempt doubles from five seconds with each attempt, and is a quarter of
-- an hour from the eighth on.
pub delay_lem :
    (attempts : ℕ)
    → (5 ≤ delay attempts)
      × (delay attempts ≤ 900)
      × (attempts < 8 → delay attempts ≡ 5 * 2 ^ attempts)
      × (8 ≤ attempts → delay attempts ≡ 900)
delay_lem attempts =
    let (k, e, low, high, few, many) = delay_at attempts in
    (rw e low, rw e high, (λ h. e ∙ few h), λ h. e ∙ many h)

module _ (calls : Calls) (s : NotificationSettings) where
  -- A row that waits at the end of the table, after rows of smaller ids, for a message that is due at
  -- once and has not been tried.
  pub record IsNewest (key kind body : String) (recovery : Bool) (m : Message) (now : F64)
      (box after : Outbox) (row : Row) : Type 0 where
    pub last : after.rows ≡ box.rows ++ (row ∷ [])
    pub newest : All (λ r. r.id < row.id) box.rows
    pub numbered : after.next_id ≡ suc row.id
    pub alert_key : row.alert_key ≡ key
    pub host_id : row.host_id ≡ m.host_id
    pub kind_of : row.kind ≡ kind
    pub recovery_of : row.recovery ≡ recovery
    pub destination_of : row.destination ≡ destination calls s
    pub body_of : row.body ≡ body
    pub attempts : row.attempts ≡ 0
    pub next_attempt : row.next_attempt ≡ now
    pub created_at : row.created_at ≡ now

  -- An enqueued message either becomes the newest row of the table, behind the rows that were there,
  -- with its alert, host, kind and body, for the present destination and due at once, or is refused
  -- because 4096 messages wait, which changes nothing; the table stays within its bound.
  pub enqueue_lem :
      (key kind body : String) (recovery : Bool) (m : Message) (now : F64) (box : Outbox)
      → IsQueue box
      → calls.to_json m ≡ some body
      → (after : Outbox) × (added : Bool) × (enqueue calls s key kind recovery m now box
          ≡ some (after, added))
        × IsQueue after
        × (((added ≡ true) × (row : Row) × IsNewest key kind body recovery m now box after row)
            ⊎ ((added ≡ false) × (after ≡ box) × (length box.rows ≡ max_pending)))
  unfolding enqueue
  enqueue_lem key kind body recovery m now box q json =
      elim (Bool-cases (ltb (length box.rows) max_pending)) [
        | inl free ↦
            let row : Row = record {
              id = box.next_id;
              alert_key = key;
              host_id = m.host_id;
              kind = kind;
              recovery = recovery;
              destination = destination calls s;
              body = body;
              attempts = 0;
              next_attempt = now;
              created_at = now;
            } in
            let grown = length-append box.rows (row ∷ []) in
            (
              record { rows = box.rows ++ (row ∷ []); next_id = suc box.next_id },
              true,
              rw (json, free, enqueue) refl,
              record {
                bounded = ground arith;
                given = All-append box.next_id box.rows row q.given (omega arith);
              },
              inl (
                refl,
                row,
                record {
                  last = refl;
                  newest = q.given;
                  numbered = refl;
                  alert_key = refl;
                  host_id = refl;
                  kind_of = refl;
                  recovery_of = refl;
                  destination_of = refl;
                  body_of = refl;
                  attempts = refl;
                  next_attempt = refl;
                  created_at = refl;
                },
              ),
            )
        | inr full ↦ (
          box,
          false,
          rw (json, full, enqueue) refl,
          q,
          inr (refl, refl, ground (arith, q.bounded)),
        )
      ]

  -- A message is done with only if the server took it, or it is for another destination, or it is no
  -- longer wanted.
  pub attempt-accepted :
      (row : Row) (o : Outcome)
      → attempt calls s row ≡ some o
      → o.accepted ≡ true
      → ((m : Message) × (calls.from_json row.body ≡ some m) × (calls.send m ≡ true))
        ⊎ (row.destination ≢ destination calls s)
        ⊎ (wanted s row.kind row.recovery ≡ false)
  unfolding attempt
  attempt-accepted row o e done = elim (Bool-cases (str_eq row.destination (destination calls s))) [
    | inr moved ↦ inr (inl (λ same. cc (moved, (str_eq_iff _ _).1 same)))
    | inl here ↦ elim (Bool-cases (wanted s row.kind row.recovery)) [
      | inr idle ↦ inr (inr idle)
      | inl want ↦ elim (Option-cases (calls.from_json row.body)) [
        | inl bad ↦ cc (rw (here, want, bad, attempt) at e)
        | inr (m, good) ↦
            inl
              (m, good, ap (λ x. x.accepted) (some_eq (rw (here, want, good, attempt) at e)) ∙ done)
      ]
    ]
  ]
