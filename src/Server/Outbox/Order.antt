-- ===== src/Server/Outbox/Order.antt =====
-- The queue of notifications stays bounded, keeps each message until it is done with, and has one
-- message of an alert under way at a time, the oldest.
use hope.Base.{
  ℕ, zero, suc, ◌+◌, ◌≤◌, ◌≡◌, refl, ap, sym, subst, ◌∙◌, ◌⊎◌, inl, inr, Bool, true, false, not,
  ◌&&◌, Option, none, some, List, [], ◌∷◌, map, arith, F64, f64_le, str_eq, str_eq_iff, ltb, ◌==◌,
  length, take, filter, any, Bool-cases, if◌then◌else◌,
}
use hope.Server.Outbox.{
  Row, Outbox, Outcome, concurrency, eligible, due, postponed, settle_one, settle,
}

-- A row stands in a table.
abbrev pub In : Row → List Row → Type 0
In r [] = ⊥
In r (s ∷ rs) = (s ≡ r) ⊎ In r rs

In-take : (r : Row) (n : ℕ) (rs : List Row) → In r (take n rs) → In r rs
In-take r zero rs h = absurd h
In-take r (suc n) [] h = h
In-take r (suc n) (s ∷ rs) (inl here) = inl here
In-take r (suc n) (s ∷ rs) (inr there) = inr (In-take r n rs there)

length-take-le : (n : ℕ) (rs : List Row) → length (take n rs) ≤ n
length-take-le zero rs = omega arith
length-take-le (suc n) [] = omega arith
length-take-le (suc n) (r ∷ rs) = omega (arith, length-take-le n rs)

module _ (p : Row → Bool) (r : Row) where
  split :
      (s : Row) (rs : List Row)
      → (In r (filter p rs) → In r rs × (p r ≡ true))
      → p s ≡ true
      → (s ≡ r) ⊎ In r (filter p rs)
      → In r (s ∷ rs) × (p r ≡ true)
  split s rs further keep (inl here) = (inl here, subst (λ x. p x ≡ true) here keep)
  split s rs further keep (inr there) = let (at, passes) = further there in (inr at, passes)

  In-filter : (rs : List Row) → In r (filter p rs) → In r rs × (p r ≡ true)
  In-filter [] h = absurd h
  In-filter (s ∷ rs) h = elim (Bool-cases (p s)) [
    | inl keep ↦ split s rs (In-filter rs) keep (rw keep at h)
    | inr drop ↦ let (there, passes) = In-filter rs (rw drop at h) in (inr there, passes)
  ]

  filter-In : (rs : List Row) → In r rs → p r ≡ true → In r (filter p rs)
  filter-In [] h passes = h
  filter-In (s ∷ rs) (inl here) passes =
      let keep : p s ≡ true = subst (λ x. p x ≡ true) (sym here) passes in rw keep (inl here)
  filter-In (s ∷ rs) (inr there) passes = elim (Bool-cases (p s)) [
    | inl keep ↦ rw keep (inr (filter-In rs there passes))
    | inr drop ↦ rw drop (filter-In rs there passes)
  ]

  any-In : (rs : List Row) → any p rs ≡ false → In r rs → p r ≡ false
  any-In [] h at = absurd at
  any-In (s ∷ rs) h (inl here) = subst (λ x. p x ≡ false) here (ground arith)
  any-In (s ∷ rs) h (inr there) = any-In rs (ground arith) there

eligible_lem :
    (now : F64) (rows : List Row) (r : Row)
    → eligible now rows r ≡ true
    → (f64_le r.next_attempt now ≡ true)
      × ((older : Row) → In older rows → older.alert_key ≡ r.alert_key → r.id ≤ older.id)
unfolding eligible
eligible_lem now rows r h = (
  ground arith,
  (λ older at same.
      let none_older =
        any-In (λ o. str_eq o.alert_key r.alert_key && ltb o.id r.id) older rows (ground arith)
          at in
      let equal = (str_eq_iff older.alert_key r.alert_key).1 same in ground arith),
)

-- What is under way in one run: at most four rows of the table whose time has come, each the oldest
-- of its alert, so that no two of them belong to one alert.
pub due_lem :
    (now : F64) (rows : List Row)
    → (length (due now rows) ≤ 4)
      × ((r : Row)
          → In r (due now rows)
          → In r rows
            × (f64_le r.next_attempt now ≡ true)
            × ((older : Row) → In older rows → older.alert_key ≡ r.alert_key → r.id ≤ older.id))
      × ((r s : Row)
          → In r (due now rows)
          → In s (due now rows)
          → r.alert_key ≡ s.alert_key
          → r.id ≡ s.id)
unfolding due
due_lem now rows = (length-take-le concurrency _, one, two)
  where
    one :
        (r : Row)
        → In r (due now rows)
        → In r rows
          × (f64_le r.next_attempt now ≡ true)
          × ((older : Row) → In older rows → older.alert_key ≡ r.alert_key → r.id ≤ older.id)
    one r h =
        let (at, passes) = In-filter (eligible now rows) r rows (In-take r concurrency _ h) in
        (at, (eligible_lem now rows r passes).0, (eligible_lem now rows r passes).1)

    two :
        (r s : Row)
        → In r (due now rows)
        → In s (due now rows)
        → r.alert_key ≡ s.alert_key
        → r.id ≡ s.id
    two r s h h' same =
        let low = (one r h).2 s (one s h').0 (sym same) in
        let high = (one s h').2 r (one r h).0 same in omega arith

-- The same message, whatever has been made of its schedule.
pub record SameMessage (r s : Row) : Type 0 where
  pub id : r.id ≡ s.id
  pub alert_key : r.alert_key ≡ s.alert_key
  pub kind : r.kind ≡ s.kind
  pub recovery : r.recovery ≡ s.recovery
  pub destination : r.destination ≡ s.destination
  pub body : r.body ≡ s.body

-- No outcome says that the message is done with.
abbrev pub Open : ℕ → List (Option Outcome) → Type 0
Open id [] = Unit
Open id (none ∷ os) = Open id os
Open id (some o ∷ os) = ((o.id ≡ id) → o.accepted ≡ false) × Open id os

postponed-same : (now : F64) (o : Outcome) (r : Row) → SameMessage r (postponed now o r)
unfolding postponed
postponed-same now o r = elim (Bool-cases (r.id == o.id)) [
  | inl same ↦ rw same (record {
    id = refl;
    alert_key = refl;
    kind = refl;
    recovery = refl;
    destination = refl;
    body = refl;
  })
  | inr other ↦ rw other (record {
    id = refl;
    alert_key = refl;
    kind = refl;
    recovery = refl;
    destination = refl;
    body = refl;
  })
]

In-map : (f : Row → Row) (r : Row) (rs : List Row) → In r rs → In (f r) (map f rs)
In-map f r [] h = h
In-map f r (s ∷ rs) (inl here) = inl (ap f here)
In-map f r (s ∷ rs) (inr there) = inr (In-map f r rs there)

Same-trans : {r s t : Row} → SameMessage r s → SameMessage s t → SameMessage r t
Same-trans p q = record {
  id = p.id ∙ q.id;
  alert_key = p.alert_key ∙ q.alert_key;
  kind = p.kind ∙ q.kind;
  recovery = p.recovery ∙ q.recovery;
  destination = p.destination ∙ q.destination;
  body = p.body ∙ q.body;
}

Same-refl : (r : Row) → SameMessage r r
Same-refl r = record {
  id = refl;
  alert_key = refl;
  kind = refl;
  recovery = refl;
  destination = refl;
  body = refl;
}

settle_one-keeps :
    (now : F64) (o : Outcome) (box : Outbox) (r : Row)
    → In r box.rows
    → ((o.id ≡ r.id) → o.accepted ≡ false)
    → (s : Row) × In s (settle_one now o box).rows × SameMessage r s
unfolding settle_one
settle_one-keeps now o box r at keep = elim (Bool-cases o.accepted) [
  | inl done ↦
      rw done (r, filter-In (λ row. not (row.id == o.id)) r box.rows at (ground arith), Same-refl r)
  | inr again ↦
      rw again (postponed now o r, In-map (postponed now o) r box.rows at, postponed-same now o r)
]

-- A message stays in the table until an outcome says that it is done with: whatever else the run
-- settles, and wherever an error stops it, the row is there with the same message.
pub settle-keeps :
    (now : F64) (os : List (Option Outcome)) (n : ℕ) (box : Outbox) (r : Row)
    → In r box.rows
    → Open r.id os
    → (s : Row) × In s (settle now os n box).0.rows × SameMessage r s
unfolding settle
settle-keeps now [] n box r at unsettled = (r, at, Same-refl r)
settle-keeps now (none ∷ os) n box r at unsettled = (r, at, Same-refl r)
settle-keeps now (some o ∷ os) n box r at unsettled =
    let (s, there, same) = settle_one-keeps now o box r at unsettled.0 in
    let (t, here, same') =
      settle-keeps now os (if o.accepted then n + 1 else n) (settle_one now o box) s there
        (subst (λ i. Open i os) same.id unsettled.1) in
    (t, here, Same-trans same same')
