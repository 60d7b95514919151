-- ===== src/Agent/Queue/Trim.antt =====
-- `trim` against its specification: the aged reports go, then the oldest, as few as the two
-- budgets allow, and the cached size is the size of what is left.
use hope.Base.{
  ℕ, zero, suc, ◌+◌, ◌-◌, ◌≤◌, ◌<◌, ◌≡◌, ◌∙◌, inl, inr, Bool, true, false, some, List, [], ◌∷◌, F64,
  arith, length, filter, drop, Bool-cases,
}
use hope.Agent.Queue.{
  Item, Queued, Spool, retain, retain_from, over_budget, pop_front, evict, trim, fresh, max_bytes,
}

-- The bytes of the reports, added up anew.
abbrev pub total : {A : Type 0} → List (Queued A) → ℕ
total [] = 0
total (q ∷ qs) = q.serialized_bytes + total qs

-- The cached size is right.
abbrev pub IsExact : {A : Type 0} → Spool A → Type 0
IsExact s = s.content_bytes ≡ total s.reports

abbrev pub exact : {A : Type 0} → List (Queued A) → Spool A
exact qs = record { reports = qs; content_bytes = total qs }

module _ {A : Type 0} where
  abbrev pub kept : (A → Bool) → List (Queued A) → List (Queued A)
  kept keep = filter (λ q. keep q.report)

  retain_from_lem :
      (keep : A → Bool) (qs : List (Queued A)) (bytes extra : ℕ)
      → bytes ≡ total qs + extra
      → retain_from keep qs bytes
        ≡ some (record { reports = kept keep qs; content_bytes = total (kept keep qs) + extra })
  unfolding retain_from
  retain_from_lem keep [] bytes extra e = ground arith
  retain_from_lem keep (q ∷ qs) bytes extra e = elim (Bool-cases (keep q.report)) [
    | inl stays ↦ ground (arith, retain_from_lem keep qs bytes (q.serialized_bytes + extra))
    | inr goes ↦ ground (arith, retain_from_lem keep qs (bytes - q.serialized_bytes) extra)
  ]

  -- `retain` never underflows an exact size, and keeps it exact.
  pub retain_lem :
      (keep : A → Bool) (s : Spool A)
      → IsExact s
      → retain keep s ≡ some (exact (kept keep s.reports))
  unfolding retain
  retain_lem keep s e =
      ground (arith, retain_from_lem keep s.reports s.content_bytes 0 (omega (arith, e)))

module _ {A : Type 0} (item : Item A) where
  -- Both budgets hold.
  abbrev pub Fits : List (Queued A) → Type 0
  Fits qs = (length qs ≤ item.max_items) × (2 + total qs + (length qs - 1) ≤ max_bytes)

  over-exact : (qs : List (Queued A)) → over_budget item (exact qs) ≡ false → Fits qs
  unfolding over_budget
  over-exact qs h = (ground arith, ground arith)

  over-not-Fits : (qs : List (Queued A)) → over_budget item (exact qs) ≡ true → ¬ Fits qs
  unfolding over_budget
  over-not-Fits qs h f = ground arith

  -- The number of reports that have to go.
  abbrev pub IsLeast : List (Queued A) → ℕ → Type 0
  IsLeast qs k = Fits (drop k qs) × ((j : ℕ) → j < k → ¬ Fits (drop j qs))

  pub pop_front-exact :
      (q : Queued A) (qs : List (Queued A)) → pop_front (exact (q ∷ qs)) ≡ some (exact qs)
  unfolding pop_front
  pop_front-exact q qs = ground arith

  evict-exact :
      (fuel : ℕ) (q : Queued A) (qs : List (Queued A))
      → over_budget item (exact (q ∷ qs)) ≡ true
      → evict item (suc fuel) (exact (q ∷ qs)) ≡ evict item fuel (exact qs)
  evict-exact fuel q qs e = unfold evict in rw (e, evict) (rw (pop_front-exact q qs))

  IsLeast-suc :
      (q : Queued A) (qs : List (Queued A)) (k : ℕ)
      → ¬ Fits (q ∷ qs)
      → IsLeast qs k
      → IsLeast (q ∷ qs) (suc k)
  IsLeast-suc q qs k big (fits, least) = (fits, earlier)
    where
      earlier : (j : ℕ) → j < suc k → ¬ Fits (drop j (q ∷ qs))
      earlier zero h f = big f
      earlier (suc j) h f = least j (omega arith) f

  -- The loop ends within its fuel: an exact queue that is empty is within both budgets.
  evict_lem :
      (fuel : ℕ) (qs : List (Queued A))
      → length qs < fuel
      → (k : ℕ) × (evict item fuel (exact qs) ≡ some (exact (drop k qs))) × IsLeast qs k
  evict_lem zero qs h = absurd (omega arith)
  evict_lem (suc fuel) [] h = (
    0,
    unfold evict over_budget in ground arith,
    ((omega arith, omega arith), λ j h. absurd (omega arith)),
  )
  evict_lem (suc fuel) (q ∷ qs) h = elim (Bool-cases (over_budget item (exact (q ∷ qs)))) [
    | inl over ↦
        let (k, e, least) = evict_lem fuel qs (omega arith) in
        (
          suc k,
          evict-exact fuel q qs over ∙ e,
          IsLeast-suc q qs k (over-not-Fits (q ∷ qs) over) least,
        )
    | inr within ↦ (
      0,
      (unfold evict in rw (within, evict)),
      (over-exact (q ∷ qs) within, λ j h. absurd (omega arith)),
    )
  ]

  abbrev pub fresh_at : F64 → A → Bool
  fresh_at now r = fresh now (item.stamp r)

  -- From an exact queue `trim` ends without underflow. It drops every report outside the age
  -- window and then the least number of oldest ones with which both budgets hold, and what is
  -- left is exact again.
  pub trim_lem :
      (now : F64) (s : Spool A)
      → IsExact s
      → let left = kept (fresh_at now) s.reports in
        (k : ℕ) × (trim item now s ≡ some (exact (drop k left))) × IsLeast left k
  unfolding trim
  trim_lem now s e =
      let left = kept (fresh_at now) s.reports in
      let (k, done, least) = evict_lem (suc (length left)) left (omega arith) in
      (k, rw (retain_lem (fresh_at now) s e) done, least)
