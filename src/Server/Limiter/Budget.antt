-- ===== src/Server/Limiter/Budget.antt =====
-- Each key's own budget of failures, and the wait that a refusal names.
use hope.Base.{
  suc, ◌+◌, ◌%◌, ◌^◌, ◌≤◌, ◌<◌, ◌≡◌, ◌≢◌, ◌↔◌, refl, sym, ap, subst, ◌∙◌, ◌⊎◌, inl, inr, String,
  Bool, true, false, not, ◌&&◌, Option, none, some, List, [], ◌∷◌, arith, All, length, filter, leb,
  F64, f64_lt, f64_le, f64_sub, str_eq, Bool-cases, Option-cases, leb→le, if◌then◌else◌,
}
use hope.Server.Limiter.{
  Limiter, Entry, Keys, get, remove, evict, oldest, least, live, make_room, roomy, counted, hit,
  refusal, judge, check, is_found, max_keys,
}
use hope.Server.Limiter.Table.{
  Keyed, get-filter-none, get-filter_kept, get-filter_dropped, get-insert_other, Keyed-filter,
}
use hope.Server.Limiter.Room.{IsTable, hit_lem}

-- A filter changes a lookup only to find nothing.
get-filter :
    (p : String × Entry → Bool) (k : String) (m : Keys)
    → Keyed m
    → (get k (filter p m) ≡ get k m) ⊎ (get k (filter p m) ≡ none)
get-filter p k m u = elim (Option-cases (get k m)) [
  | inl missing ↦ inr (get-filter-none p k m missing)
  | inr (e, found) ↦ elim (Bool-cases (p (k, e))) [
    | inl keep ↦ inl (get-filter_kept p k m e found keep ∙ sym found)
    | inr drop ↦ inr (get-filter_dropped p k m e u found drop)
  ]
]

get-evict :
    (k : String) (m : Keys) → Keyed m → (get k (evict m) ≡ get k m) ⊎ (get k (evict m) ≡ none)
unfolding evict oldest remove
get-evict k [] u = inl refl
get-evict k (p ∷ m) u = get-filter (λ x. not (str_eq x.0 (least p m).0)) k (p ∷ m) u

not_both : (a b : F64) → f64_lt a b ≡ true → f64_le b a ≡ false
unfolding f64_lt f64_le
not_both a b h = ground arith

-- What was found, or nothing.
abbrev Kept : Option Entry → Option Entry → Type 0
Kept old new = (new ≡ old) ⊎ (new ≡ none)

if_either :
    (k : String) (old : Option Entry) (m n : Keys) (c : Bool)
    → Kept old (get k m)
    → Kept old (get k n)
    → Kept old (get k (if c then m else n))
if_either k old m n true p q = p
if_either k old m n false p q = q

either : (a b c : Option Entry) → Kept b c → Kept a b → Kept a c
either a b c (inl p) (inl q) = inl (p ∙ q)
either a b c (inl p) (inr q) = inr (p ∙ q)
either a b c (inr p) q = inr p

module _ (l : Limiter) (key k : String) (at : F64) where
  get-roomy_any :
      (m : Keys)
      → Keyed m
      → (get k (roomy l key at m) ≡ get k m) ⊎ (get k (roomy l key at m) ≡ none)
  unfolding roomy make_room
  get-roomy_any m u =
      let kept = filter (live l at) m in
      let filtered = get-filter (live l at) k m u in
      let evicted = get-evict k kept (Keyed-filter (live l at) m u) in
      if_either k (get k m) (make_room l at m) m
        (not (is_found (get key m)) && leb max_keys (length m))
        (if_either k (get k m) (evict kept) kept (leb max_keys (length kept))
          (either (get k m) (get k kept) (get k (evict kept)) evicted filtered) filtered)
        (inl refl)

  -- A failure of one client refuses no other: another key's check is as it was, or passes because
  -- its entry made room.
  pub check-hit_other :
      (m : Keys) (now : F64)
      → Keyed m
      → str_eq key k ≡ false
      → (check l k now (hit l key at m) ≡ check l k now m) ⊎ (check l k now (hit l key at m) ≡ none)
  unfolding check hit
  check-hit_other m now u other =
      let room = roomy l key at m in
      let same = get-insert_other k key (counted l at (get key room)) room other in
      elim (get-roomy_any m u) [
        | inl kept ↦ inl (ap (judge l now) (same ∙ kept))
        | inr gone ↦ inr (ap (judge l now) (same ∙ gone))
      ]

module _ (l : Limiter) (key : String) where
  -- Failures of one key at the given times, one after another.
  unfoldable pub hits : List F64 → Keys → Keys
  hits [] m = m
  hits (t ∷ ts) m = hits ts (hit l key t m)

  abbrev Within : F64 → F64 → Type 0
  Within start at = f64_lt (f64_sub at start) l.window ≡ true

  -- The window ends at once, or lasts.
  lasting : (start at : F64) → Within start at → f64_le l.window (f64_sub at start) ≡ false
  unfolding f64_lt f64_le
  lasting start at h = not_both (f64_sub at start) l.window h

  counted_lem :
      (e : Entry) (at : F64)
      → Within e.start at
      → counted l at (some e) ≡ record e { count = suc e.count % 2 ^ 32; last = at }
  unfolding counted
  counted_lem e at h = rw (lasting e.start at h) refl

  hits_count :
      (ts : List F64) (m : Keys) (e : Entry)
      → IsTable m
      → get key m ≡ some e
      → All (Within e.start) ts
      → e.count + length ts < 2 ^ 32
      → (d : Entry) × (get key (hits ts m) ≡ some d)
        × (d.count ≡ e.count + length ts)
        × (d.start ≡ e.start)
  unfolding hits counted
  hits_count [] m e t found within few = (e, found, omega arith, refl)
  hits_count (at ∷ ts) m e t found within few =
      let (t', own) = hit_lem l key at m t in
      let next = counted_lem e at within.0 in
      let new : Entry = record e { count = suc e.count % 2 ^ 32; last = at } in
      let now = own ∙ ap (λ o. some (counted l at o)) found ∙ ap some next in
      let (d, there, count, start) =
        hits_count ts (hit l key at m) new t' now within.1 (omega arith) in
      (d, there, omega arith, start)

  fresh_lem :
      (start : F64)
      → Within start start
      → counted l start none ≡ record { count = 1; start = start; last = start }
  unfolding counted
  fresh_lem start h = rw (lasting start start h) refl

  refused :
      (d : Entry) (now : F64)
      → Within d.start now
      → (judge l now (some d) ≢ none) ↔ (l.per_key ≤ d.count)
  unfolding judge refusal
  refused d now h = elim (Bool-cases (leb l.per_key d.count)) [
    | inl over ↦ ((λ p. leb→le _ _ over), (λ p. rw (h, over) (λ q. cc)))
    | inr under ↦ ((λ p. absurd (p (rw (h, under) refl))), (λ p. ground arith))
  ]

  -- The budget: a key that is not in the table, and then fails at `start` and at the times `ts`
  -- within the window, is refused within the window exactly from its `per_key`-th failure on.
  pub check-hits :
      (start now : F64) (ts : List F64) (m : Keys)
      → IsTable m
      → get key m ≡ none
      → Within start start
      → All (Within start) ts
      → suc (length ts) < 2 ^ 32
      → Within start now
      → (check l key now (hits (start ∷ ts) m) ≢ none) ↔ (l.per_key ≤ suc (length ts))
  unfolding hits check judge refusal counted
  check-hits start now ts m t missing positive within few current =
      let (t', own) = hit_lem l key start m t in
      let now' =
        own ∙ ap (λ o. some (counted l start o)) missing ∙ ap some (fresh_lem start positive) in
      let (d, there, count, begun) =
        hits_count ts (hit l key start m) _ t' now' within (omega arith) in
      let (to, from) = refused d now (subst (λ s. Within s now) (sym begun) current) in
      let same : check l key now (hits (start ∷ ts) m) ≡ judge l now (some d) =
        ap (judge l now) there in
      (
        (λ h. let more = to (λ p. h (same ∙ p)) in omega arith),
        (λ h p. from (omega arith) (sym same ∙ p)),
      )
