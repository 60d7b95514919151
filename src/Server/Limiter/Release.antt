-- ===== src/Server/Limiter/Release.antt =====
-- How a key becomes free again: by a success, or by waiting as long as the refusal says.
use hope.Base.{
  ℕ, ◌*◌, ◌≤◌, ◌<◌, ◌≡◌, refl, sym, ap, ◌∙◌, inl, inr, String, true, false, not, ◌&&◌, none, some,
  arith, ℤ, pos, negsuc, pos_part, +ℤ_parts, -ℤ_parts, ◌+ℤ◌, ◌-ℤ◌, ltb_ℤ, leb_ℤ, leb→le, subst, F64,
  finite, float, unit, u64_max, f64_lt, f64_le, f64_add, f64_sub, leb, ltb, str_eq, Bool-cases,
  Option-cases, some_eq,
}
use hope.Server.Limiter.{
  Limiter, Entry, Keys, get, remove, judge, refusal, check, clear, wait_seconds,
}
use hope.Server.Limiter.Table.{get-filter-none, get-filter_kept, get-remove_same}

-- After a success the key has its whole budget again, and every other key is checked as before.
pub check-clear :
    (l : Limiter) (key k : String) (at : F64) (m : Keys)
    → (check l key at (clear l key m) ≡ none)
      × (str_eq k key ≡ false → check l k at (clear l key m) ≡ check l k at m)
unfolding check judge remove
check-clear l key k at m =
    (ap (judge l at) (get-remove_same key m), λ other. ap (judge l at) (kept other))
  where
    kept : str_eq k key ≡ false → get k (remove key m) ≡ get k m
    kept other = elim (Option-cases (get k m)) [
      | inl missing ↦ get-filter-none (λ p. not (str_eq p.0 key)) k m missing ∙ sym missing
      | inr (e, found) ↦
          get-filter_kept (λ p. not (str_eq p.0 key)) k m e found (rw other refl) ∙ sym found
    ]

ltb-false : (a b : ℕ) → b ≤ a → ltb a b ≡ false
ltb-false a b h = ground arith

wait_lem : (z : ℤ) → wait_seconds (finite z) < u64_max → pos_part z ≤ wait_seconds (finite z) * unit
unfolding wait_seconds
wait_lem (pos n) h = omega arith
wait_lem (negsuc n) h = omega arith

over_lem :
    (window start at later : ℤ) (n : ℕ)
    → pos_part ((start +ℤ window) -ℤ at) ≤ n
    → leb_ℤ (at +ℤ pos n) later ≡ true
    → ltb_ℤ (later -ℤ start) window ≡ false
over_lem window start at later n small waited =
    let w = leb→le _ _ waited in
    let sum = +ℤ_parts start window in
    let z = -ℤ_parts (start +ℤ window) at in
    let d = -ℤ_parts later start in let t = +ℤ_parts at (pos n) in ltb-false _ _ (omega arith)

-- A refused key that waits as many whole seconds as the refusal says, without another failure, is
-- let through, if all times are finite and the wait is below the largest u64.
pub check-wait :
    (per_key count : ℕ) (last : F64) (window start at later : ℤ) (s : ℕ)
    → let l : Limiter = record { window = finite window; per_key = per_key } in
      let e : Entry = record { count = count; start = finite start; last = last } in
      refusal l (finite at) e ≡ some s
      → s < u64_max
      → f64_le (f64_add (finite at) (float s)) (finite later) ≡ true
      → refusal l (finite later) e ≡ none
unfolding refusal f64_lt f64_sub f64_add f64_le
check-wait per_key count last window start at later s refused small waited =
    elim (Bool-cases (ltb_ℤ (at -ℤ start) window && leb per_key count)) [
      | inr free ↦ cc (rw free at refused)
      | inl over ↦
          let same = some_eq (rw over at refused) in
          let bound =
            wait_lem ((start +ℤ window) -ℤ at) (subst (λ x. x < u64_max) (sym same) small) in
          rw
            (over_lem window start at later (s * unit)
              (subst (λ x. pos_part ((start +ℤ window) -ℤ at) ≤ x * unit) same bound) waited)
            refl
    ]
