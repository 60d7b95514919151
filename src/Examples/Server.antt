-- ===== src/Examples/Server.antt =====
-- The limiter at concrete inputs.
use hope.Base.{◌*◌, pos, unit, ◌+ℤ◌, f64_le, f64_add}
use hope.Server.Limiter.{refusal, wait_seconds}
use hope.Server.Limiter.Release.{check-wait}
use hope.Base.{
  ◌≡◌, ◌≢◌, ◌↔◌, ◌⊎◌, ◌≤◌, refl, some, none, [], ◌∷◌, float, f64_lt, f64_sub, ◌-ℤ◌, arith,
}
use hope.Server.Limiter.{Limiter, Keys, check, hit, get, counted}
use hope.Server.Limiter.Table.{Keyed}
use hope.Server.Limiter.Room.{IsTable, hit_lem}
use hope.Server.Limiter.Budget.{hits, check-hit_other, check-hits}

abbrev three_a_minute : Limiter
three_a_minute = record { window = float 60; per_key = 3 }

abbrev one_key : Keys
one_key = ("b", record { count = 1; start = float 10; last = float 10 }) ∷ []

one_key-IsTable : IsTable one_key
unfolding Keyed get
one_key-IsTable = record { keyed = (refl, tt); bounded = omega arith }

hit_lem_example :
    IsTable (hit three_a_minute "a" (float 20) one_key)
    × (get "a" (hit three_a_minute "a" (float 20) one_key)
        ≡ some (counted three_a_minute (float 20) (get "a" one_key)))
hit_lem_example = hit_lem three_a_minute "a" (float 20) one_key one_key-IsTable

check-hit_other_example :
    (check three_a_minute "b" (float 30) (hit three_a_minute "a" (float 20) one_key)
      ≡ check three_a_minute "b" (float 30) one_key)
    ⊎ (check three_a_minute "b" (float 30) (hit three_a_minute "a" (float 20) one_key) ≡ none)
check-hit_other_example =
    check-hit_other three_a_minute "a" "b" (float 20) one_key (float 30) one_key-IsTable.keyed refl

check-hits_example :
    (check three_a_minute "a"
        (float 40)
        (hits three_a_minute "a" (float 20 ∷ float 25 ∷ float 30 ∷ []) one_key)
      ≢ none)
    ↔ (3 ≤ 3)
unfolding get f64_lt f64_sub ◌-ℤ◌
check-hits_example =
    check-hits three_a_minute "a" (float 20) (float 40) (float 25 ∷ float 30 ∷ []) one_key
      one_key-IsTable refl refl (refl, (refl, tt)) (omega arith) refl

check-wait_example :
    refusal three_a_minute (float 80) (record { count = 3; start = float 20; last = float 30 })
    ≡ none
unfolding refusal wait_seconds f64_lt f64_le f64_sub f64_add ◌-ℤ◌ ◌+ℤ◌
check-wait_example =
    check-wait 3 3 (float 30) (pos (60 * unit)) (pos (20 * unit)) (pos (40 * unit))
      (pos (80 * unit)) 40 refl (omega arith) refl
