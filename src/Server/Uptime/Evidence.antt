-- ===== src/Server/Uptime/Evidence.antt =====
-- A problem is open exactly after two failures in a row, and a device without an agent is down only
-- on evidence.
use hope.Base.{
  ℕ, suc, ◌*◌, ◌≤◌, ◌≡◌, ◌↔◌, inl, inr, and_true, refl, min, max, String, Bool, true, false, Option,
  none, some, List, [], ◌∷◌, arith, any, F64, finite, infinity, neg_infinity, nan, pos, negsuc,
  float, f64_lt, f64_sub, leb, Bool-cases, Option-cases, get_elem?,
}
use hope.Protocol.Types.{Host}
use hope.Server.Uptime.{Scans, has_agent, missed, device_down, update_failure, evaluate}

-- The counter after the results of a check, newest first, from a counter of zero.
unfoldable pub counter : List (Option Bool) → ℕ
counter [] = 0
counter (o ∷ older) = (evaluate (counter older) o).0

-- The results that are known.
abbrev pub known : List (Option Bool) → List Bool
known [] = []
known (none ∷ os) = known os
known (some b ∷ os) = b ∷ known os

-- How many failures stand in front.
abbrev failures : List Bool → ℕ
failures [] = 0
failures (false ∷ bs) = 0
failures (true ∷ bs) = suc (failures bs)

counter_lem : (os : List (Option Bool)) → counter os ≡ min (failures (known os)) 255
unfolding counter evaluate update_failure
counter_lem [] = omega arith
counter_lem (none ∷ os) = counter_lem os
counter_lem (some false ∷ os) = omega arith
counter_lem (some true ∷ os) = omega (arith, counter_lem os)

-- The last two results are failures.
abbrev pub TwoFailures : List Bool → Type 0
TwoFailures (true ∷ true ∷ bs) = Unit
TwoFailures _ = ⊥

two_iff : (bs : List Bool) → (2 ≤ failures bs) ↔ TwoFailures bs
two_iff [] = ((λ h. absurd (omega arith)), λ h. absurd h)
two_iff (false ∷ bs) = ((λ h. absurd (omega arith)), λ h. absurd h)
two_iff (true ∷ []) = ((λ h. absurd (omega arith)), λ h. absurd h)
two_iff (true ∷ false ∷ bs) = ((λ h. absurd (omega arith)), λ h. absurd h)
two_iff (true ∷ true ∷ bs) = ((λ h. tt), λ h. omega arith)

opened_iff :
    (n : ℕ) (bs : List Bool) → n ≡ min (failures bs) 255 → (leb 2 n ≡ true) ↔ TwoFailures bs
opened_iff n bs e =
    let two = two_iff bs in
    ((λ h. two.0 (ground (arith, e))), λ h. let more = two.1 h in ground (arith, e))

-- A problem is open after a check exactly where the last two known results of the check, this one
-- included, are failures. A result that is unknown neither opens nor closes it.
pub evaluate_iff :
    (older : List (Option Bool)) (o : Option Bool)
    → ((evaluate (counter older) o).1 ≡ true) ↔ TwoFailures (known (o ∷ older))
unfolding evaluate update_failure counter
evaluate_iff older none = opened_iff (counter older) (known older) (counter_lem older)
evaluate_iff older (some down) =
    opened_iff (counter (some down ∷ older)) (known (some down ∷ older))
      (counter_lem (some down ∷ older))

more_than : (a b : ℕ) (x : F64) → b ≤ a → f64_lt (float a) x ≡ true → f64_lt (float b) x ≡ true
unfolding f64_lt
more_than a b (finite (pos n)) le h = ground arith
more_than a b (finite (negsuc n)) le h = ground arith
more_than a b infinity le h = refl
more_than a b neg_infinity le h = h
more_than a b nan le h = h

any-some :
    (p : String → Bool) (ids : List String)
    → any p ids ≡ true
    → (i : ℕ) × (id : String) × (get_elem? ids i ≡ some id) × (p id ≡ true)
any-some p [] h = cc
any-some p (x ∷ xs) h = elim (Bool-cases (p x)) [
  | inl passed ↦ (0, x, refl, passed)
  | inr failed ↦ let (i, id, at, passes) = any-some p xs (rw failed at h) in (suc i, id, at, passes)
]

-- A device without a working agent is taken for down only on evidence: a network of its own was
-- scanned to the end after the device was last seen, and it has not been seen for more than a
-- quarter of an hour.
pub device_down-evidence :
    (host : Host) (now : F64) (scans : Scans)
    → has_agent host ≡ false
    → device_down host now scans ≡ true
    → (i : ℕ) × (id : String) × (finished : F64) × (interval : ℕ) × (get_elem? host.network_ids i
        ≡ some id)
      × (scans id ≡ some (finished, interval))
      × (f64_lt host.last_seen finished ≡ true)
      × (f64_lt (float 900) (f64_sub now host.last_seen) ≡ true)
unfolding device_down
device_down-evidence host now scans alone h =
    let (i, id, at, passes) =
      any-some (λ id. missed host now (scans id)) host.network_ids (rw (alone, device_down) at h) in
    elim (Option-cases (scans id)) [
      | inl unknown ↦ cc (rw unknown at passes)
      | inr ((finished, interval), scanned) ↦
          let both = rw scanned at passes in
          (
            i,
            id,
            finished,
            interval,
            at,
            scanned,
            (and_true _ _ both).0,
            more_than (max (2 * interval * 60) 900) 900 _ (omega arith) (and_true _ _ both).1,
          )
    ]
