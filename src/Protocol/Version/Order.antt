-- ===== src/Protocol/Version/Order.antt =====
-- `version_newer` is the lexicographic order of the parts, a strict order.
use hope.Base.{
  ℕ, zero, suc, ◌+◌, ◌≤◌, ◌<◌, ◌≡◌, ◌↔◌, refl, sym, ◌∙◌, inl, inr, String, true, false, List, [],
  ◌∷◌, arith, max, ltb, ◌==◌, length, Bool-cases, ==_iff, ltb→lt, subst,
}
use hope.Protocol.Version.{parts, part_at, newer_from, version_newer}

-- At the first part where they differ, the first version has the larger number.
abbrev pub Later : List ℕ → List ℕ → Type 0
Later a b = (k : ℕ) × ((j : ℕ) → j < k → part_at a j ≡ part_at b j) × (part_at b k < part_at a k)

part_at_past : (xs : List ℕ) (k : ℕ) → length xs ≤ k → part_at xs k ≡ 0
part_at_past [] k h = refl
part_at_past (x ∷ xs) zero h = absurd (omega arith)
part_at_past (x ∷ xs) (suc k) h = part_at_past xs k (omega arith)

-- The loop's answer, from the index where it stands.
abbrev LaterFrom : ℕ → ℕ → List ℕ → List ℕ → Type 0
LaterFrom left index a b =
    (k : ℕ) × (index ≤ k)
    × (k < index + left)
    × ((j : ℕ) → index ≤ j → j < k → part_at a j ≡ part_at b j)
    × (part_at b k < part_at a k)

module _ (a b : List ℕ) where
  equal_from :
      {index k : ℕ}
      → (part_at a index == part_at b index) ≡ true
      → ((j : ℕ) → suc index ≤ j → j < k → part_at a j ≡ part_at b j)
      → (j : ℕ) → index ≤ j
      → j < k
      → part_at a j ≡ part_at b j
  equal_from {index} {k} same equal j p q = elim (Bool-cases (index == j)) [
    | inl here ↦
        subst (λ i. part_at a i ≡ part_at b i) ((==_iff index j).0 here) ((==_iff _ _).0 same)
    | inr later ↦ equal j (ground arith) q
  ]

  from_loop : (left index : ℕ) → newer_from left index a b ≡ true → LaterFrom left index a b
  unfolding newer_from
  from_loop zero index h = cc
  from_loop (suc left) index h = elim (Bool-cases (part_at a index == part_at b index)) [
    | inl same ↦
        let (k, low, high, equal, more) = from_loop left (suc index) (rw (same, newer_from) at h) in
        (k, omega arith, omega arith, equal_from same equal, more)
    | inr differs ↦ (
      index,
      omega arith,
      omega arith,
      (λ j p q. absurd (omega arith)),
      ltb→lt _ _ (rw (differs, newer_from) at h),
    )
  ]

  to_loop : (left index : ℕ) → LaterFrom left index a b → newer_from left index a b ≡ true
  unfolding newer_from
  to_loop zero index (k, low, high, equal, more) = absurd (omega arith)
  to_loop (suc left) index (k, low, high, equal, more) = elim (Bool-cases (index == k)) [
    | inl here ↦
        let at = (==_iff index k).0 here in
        let less = subst (λ i. part_at b i < part_at a i) (sym at) more in ground arith
    | inr past ↦
        let same = equal index (omega arith) (ground arith) in
        let rest =
          to_loop left (suc index)
            (k, ground arith, omega arith, (λ j p q. equal j (omega arith) q), more) in
        ground arith
  ]

  -- A part where they differ lies within the longer one.
  Later-within : Later a b → LaterFrom (max (length a) (length b)) 0 a b
  Later-within (k, equal, more) = elim (Bool-cases (ltb k (length a))) [
    | inl within ↦ (k, omega arith, ground arith, (λ j p q. equal j q), more)
    | inr past ↦ absurd (ground (arith, part_at_past a k (ground arith)))
  ]

-- `version_newer candidate installed` holds exactly where the first parts that differ are larger in
-- the candidate, a missing part being zero: the order does not depend on how many parts are written.
pub version_newer_iff :
    (candidate installed : String)
    → (version_newer candidate installed ≡ true) ↔ Later (parts candidate) (parts installed)
unfolding version_newer
version_newer_iff candidate installed =
    let a = parts candidate in
    let b = parts installed in
    (
      (λ h.
          let (k, low, high, equal, more) = from_loop a b (max (length a) (length b)) 0 h in
          (k, (λ j p. equal j (omega arith) p), more)),
      (λ h. to_loop a b (max (length a) (length b)) 0 (Later-within a b h)),
    )

Later-trans : (a b c : List ℕ) → Later a b → Later b c → Later a c
Later-trans a b c (k, equal, more) (l, equal', more') = elim (Bool-cases (ltb k l)) [
  | inl first ↦
      (k, (λ j p. equal j p ∙ equal' j (ground arith)), ground (arith, equal' k (ground arith)))
  | inr other ↦ elim (Bool-cases (k == l)) [
    | inl same ↦
        let at = (==_iff k l).0 same in
        (
          l,
          (λ j p. equal j (omega arith) ∙ equal' j p),
          ground (arith, subst (λ i. part_at b i < part_at a i) at more),
        )
    | inr past ↦
        (l, (λ j p. equal j (ground arith) ∙ equal' j p), ground (arith, equal l (ground arith)))
  ]
]

Later-asym : (a b : List ℕ) → Later a b → Later b a → ⊥
Later-asym a b h h' = let (k, equal, more) = Later-trans a b a h h' in omega arith

-- Newer is a strict order of release versions: a version that is newer than a newer one is newer,
-- and no two versions are newer than each other.
pub version_newer-strict :
    (a b c : String)
    → version_newer a b ≡ true
    → ((version_newer b c ≡ true) → version_newer a c ≡ true) × (version_newer b a ≡ false)
version_newer-strict a b c h = (
  (λ h'. (version_newer_iff a c).1 (
      Later-trans (parts a) (parts b) (parts c) ((version_newer_iff a b).0 h)
        ((version_newer_iff b c).0 h'))),
  elim (Bool-cases (version_newer b a)) [
    | inl back ↦ absurd (
        Later-asym (parts a) (parts b) ((version_newer_iff a b).0 h)
          ((version_newer_iff b a).0 back))
    | inr clear ↦ clear
  ],
)
