-- ===== src/Server/Children/Complete.antt =====
-- An inventory that counts as whole has each of its chunks.
use hope.Base.{
  ℕ, zero, suc, ◌+◌, ◌-◌, ◌≤◌, ◌<◌, ◌≡◌, ◌≢◌, refl, ap, ◌∙◌, subst, inl, inr, String, Bool, true,
  Option, none, some, List, [], ◌∷◌, map, arith, ltb, ◌==◌, ==_iff, max, length, filter, and_true,
  some_eq, Bool-cases, Option-cases,
}
use hope.Protocol.Types.{ChildReportBatch}
use hope.Server.Children.{BatchRow, chunks_of, max_of, is_number, group_complete, authoritative}

abbrev pub at_index : ℕ → BatchRow → Bool
at_index i r = r.chunk_index == i

-- How many chunks have an index.
abbrev pub count_at : ℕ → List BatchRow → ℕ
count_at i rows = length (filter (at_index i) rows)

abbrev below : ℕ → List BatchRow → ℕ
below n rows = length (filter (λ r. ltb r.chunk_index n) rows)

-- No two chunks have one index.
abbrev pub AreApart : List BatchRow → Type 0
AreApart rows = (i : ℕ) → count_at i rows ≤ 1

below-suc : (n : ℕ) (rows : List BatchRow) → below (suc n) rows ≡ below n rows + count_at n rows
below-suc n [] = omega arith
below-suc n (r ∷ rows) = ground (arith, below-suc n rows)

below-zero : (rows : List BatchRow) → below 0 rows ≡ 0
below-zero [] = refl
below-zero (r ∷ rows) = ground (arith, below-zero rows)

below-le : (n : ℕ) (rows : List BatchRow) → AreApart rows → below n rows ≤ n
below-le zero rows apart = omega (arith, below-zero rows)
below-le (suc n) rows apart = omega (arith, below-suc n rows, apart n, below-le n rows apart)

below-lt :
    (n i : ℕ) (rows : List BatchRow)
    → AreApart rows
    → i < n
    → count_at i rows ≡ 0
    → below n rows < n
below-lt zero i rows apart h gap = elim h [ ]
below-lt (suc n) i rows apart h gap = elim (Bool-cases (i == n)) [
  | inl last ↦
      let same = (==_iff i n).0 last in
      omega
        (arith, below-suc n rows, below-le n rows apart, subst (λ k. count_at k rows ≡ 0) same gap)
  | inr other ↦
      omega (arith, below-suc n rows, apart n, below-lt n i rows apart (ground (arith, other)) gap)
]

abbrev indexes : List BatchRow → List ℕ
indexes rows = map (λ (r : BatchRow). r.chunk_index) rows

max_of-ne-none : (n : ℕ) (ns : List ℕ) → max_of (n ∷ ns) ≢ none
max_of-ne-none n ns e = elim (Option-cases (max_of ns)) [
  | inl nothing ↦ cc (rw nothing at e)
  | inr (k, found) ↦ cc (rw found at e)
]

below-nothing :
    (rows : List BatchRow) (n : ℕ) → max_of (indexes rows) ≡ none → below n rows ≡ length rows
below-nothing [] n e = refl
below-nothing (r ∷ rows) n e = absurd (max_of-ne-none r.chunk_index (indexes rows) e)

below-max_of :
    (rows : List BatchRow) (k m : ℕ)
    → max_of (indexes rows) ≡ some k
    → k ≤ m
    → below (suc m) rows ≡ length rows
below-max_of [] k m e h = cc
below-max_of (r ∷ rows) k m e h = elim (Option-cases (max_of (indexes rows))) [
  | inl nothing ↦
      let own : r.chunk_index ≡ k = some_eq (rw nothing at e) in
      ground (arith, own, below-nothing rows (suc m) nothing)
  | inr (j, found) ↦
      let own : max r.chunk_index j ≡ k = some_eq (rw found at e) in
      ground (arith, own, below-max_of rows j m found (omega (arith, own)))
]

is_number-eq : (n : ℕ) (o : Option ℕ) → is_number n o ≡ true → o ≡ some n
is_number-eq n none e = cc
is_number-eq n (some m) e = ap some ((==_iff m n).0 e)

-- Rows that are counted as whole, and apart, have each index below the count exactly once.
group_complete-each :
    (count : ℕ) (rows : List BatchRow)
    → 1 ≤ count
    → group_complete count rows ≡ true
    → AreApart rows
    → (i : ℕ) → i < count
    → count_at i rows ≡ 1
unfolding group_complete
group_complete-each count rows some_chunk h apart i less =
    let (four, counts) = and_true _ _ h in
    let (three, least_count) = and_true _ _ four in
    let (two, last) = and_true _ _ three in
    let (full, first) = and_true _ _ two in
    let all : length rows ≡ count = (==_iff (length rows) count).0 full in
    let within =
      below-max_of rows (count - 1) (count - 1)
        (is_number-eq (count - 1) (max_of (indexes rows)) last) (omega arith) in
    let counted : below count rows ≡ count =
      subst (λ n. below n rows ≡ length rows) (omega arith) within ∙ all in
    elim (Bool-cases (count_at i rows == 0)) [
      | inl gap ↦
          let few = below-lt count i rows apart less ((==_iff (count_at i rows) 0).0 gap) in
          absurd (omega (arith, few, counted))
      | inr found ↦ ground (arith, found, apart i)
    ]

-- A batch that makes its inventory whole, where no two chunks of the inventory in the ledger have
-- one index, finds every chunk of the inventory there exactly once, and says that it is complete.
pub authoritative-each :
    (shared : Bool) (b : ChildReportBatch) (inventory_id : String) (rows : List BatchRow) (i : ℕ)
    → b.inventory_id ≡ some inventory_id
    → 1 ≤ b.chunk_count
    → AreApart (chunks_of b inventory_id rows)
    → i < b.chunk_count
    → authoritative shared b rows ≡ true
    → (b.complete ≡ true) × (count_at i (chunks_of b inventory_id rows) ≡ 1)
unfolding authoritative
authoritative-each shared b inventory_id rows i named some_chunk apart less h =
    let (two, trusted) = and_true _ _ h in
    let (complete, chunks) = and_true _ _ two in
    let whole : group_complete b.chunk_count (chunks_of b inventory_id rows) ≡ true =
      rw named at chunks in
    (
      complete,
      group_complete-each b.chunk_count (chunks_of b inventory_id rows) some_chunk whole apart i
          less,
    )
