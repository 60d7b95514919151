-- ===== src/Server/Limiter/Table.antt =====
-- The limiter's table: what insertion, removal and filters do to lookups, and its invariant.
use hope.Base.{
  ℕ, suc, ◌≡◌, refl, sym, ap, subst, ◌∙◌, inl, inr, String, Bool, true, false, Option, none, some,
  [], ◌∷◌, arith, length, filter, str_eq, str_eq_iff, str_eq_sym, Bool-cases, Option-cases, some_eq,
}
use hope.Server.Limiter.{Entry, Keys, get, remove, insert}

-- No key stands in the table twice.
unfoldable pub Keyed : Keys → Type 0
Keyed [] = Unit
Keyed ((k, e) ∷ m) = (get k m ≡ none) × Keyed m

pub get-insert_same : (key : String) (e : Entry) (m : Keys) → get key (insert key e m) ≡ some e
unfolding get insert
get-insert_same key e [] = rw ((str_eq_iff key key).1 refl) refl
get-insert_same key e ((k, d) ∷ m) = elim (Bool-cases (str_eq k key)) [
  | inl same ↦ ground arith
  | inr other ↦ ground (arith, get-insert_same key e m)
]

pub get-insert_other :
    (k key : String) (e : Entry) (m : Keys)
    → str_eq key k ≡ false
    → get k (insert key e m) ≡ get k m
unfolding get insert
get-insert_other k key e [] h = ground arith
get-insert_other k key e ((l, d) ∷ m) h = elim (Bool-cases (str_eq l key)) [
  | inl same ↦
      let diff = subst (λ x. str_eq x k ≡ false) (sym ((str_eq_iff l key).0 same)) h in ground arith
  | inr other ↦ ground (arith, get-insert_other k key e m h)
]

pub get-filter-none :
    (p : String × Entry → Bool) (k : String) (m : Keys) → get k m ≡ none → get k (filter p m) ≡ none
unfolding get
get-filter-none p k [] h = h
get-filter-none p k ((l, d) ∷ m) h = ground (arith, get-filter-none p k m)

head_lem :
    (l k : String) (d e : Entry) (m : Keys)
    → str_eq l k ≡ true
    → get k ((l, d) ∷ m) ≡ some e
    → Path (String × Entry) (l, d) (k, e)
unfolding get
head_lem l k d e m same h =
    let equal = some_eq (rw same at h) in λ i. ((str_eq_iff l k).0 same i, equal i)

-- A filter keeps an entry that passes it, and a lookup that finds nothing.
pub get-filter_kept :
    (p : String × Entry → Bool) (k : String) (m : Keys) (e : Entry)
    → get k m ≡ some e
    → p (k, e) ≡ true
    → get k (filter p m) ≡ some e
unfolding get
get-filter_kept p k [] e h q = cc
get-filter_kept p k ((l, d) ∷ m) e h q = elim (Bool-cases (str_eq l k)) [
  | inl same ↦ let q' = subst (λ x. p x ≡ true) (sym (head_lem l k d e m same h)) q in ground arith
  | inr other ↦ ground (arith, get-filter_kept p k m e (rw other at h) q)
]

pub get-filter_dropped :
    (p : String × Entry → Bool) (k : String) (m : Keys) (e : Entry)
    → Keyed m
    → get k m ≡ some e
    → p (k, e) ≡ false
    → get k (filter p m) ≡ none
unfolding get Keyed
get-filter_dropped p k [] e u h q = cc
get-filter_dropped p k ((l, d) ∷ m) e u h q = elim (Bool-cases (str_eq l k)) [
  | inl same ↦
      let q' = subst (λ x. p x ≡ false) (sym (head_lem l k d e m same h)) q in
      let gone = subst (λ x. get x m ≡ none) ((str_eq_iff l k).0 same) u.0 in
      ground (arith, get-filter-none p k m gone)
  | inr other ↦ ground (arith, get-filter_dropped p k m e u.1 (rw other at h) q)
]

pub Keyed-filter : (p : String × Entry → Bool) (m : Keys) → Keyed m → Keyed (filter p m)
unfolding Keyed
Keyed-filter p [] u = u
Keyed-filter p ((k, e) ∷ m) u = elim (Bool-cases (p (k, e))) [
  | inl keep ↦ rw keep (get-filter-none p k m u.0, Keyed-filter p m u.1)
  | inr drop ↦ rw drop (Keyed-filter p m u.1)
]

pub Keyed-insert : (key : String) (e : Entry) (m : Keys) → Keyed m → Keyed (insert key e m)
unfolding Keyed insert get
Keyed-insert key e [] u = (refl, tt)
Keyed-insert key e ((k, d) ∷ m) u = elim (Bool-cases (str_eq k key)) [
  | inl same ↦ rw same u
  | inr other ↦
      rw other
        (get-insert_other k key e m (str_eq_sym key k ∙ other) ∙ u.0, Keyed-insert key e m u.1)
]

abbrev pub grown : Option Entry → ℕ → ℕ
grown none n = suc n
grown (some e) n = n

-- An insertion adds an entry only where there was none.
pub length-insert :
    (key : String) (e : Entry) (m : Keys) → length (insert key e m) ≡ grown (get key m) (length m)
unfolding insert get
length-insert key e [] = refl
length-insert key e ((k, d) ∷ m) = elim (Bool-cases (str_eq k key)) [
  | inl same ↦ rw same refl
  | inr other ↦ rw other (elim (Option-cases (get key m)) [
    | inl missing ↦
        rw missing (ap suc (length-insert key e m ∙ ap (λ o. grown o (length m)) missing))
    | inr (a, found) ↦
        rw found (ap suc (length-insert key e m ∙ ap (λ o. grown o (length m)) found))
  ])
]

pub get-remove_same : (key : String) (m : Keys) → get key (remove key m) ≡ none
unfolding get remove
get-remove_same key [] = refl
get-remove_same key ((k, d) ∷ m) = ground (arith, get-remove_same key m)
