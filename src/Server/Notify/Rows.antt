-- ===== src/Server/Notify/Rows.antt =====
-- Members of lists, and the tests on alerts by their keys.
use mathlib.Core.List.{Memᴰ}
use mathlib.Core.List.Memᴰ
use hope.Base.{
  String, Bool, true, false, not, ◌||◌, List, [], ◌∷◌, ◌≡◌, ◌⊎◌, refl, sym, ap, ◌∙◌, inl, inr, any,
  filter, str_eq, str_eq_iff, Bool-cases,
}
use hope.Server.Notify.{Problem}
use hope.Server.Notify.Evaluation.{AlertRow, Current, has_key, has_row, insert_row, delete_row}

-- A function that gives the members of a list in another order.
pub record IsOrder {ℓ} {A : Type ℓ} (f : List A → List A) : Type ℓ where
  pub old : (xs : List A) (x : A) → Memᴰ x (f xs) → Memᴰ x xs
  pub new : (xs : List A) (x : A) → Memᴰ x xs → Memᴰ x (f xs)

pub mem-filter {ℓ} :
    {A : Type ℓ} (p : A → Bool) (xs : List A) {x : A}
    → Memᴰ x (filter p xs)
    → Memᴰ x xs × (p x ≡ true)
mem-filter p [] m = absurd (Memᴰ.not-nil m)
mem-filter p (y ∷ ys) {x} m = elim (Bool-cases (p y)) [
  | inl holds ↦ elim (Memᴰ.cases_cons (rw holds at m)) [
    | inl here ↦ (Memᴰ.head here, ap p here ∙ holds)
    | inr there ↦ let (mem, own) = mem-filter p ys there in (Memᴰ.tail mem, own)
  ]
  | inr fails ↦ let (mem, own) = mem-filter p ys (rw fails at m) in (Memᴰ.tail mem, own)
]

pub any-mem {ℓ} :
    {A : Type ℓ} (p : A → Bool) {x : A} {xs : List A} → Memᴰ x xs → p x ≡ true → any p xs ≡ true
any-mem p (Memᴰ.head e) own = rw (← e, own) refl
any-mem p (Memᴰ.tail {x = y} m) own = elim (Bool-cases (p y)) [
  | inl here ↦ rw here refl
  | inr other ↦ rw other (any-mem p m own)
]

pub mem-any {ℓ} :
    {A : Type ℓ} (p : A → Bool) (xs : List A) → any p xs ≡ true → (x : A) × Memᴰ x xs × (p x ≡ true)
mem-any p [] h = cc
mem-any p (y ∷ ys) h = elim (Bool-cases (p y)) [
  | inl here ↦ (y, Memᴰ.head refl, here)
  | inr other ↦ let (x, m, own) = mem-any p ys (rw other at h) in (x, Memᴰ.tail m, own)
]

pub str_eq_own : (s : String) → str_eq s s ≡ true
str_eq_own s = (str_eq_iff s s).1 refl

pub has_key-mem :
    (e : Problem × String) (current : Current) → Memᴰ e current → has_key e.0.key current ≡ true
has_key-mem e current m = any-mem (λ d. str_eq d.0.key e.0.key) m (str_eq_own e.0.key)

pub has_row-mem : (r : AlertRow) {rows : List AlertRow} → Memᴰ r rows → has_row r.key rows ≡ true
has_row-mem r m = any-mem (λ (d : AlertRow). str_eq d.key r.key) m (str_eq_own r.key)

pub insert_row-kept :
    (row : AlertRow) (rows : List AlertRow) (k : String)
    → has_row k rows ≡ true
    → has_row k (insert_row row rows) ≡ true
insert_row-kept row rows k h = elim (Bool-cases (has_row row.key rows)) [
  | inl own ↦ rw own h
  | inr free ↦
      let (r, m, same) = mem-any (λ (d : AlertRow). str_eq d.key k) rows h in
      rw free (any-mem (λ (d : AlertRow). str_eq d.key k) (Memᴰ.append_left (row ∷ []) m) same)
]

pub insert_row-own :
    (row : AlertRow) (rows : List AlertRow) → has_row row.key (insert_row row rows) ≡ true
insert_row-own row rows = elim (Bool-cases (has_row row.key rows)) [
  | inl own ↦ rw own own
  | inr free ↦ rw free (has_row-mem row (Memᴰ.append_right rows (Memᴰ.head refl)))
]

pub insert_row-from :
    (row : AlertRow) (rows : List AlertRow) {r : AlertRow}
    → Memᴰ r (insert_row row rows)
    → Memᴰ r rows ⊎ (r ≡ row)
insert_row-from row rows m = elim (Bool-cases (has_row row.key rows)) [
  | inl own ↦ inl (rw own at m)
  | inr free ↦ elim (Memᴰ.append_cases rows (rw free at m)) [
    | inl old ↦ inl old
    | inr last ↦ inr (Memᴰ.eq_of_singleton last)
  ]
]

pub delete_row-kept :
    (key k : String) (rows : List AlertRow)
    → str_eq k key ≡ false
    → has_row k (delete_row key rows) ≡ has_row k rows
delete_row-kept key k [] other = refl
delete_row-kept key k (r ∷ rows) other = elim (Bool-cases (str_eq r.key key)) [
  | inl gone ↦
      let apart : str_eq r.key k ≡ false = elim (Bool-cases (str_eq r.key k)) [
        | inr differs ↦ differs
        | inl same_key ↦
            let same = sym ((str_eq_iff r.key k).0 same_key) ∙ (str_eq_iff r.key key).0 gone in
            cc (other, (str_eq_iff k key).1 same)
      ] in
      rw (gone, apart) (delete_row-kept key k rows other)
  | inr stays ↦ rw stays (ap (λ b. str_eq r.key k || b) (delete_row-kept key k rows other))
]

pub delete_row-false :
    (key k : String) (rows : List AlertRow)
    → has_row k rows ≡ false
    → has_row k (delete_row key rows) ≡ false
delete_row-false key k rows free = elim (Bool-cases (has_row k (delete_row key rows))) [
  | inr gone ↦ gone
  | inl found ↦
      let (r, m, same) = mem-any (λ (d : AlertRow). str_eq d.key k) (delete_row key rows) found in
      let (old, differs) = mem-filter (λ (d : AlertRow). not (str_eq d.key key)) rows m in
      cc (any-mem (λ (d : AlertRow). str_eq d.key k) old same, free)
]
