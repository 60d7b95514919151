-- ===== src/Agent/Queue.antt =====
-- The bounded report queue that hope-agent/src/delivery.rs and hope-agent/src/child_delivery.rs
-- both write out, once for each kind of report. `none` stands for an arithmetic underflow of
-- `content_bytes` (a panic) or for a loop that has not ended within its fuel.
pub mod Trim
pub mod Store
pub mod Saved
use hope.Base.{
  ℕ, zero, suc, ◌+◌, ◌-◌, ◌*◌, String, Bool, true, false, ◌&&◌, ◌||◌, Option, none, some, List, [],
  ◌∷◌, ◌++◌, map, F64, float, is_finite, f64_lt, f64_le, f64_add, f64_sub, str_eq, ltb, leb, ◌==◌,
  length, if◌then◌else◌,
}

-- What a queue needs to know of its reports. The three functions of JSON stand for serde_json.
pub record Item (A : Type 0) : Type 0 where
  pub identity : A → String
  pub key : A → String
  pub stamp : A → F64
  pub max_items : ℕ
  pub json_len : A → Option ℕ
  pub to_json_array : List A → Option (List ℕ)
  pub parse_array : List ℕ → Option (List A)

-- MAX_BYTES
abbrev pub max_bytes : ℕ
max_bytes = 4 * 1024 * 1024

-- MAX_AGE_SECONDS
abbrev pub max_age_seconds : F64
max_age_seconds = float 3600

pub record Queued (A : Type 0) : Type 0 where
  pub report : A
  pub serialized_bytes : ℕ

pub record Spool (A : Type 0) : Type 0 where
  pub reports : List (Queued A)
  pub content_bytes : ℕ

infixl 5 ◌>>=◌
abbrev pub ◌>>=◌ {ℓ κ} : {A : Type ℓ} {B : Type κ} → Option A → (A → Option B) → Option B
none >>= f = none
some a >>= f = f a

-- `a -= b` on usize.
unfoldable pub sub_checked : ℕ → ℕ → Option ℕ
sub_checked a b = if leb b a then some (a - b) else none

unfoldable pub empty : {A : Type 0} → Spool A
empty = record { reports = []; content_bytes = 0 }

module _ {A : Type 0} where
  pub retain_from : (A → Bool) → List (Queued A) → ℕ → Option (Spool A)
  unfolding sub_checked
  retain_from keep [] bytes = some (record { reports = []; content_bytes = bytes })
  retain_from keep (q ∷ qs) bytes = elim (keep q.report) [
    | true ↦ do s ← retain_from keep qs bytes; some (record s { reports = q ∷ s.reports })
    | false ↦ do rest ← sub_checked bytes q.serialized_bytes; retain_from keep qs rest
  ]

  pub retain : (A → Bool) → Spool A → Option (Spool A)
  unfolding retain_from
  retain keep s = retain_from keep s.reports s.content_bytes

  -- Two brackets and one comma between each pair of reports.
  unfoldable pub encoded_len : Spool A → ℕ
  encoded_len s = 2 + s.content_bytes + (length s.reports - 1)

  pub pop_front : Spool A → Option (Spool A)
  unfolding sub_checked
  pop_front s = elim s.reports [
    | [] ↦ some s
    | q ∷ qs ↦ do
      rest ← sub_checked s.content_bytes q.serialized_bytes
      some (record { reports = qs; content_bytes = rest })
  ]

  pub latest_of : List (Queued A) → Option A
  latest_of [] = none
  latest_of (q ∷ []) = some q.report
  latest_of (q ∷ p ∷ qs) = latest_of (p ∷ qs)

  pub latest : Spool A → Option A
  unfolding latest_of
  latest s = latest_of s.reports

  pub front : Spool A → Option A
  front s = elim s.reports [ [] ↦ none | q ∷ qs ↦ some q.report ]

-- The age window of `trim`: not an hour old, and at most five minutes ahead of the clock.
unfoldable pub fresh : F64 → F64 → Bool
fresh now at =
    is_finite at && f64_lt (f64_sub now max_age_seconds) at && f64_le at (f64_add now (float 300))

module _ {A : Type 0} (item : Item A) where
  pub over_budget : Spool A → Bool
  unfolding encoded_len
  over_budget s = ltb item.max_items (length s.reports) || ltb max_bytes (encoded_len s)

  pub evict : ℕ → Spool A → Option (Spool A)
  evict zero s = none
  evict (suc fuel) s = elim (over_budget s) [
    | true ↦ do t ← pop_front s; evict fuel t
    | false ↦ some s
  ]

  pub trim : F64 → Spool A → Option (Spool A)
  trim now s = do t ← retain (λ r. fresh now (item.stamp r)) s; evict (suc (length t.reports)) t

  pub queued : A → Option (Queued A)
  queued r = do size ← item.json_len r; some (record { report = r; serialized_bytes = size })

  -- The outer `none` is a panic, the inner one an error: the report could not be serialized.
  pub push : A → F64 → Spool A → Option (Option (Spool A))
  unfolding queued
  push r now s = elim (queued r) [
    | none ↦ some none
    | some q ↦ do
      t ← trim now (record {
        reports = s.reports ++ (q ∷ []);
        content_bytes = s.content_bytes + q.serialized_bytes;
      })
      some (some t)
  ]

  -- The visitor of the bounded list: an element past the limit is an error.
  pub visit_seq : List A → List A → Option (List A)
  visit_seq seen [] = some seen
  visit_seq seen (r ∷ rs) =
      if length seen == item.max_items then none else visit_seq (seen ++ (r ∷ [])) rs

  -- One turn of the loop over the reports that were read.
  pub load_one : String → A → Spool A → Spool A
  unfolding queued
  load_one id r s =
      if str_eq (item.identity r) id
      then elim (queued r) [
        | none ↦ s
        | some q ↦ record {
          reports = s.reports ++ (q ∷ []);
          content_bytes = s.content_bytes + q.serialized_bytes;
        }
      ]
      else s

  pub load : String → List A → Spool A → Spool A
  load id [] s = s
  load id (r ∷ rs) s = load id rs (load_one id r s)

  pub read_bounded : List ℕ → List A
  unfolding visit_seq
  read_bounded bytes =
      if leb (length bytes) max_bytes
      then elim (item.parse_array bytes >>= visit_seq []) [ none ↦ [] | some rs ↦ rs ]
      else []

  pub decode : List ℕ → String → F64 → Option (Spool A)
  decode bytes id now = trim now (load id (read_bounded bytes) empty)

  unfoldable pub encode : Spool A → Option (List ℕ)
  encode s = item.to_json_array (map (λ q. q.report) s.reports)

  pub remove : String → Spool A → Option (Spool A)
  unfolding retain
  remove id s = retain (λ r. if str_eq (item.key r) id then false else true) s

  -- The child queue's acknowledgement: only the oldest batch, and only under its own id.
  pub pop : String → Spool A → Option (Spool A)
  unfolding pop_front
  pop id s = elim s.reports [
    | [] ↦ some s
    | q ∷ qs ↦ if str_eq (item.key q.report) id then pop_front s else some s
  ]
