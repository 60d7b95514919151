-- ===== src/Server/Limiter.antt =====
-- `Limiter` of hope-server/src/limits.rs: failures counted per client key. The hash map is an
-- association list; the order in which the map is iterated is the order of the list.
pub mod Table
pub mod Room
pub mod Budget
pub mod Release
use hope.Base.{
  ℕ, suc, ◌+◌, ◌-◌, ◌*◌, ◌/◌, ◌%◌, ◌^◌, min, max, String, Bool, true, false, not, ◌&&◌, ◌||◌,
  Option, none, some, List, [], ◌∷◌, F64, finite, infinity, neg_infinity, nan, pos, negsuc, unit,
  f64_lt, f64_le, f64_add, f64_sub, ltb, leb, length, filter, str_eq, u64_max, ltb_ℤ, or_default,
  if◌then◌else◌,
}

-- MAX_KEYS
abbrev pub max_keys : ℕ
max_keys = 4096

pub record Entry : Type 0 where
  pub count : ℕ
  pub start : F64
  pub last : F64

abbrev pub Keys : Type 0
Keys = List (String × Entry)

-- The parameters of a limiter, apart from its table.
pub record Limiter : Type 0 where
  pub window : F64
  pub per_key : ℕ

-- HashMap::get, remove, and the assignment to an entry, which is inserted where it is missing.
unfoldable pub get : String → Keys → Option Entry
get key [] = none
get key ((k, e) ∷ m) = let rest = get key m in if str_eq k key then some e else rest

unfoldable pub remove : String → Keys → Keys
remove key m = filter (λ p. not (str_eq p.0 key)) m

unfoldable pub insert : String → Entry → Keys → Keys
insert key e [] = (key, e) ∷ []
insert key e ((k, d) ∷ m) =
    let rest = insert key e m in if str_eq k key then (k, e) ∷ m else (k, d) ∷ rest

-- HashMap::contains_key, from what `get` finds.
abbrev pub is_found : Option Entry → Bool
is_found none = false
is_found (some e) = true

-- f64::total_cmp gives `Less`.
unfoldable pub total_lt : F64 → F64 → Bool
total_lt (finite a) (finite b) = ltb_ℤ a b
total_lt (finite a) infinity = true
total_lt (finite a) nan = true
total_lt neg_infinity neg_infinity = false
total_lt neg_infinity _ = true
total_lt infinity nan = true
total_lt _ _ = false

-- `min_by`: the first of the least.
unfoldable pub least : String × Entry → Keys → String × Entry
unfolding total_lt
least best [] = best
least best (p ∷ m) = least (if total_lt p.1.last best.1.last then p else best) m

unfoldable pub oldest : Keys → Option String
unfolding least
oldest [] = none
oldest (p ∷ m) = some (least p m).0

-- `.ceil().max(1.0) as u64`.
unfoldable pub wait_seconds : F64 → ℕ
wait_seconds (finite (pos n)) = min (max ((n + (unit - 1)) / unit) 1) u64_max
wait_seconds (finite (negsuc n)) = 1
wait_seconds infinity = u64_max
wait_seconds _ = 1

unfoldable pub evict : Keys → Keys
unfolding oldest remove
evict m = elim (oldest m) [ none ↦ m | some key ↦ remove key m ]

abbrev pub fresh : F64 → Entry
fresh at = record { count = 0; start = at; last = at }

module _ (l : Limiter) where
  -- The wait in seconds, or none where the key may try.
  unfoldable pub refusal : F64 → Entry → Option ℕ
  unfolding wait_seconds
  refusal at e =
      if f64_lt (f64_sub at e.start) l.window && leb l.per_key e.count
      then some (wait_seconds (f64_sub (f64_add e.start l.window) at))
      else none

  -- The match of `check`.
  unfoldable pub judge : F64 → Option Entry → Option ℕ
  unfolding refusal
  judge at none = none
  judge at (some e) = refusal at e

  unfoldable pub check : String → F64 → Keys → Option ℕ
  unfolding get judge
  check key at m = judge at (get key m)

  unfoldable pub live : F64 → String × Entry → Bool
  live at p = f64_lt (f64_sub at p.1.start) l.window

  unfoldable pub make_room : F64 → Keys → Keys
  unfolding live evict
  make_room at m =
      let kept = filter (live at) m in if leb max_keys (length kept) then evict kept else kept

  -- The entry after one more failure. `count` is a u32, which wraps in a release build.
  unfoldable pub counted : F64 → Option Entry → Entry
  counted at found =
      let e = or_default (fresh at) found in
      let started = if f64_le l.window (f64_sub at e.start) then fresh at else e in
      record started { count = suc started.count % 2 ^ 32; last = at }

  unfoldable pub roomy : String → F64 → Keys → Keys
  unfolding get make_room
  roomy key at m =
      if not (is_found (get key m)) && leb max_keys (length m) then make_room at m else m

  unfoldable pub hit : String → F64 → Keys → Keys
  unfolding get insert counted roomy
  hit key at m = let room = roomy key at m in insert key (counted at (get key room)) room

  abbrev pub clear : String → Keys → Keys
  clear key m = remove key m
