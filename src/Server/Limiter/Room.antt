-- ===== src/Server/Limiter/Room.antt =====
-- The limiter's table stays bounded, and a new key always finds room.
use hope.Base.{
  ◌≤◌, ◌<◌, ◌≡◌, refl, sym, ap, subst, ◌∙◌, inl, inr, String, Bool, true, not, ◌||◌, none, some, [],
  ◌∷◌, arith, length, filter, any, leb, F64, str_eq, str_eq_iff, Bool-cases, Option-cases,
  length-filter-le, if◌then◌else◌,
}
use hope.Server.Limiter.{
  Limiter, Entry, Keys, get, remove, least, total_lt, oldest, live, evict, make_room, roomy,
  counted, hit, max_keys,
}
use hope.Server.Limiter.Table.{
  Keyed, get-filter-none, Keyed-filter, Keyed-insert, grown, length-insert, get-insert_same,
}

-- The table of a limiter: bounded, and no key twice.
pub record IsTable (m : Keys) : Type 0 where
  pub keyed : Keyed m
  pub bounded : length m ≤ max_keys

abbrev names : String → String × Entry → Bool
names key p = str_eq p.0 key

or_right : (a b : Bool) → b ≡ true → (a || b) ≡ true
or_right a b h = ground arith

skip : (a b c : Bool) → (a || c) ≡ true → (a || (b || c)) ≡ true
skip a b c h = ground arith

least-in : (best : String × Entry) (m : Keys) → any (names (least best m).0) (best ∷ m) ≡ true
unfolding least
least-in best [] = rw ((str_eq_iff best.0 best.0).1 refl) refl
least-in best (p ∷ m) = elim (Bool-cases (total_lt p.1.last best.1.last)) [
  | inl less ↦
      subst (λ x. any (names x.0) (best ∷ p ∷ m) ≡ true)
        (sym (ap (λ c. least (if c then p else best) m) less)) (or_right _ _ (least-in p m))
  | inr other ↦
      subst (λ x. any (names x.0) (best ∷ p ∷ m) ≡ true)
        (sym (ap (λ c. least (if c then p else best) m) other))
        (skip (names (least best m).0 best) (names (least best m).0 p)
          (any (names (least best m).0) m) (least-in best m))
]

length-remove :
    (key : String) (m : Keys) → any (names key) m ≡ true → length (remove key m) < length m
unfolding remove
length-remove key [] h = cc
length-remove key ((k, e) ∷ m) h =
    let short = length-filter-le (λ p. not (str_eq p.0 key)) m in
    ground (arith, length-remove key m)

length-evict : (m : Keys) → 1 ≤ length m → length (evict m) < length m
unfolding evict oldest
length-evict [] h = absurd (omega arith)
length-evict (p ∷ m) h = length-remove (least p m).0 (p ∷ m) (least-in p m)

get-evict-none : (key : String) (m : Keys) → get key m ≡ none → get key (evict m) ≡ none
unfolding evict oldest remove
get-evict-none key [] h = h
get-evict-none key (p ∷ m) h = get-filter-none (λ x. not (str_eq x.0 (least p m).0)) key (p ∷ m) h

Keyed-evict : (m : Keys) → Keyed m → Keyed (evict m)
unfolding evict oldest remove
Keyed-evict [] u = u
Keyed-evict (p ∷ m) u = Keyed-filter (λ x. not (str_eq x.0 (least p m).0)) (p ∷ m) u

module _ (l : Limiter) (key : String) (at : F64) where
  length-make_room : (m : Keys) → length m ≤ max_keys → length (make_room l at m) < max_keys
  unfolding make_room
  length-make_room m h =
      let fewer = length-filter-le (live l at) m in
      let evicted = length-evict (filter (live l at) m) in ground (arith, evicted)

  get-make_room : (m : Keys) → get key m ≡ none → get key (make_room l at m) ≡ none
  unfolding make_room
  get-make_room m h =
      let kept = get-filter-none (live l at) key m h in
      ground (arith, get-evict-none key (filter (live l at) m))

  Keyed-make_room : (m : Keys) → Keyed m → Keyed (make_room l at m)
  unfolding make_room
  Keyed-make_room m u = elim (Bool-cases (leb max_keys (length (filter (live l at) m)))) [
    | inl full ↦ rw full (Keyed-evict _ (Keyed-filter _ m u))
    | inr free ↦ rw free (Keyed-filter _ m u)
  ]

  length-roomy :
      (m : Keys) → length m ≤ max_keys → grown (get key m) (length (roomy l key at m)) ≤ max_keys
  unfolding roomy
  length-roomy m h = elim (Option-cases (get key m)) [
    | inl missing ↦ rw missing (ground (arith, length-make_room m h))
    | inr (e, found) ↦ rw found h
  ]

  -- A lookup of the key finds what it found before room was made: room is made only for a new key.
  pub get-roomy : (m : Keys) → get key (roomy l key at m) ≡ get key m
  unfolding roomy make_room evict oldest remove
  get-roomy m = elim (Option-cases (get key m)) [
    | inl missing ↦ rw missing (elim (Bool-cases (leb max_keys (length m))) [
      | inl full ↦ rw full (get-make_room m missing)
      | inr free ↦ rw free missing
    ])
    | inr (e, found) ↦ rw found found
  ]

  pub Keyed-roomy : (m : Keys) → Keyed m → Keyed (roomy l key at m)
  unfolding roomy
  Keyed-roomy m u = elim (Option-cases (get key m)) [
    | inl missing ↦ rw missing (elim (Bool-cases (leb max_keys (length m))) [
      | inl full ↦ rw full (Keyed-make_room m u)
      | inr free ↦ rw free u
    ])
    | inr (e, found) ↦ rw found u
  ]

  -- A failure keeps the table within 4096 keys, each key once, and records itself: the key's entry
  -- is then the one it had, or a new one, with one more failure counted.
  pub hit_lem :
      (m : Keys)
      → IsTable m
      → IsTable (hit l key at m) × (get key (hit l key at m) ≡ some (counted l at (get key m)))
  unfolding hit
  hit_lem m t =
      let room = roomy l key at m in
      (
        record {
          keyed = Keyed-insert key _ room (Keyed-roomy m t.keyed);
          bounded =
              subst (λ n. n ≤ max_keys)
                (sym (length-insert key _ room ∙ ap (λ o. grown o (length room)) (get-roomy m)))
                (length-roomy m t.bounded);
        },
        get-insert_same key _ room ∙ ap (λ o. some (counted l at o)) (get-roomy m),
      )
