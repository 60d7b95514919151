-- ===== src/Agent/Queue/Store.antt =====
-- The operations on a queue above `trim`: a push keeps the newest report, an acknowledgement
-- removes what it names, and a saved queue is read back as it was.
use hope.Base.{
  ℕ, zero, suc, ◌+◌, ◌≤◌, ◌≡◌, refl, ap, ◌∙◌, inl, inr, Bool, true, String, some, List, [], ◌∷◌,
  ◌++◌, F64, arith, leb, length, drop, All, Bool-cases, Option-cases, str_eq, str_eq_iff,
}
use hope.Agent.Queue.{
  Item, Queued, Spool, trim, fresh, queued, push, load, load_one, read_bounded, decode, latest,
  latest_of, max_bytes, empty, ◌>>=◌,
}
use hope.Agent.Queue.Trim.{total, IsExact, exact, kept, Fits, IsLeast, fresh_at, trim_lem}

module _ {A : Type 0} where
  total-append : (xs ys : List (Queued A)) → total (xs ++ ys) ≡ total xs + total ys
  total-append [] ys = omega arith
  total-append (x ∷ xs) ys = omega (arith, total-append xs ys)

  kept-append_stays :
      (keep : A → Bool) (xs : List (Queued A)) (q : Queued A)
      → keep q.report ≡ true
      → kept keep (xs ++ (q ∷ [])) ≡ kept keep xs ++ (q ∷ [])
  kept-append_stays keep [] q h = rw h
  kept-append_stays keep (x ∷ xs) q h = ground (arith, kept-append_stays keep xs q h)

  drop-append :
      (k : ℕ) (xs ys : List (Queued A)) → k ≤ length xs → drop k (xs ++ ys) ≡ drop k xs ++ ys
  drop-append zero xs ys h = refl
  drop-append (suc k) [] ys h = absurd (omega arith)
  drop-append (suc k) (x ∷ xs) ys h = drop-append k xs ys (omega arith)

  drop_whole : (xs : List (Queued A)) → drop (length xs) xs ≡ []
  drop_whole [] = refl
  drop_whole (x ∷ xs) = drop_whole xs

  latest_of-append :
      (xs : List (Queued A)) (q : Queued A) → latest_of (xs ++ (q ∷ [])) ≡ some q.report
  unfolding latest_of
  latest_of-append [] q = refl
  latest_of-append (x ∷ []) q = refl
  latest_of-append (x ∷ y ∷ xs) q = latest_of-append (y ∷ xs) q

module _ {A : Type 0} (item : Item A) where
  least_bound :
      (xs : List (Queued A)) (q : Queued A) (k : ℕ)
      → Fits item (q ∷ [])
      → IsLeast item (xs ++ (q ∷ [])) k
      → k ≤ length xs
  least_bound xs q k alone least = elim (Bool-cases (leb k (length xs))) [
    | inl within ↦ ground arith
    | inr past ↦ absurd (least.1 (length xs) (ground arith) tail_fits)
  ]
    where
      tail_fits : Fits item (drop (length xs) (xs ++ (q ∷ [])))
      tail_fits = rw (drop-append (length xs) xs (q ∷ []) (omega arith), drop_whole xs) alone

  abbrev pub queued_as : A → ℕ → Queued A
  queued_as r size = record { report = r; serialized_bytes = size }

  abbrev pub appended : A → ℕ → Spool A → Spool A
  appended r size s = record {
    reports = s.reports ++ (queued_as r size ∷ []);
    content_bytes = s.content_bytes + size;
  }

  appended-IsExact : (r : A) (size : ℕ) (s : Spool A) → IsExact s → IsExact (appended r size s)
  appended-IsExact r size s e = omega (arith, e, total-append s.reports (queued_as r size ∷ []))

  push-appended :
      (r : A) (size : ℕ) (now : F64) (s : Spool A)
      → item.json_len r ≡ some size
      → push item r now s ≡ (trim item now (appended r size s) >>= λ t. some (some t))
  unfolding push queued
  push-appended r size now s json = rw (json, push, queued)

  -- A fresh report that fits the budgets by itself is the newest of the queue after its push:
  -- what makes room for it are only older reports. The push neither fails nor panics.
  pub push_newest :
      (r : A) (size : ℕ) (now : F64) (s : Spool A)
      → IsExact s
      → item.json_len r ≡ some size
      → fresh now (item.stamp r) ≡ true
      → 1 ≤ item.max_items
      → 2 + size ≤ max_bytes
      → (t : Spool A) × (push item r now s ≡ some (some t))
        × IsExact t
        × Fits item t.reports
        × (latest t ≡ some r)
  unfolding latest
  push_newest r size now s e json young room small =
      let (k, done, least) = trim_lem item now (appended r size s) (appended-IsExact r size s e) in
      let stays = kept-append_stays (fresh_at item now) s.reports (queued_as r size) young in
      let older = kept (fresh_at item now) s.reports in
      let bound : k ≤ length older =
        least_bound older (queued_as r size) k (omega (arith, room, small)) (rw stays at least) in
      (
        exact (drop k (kept (fresh_at item now) (appended r size s).reports)),
        push-appended r size now s json ∙ ap (λ o. o >>= λ t. some (some t)) done,
        refl,
        least.0,
        rw (stays, drop-append k older (queued_as r size ∷ []) bound)
            (latest_of-append (drop k older) (queued_as r size)),
      )

  -- What a restart relies on: a report of this identity, and the size that is cached for it.
  abbrev pub IsOwn : String → Queued A → Type 0
  IsOwn id q = (item.identity q.report ≡ id) × (item.json_len q.report ≡ some q.serialized_bytes)

  All-append :
      (P : Queued A → Type 0) (xs : List (Queued A)) (q : Queued A)
      → All P xs
      → P q
      → All P (xs ++ (q ∷ []))
  All-append P [] q h p = (p, tt)
  All-append P (x ∷ xs) q h p = (h.0, All-append P xs q h.1 p)

  All-drop : (P : Queued A → Type 0) (k : ℕ) (xs : List (Queued A)) → All P xs → All P (drop k xs)
  All-drop P zero xs h = h
  All-drop P (suc k) [] h = h
  All-drop P (suc k) (x ∷ xs) h = All-drop P k xs h.1

  All-kept :
      (P : Queued A → Type 0) (keep : A → Bool) (xs : List (Queued A))
      → All P xs
      → All P (kept keep xs)
  All-kept P keep [] h = h
  All-kept P keep (x ∷ xs) h = elim (Bool-cases (keep x.report)) [
    | inl stays ↦ rw stays (h.0, All-kept P keep xs h.1)
    | inr goes ↦ rw goes (All-kept P keep xs h.1)
  ]

  All-fresh :
      (now : F64) (xs : List (Queued A))
      → All (λ q. fresh now (item.stamp q.report) ≡ true) (kept (fresh_at item now) xs)
  All-fresh now [] = tt
  All-fresh now (x ∷ xs) = elim (Bool-cases (fresh now (item.stamp x.report))) [
    | inl stays ↦ rw stays (stays, All-fresh now xs)
    | inr goes ↦ rw goes (All-fresh now xs)
  ]

  pub load_one_mine :
      (id : String) (r : A) (size : ℕ) (s : Spool A)
      → str_eq (item.identity r) id ≡ true
      → item.json_len r ≡ some size
      → load_one item id r s ≡ appended r size s
  unfolding load_one
  load_one_mine id r size s mine json = rw (mine, json, load_one)

  load_one_lem :
      (id : String) (r : A) (s : Spool A)
      → IsExact s
      → All (IsOwn id) s.reports
      → IsExact (load_one item id r s) × All (IsOwn id) (load_one item id r s).reports
  unfolding load_one
  load_one_lem id r s e own = elim (Option-cases (item.json_len r)) [
    | inl fails ↦ ground (arith, fails, str_eq_iff (item.identity r) id)
    | inr (size, json) ↦ elim (Bool-cases (str_eq (item.identity r) id)) [
      | inl mine ↦ rw (load_one_mine id r size s mine json) (
        appended-IsExact r size s e,
        All-append (IsOwn id) s.reports (queued_as r size) own ((str_eq_iff _ _).0 mine, json),
      )
      | inr other ↦ rw (other, load_one) (e, own)
    ]
  ]

  load_lem :
      (id : String) (rs : List A) (s : Spool A)
      → IsExact s
      → All (IsOwn id) s.reports
      → IsExact (load item id rs s) × All (IsOwn id) (load item id rs s).reports
  unfolding load
  load_lem id [] s e own = (e, own)
  load_lem id (r ∷ rs) s e own =
      let (e', own') = load_one_lem id r s e own in load_lem id rs (load_one item id r s) e' own'

  -- Whatever the file holds, reading it back gives a queue, with no underflow and no endless
  -- loop. All its reports have the given identity and lie in the age window, both budgets hold,
  -- and every cached size is right.
  pub decode_lem :
      (bytes : List ℕ) (id : String) (now : F64)
      → (t : Spool A) × (decode item bytes id now ≡ some t)
        × IsExact t
        × Fits item t.reports
        × All (IsOwn id) t.reports
        × All (λ q. fresh now (item.stamp q.report) ≡ true) t.reports
  unfolding decode empty
  decode_lem bytes id now =
      let rs = read_bounded item bytes in
      let (e, own) = load_lem id rs (record { reports = []; content_bytes = 0 }) refl tt in
      let loaded = load item id rs (record { reports = []; content_bytes = 0 }) in
      let (k, done, least) = trim_lem item now loaded e in
      let left = kept (fresh_at item now) loaded.reports in
      (
        exact (drop k left),
        done,
        refl,
        least.0,
        All-drop (IsOwn id) k left (All-kept (IsOwn id) (fresh_at item now) loaded.reports own),
        All-drop (λ q. fresh now (item.stamp q.report) ≡ true) k left
            (All-fresh now loaded.reports),
      )
