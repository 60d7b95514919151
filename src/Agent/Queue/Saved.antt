-- ===== src/Agent/Queue/Saved.antt =====
-- A queue that is saved and read back, and the acknowledgements that shorten one.
use mathlib.Core.List.{append_assoc, append-nil}
use native.Mathlib.Nat.{zero-add}
use hope.Base.{
  ℕ, zero, suc, ◌+◌, ◌-◌, ◌≤◌, ◌≡◌, refl, ap, sym, ◌∙◌, ◌⊎◌, inl, inr, true, false, String, some,
  List, [], ◌∷◌, ◌++◌, map, F64, arith, length, All, Bool-cases, length-append, le→leb, str_eq,
  str_eq_iff, if◌then◌else◌,
}
use hope.Agent.Queue.{
  Item, Queued, Spool, trim, fresh, load, visit_seq, read_bounded, decode, encode, remove, pop,
  max_bytes, empty,
}
use hope.Agent.Queue.Trim.{
  total, IsExact, exact, kept, retain_lem, Fits, IsLeast, fresh_at, trim_lem, pop_front-exact,
}
use hope.Agent.Queue.Store.{IsOwn, load_one_mine, appended}

abbrev pub reports_of : {A : Type 0} → List (Queued A) → List A
reports_of qs = map (λ q. q.report) qs

length-reports_of : {A : Type 0} (qs : List (Queued A)) → length (reports_of qs) ≡ length qs
length-reports_of [] = refl
length-reports_of (q ∷ qs) = ap suc (length-reports_of qs)

module _ {A : Type 0} (item : Item A) where
  visit_seq_lem :
      (seen rs : List A)
      → length seen + length rs ≤ item.max_items
      → visit_seq item seen rs ≡ some (seen ++ rs)
  unfolding visit_seq
  visit_seq_lem seen [] h = simp append-nil
  visit_seq_lem seen (r ∷ rs) h = ground (
    arith,
    visit_seq_lem (seen ++ (r ∷ [])) rs,
    append_assoc seen (r ∷ []) rs,
    length-append seen (r ∷ []),
  )

  load_own :
      (id : String) (qs : List (Queued A)) (s : Spool A)
      → All (IsOwn item id) qs
      → load item id (reports_of qs) s
        ≡ record { reports = s.reports ++ qs; content_bytes = s.content_bytes + total qs }
  unfolding load
  load_own id [] s own = ground (arith, append-nil s.reports)
  load_own id (q ∷ qs) s own =
      ap (load item id (reports_of qs))
        (load_one_mine item id q.report q.serialized_bytes s ((str_eq_iff _ _).1 own.0.0) own.0.1)
      ∙ load_own id qs (appended item q.report q.serialized_bytes s) own.1
      ∙ ground (arith, append_assoc s.reports (q ∷ []) qs)

  kept-fresh :
      (now : F64) (qs : List (Queued A))
      → All (λ q. fresh now (item.stamp q.report) ≡ true) qs
      → kept (fresh_at item now) qs ≡ qs
  kept-fresh now [] h = refl
  kept-fresh now (q ∷ qs) h = rw (h.0, kept-fresh now qs h.1)

  read_bounded_lem :
      (bytes : List ℕ) (rs : List A)
      → item.parse_array bytes ≡ some rs
      → length rs ≤ item.max_items
      → length bytes ≤ max_bytes
      → read_bounded item bytes ≡ rs
  unfolding read_bounded
  read_bounded_lem bytes rs parsed few small =
      rw (le→leb (length bytes) max_bytes small, parsed, visit_seq_lem [] rs (omega (arith, few)))

  trim_within :
      (now : F64) (s : Spool A)
      → IsExact s
      → Fits item s.reports
      → All (λ q. fresh now (item.stamp q.report) ≡ true) s.reports
      → trim item now (exact s.reports) ≡ some s
  trim_within now s e fits young =
      let (k, done, least) = trim_lem item now (exact s.reports) refl in
      let same = kept-fresh now s.reports young in
      let earlier : k ≡ 0 = none_dropped k (rw same at least) in
      done
      ∙ rw (same, earlier)
          (ap some (ap (λ n. record { reports = s.reports; content_bytes = n }) (sym e)))
    where
      none_dropped : (k : ℕ) → IsLeast item s.reports k → k ≡ 0
      none_dropped zero least = refl
      none_dropped (suc k) least = absurd (least.1 0 (omega arith) fits)

  -- A queue that is within its limits at the time `now` is read back as it was saved, if the JSON
  -- of its reports reads back as those reports and has the size of an array: two brackets, the
  -- elements, and the commas between them.
  pub decode-encode :
      (bytes : List ℕ) (id : String) (now : F64) (s : Spool A)
      → ((b : List ℕ)
          → item.to_json_array (reports_of s.reports) ≡ some b
          → item.parse_array b ≡ some (reports_of s.reports))
      → ((b : List ℕ)
          → item.to_json_array (reports_of s.reports) ≡ some b
          → length b ≡ 2 + total s.reports + (length s.reports - 1))
      → encode item s ≡ some bytes
      → IsExact s
      → Fits item s.reports
      → All (IsOwn item id) s.reports
      → All (λ q. fresh now (item.stamp q.report) ≡ true) s.reports
      → decode item bytes id now ≡ some s
  unfolding decode empty encode
  decode-encode bytes id now s reads sized saved e fits own young =
      let few = length-reports_of s.reports in
      let same : read_bounded item bytes ≡ reports_of s.reports =
        read_bounded_lem bytes (reports_of s.reports) (reads bytes saved)
          (omega (arith, few, fits.0)) (omega (arith, sized bytes saved, fits.1)) in
      rw (same, load_own id s.reports (record { reports = []; content_bytes = 0 }) own, zero-add)
        (trim_within now s e fits young)

  -- An acknowledged report leaves the queue, with every other report that bears its id; the rest
  -- keep their order, and the cached size stays right.
  pub remove_lem :
      (id : String) (s : Spool A)
      → IsExact s
      → (t : Spool A) × (remove item id s ≡ some t)
        × IsExact t
        × All (λ q. str_eq (item.key q.report) id ≡ false) t.reports
        × (t.reports ≡ kept (λ r. if str_eq (item.key r) id then false else true) s.reports)
  unfolding remove
  remove_lem id s e =
      let other = λ (r : A). if str_eq (item.key r) id then false else true in
      (exact (kept other s.reports), retain_lem other s e, refl, all_other s.reports, refl)
    where
      all_other :
          (qs : List (Queued A))
          → All
              (λ q. str_eq (item.key q.report) id ≡ false)
              (kept (λ r. if str_eq (item.key r) id then false else true) qs)
      all_other [] = tt
      all_other (q ∷ qs) = elim (Bool-cases (str_eq (item.key q.report) id)) [
        | inl same ↦ rw same (all_other qs)
        | inr differs ↦ rw differs (differs, all_other qs)
      ]

  -- A batch is acknowledged only at the head of the queue: under its own id the head goes and the
  -- rest stays in order; under any other id nothing changes.
  pub pop_lem :
      (id : String) (q : Queued A) (qs : List (Queued A))
      → ((item.key q.report ≡ id) × (pop item id (exact (q ∷ qs)) ≡ some (exact qs)))
        ⊎ ((¬ (item.key q.report ≡ id)) × (pop item id (exact (q ∷ qs)) ≡ some (exact (q ∷ qs))))
  unfolding pop
  pop_lem id q qs = elim (Bool-cases (str_eq (item.key q.report) id)) [
    | inl same ↦ inl ((str_eq_iff _ _).0 same, rw (same, pop) (pop_front-exact item q qs))
    | inr differs ↦ inr ((λ e. cc (differs, (str_eq_iff _ _).1 e)), rw (differs, pop))
  ]
