-- ===== src/Agent/Children/Reported.antt =====
-- What `ChildSchedule::batch` of hope-agent/src/reporting.rs makes of a snapshot.
use hope.Base.{
  ℕ, suc, ◌+◌, ◌-◌, ◌^◌, ◌≤◌, ◌<◌, ◌≡◌, refl, sym, ap, ◌∙◌, inl, inr, String, Bool, false, ◌&&◌,
  ◌||◌, some, List, [], ◌∷◌, map, arith, F64, length, some_eq, if_none, or_false, subst, str_eq_iff,
  Bool-cases, Option-cases, if◌then◌else◌,
}
use hope.Protocol.Types.{ChildDeviceReport, ChildReportBatch}
use hope.Agent.Children.{
  ChildSnapshot, ChildCounters, ChildSchedule, Sizes, Names, checked_add, source_key, counters_of,
  chunks, first_batch, sizing, group_id, inventory_due, next_counters, too_soon, replace,
  batches_of, batch,
}
use hope.Agent.Children.Chunks.{
  concat, checked_add_eq, chunks-Splits, AreParts, number_parts-Numbers,
}

length-map {ℓ κ} :
    {A : Type ℓ} {B : Type κ} (f : A → B) (xs : List A) → length (map f xs) ≡ length xs
length-map f [] = refl
length-map f (x ∷ xs) = ap suc (length-map f xs)

module _ (sizes : Sizes) (snapshot : ChildSnapshot) (agent_id : String) (at : F64)
    (names : Names) where
  -- The batches of the snapshot, with the counters before and after them.
  pub record IsReport (old next : ChildCounters) (parts : List ChildReportBatch) : Type 0 where
    pub template : ChildReportBatch
    pub numbered : AreParts sizes template (length parts) 0 parts
    pub devices : concat (map (λ (p : ChildReportBatch). p.devices) parts) ≡ snapshot.devices
    pub some_parts : 1 ≤ length parts
    pub first : template.sequence ≡ old.sequence + 1
    pub last : next.sequence ≡ old.sequence + length parts
    pub agent : template.agent_id ≡ agent_id
    pub source : template.source ≡ snapshot.source
    pub scope : template.source_scope ≡ snapshot.source_scope
    pub generation : template.inventory_generation ≡ next.generation
    pub due :
        next.generation ≡ (if inventory_due at old then old.generation + 1 else old.generation)
    pub complete : template.complete ≡ (inventory_due at old && snapshot.inventory_complete)

  length_parts :
      (parts : List ChildReportBatch) {groups : List (List ChildDeviceReport)}
      → map (λ (p : ChildReportBatch). p.devices) parts ≡ groups
      → length parts ≡ length groups
  length_parts parts e = sym (length-map (λ (p : ChildReportBatch). p.devices) parts) ∙ ap length e

  batches_of-Numbers :
      (due : Bool) (first : ℕ) (next : ChildCounters) {parts : List ChildReportBatch}
      → suc (length snapshot.devices) < 2 ^ 32
      → batches_of sizes snapshot agent_id names due first next ≡ some parts
      → let template =
          first_batch snapshot agent_id names due
            (due && snapshot.inventory_complete)
            first
            next.generation in
        AreParts sizes template (length parts) 0 parts
        × (concat (map (λ (p : ChildReportBatch). p.devices) parts) ≡ snapshot.devices)
        × (1 ≤ length parts)
  unfolding batches_of
  batches_of-Numbers due first next {parts} small e =
      let template =
        first_batch snapshot agent_id names due (due && snapshot.inventory_complete) first
          next.generation in
      elim (Option-cases (sizes.batch (sizing template))) [
        | inl unsized ↦ cc (rw (unsized, batches_of) at e)
        | inr (base, sized) ↦ elim (Option-cases (chunks sizes base [] base snapshot.devices)) [
          | inl fails ↦ cc (rw (sized, fails, batches_of) at e)
          | inr (groups, split) ↦
              let is = rw (sized, split, batches_of) at e in
              let split_lem = chunks-Splits sizes base [] base snapshot.devices split in
              let count = length groups in
              let group = group_id template.inventory_id names count in
              let n =
                number_parts-Numbers sizes template names group count 0 groups (omega arith)
                  (omega (arith, split_lem.few, small)) is in
              let same : length parts ≡ count = length_parts parts n.devices in
              (
                rw same n.numbered,
                ap concat n.devices ∙ split_lem.together,
                rw same split_lem.some_groups,
              )
        ]
      ]

  next_counters_lem :
      (old : ChildCounters) {next : ChildCounters}
      → next_counters at old ≡ some next
      → (next.sequence ≡ old.sequence)
        × (next.generation ≡ (if inventory_due at old then old.generation + 1 else old.generation))
  next_counters_lem old {next} e = elim (Bool-cases (inventory_due at old)) [
    | inr later ↦ let is = some_eq (rw (later) at e) in rw (later, ← is) (refl, refl)
    | inl due ↦ elim (Option-cases (checked_add old.generation 1)) [
      | inl over ↦ cc (rw (due, over) at e)
      | inr (generation, up) ↦
          let is = some_eq (rw (due, up) at e) in
          rw (due, ← is) (refl, checked_add_eq old.generation 1 up)
    ]
  ]

  pub key : String
  key = source_key snapshot.source snapshot.source_scope

  counters_of-replace :
      (s : ChildSchedule) (c : ChildCounters)
      → counters_of key (record s { counters = replace key c s.counters }) ≡ c
  unfolding counters_of key
  counters_of-replace s c = rw ((str_eq_iff key key).1 refl) refl

  IsReport-batch :
      (s : ChildSchedule) (first last : ℕ) (next : ChildCounters) (parts : List ChildReportBatch)
      → suc (length snapshot.devices) < 2 ^ 32
      → let old = counters_of key s in
        checked_add old.sequence 1 ≡ some first
        → next_counters at old ≡ some next
        → batches_of sizes snapshot agent_id names (inventory_due at old) first next ≡ some parts
        → checked_add first (length parts - 1) ≡ some last
        → IsReport old (record next { sequence = last }) parts
  IsReport-batch s first last next parts small up counted made ended =
      let old = counters_of key s in
      let (kept, generation) = next_counters_lem old counted in
      let (numbered, devices, nonempty) =
        batches_of-Numbers (inventory_due at old) first next small made in
      let one = checked_add_eq old.sequence 1 up in
      let more = checked_add_eq first (length parts - 1) ended in
      record {
        template =
            first_batch snapshot agent_id names (inventory_due at old)
              (inventory_due at old && snapshot.inventory_complete) first next.generation;
        numbered = numbered;
        devices = devices;
        some_parts = nonempty;
        first = one;
        last = omega arith;
        agent = refl;
        source = refl;
        scope = refl;
        generation = refl;
        due = generation;
        complete = refl;
      }

  -- A snapshot that is reported, of fewer than 2^32 - 1 devices, is reported in batches that hold its
  -- devices in order, are each within the body limit, and are numbered from the next sequence on
  -- without a gap. The generation moves on where a whole inventory is due, only the last batch of a
  -- complete one says so, and the schedule keeps the last number. A disabled schedule, or one that
  -- has reported within 30 seconds, reports nothing.
  pub batch_lem :
      (s after : ChildSchedule) (parts : List ChildReportBatch)
      → suc (length snapshot.devices) < 2 ^ 32
      → batch sizes snapshot agent_id at names s ≡ some (parts, after)
      → IsReport (counters_of key s) (counters_of key after) parts
        × (s.disabled ≡ false)
        × (too_soon at (counters_of key s) ≡ false)
  unfolding batch key
  batch_lem s after parts small e =
      let old = counters_of key s in
      let (on, e0) = if_none (s.disabled || too_soon at old) _ e in
      elim (Option-cases (checked_add old.sequence 1)) [
        | inl over ↦ cc (rw over at e0)
        | inr (first, up) ↦ elim (Option-cases (next_counters at old)) [
          | inl stuck ↦ cc (rw (up, stuck) at e0)
          | inr (next, counted) ↦
              elim (Option-cases
                (batches_of sizes snapshot agent_id names (inventory_due at old) first next)) [
                  | inl fails ↦ cc (rw (up, counted, fails) at e0)
                  | inr (made, e1) ↦ elim (Option-cases (checked_add first (length made - 1))) [
                    | inl over ↦ cc (rw (up, counted, e1, over) at e0)
                    | inr (last, ended) ↦
                        let is = some_eq (rw (up, counted, e1, ended) at e0) in
                        let stored = record next { sequence = last } in
                        let report =
                          IsReport-batch s first last next made small up counted e1 ended in
                        let kept =
                          subst (λ c. IsReport old c made) (sym (counters_of-replace s stored))
                            report in
                        let moved =
                          subst
                            (λ (out : List ChildReportBatch × ChildSchedule).
                              IsReport old (counters_of key out.1) out.0)
                            is kept in
                        let (enabled, paced) = or_false s.disabled (too_soon at old) on in
                        (moved, enabled, paced)
                  ]
                ]
        ]
      ]
