-- ===== src/Agent/Telemetry/Bounded.antt =====
-- The guarantees of `bound_report`.
use hope.Base.{
  ℕ, suc, ◌≤◌, ◌≡◌, refl, ◌∙◌, sym, ap, ◌⊎◌, inl, inr, true, Option, none, some, List, [], ◌∷◌, leb,
  leb→le, le→leb, take, subst, if◌then◌else◌, Bool-cases, Option-cases, some_eq, length,
}
use hope.Protocol.Types.{Inventory, AgentReport, max_agent_report_bytes}
use hope.Agent.Telemetry.Bound.{
  Collection, is_absent, shed_order, shed_one, shed_inventory, drop_inventory, fitting, shed,
  bound_report,
}
use hope.Agent.Telemetry.Cleared.{clear_all, clear_absent}

-- What is never given up: who reports, when, in which order, and the scalar readings.
pub record SameCore (a b : AgentReport) : Type 0 where
  pub schema_version : a.schema_version ≡ b.schema_version
  pub report_id : a.report_id ≡ b.report_id
  pub agent_id : a.agent_id ≡ b.agent_id
  pub sequence : a.sequence ≡ b.sequence
  pub collected_at : a.collected_at ≡ b.collected_at

-- The report without any of the given collections and without its inventory.
abbrev pub stripped : List Collection → AgentReport → AgentReport
stripped [] r = shed_inventory r
stripped (c ∷ cs) r = stripped cs (if is_absent c r.metrics then r else shed_one c r)

module _ (size : AgentReport → Option ℕ) where
  -- The report fits the budget.
  abbrev pub IsSmall : AgentReport → Type 0
  IsSmall r = (n : ℕ) × (size r ≡ some n) × (n ≤ max_agent_report_bytes)

  -- How a report that was bounded differs from the one before: the first `k` collections of the
  -- order are gone and no others, the inventory only if all of them are, and nothing else but the
  -- collector statuses has changed.
  pub record Sheds (cs : List Collection) (r t : AgentReport) : Type 0 where
    pub count : ℕ
    pub metrics : t.metrics ≡ clear_all (take count cs) r.metrics
    pub inventory : (t.inventory ≡ r.inventory) ⊎ ((count ≡ length cs) × (t.inventory ≡ none))
    pub small : IsSmall t
    pub core : SameCore t r

  SameCore-refl : (r : AgentReport) → SameCore r r
  SameCore-refl r = record {
    schema_version = refl;
    report_id = refl;
    agent_id = refl;
    sequence = refl;
    collected_at = refl;
  }

  fitting_lem : (r t : AgentReport) → fitting size r ≡ some t → (t ≡ r) × IsSmall r
  unfolding fitting
  fitting_lem r t h = elim (Option-cases (size r)) [
    | inl e ↦ cc (rw (e, fitting) at h)
    | inr (n, e) ↦ elim (Bool-cases (leb n max_agent_report_bytes)) [
      | inl small ↦ (
        sym (some_eq (rw (e, small, fitting) at h)),
        (n, e, leb→le n max_agent_report_bytes small),
      )
      | inr large ↦ cc (rw (e, large, fitting) at h)
    ]
  ]

  drop_inventory_lem :
      (i : Option Inventory) (r : AgentReport)
      → ((drop_inventory i r).metrics ≡ r.metrics)
        × (((drop_inventory i r).inventory ≡ r.inventory) ⊎ ((drop_inventory i r).inventory ≡ none))
        × SameCore (drop_inventory i r) r
  unfolding drop_inventory
  drop_inventory_lem none r = (refl, inl refl, SameCore-refl r)
  drop_inventory_lem (some i) r = (
    refl,
    inr refl,
    record {
      schema_version = refl;
      report_id = refl;
      agent_id = refl;
      sequence = refl;
      collected_at = refl;
    },
  )

  shed_end : (r t : AgentReport) → fitting size (shed_inventory r) ≡ some t → Sheds [] r t
  unfolding shed_inventory
  shed_end r t h =
      let (e, small) = fitting_lem (shed_inventory r) t h in
      let (same, gone, core) = drop_inventory_lem r.inventory r in
      rw e (record {
        count = 0;
        metrics = same;
        inventory = elim gone [ inl kept ↦ inl kept | inr none_left ↦ inr (refl, none_left) ];
        small = small;
        core = core;
      })

  -- From what was shed before one more step to what was shed in all.
  Sheds-cons :
      (c : Collection) (cs : List Collection) (r t : AgentReport)
      → Sheds cs (shed_one c r) t
      → Sheds (c ∷ cs) r t
  unfolding shed_one
  Sheds-cons c cs r t s = record {
    count = suc s.count;
    metrics = s.metrics;
    inventory = elim s.inventory [ inl kept ↦ inl kept | inr (all, gone) ↦ inr (ap suc all, gone) ];
    small = s.small;
    core = record {
      schema_version = s.core.schema_version;
      report_id = s.core.report_id;
      agent_id = s.core.agent_id;
      sequence = s.core.sequence;
      collected_at = s.core.collected_at;
    };
  }

  Sheds-absent :
      (c : Collection) (cs : List Collection) (r t : AgentReport)
      → is_absent c r.metrics ≡ true
      → Sheds cs r t
      → Sheds (c ∷ cs) r t
  Sheds-absent c cs r t absent s = record {
    count = suc s.count;
    metrics = s.metrics ∙ ap (clear_all (take s.count cs)) (sym (clear_absent c r.metrics absent));
    inventory = elim s.inventory [ inl kept ↦ inl kept | inr (all, gone) ↦ inr (ap suc all, gone) ];
    small = s.small;
    core = s.core;
  }

  Sheds-one :
      (c : Collection) (cs : List Collection) (r : AgentReport)
      → IsSmall (shed_one c r)
      → Sheds (c ∷ cs) r (shed_one c r)
  unfolding shed_one
  Sheds-one c cs r small = record {
    count = 1;
    metrics = refl;
    inventory = inl refl;
    small = small;
    core = record {
      schema_version = refl;
      report_id = refl;
      agent_id = refl;
      sequence = refl;
      collected_at = refl;
    };
  }

  shed_lem : (cs : List Collection) (r t : AgentReport) → shed size cs r ≡ some t → Sheds cs r t
  unfolding shed
  shed_lem [] r t h = shed_end r t h
  shed_lem (c ∷ cs) r t h = elim (Bool-cases (is_absent c r.metrics)) [
    | inl absent ↦ Sheds-absent c cs r t absent (shed_lem cs r t (rw (absent, shed) at h))
    | inr full ↦ elim (Option-cases (size (shed_one c r))) [
      | inl e ↦ cc (rw (full, e, shed) at h)
      | inr (n, e) ↦ elim (Bool-cases (leb n max_agent_report_bytes)) [
        | inl small ↦
            subst (Sheds (c ∷ cs) r) (some_eq (rw (full, e, small, shed) at h))
              (Sheds-one c cs r (n, e, leb→le n max_agent_report_bytes small))
        | inr large ↦
            Sheds-cons c cs r t (shed_lem cs (shed_one c r) t (rw (full, e, large, shed) at h))
      ]
    ]
  ]

  fitting_total : (r : AgentReport) → IsSmall r → fitting size r ≡ some r
  unfolding fitting
  fitting_total r (n, e, small) = rw (e, le→leb n max_agent_report_bytes small, fitting)

  shed_total :
      ((r : AgentReport) → (n : ℕ) × (size r ≡ some n))
      → (cs : List Collection) (r : AgentReport) → IsSmall (stripped cs r)
      → (t : AgentReport) × (shed size cs r ≡ some t)
  unfolding shed
  shed_total sizes [] r fits = (shed_inventory r, fitting_total (shed_inventory r) fits)
  shed_total sizes (c ∷ cs) r fits = elim (Bool-cases (is_absent c r.metrics)) [
    | inl absent ↦ rw (absent, shed) (shed_total sizes cs r (rw absent at fits))
    | inr full ↦
        let (n, e) = sizes (shed_one c r) in
        elim (Bool-cases (leb n max_agent_report_bytes)) [
          | inl small ↦ (shed_one c r, rw (full, e, small, shed))
          | inr large ↦
              rw (full, e, large, shed) (shed_total sizes cs (shed_one c r) (rw full at fits))
        ]
  ]

  -- Where reports can be serialized, `bound_report` returns a report whenever what is left without
  -- any collection and without the inventory fits the budget: no collection, however large, costs
  -- the heartbeat.
  pub bound_report_total :
      ((r : AgentReport) → (n : ℕ) × (size r ≡ some n))
      → (r : AgentReport) → IsSmall (stripped shed_order r)
      → (t : AgentReport) × (bound_report size r ≡ some t) × IsSmall t
  unfolding bound_report
  bound_report_total sizes r fits =
      let (n, e) = sizes r in
      elim (Bool-cases (leb n max_agent_report_bytes)) [
        | inl small ↦
            (r, rw (e, small, bound_report), (n, e, leb→le n max_agent_report_bytes small))
        | inr large ↦
            let (t, h) = shed_total sizes shed_order r fits in
            (t, rw (e, large, bound_report) h, (shed_lem shed_order r t h).small)
      ]

  -- A report that `bound_report` returns fits the server's budget. Between it and the report that
  -- was given, the first few collections of the fixed order are gone and no others, the inventory
  -- is gone only if all of them are, and apart from the collector statuses nothing else differs.
  pub bound_report_lem : (r t : AgentReport) → bound_report size r ≡ some t → Sheds shed_order r t
  unfolding bound_report
  bound_report_lem r t h = elim (Option-cases (size r)) [
    | inl e ↦ cc (rw (e, bound_report) at h)
    | inr (n, e) ↦ elim (Bool-cases (leb n max_agent_report_bytes)) [
      | inl small ↦
          subst (Sheds shed_order r) (some_eq (rw (e, small, bound_report) at h)) (record {
            count = 0;
            metrics = refl;
            inventory = inl refl;
            small = (n, e, leb→le n max_agent_report_bytes small);
            core = SameCore-refl r;
          })
      | inr large ↦ shed_lem shed_order r t (rw (e, large, bound_report) at h)
    ]
  ]
