-- ===== src/Agent/Telemetry/Isolate.antt =====
-- Whatever the collectors measured, what `isolate` leaves is a sample that validation accepts.
use hope.Base.{◌≡◌, refl, ◌∙◌, ◌⊎◌, inl, inr, String, Bool, List, [], ◌∷◌, All}
use hope.Protocol.Types.{Metrics, no_metrics}
use hope.Protocol.Validation.Values.{Verdict, valid, invalid}
use hope.Protocol.Validation.Metrics.{metrics}
use hope.Protocol.Validation.Groups.{IsValid, metrics-IsValid, IsValid-metrics, no_metrics-valid}
use hope.Agent.Telemetry.{
  Group, cpu, memory, memory_breakdown, swap, load_average, network, disk_io, docker_containers,
  monitors, storage, gpu_metrics, disk_devices, storage_pools, temperatures, network_counters,
  uptime, services, probe, without, all_groups, Sample, isolate_group, isolate_groups, degraded,
  group_name,
}
use hope.Agent.Telemetry.Groups.{
  probe-without, probe-without_self, Reports, degraded-Reports, degraded-keeps,
}

module _ (is_uuid : String → Bool) where
  abbrev pub Accepts : Metrics → Type 0
  Accepts m = metrics is_uuid m ≡ valid

  Verdict-cases :
      (m : Metrics) → Accepts m ⊎ ((reason : String) × (metrics is_uuid m ≡ invalid reason))
  Verdict-cases m = go (metrics is_uuid m) refl
    where
      go :
          (v : Verdict)
          → metrics is_uuid m ≡ v
          → Accepts m ⊎ ((reason : String) × (metrics is_uuid m ≡ invalid reason))
      go valid e = inl e
      go (invalid reason) e = inr (reason, e)

  isolate_group_valid :
      (g : Group) (s : Sample) → Accepts (probe g s.metrics) → isolate_group is_uuid g s ≡ s
  unfolding isolate_group
  isolate_group_valid g s h = rw (h, isolate_group)

  isolate_group_invalid :
      (g : Group) (s : Sample) (reason : String)
      → metrics is_uuid (probe g s.metrics) ≡ invalid reason
      → isolate_group is_uuid g s ≡ record s {
        metrics = without g s.metrics;
        collectors = degraded (group_name g) reason s.collectors;
      }
  unfolding isolate_group
  isolate_group_invalid g s reason h = rw (h, isolate_group)

  -- On the way: a group is as it was, or was invalid and has been emptied and reported.
  abbrev pub Passed : Group → Sample → Sample → Type 0
  Passed g before now =
      (probe g now.metrics ≡ probe g before.metrics)
      ⊎ ((¬ Accepts (probe g before.metrics))
          × (probe g now.metrics ≡ no_metrics)
          × Reports (group_name g) now.collectors)

  invalid-not-Accepts :
      (m : Metrics) (reason : String) → metrics is_uuid m ≡ invalid reason → ¬ Accepts m
  invalid-not-Accepts m reason e h = cc

  emptied_Passed :
      (g : Group) (before now : Sample) (reason : String)
      → metrics is_uuid (probe g now.metrics) ≡ invalid reason
      → Passed g before now
      → ¬ Accepts (probe g before.metrics)
  emptied_Passed g before now reason e (inl same) =
      invalid-not-Accepts (probe g before.metrics) reason (rw (← same) e)
  emptied_Passed g before now reason e (inr (bad, _, _)) = bad

  step-Passed :
      (g h : Group) (before now : Sample)
      → Passed g before now
      → Passed g before (isolate_group is_uuid h now)
  step-Passed g h before now p = elim (Verdict-cases (probe h now.metrics)) [
    | inl ok ↦ rw (isolate_group_valid h now ok) p
    | inr (reason, bad) ↦
        rw (isolate_group_invalid h now reason bad)
          (after reason bad p (probe-without g h now.metrics))
  ]
    where
      after :
          (reason : String)
          → metrics is_uuid (probe h now.metrics) ≡ invalid reason
          → Passed g before now
          → ((g ≡ h) × (probe g (without h now.metrics) ≡ no_metrics))
            ⊎ (probe g (without h now.metrics) ≡ probe g now.metrics)
          → Passed g before (record now {
            metrics = without h now.metrics;
            collectors = degraded (group_name h) reason now.collectors;
          })
      after reason bad p (inl (same, gone)) = inr (
        emptied_Passed g before now reason (rw same bad) p,
        gone,
        rw same (degraded-Reports (group_name h) reason now.collectors),
      )
      after reason bad (inl kept) (inr alone) = inl (alone ∙ kept)
      after reason bad (inr (was_bad, gone, told)) (inr alone) = inr (
        was_bad,
        alone ∙ gone,
        degraded-keeps (group_name g) (group_name h) reason now.collectors told,
      )

  step-Accepts :
      (g h : Group) (now : Sample)
      → Accepts (probe g now.metrics)
      → Accepts (probe g (isolate_group is_uuid h now).metrics)
  step-Accepts g h now a = elim (Verdict-cases (probe h now.metrics)) [
    | inl ok ↦ rw (isolate_group_valid h now ok) a
    | inr (reason, bad) ↦
        rw (isolate_group_invalid h now reason bad) (elim (probe-without g h now.metrics) [
          | inl (same, gone) ↦ rw gone (no_metrics-valid is_uuid)
          | inr alone ↦ rw alone a
        ])
  ]

  self-Accepts :
      (g : Group) (now : Sample) → Accepts (probe g (isolate_group is_uuid g now).metrics)
  self-Accepts g now = elim (Verdict-cases (probe g now.metrics)) [
    | inl ok ↦ rw (isolate_group_valid g now ok) ok
    | inr (reason, bad) ↦
        rw (isolate_group_invalid g now reason bad)
          (rw (probe-without_self g now.metrics) (no_metrics-valid is_uuid))
  ]

  pub run-Passed :
      (g : Group) (hs : List Group) (before now : Sample)
      → Passed g before now
      → Passed g before (isolate_groups is_uuid hs now)
  unfolding isolate_groups
  run-Passed g [] before now p = p
  run-Passed g (h ∷ hs) before now p = run-Passed g hs before _ (step-Passed g h before now p)

  run-Accepts :
      (g : Group) (hs : List Group) (now : Sample)
      → Accepts (probe g now.metrics)
      → Accepts (probe g (isolate_groups is_uuid hs now).metrics)
  unfolding isolate_groups
  run-Accepts g [] now a = a
  run-Accepts g (h ∷ hs) now a =
      run-Accepts g hs (isolate_group is_uuid h now) (step-Accepts g h now a)

  run-All :
      (hs : List Group) (now : Sample)
      → All (λ g. Accepts (probe g (isolate_groups is_uuid hs now).metrics)) hs
  unfolding isolate_groups
  run-All [] now = tt
  run-All (h ∷ hs) now = (
    run-Accepts h hs (isolate_group is_uuid h now) (self-Accepts h now),
    run-All hs (isolate_group is_uuid h now),
  )

  every : (P : Group → Type 0) (g : Group) → All P all_groups → P g
  every P cpu h = h.0
  every P memory h = h.1.0
  every P memory_breakdown h = h.1.1.0
  every P swap h = h.1.1.1.0
  every P load_average h = h.1.1.1.1.0
  every P network h = h.1.1.1.1.1.0
  every P disk_io h = h.1.1.1.1.1.1.0
  every P docker_containers h = h.1.1.1.1.1.1.1.0
  every P monitors h = h.1.1.1.1.1.1.1.1.0
  every P storage h = h.1.1.1.1.1.1.1.1.1.0
  every P gpu_metrics h = h.1.1.1.1.1.1.1.1.1.1.0
  every P disk_devices h = h.1.1.1.1.1.1.1.1.1.1.1.0
  every P storage_pools h = h.1.1.1.1.1.1.1.1.1.1.1.1.0
  every P temperatures h = h.1.1.1.1.1.1.1.1.1.1.1.1.1.0
  every P network_counters h = h.1.1.1.1.1.1.1.1.1.1.1.1.1.1.0
  every P uptime h = h.1.1.1.1.1.1.1.1.1.1.1.1.1.1.1.0
  every P services h = h.1.1.1.1.1.1.1.1.1.1.1.1.1.1.1.1.0

  -- The groups of the sample after all of them were run.
  pub group-Accepts :
      (s : Sample) (g : Group) → Accepts (probe g (isolate_groups is_uuid all_groups s).metrics)
  group-Accepts s g =
      every (λ h. Accepts (probe h (isolate_groups is_uuid all_groups s).metrics)) g
        (run-All all_groups s)

  pub whole : (m : Metrics) → ((g : Group) → Accepts (probe g m)) → Accepts m
  unfolding probe
  whole m parts = IsValid-metrics is_uuid m (record {
    uptime = (part uptime).uptime;
    cached = (part memory_breakdown).cached;
    arc = (part memory_breakdown).arc;
    swap_total = (part swap).swap_total;
    swap_used = (part swap).swap_used;
    load = (part load_average).load;
    temperatures = (part temperatures).temperatures;
    disk_io = (part disk_devices).disk_io;
    pools = (part storage_pools).pools;
    services = (part services).services;
    containers = (part docker_containers).containers;
    monitors = (part monitors).monitors;
    interfaces = (part network_counters).interfaces;
    cpu = (part cpu).cpu;
    memory_total = (part memory).memory_total;
    memory_used = (part memory).memory_used;
    network_rx = (part network).network_rx;
    network_tx = (part network).network_tx;
    disk_read = (part disk_io).disk_read;
    disk_write = (part disk_io).disk_write;
    filesystems = (part storage).filesystems;
    adapters = (part gpu_metrics).adapters;
  })
    where
      part : (g : Group) → IsValid is_uuid (probe g m)
      part g = metrics-IsValid is_uuid (probe g m) (parts g)
