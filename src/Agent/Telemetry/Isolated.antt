-- ===== src/Agent/Telemetry/Isolated.antt =====
-- The guarantees of `isolate` as a whole.
use hope.Base.{◌≡◌, refl, ap, ◌∙◌, ◌⊎◌, inl, inr, String, Bool, true, Bool-cases}
use hope.Protocol.Types.{no_metrics}
use hope.Protocol.Validation.Values.{valid, disks, gpus, distinct_ids}
use hope.Protocol.Validation.Metrics.{metrics}
use hope.Agent.Telemetry.{
  Group, probe, group_name, all_groups, Sample, isolate_groups, isolate_disks, isolate_gpus,
  isolate,
}
use hope.Agent.Telemetry.Groups.{Reports, degraded-keeps}
use hope.Agent.Telemetry.Isolate.{group-Accepts, whole, run-Passed, Passed}

isolate_disks_keeps :
    (name : String) (s : Sample)
    → ((isolate_disks s).metrics ≡ s.metrics)
      × (Reports name s.collectors → Reports name (isolate_disks s).collectors)
unfolding isolate_disks
isolate_disks_keeps name s = elim (Bool-cases (disks s.inventory.disks)) [
  | inl e ↦ rw (e, isolate_disks) (refl, λ h. h)
  | inr e ↦ rw (e, isolate_disks) (refl, λ h. degraded-keeps name _ _ s.collectors h)
]

isolate_gpus_keeps :
    (name : String) (s : Sample)
    → ((isolate_gpus s).metrics ≡ s.metrics)
      × (Reports name s.collectors → Reports name (isolate_gpus s).collectors)
unfolding isolate_gpus
isolate_gpus_keeps name s = elim (Bool-cases (gpus s.inventory.gpus)) [
  | inl e ↦ rw (e, isolate_gpus) (refl, λ h. h)
  | inr e ↦ rw (e, isolate_gpus) (refl, λ h. degraded-keeps name _ _ s.collectors h)
]

metrics-isolate :
    (is_uuid : String → Bool) (s : Sample)
    → (isolate is_uuid s).metrics ≡ (isolate_groups is_uuid all_groups s).metrics
unfolding isolate
metrics-isolate is_uuid s =
    let grouped = isolate_groups is_uuid all_groups s in
    (isolate_gpus_keeps "" (isolate_disks grouped)).0 ∙ (isolate_disks_keeps "" grouped).0

isolate_disks_ok : (s : Sample) → disks (isolate_disks s).inventory.disks ≡ true
unfolding isolate_disks disks
isolate_disks_ok s = elim (Bool-cases (disks s.inventory.disks)) [
  | inl e ↦ rw (e, isolate_disks) e
  | inr e ↦ rw (e, isolate_disks) refl
]

isolate_gpus_ok :
    (s : Sample)
    → (gpus (isolate_gpus s).inventory.gpus ≡ true)
      × ((isolate_gpus s).inventory.disks ≡ s.inventory.disks)
unfolding isolate_gpus gpus distinct_ids
isolate_gpus_ok s = elim (Bool-cases (gpus s.inventory.gpus)) [
  | inl e ↦ rw (e, isolate_gpus) (e, refl)
  | inr e ↦ rw (e, isolate_gpus) (refl, refl)
]

-- Whatever the collectors measured, the isolated sample passes the validation of metrics, and the
-- inventory's filesystems and GPUs pass theirs.
pub isolate_lem :
    (is_uuid : String → Bool) (s : Sample)
    → (metrics is_uuid (isolate is_uuid s).metrics ≡ valid)
      × (disks (isolate is_uuid s).inventory.disks ≡ true)
      × (gpus (isolate is_uuid s).inventory.gpus ≡ true)
unfolding isolate
isolate_lem is_uuid s =
    let grouped = isolate_groups is_uuid all_groups s in
    let (adapters, same) = isolate_gpus_ok (isolate_disks grouped) in
    (
      rw (metrics-isolate is_uuid s) (whole is_uuid grouped.metrics (group-Accepts is_uuid s)),
      ap disks same ∙ isolate_disks_ok grouped,
      adapters,
    )

-- Each group of fields is isolated by itself. If the group is valid on its own, its fields are
-- unchanged; if not, they are absent, and a collector status with the group's name says that it
-- is unavailable.
pub isolate_group_lem :
    (is_uuid : String → Bool) (s : Sample) (g : Group)
    → ((metrics is_uuid (probe g s.metrics) ≡ valid)
        × (probe g (isolate is_uuid s).metrics ≡ probe g s.metrics))
      ⊎ ((¬ (metrics is_uuid (probe g s.metrics) ≡ valid))
          × (probe g (isolate is_uuid s).metrics ≡ no_metrics)
          × Reports (group_name g) (isolate is_uuid s).collectors)
unfolding isolate
isolate_group_lem is_uuid s g = settle (run-Passed is_uuid g all_groups s s (inl refl))
  where
    grouped : Sample
    grouped = isolate_groups is_uuid all_groups s

    settle :
        Passed is_uuid g s grouped
        → ((metrics is_uuid (probe g s.metrics) ≡ valid)
            × (probe g (isolate is_uuid s).metrics ≡ probe g s.metrics))
          ⊎ ((¬ (metrics is_uuid (probe g s.metrics) ≡ valid))
              × (probe g (isolate is_uuid s).metrics ≡ no_metrics)
              × Reports (group_name g) (isolate is_uuid s).collectors)
    settle (inl same) =
        inl
          (rw (← same) (group-Accepts is_uuid s g), ap (probe g) (metrics-isolate is_uuid s) ∙ same)
    settle (inr (bad, gone, told)) =
        inr (bad, ap (probe g) (metrics-isolate is_uuid s) ∙ gone, reported)
      where
        reported : Reports (group_name g) (isolate is_uuid s).collectors
        reported =
            (isolate_gpus_keeps (group_name g) (isolate_disks grouped)).1
              ((isolate_disks_keeps (group_name g) grouped).1 told)
