-- ===== src/Agent/Telemetry/Groups.antt =====
-- How dropping a group, and reporting it, acts on the other groups.
use hope.Base.{
  ◌≡◌, refl, ◌⊎◌, inl, inr, String, false, List, [], ◌∷◌, Bool-cases, str_eq, str_eq_iff,
}
use hope.Protocol.Types.{Metrics, no_metrics, CollectorStatus}
use hope.Agent.Telemetry.{
  Group, cpu, memory, memory_breakdown, swap, load_average, network, disk_io, docker_containers,
  monitors, storage, gpu_metrics, disk_devices, storage_pools, temperatures, network_counters,
  uptime, services, probe, without, degraded,
}

-- Dropping a group empties its own probe and leaves the others alone.
pub probe-without :
    (g h : Group) (m : Metrics)
    → ((g ≡ h) × (probe g (without h m) ≡ no_metrics)) ⊎ (probe g (without h m) ≡ probe g m)
unfolding probe without
probe-without cpu cpu m = inl (refl, refl)
probe-without cpu _ m = inr refl
probe-without memory memory m = inl (refl, refl)
probe-without memory _ m = inr refl
probe-without memory_breakdown memory_breakdown m = inl (refl, refl)
probe-without memory_breakdown _ m = inr refl
probe-without swap swap m = inl (refl, refl)
probe-without swap _ m = inr refl
probe-without load_average load_average m = inl (refl, refl)
probe-without load_average _ m = inr refl
probe-without network network m = inl (refl, refl)
probe-without network _ m = inr refl
probe-without disk_io disk_io m = inl (refl, refl)
probe-without disk_io _ m = inr refl
probe-without docker_containers docker_containers m = inl (refl, refl)
probe-without docker_containers _ m = inr refl
probe-without monitors monitors m = inl (refl, refl)
probe-without monitors _ m = inr refl
probe-without storage storage m = inl (refl, refl)
probe-without storage _ m = inr refl
probe-without gpu_metrics gpu_metrics m = inl (refl, refl)
probe-without gpu_metrics _ m = inr refl
probe-without disk_devices disk_devices m = inl (refl, refl)
probe-without disk_devices _ m = inr refl
probe-without storage_pools storage_pools m = inl (refl, refl)
probe-without storage_pools _ m = inr refl
probe-without temperatures temperatures m = inl (refl, refl)
probe-without temperatures _ m = inr refl
probe-without network_counters network_counters m = inl (refl, refl)
probe-without network_counters _ m = inr refl
probe-without uptime uptime m = inl (refl, refl)
probe-without uptime _ m = inr refl
probe-without services services m = inl (refl, refl)
probe-without services _ m = inr refl

pub probe-without_self : (g : Group) (m : Metrics) → probe g (without g m) ≡ no_metrics
unfolding probe without
probe-without_self cpu m = refl
probe-without_self _ m = refl

-- Some status of this name says that its collector is unavailable.
abbrev pub Reports : String → List CollectorStatus → Type 0
Reports name [] = ⊥
Reports name (c ∷ cs) = ((c.name ≡ name) × (c.available ≡ false)) ⊎ Reports name cs

pub degraded-Reports :
    (name reason : String) (cs : List CollectorStatus) → Reports name (degraded name reason cs)
unfolding degraded
degraded-Reports name reason [] = inl (refl, refl)
degraded-Reports name reason (c ∷ cs) = elim (Bool-cases (str_eq c.name name)) [
  | inl same ↦ rw same (inl ((str_eq_iff _ _).0 same, refl))
  | inr other ↦ rw other (inr (degraded-Reports name reason cs))
]

pub degraded-keeps :
    (name other reason : String) (cs : List CollectorStatus)
    → Reports name cs
    → Reports name (degraded other reason cs)
unfolding degraded
degraded-keeps name other reason [] h = absurd h
degraded-keeps name other reason (c ∷ cs) (inl h) = elim (Bool-cases (str_eq c.name other)) [
  | inl same ↦ rw same (inl (h.0, refl))
  | inr differs ↦ rw differs (inl h)
]
degraded-keeps name other reason (c ∷ cs) (inr h) = elim (Bool-cases (str_eq c.name other)) [
  | inl same ↦ rw same (inr h)
  | inr differs ↦ rw differs (inr (degraded-keeps name other reason cs h))
]
