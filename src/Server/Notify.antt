-- ===== src/Server/Notify.antt =====
-- hope-server/src/notify.rs: the problems of a host, and whether its telemetry says anything of one.
-- The products, quotients and roundings of floats are parameters.
pub mod Evaluation
pub mod Arrival
pub mod Minute
pub mod Rows
pub mod Replays
pub mod Told
pub mod Cleared
use Prim.Native.String.{◌++◌}
use mathlib.Core.List.{◌++◌ as ◌+++◌}
use hope.Base.{
  ℕ, max, String, Bool, true, false, not, ◌&&◌, ◌||◌, Option, none, some, List, [], ◌∷◌, map,
  filter, find, any, length, F64, float, f64_lt, f64_le, f64_sub, str_eq, ltb, ◌==◌, codes,
  starts_with, strip_text, eq_ignore_ascii_case, show_ℕ, if◌then◌else◌,
}
use hope.Protocol.Storage.{is_guest_storage}
use hope.Protocol.Types.{
  Host, Metrics, Disk, StoragePool, Temperature, ServiceUnit, ServiceSummary, MonitorResult,
  DeviceGuess, CollectorStatus,
}
use hope.Server.Limiter.{total_lt}
use hope.Server.Uptime.{Scans, agent_stale_seconds, missed}

pub record Problem : Type 0 where
  pub key : String
  pub offline : Bool
  pub critical : Bool
  pub message : String

pub record Figures : Type 0 where
  pub times : F64 → F64 → F64
  pub over : F64 → F64 → F64
  pub rounded : F64 → String

abbrev push : Host → String → Bool → Bool → String → Problem
push host kind offline critical message = record {
  key = host.id ++ (":" ++ kind);
  offline = offline;
  critical = critical;
  message = message;
}

abbrev long_silent : F64 → Option F64 → Bool
long_silent now none = true
long_silent now (some at) = f64_lt agent_stale_seconds (f64_sub now at)

abbrev is_stale : F64 → Option F64 → Bool
is_stale now none = false
is_stale now (some at) = f64_le agent_stale_seconds (f64_sub now at)

-- `max_by`: the last of the greatest.
abbrev hottest : Temperature → List Temperature → Temperature
hottest best [] = best
hottest best (t ∷ ts) = hottest (if total_lt t.celsius best.celsius then best else t) ts

abbrev pub flat_map {ℓ κ} : {A : Type ℓ} {B : Type κ} → (A → List B) → List A → List B
flat_map f [] = []
flat_map f (x ∷ xs) = f x +++ flat_map f xs

module _ (figures : Figures) (host : Host) where
  unfoldable pub disk_problem : Disk → List Problem
  unfolding is_guest_storage
  disk_problem disk =
      let used =
        figures.times (float 100)
          (f64_sub (float 1) (figures.over disk.available_bytes disk.total_bytes)) in
      if f64_lt (float 0) disk.total_bytes && not (is_guest_storage disk) && f64_le (float 90) used
      then push host ("disk:" ++ disk.mount) false (f64_le (float 97) used)
          (disk.mount ++ (" on " ++ (host.name ++ (" is " ++ (figures.rounded used ++ "% full")))))
        ∷ []
      else []

  abbrev allocated : StoragePool → F64
  allocated pool =
      if f64_lt (float 0) pool.size_bytes
      then figures.over (figures.times (float 100) pool.allocated_bytes) pool.size_bytes
      else float 0

  unfoldable pub pool_problem : StoragePool → List Problem
  unfolding eq_ignore_ascii_case
  pool_problem pool =
      let used = allocated pool in
      let named = "Pool " ++ (pool.name ++ (" on " ++ (host.name ++ " is "))) in
      if not (eq_ignore_ascii_case pool.health "ONLINE")
      then push host ("pool:" ++ pool.name) false true (named ++ pool.health) ∷ []
      else if f64_le (float 90) used
      then push host ("pool:" ++ pool.name) false (f64_le (float 97) used)
          (named ++ (figures.rounded used ++ "% allocated"))
        ∷ []
      else []

  abbrev hot_problem : Temperature → List Problem
  hot_problem hot =
      if f64_le (float 85) hot.celsius
      then push host "sensor" false (f64_le (float 95) hot.celsius) (
          hot.label
          ++ (" on " ++ (host.name ++ (" is at " ++ (figures.rounded hot.celsius ++ "°C")))))
        ∷ []
      else []

  unfoldable pub sensor_problem : List Temperature → List Problem
  unfolding total_lt
  sensor_problem [] = []
  sensor_problem (t ∷ ts) = hot_problem (hottest t ts)

  abbrev failed_units : ℕ → List Problem
  failed_units n =
      if ltb 0 n
      then push host "service" false false (
          show_ℕ n
          ++ (" service "
              ++ ((if n == 1 then "unit" else "units") ++ (" failed on " ++ host.name))))
        ∷ []
      else []

  abbrev failed_problem : List ServiceUnit → ℕ → List Problem
  failed_problem (unit ∷ []) n =
      if n == 1
      then push host "service" false false (unit.name ++ (" failed on " ++ host.name)) ∷ []
      else failed_units n
  failed_problem units n = failed_units n

  abbrev failed_total : Option ServiceSummary → ℕ → ℕ
  failed_total none n = n
  failed_total (some summary) n = max summary.failed n

  unfoldable pub service_problem : Metrics → List Problem
  unfolding show_ℕ
  service_problem metrics =
      let failed = filter (λ (u : ServiceUnit). str_eq u.state "failed") metrics.services in
      failed_problem failed (failed_total metrics.service_summary (length failed))

  abbrev monitor_problem : MonitorResult → Problem
  monitor_problem m =
      push host ("monitor:" ++ m.target) false false (host.name ++ (" cannot reach " ++ m.target))

  abbrev metric_problems : Metrics → List Problem
  metric_problems metrics =
      flat_map disk_problem metrics.disks
      +++ (flat_map pool_problem metrics.pools
          +++ (sensor_problem metrics.temperatures
              +++ (service_problem metrics
                  +++ map monitor_problem
                      (filter (λ (m : MonitorResult). not m.up) metrics.monitors))))

  -- What an agent that is still in use says, or its silence.
  abbrev agent_problems : F64 → List Problem
  agent_problems now =
      let silent = long_silent now host.last_report in
      let telemetry =
        if silent || is_stale now host.metrics_received_at then none else host.metrics in
      (if silent
        then push host "agent" true true ("The agent on " ++ (host.name ++ " stopped reporting"))
          ∷ []
        else [])
      +++ elim telemetry [ none ↦ [] | some metrics ↦ metric_problems metrics ]

-- classify.rs
abbrev infrastructure_kinds : List String
infrastructure_kinds = "router" ∷ "switch" ∷ "access_point" ∷ "hypervisor" ∷ "nas" ∷ "server" ∷ []

abbrev is_infrastructure : String → Bool
is_infrastructure kind = any (str_eq kind) infrastructure_kinds

abbrev is_guessed_infrastructure : Option DeviceGuess → Bool
is_guessed_infrastructure none = false
is_guessed_infrastructure (some guess) = is_infrastructure guess.kind

abbrev label_of : Option DeviceGuess → String
label_of none = ""
label_of (some guess) = guess.label

-- The interval of a scan is a u32 there; those that are stored are too small for the product to wrap.
abbrev scan_problem : Host → F64 → Scans → List Problem
scan_problem host now scans =
    if any (λ id. missed host now (scans id)) host.network_ids
    then push host "offline" true true
        (host.name ++ (" (" ++ (label_of host.device ++ ") stopped answering")))
      ∷ []
    else []

abbrev has_none {ℓ} : {A : Type ℓ} → Option A → Bool
has_none none = true
has_none (some a) = false

unfoldable pub problems : Figures → F64 → Scans → Host → List Problem
unfolding disk_problem pool_problem sensor_problem service_problem
problems figures now scans host =
    if not (has_none host.agent_id) && not host.agent_revoked
    then agent_problems figures host now
    else if (has_none host.agent_id || host.agent_uninstalled)
        && is_guessed_infrastructure host.device
    then scan_problem host now scans
    else []

-- Whether a collector that is named says anything; an older agent does not name its collectors.
abbrev collector_says : String → Bool → Host → Bool
collector_says name legacy host =
    elim (find (λ (c : CollectorStatus). str_eq c.name name) host.collectors) [
      | none ↦ legacy
      | some status ↦ status.available
    ]

abbrev has_any {ℓ} : {A : Type ℓ} → List A → Bool
has_any [] = false
has_any (a ∷ rest) = true

abbrev monitors_target : Metrics → Option String → Bool
monitors_target metrics none = false
monitors_target metrics (some target) =
    any (λ (m : MonitorResult). str_eq m.target target) metrics.monitors

abbrev kind_observed : Host → Metrics → String → Bool
kind_observed host metrics kind =
    if starts_with (codes "disk:") (codes kind)
    then collector_says "storage" (has_any metrics.disks) host
    else if starts_with (codes "pool:") (codes kind)
    then collector_says "storage_pools" (has_any metrics.pools) host
    else if str_eq kind "service"
    then collector_says "services" (not (has_none metrics.service_summary)) host
    else if str_eq kind "sensor"
    then collector_says "temperatures" (has_any metrics.temperatures) host
    else monitors_target metrics (strip_text "monitor:" kind)

abbrev metrics_observed : Host → String → Option Metrics → Bool
metrics_observed host key none = false
metrics_observed host key (some metrics) = elim (strip_text (host.id ++ ":") key) [
  | none ↦ false
  | some kind ↦ kind_observed host metrics kind
]

unfoldable pub resource_observed : Host → String → F64 → Bool
unfolding starts_with strip_text
resource_observed host key at =
    if host.agent_revoked || is_stale at host.metrics_received_at || long_silent at host.last_report
    then false
    else metrics_observed host key host.metrics
