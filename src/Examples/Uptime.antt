-- ===== src/Examples/Uptime.antt =====
-- A device that two scans have missed.
use mathlib.Core.List.{Memᴰ}
use hope.Base.{false, List}
use hope.Examples.Reports.{tables}
use hope.Server.Database.{Database}
use hope.Server.Notify.{Problem}
use hope.Server.Notify.Rows.{IsOrder}
use hope.Server.Uptime.Checks.{Check, FailuresJson, kept_settings, problems}
use hope.Server.Uptime.Kept.{problems-kept}
use hope.Base.{
  ℕ, ◌≡◌, refl, String, true, none, some, [], ◌∷◌, F64, float, f64_lt, f64_sub, ◌-ℤ◌, get_elem?,
  str_eq, if◌then◌else◌,
}
use hope.Protocol.Types.{Host, new_host}
use hope.Server.Uptime.{Scans, has_agent, device_down}
use hope.Server.Uptime.Evidence.{device_down-evidence}

abbrev phone : Host
phone = record (new_host "phone" "phone" "icmp") { last_seen = float 100; network_ids = "lan" ∷ [] }

abbrev scans : Scans
scans id = if str_eq id "lan" then some (float 4900, 5) else none

device_down-evidence_example :
    (i : ℕ) × (id : String) × (finished : F64) × (interval : ℕ) × (get_elem? phone.network_ids i
      ≡ some id)
    × (scans id ≡ some (finished, interval))
    × (f64_lt phone.last_seen finished ≡ true)
    × (f64_lt (float 900) (f64_sub (float 5000) phone.last_seen) ≡ true)
unfolding has_agent device_down f64_lt f64_sub ◌-ℤ◌
device_down-evidence_example = device_down-evidence phone (float 5000) scans refl refl

abbrev failed_once : FailuresJson
failed_once = record { read = λ s. some (("tcp:22", 1) ∷ []); show = λ f. "" }

abbrev ssh_host : Host
ssh_host = record (new_host "h" "host" "agent") {
  uptime = record { enabled = true; device = false; ports = 22 ∷ [] };
  addresses = "192.168.1.5" ∷ [];
}

abbrev counting : Database
counting = record (tables false) { meta = λ key. some "{}" }

abbrev ssh_down : Problem × String
ssh_down = (
  record {
    key = "h:uptime:tcp:22";
    offline = true;
    critical = true;
    message = "TCP port 22 on host is down";
  },
  "h",
)

any-IsOrder : IsOrder {A = Host × List Check} (λ xs. xs)
any-IsOrder = record { old = λ xs x m. m; new = λ xs x m. m }

problems-kept_example :
    (host : Host) × Memᴰ host (ssh_host ∷ [])
    × ("h" ≡ host.id)
    × (host.uptime.enabled ≡ true)
    × (kept_settings host (some ssh_host) ≡ true)
unfolding problems
problems-kept_example =
    problems-kept (λ ips port. false) failed_once (λ cs. cs) (λ xs. xs) (λ db. db)
      (λ db id. some ssh_host) (ssh_host ∷ []) (float 100) (λ id. none) counting (ssh_down ∷ [])
      ssh_down any-IsOrder refl (Memᴰ.head refl)
