-- ===== src/Server/Notify/Minute.antt =====
-- hope-server/src/notify.rs, `evaluate` with the uptime checks that it calls: one round of the
-- background task. `alerts_then` are the alerts once the checks are done.
use hope.Base.{ℕ, String, Bool, Option, none, some, List, F64, IpAddr}
use hope.Protocol.Types.{Host, Network}
use hope.Server.Database.{Database}
use hope.Server.Notify.{Figures}
use hope.Server.Notify.Evaluation.{Alerts, Orders, evaluate, last_scan}
use hope.Server.Outbox.{NotificationSettings, Calls}
use hope.Server.Uptime.Checks as Checks
use hope.Server.Uptime.Checks.{Check, FailuresJson}

-- What the checks of a round need.
pub record Probes : Type 0 where
  pub port_up : List IpAddr → ℕ → Bool
  pub json : FailuresJson
  pub port_order : List Check → List Check
  pub host_order : List (Host × List Check) → List (Host × List Check)
  pub later : Database → Database
  pub current : Database → String → Option Host

-- The database with the counters of the checks, and the alerts; `none` on an error.
unfoldable pub minute :
    Probes
    → Calls
    → NotificationSettings
    → F64
    → Figures
    → Orders
    → List Network
    → (String → Option F64)
    → List Host
    → (Alerts → Alerts)
    → Database
    → Alerts
    → Database × Option Alerts
unfolding evaluate last_scan
minute probes calls s now figures orders networks finished hosts alerts_then db a =
    let (after, found) =
      Checks.problems probes.port_up probes.json probes.port_order probes.host_order probes.later
        probes.current hosts now (last_scan networks finished) db in
    elim found [
      | none ↦ (after, none)
      | some checked ↦ (
        after,
        evaluate calls s now figures orders networks finished hosts checked (alerts_then a),
      )
    ]
