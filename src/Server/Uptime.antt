-- ===== src/Server/Uptime.antt =====
-- hope-server/src/uptime.rs: the checks of a device's availability. What opens a connection is not
-- modelled: the answer of a port is a value. The counters of a host stand in the metadata table, and
-- the scans are a map from networks to the end of their last scan and their interval in minutes.
pub mod Evidence
pub mod Checks
pub mod Kept
use hope.Base.{
  ℕ, zero, suc, ◌+◌, ◌*◌, min, max, String, Bool, true, false, not, ◌&&◌, ◌||◌, Option, none, some,
  List, [], ◌∷◌, any, F64, float, f64_lt, f64_le, f64_sub, leb, if◌then◌else◌,
}
use hope.Protocol.Types.{Host}

-- AGENT_STALE_SECONDS
abbrev pub agent_stale_seconds : F64
agent_stale_seconds = float 120

abbrev pub Scans : Type 0
Scans = String → Option (F64 × ℕ)

abbrev is_present : {A : Type 0} → Option A → Bool
is_present none = false
is_present (some a) = true

unfoldable pub has_agent : Host → Bool
has_agent host = is_present host.agent_id && not host.agent_revoked && not host.agent_uninstalled

-- A scan that ended after the device was last seen, long enough ago.
abbrev pub missed : Host → F64 → Option (F64 × ℕ) → Bool
missed host now none = false
missed host now (some (finished, interval)) =
    f64_lt host.last_seen finished
    && f64_lt (float (max (2 * interval * 60) 900)) (f64_sub now host.last_seen)

unfoldable pub device_down : Host → F64 → Scans → Bool
unfolding has_agent
device_down host now scans =
    if has_agent host
    then elim host.last_report [
      | none ↦ true
      | some at ↦ f64_lt agent_stale_seconds (f64_sub now at)
    ]
    else any (λ id. missed host now (scans id)) host.network_ids

-- The device check of `problems`: nothing is known where there is no evidence either way.
unfoldable pub device_check : Host → F64 → Scans → Option Bool
unfolding device_down
device_check host now scans =
    if has_agent host
      || any (λ id. is_present (scans id)) host.network_ids
      || f64_le (f64_sub now host.last_seen) agent_stale_seconds
    then some (device_down host now scans)
    else none

-- `count` is a u8.
unfoldable pub update_failure : ℕ → Bool → ℕ × Bool
update_failure count down = let next = if down then min (count + 1) 255 else 0 in (next, leb 2 next)

-- One check in the loop of `problems`: the counter, and whether the problem is open.
unfoldable pub evaluate : ℕ → Option Bool → ℕ × Bool
unfolding update_failure
evaluate count none = (count, leb 2 count)
evaluate count (some down) = update_failure count down
