-- ===== src/Server/Uptime/Checks.antt =====
-- hope-server/src/uptime.rs: `problems`, the checks of all hosts with their counters, and `configure`.
-- Whether a port answers is a parameter, so are the orders in which the checks of ports and of hosts
-- end, serde_json for the counters, and what `state.host` finds.
use Prim.Native.String.{◌++◌}
use mathlib.Core.List.{◌++◌ as ◌+++◌}
use hope.Base.{
  ℕ, String, Bool, true, false, not, ◌&&◌, ◌||◌, Option, none, some, List, [], ◌∷◌, map, filter,
  any, length, F64, str_eq, ltb, ◌==◌, IpAddr, parse_ip, show_ℕ, sort_by, dedup_by, if◌then◌else◌,
}
use hope.Agent.Queue.{◌>>=◌}
use hope.Protocol.Types.{Host, UptimeSettings}
use hope.Server.Database.{Database, set_meta, put_host, is_text}
use hope.Server.Errors.{ApiResult, ok, err, bad, not_found}
use hope.Server.Notify.{Problem}
use hope.Server.Notify.Evaluation.{AlertRow, Alerts}
use hope.Server.Outbox.{Row}
use hope.Server.Uptime.{Scans, device_check, evaluate}

-- The counters of a host, by their checks.
abbrev pub Failures : Type 0
Failures = List (String × ℕ)

pub record FailuresJson : Type 0 where
  pub read : String → Option Failures
  pub show : Failures → String

-- A check's name, its result, and the message of its problem.
pub record Check : Type 0 where
  pub name : String
  pub down : Option Bool
  pub message : String

abbrev addresses_of : List String → List IpAddr
addresses_of [] = []
addresses_of (a ∷ as_) = elim (parse_ip a) [
  | none ↦ addresses_of as_
  | some ip ↦ ip ∷ addresses_of as_
]

unfoldable pub addresses : Host → List IpAddr
unfolding parse_ip
addresses host = addresses_of host.addresses

abbrev has_none {ℓ} : {A : Type ℓ} → List A → Bool
has_none [] = true
has_none (x ∷ xs) = false

abbrev same_ports : List ℕ → List ℕ → Bool
same_ports [] [] = true
same_ports (p ∷ ps) (q ∷ qs) = (p == q) && same_ports ps qs
same_ports _ _ = false

abbrev same_flag : Bool → Bool → Bool
same_flag a b = if a then b else not b

abbrev pub same_settings : UptimeSettings → UptimeSettings → Bool
same_settings a b =
    same_flag a.enabled b.enabled && same_flag a.device b.device && same_ports a.ports b.ports

module _ (port_up : List IpAddr → ℕ → Bool) where
  -- No current address means unknown.
  abbrev port_check : Host → ℕ → Check
  port_check host port = record {
    name = "tcp:" ++ show_ℕ port;
    down = if has_none (addresses host) then none else some (not (port_up (addresses host) port));
    message = "TCP port " ++ (show_ℕ port ++ (" on " ++ (host.name ++ " is down")));
  }

  unfoldable pub checks : (List Check → List Check) → F64 → Scans → Host → List Check
  unfolding device_check addresses show_ℕ
  checks port_order now scans host =
      (if host.uptime.device
        then record {
          name = "device";
          down = device_check host now scans;
          message = host.name ++ " is down";
        }
          ∷ []
        else [])
      +++ port_order (map (port_check host) host.uptime.ports)

abbrev pub count_of : String → Failures → ℕ
count_of name [] = 0
count_of name ((n, count) ∷ rest) = if str_eq n name then count else count_of name rest

abbrev pub put_count : String → ℕ → Failures → Failures
put_count name count failures = (name, count) ∷ filter (λ f. not (str_eq f.0 name)) failures

-- The loop over the checks of a host: its counters, and the problems that are open.
unfoldable pub count_checks : Host → List Check → Failures → Failures × List (Problem × String)
unfolding evaluate
count_checks host [] failures = (failures, [])
count_checks host (c ∷ cs) failures =
    let (count, is_down) = evaluate (count_of c.name failures) c.down in
    let (after, found) = count_checks host cs (put_count c.name count failures) in
    (
      after,
      (if is_down
          then (
            record {
              key = host.id ++ (":uptime:" ++ c.name);
              offline = true;
              critical = true;
              message = c.message;
            },
            host.id,
          )
            ∷ found
          else found),
    )

abbrev pub kept_settings : Host → Option Host → Bool
kept_settings host none = false
kept_settings host (some current) = same_settings current.uptime host.uptime

module _ (json : FailuresJson) (current : String → Option Host) where
  abbrev pub counters_of : Option String → Option Failures
  counters_of none = some []
  counters_of (some text) = json.read text

  -- One turn of the loop over the hosts, unless the settings have changed; an error stops it.
  unfoldable pub settle_host :
      Host × List Check → Database → Database × Option (List (Problem × String))
  unfolding count_checks set_meta
  settle_host (host, cs) db =
      if not (kept_settings host (current host.id))
      then (db, some [])
      else elim (counters_of (db.meta ("uptime:" ++ host.id))) [
        | none ↦ (db, none)
        | some failures ↦
            let (after, found) = count_checks host cs failures in
            (set_meta ("uptime:" ++ host.id) (json.show after) db, some found)
      ]

  unfoldable pub settle_hosts :
      List (Host × List Check) → Database → Database × Option (List (Problem × String))
  unfolding settle_host
  settle_hosts [] db = (db, some [])
  settle_hosts (h ∷ hs) db =
      let (mid, found) = settle_host h db in
      let (after, rest) = settle_hosts hs mid in
      elim found [ none ↦ (mid, none) | some ps ↦ (after, rest >>= (λ qs. some (ps +++ qs))) ]

-- `later` is what other handlers do before the lock is taken.
unfoldable pub problems :
    (List IpAddr → ℕ → Bool)
    → FailuresJson
    → (List Check → List Check)
    → (List (Host × List Check) → List (Host × List Check))
    → (Database → Database)
    → (Database → String → Option Host)
    → List Host
    → F64
    → Scans
    → Database
    → Database × Option (List (Problem × String))
unfolding checks settle_hosts
problems port_up json port_order host_order later current hosts now scans db =
    let watched = filter (λ (h : Host). h.uptime.enabled) hosts in
    let results = host_order (map (λ h. (h, checks port_up port_order now scans h)) watched) in
    settle_hosts json (current (later db)) results (later db)

-- `configure`: the ports in order, each once.
unfoldable pub normalized : UptimeSettings → UptimeSettings
unfolding sort_by dedup_by
normalized input = record input { ports = dedup_by (λ p q. p == q) (sort_by ltb input.ports) }

abbrev of_uptime : String → String → String → Bool
of_uptime id host_id kind = str_eq host_id id && str_eq kind "uptime"

-- The alerts of the checks end without a message, and their messages are dropped.
abbrev pub forgotten : String → Alerts → Alerts
forgotten id a = record a {
  rows = filter (λ (r : AlertRow). not (of_uptime id r.host_id r.kind)) a.rows;
  box = record a.box {
    rows = filter (λ (r : Row). not (is_text r.host_id id && str_eq r.kind "uptime")) a.box.rows;
  };
}

abbrev reconfigured :
    UptimeSettings → Host → Alerts → Database → (Alerts × Database) × ApiResult Host
reconfigured input host a db =
    let watched = record host { uptime = input } in
    if same_settings host.uptime input then ((a, db), ok host) else (
      (
        forgotten host.id a,
        record (set_meta ("uptime:" ++ host.id) "{}" db) { hosts = put_host watched db.hosts },
      ),
      ok watched,
    )

abbrev configure_host :
    UptimeSettings → Option Host → Alerts → Database → (Alerts × Database) × ApiResult Host
configure_host input none a db = ((a, db), err not_found)
configure_host input (some host) a db =
    if input.enabled && not (has_none input.ports) && has_none (addresses host)
    then ((a, db), err (bad "This device has no IP address to check"))
    else reconfigured input host a db

-- With the host that the address names.
unfoldable pub configure :
    UptimeSettings → Option Host → Alerts → Database → (Alerts × Database) × ApiResult Host
unfolding normalized addresses set_meta put_host
configure input host a db =
    if ltb 32 (length input.ports) || any (λ p. p == 0) input.ports
    then ((a, db), err (bad "Choose at most 32 TCP ports between 1 and 65535"))
    else if input.enabled && not input.device && has_none input.ports
    then ((a, db), err (bad "Enable device downtime or choose a TCP port"))
    else configure_host (normalized input) host a db
