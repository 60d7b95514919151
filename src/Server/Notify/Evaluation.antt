-- ===== src/Server/Notify/Evaluation.antt =====
-- hope-server/src/notify.rs, `evaluate`: alerts open and close, and say so. The table of alerts is
-- the list of its rows. Both hash maps are visited in an order that is a parameter.
use Prim.Native.String.{◌++◌}
use Prim.Native.Char.{code}
use mathlib.Core.List.{◌++◌ as ◌+++◌}
use hope.Base.{
  String, Bool, true, false, not, ◌&&◌, ◌||◌, Option, none, some, List, [], ◌∷◌, map, filter, find,
  any, F64, str_eq, ◌==◌, codes, starts_with, contains, if◌then◌else◌,
}
use hope.Agent.Queue.{◌>>=◌}
use hope.Protocol.Types.{Host, Network}
use hope.Server.Notify.{Problem, Figures, problems, resource_observed, flat_map}
use hope.Server.Outbox.{NotificationSettings, Message, Outbox, Calls, enqueue}
use hope.Server.Uptime.{Scans}

-- A row of `alerts`.
pub record AlertRow : Type 0 where
  pub key : String
  pub host_id : String
  pub kind : String
  pub message : String
  pub opened_at : F64

pub record Alerts : Type 0 where
  pub rows : List AlertRow
  pub box : Outbox

-- The problems by their keys, each with its host.
abbrev pub Current : Type 0
Current = List (Problem × String)

-- The orders in which the maps are visited.
pub record Orders : Type 0 where
  pub problems : Current → Current
  pub before : List AlertRow → List AlertRow

abbrev pub has_key : String → Current → Bool
has_key key current = any (λ e. str_eq e.0.key key) current

abbrev pub has_row : String → List AlertRow → Bool
has_row key rows = any (λ (r : AlertRow). str_eq r.key key) rows

-- The last completed scans of the networks that are enabled.
unfoldable pub last_scan : List Network → (String → Option F64) → Scans
last_scan networks finished id =
    elim (find (λ (n : Network). n.enabled && str_eq n.id id) networks) [
      | none ↦ none
      | some network ↦ elim (finished id) [
        | none ↦ none
        | some at ↦ some (at, network.interval_minutes)
      ]
    ]

abbrev put_problem : Problem × String → Current → Current
put_problem entry current = filter (λ e. not (str_eq e.0.key entry.0.key)) current +++ (entry ∷ [])

abbrev put_all : List (Problem × String) → Current → Current
put_all [] current = current
put_all (e ∷ es) current = put_all es (put_problem e current)

-- Where uptime checks watch the device, they report it.
abbrev host_entries : Figures → F64 → Scans → Host → List (Problem × String)
host_entries figures now scans host =
    map (λ p. (p, host.id))
      (filter (λ (p : Problem). not (p.offline && host.uptime.enabled && host.uptime.device))
        (problems figures now scans host))

-- `checked` are the problems that the uptime checks found.
unfoldable pub current_of : Figures → F64 → Scans → List Host → List (Problem × String) → Current
unfolding problems
current_of figures now scans hosts checked =
    put_all (flat_map (host_entries figures now scans) hosts +++ checked) []

unfoldable pub is_uptime : String → Bool
unfolding contains
is_uptime key = contains (codes ":uptime:") (codes key)

abbrev pub kind_of : Problem → String
kind_of p = if is_uptime p.key then "uptime" else if p.offline then "offline" else "resource"

abbrev pub opening_wanted : NotificationSettings → Problem → Bool
opening_wanted s p =
    if is_uptime p.key then true else if p.offline then s.notify_offline else s.notify_resources

abbrev pub opening_message : Problem → String → Message
opening_message p host_id = record {
  title = p.message;
  body =
      if p.offline
      then "Open H.O.P.E for its last report and history."
      else "Open H.O.P.E for details.";
  priority = if p.critical then 4 else 3;
  tags = if p.offline then "red_circle" else "warning";
  host_id = some host_id;
}

abbrev pub alert_row : F64 → Problem → String → AlertRow
alert_row now p host_id = record {
  key = p.key;
  host_id = host_id;
  kind = kind_of p;
  message = p.message;
  opened_at = now;
}

-- INSERT OR IGNORE INTO alerts
abbrev pub insert_row : AlertRow → List AlertRow → List AlertRow
insert_row row rows = if has_row row.key rows then rows else rows +++ (row ∷ [])

abbrev pub delete_row : String → List AlertRow → List AlertRow
delete_row key rows = filter (λ (r : AlertRow). not (str_eq r.key key)) rows

-- Notifications are on.
abbrev pub is_enabled : NotificationSettings → Bool
is_enabled s = s.ntfy_enabled && not (str_eq s.ntfy_topic "")

-- `key.split(':').next()`
abbrev before_colon : String → String
before_colon String.[] = String.[]
before_colon (String.◌∷◌ c s) = if code c == b':' then String.[] else String.◌∷◌ c (before_colon s)

abbrev pub resolved_message : AlertRow → Message
resolved_message row = record {
  title = "Resolved: " ++ row.message;
  body = "This problem has cleared.";
  priority = 2;
  tags = "white_check_mark";
  host_id = some (before_colon row.key);
}

abbrev owns : String → Host → String → Bool
owns suffix host key = starts_with (codes (host.id ++ suffix)) (codes key)

-- A problem of a resource of which the host says nothing.
unfoldable pub is_unobserved : List Host → F64 → AlertRow → Bool
unfolding resource_observed starts_with
is_unobserved hosts now row =
    str_eq row.kind "resource" && elim (find (λ h. owns ":" h row.key) hosts) [
      | none ↦ false
      | some host ↦ not (resource_observed host row.key now)
    ]

abbrev pub closing_wanted : NotificationSettings → List Host → AlertRow → Bool
closing_wanted s hosts row =
    if str_eq row.kind "uptime"
    then any (λ (h : Host). h.uptime.enabled && owns ":uptime:" h row.key) hosts
    else if str_eq row.kind "offline"
    then s.notify_offline
      && not (any (λ (h : Host). h.uptime.enabled && h.uptime.device && owns ":" h row.key) hosts)
    else s.notify_resources

module _ (calls : Calls) (s : NotificationSettings) (now : F64) where
  -- The message, where one is wanted, and whether there was room for it.
  abbrev pub announce : String → String → Bool → Message → Bool → Outbox → Option (Outbox × Bool)
  announce key kind recovery message told box =
      if is_enabled s && told
      then enqueue calls s key kind recovery message now box
      else some (box, true)

  abbrev pub with_opened : AlertRow → List AlertRow → Outbox × Bool → Alerts
  with_opened row rows (box, room) = record {
    rows = if room then insert_row row rows else rows;
    box = box;
  }

  abbrev pub with_closed : String → List AlertRow → Outbox × Bool → Alerts
  with_closed key rows (box, room) = record {
    rows = if room then delete_row key rows else rows;
    box = box;
  }

  -- One turn of the loop over the problems; `before` are the alerts that were open.
  unfoldable pub open_one : List AlertRow → Problem × String → Alerts → Option Alerts
  unfolding enqueue is_uptime
  open_one before (p, host_id) a = if has_row p.key before then some a else do
    told ← announce p.key (kind_of p) false (opening_message p host_id) (opening_wanted s p) a.box
    some (with_opened (alert_row now p host_id) a.rows told)

  unfoldable pub open_all : List AlertRow → Current → Alerts → Option Alerts
  unfolding open_one
  open_all before [] a = some a
  open_all before (e ∷ es) a = open_one before e a >>= open_all before es

  -- One turn of the loop over the alerts that were open.
  unfoldable pub close_one : List Host → Current → AlertRow → Alerts → Option Alerts
  unfolding enqueue is_unobserved starts_with
  close_one hosts current row a =
      if has_key row.key current || is_unobserved hosts now row then some a else do
        told ←
            announce row.key row.kind true (resolved_message row)
              (closing_wanted s hosts row && s.notify_recovery) a.box
        some (with_closed row.key a.rows told)

  unfoldable pub close_all : List Host → Current → List AlertRow → Alerts → Option Alerts
  unfolding close_one
  close_all hosts current [] a = some a
  close_all hosts current (r ∷ rs) a = close_one hosts current r a >>= close_all hosts current rs

  -- Both loops, over the problems of this minute.
  unfoldable pub settle_alerts : Orders → List Host → Current → Alerts → Option Alerts
  unfolding open_all close_all
  settle_alerts orders hosts current a =
      open_all a.rows (orders.problems current) a >>= close_all hosts current (orders.before a.rows)

  -- `none` where a message cannot be serialized: nothing is committed then.
  unfoldable pub evaluate :
      Figures
      → Orders
      → List Network
      → (String → Option F64)
      → List Host
      → List (Problem × String)
      → Alerts
      → Option Alerts
  unfolding current_of last_scan settle_alerts
  evaluate figures orders networks finished hosts checked a =
      settle_alerts orders hosts
        (current_of figures now (last_scan networks finished) hosts checked) a
