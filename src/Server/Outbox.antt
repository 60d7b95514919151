-- ===== src/Server/Outbox.antt =====
-- hope-server/src/notification_delivery.rs: the queue of notifications. The table is the list of its
-- rows by ascending id, and what AUTOINCREMENT gives out next. The hash, serde_json and the request
-- to the ntfy server are parameters; failures of the database are not modelled.
pub mod Order
pub mod Bounds
use Prim.Native.String.{◌++◌}
use hope.Base.{
  ℕ, suc, ◌+◌, ◌*◌, ◌^◌, min, String, Bool, true, false, not, ◌&&◌, ◌||◌, Option, none, some, List,
  [], ◌∷◌, map, F64, float, f64_le, f64_add, str_eq, ltb, ◌==◌, length, take, filter, any,
  if◌then◌else◌,
}
use mathlib.Core.List.{◌++◌ as ◌+++◌}
use hope.Agent.Delivery.{saturating_mul, saturating_pow}

-- MAX_PENDING and CONCURRENCY
abbrev pub max_pending : ℕ
max_pending = 4096

abbrev pub concurrency : ℕ
concurrency = 4

-- The settings that delivery reads.
pub record NotificationSettings : Type 0 where
  pub ntfy_enabled : Bool
  pub ntfy_server : String
  pub ntfy_topic : String
  pub notify_new_devices : Bool
  pub notify_offline : Bool
  pub notify_resources : Bool
  pub notify_recovery : Bool

pub record Message : Type 0 where
  pub title : String
  pub body : String
  pub priority : ℕ
  pub tags : String
  pub host_id : Option String

pub record Row : Type 0 where
  pub id : ℕ
  pub alert_key : String
  pub host_id : Option String
  pub kind : String
  pub recovery : Bool
  pub destination : String
  pub body : String
  pub attempts : ℕ
  pub next_attempt : F64
  pub created_at : F64

pub record Outbox : Type 0 where
  pub rows : List Row
  pub next_id : ℕ

-- What the module calls.
pub record Calls : Type 0 where
  pub hash : String → String
  pub to_json : Message → Option String
  pub from_json : String → Option Message
  pub send : Message → Bool

unfoldable pub wanted : NotificationSettings → String → Bool → Bool
wanted s kind recovery =
    s.ntfy_enabled
    && not (str_eq s.ntfy_topic "")
    && (not recovery || s.notify_recovery)
    && (if str_eq kind "offline"
        then s.notify_offline
        else if str_eq kind "resource"
        then s.notify_resources
        else if str_eq kind "new_device"
        then s.notify_new_devices
        else true)

-- The seconds until the next attempt.
unfoldable pub delay : ℕ → ℕ
unfolding saturating_mul saturating_pow
delay attempts = min (saturating_mul 5 (saturating_pow 2 (min attempts 8))) 900

-- The oldest message of its alert, whose time has come.
unfoldable pub eligible : F64 → List Row → Row → Bool
eligible now rows row =
    f64_le row.next_attempt now
    && not (any (λ older. str_eq older.alert_key row.alert_key && ltb older.id row.id) rows)

unfoldable pub due : F64 → List Row → List Row
unfolding eligible
due now rows = take concurrency (filter (eligible now rows) rows)

-- A message's id, its attempts, and whether it is done with.
pub record Outcome : Type 0 where
  pub id : ℕ
  pub attempts : ℕ
  pub accepted : Bool

unfoldable pub postponed : F64 → Outcome → Row → Row
unfolding delay
postponed now o row =
    if row.id == o.id
    then record row {
      attempts = min (row.attempts + 1) 1_000_000;
      next_attempt = f64_add now (float (delay o.attempts));
    }
    else row

unfoldable pub settle_one : F64 → Outcome → Outbox → Outbox
unfolding postponed
settle_one now o box =
    if o.accepted
    then record box { rows = filter (λ row. not (row.id == o.id)) box.rows }
    else record box { rows = map (postponed now o) box.rows }

-- The loop over the outcomes, in the order in which the requests ended; an error stops it. The
-- number is that of the messages that are done with, `none` where it was stopped.
unfoldable pub settle : F64 → List (Option Outcome) → ℕ → Outbox → Outbox × Option ℕ
unfolding settle_one
settle now [] completed box = (box, some completed)
settle now (none ∷ rest) completed box = (box, none)
settle now (some o ∷ rest) completed box =
    settle now rest (if o.accepted then completed + 1 else completed) (settle_one now o box)

module _ (calls : Calls) where
  unfoldable pub destination : NotificationSettings → String
  destination s = calls.hash (s.ntfy_server ++ ("\n" ++ s.ntfy_topic))

  -- `none` where the message cannot be serialized; else whether a row was added.
  unfoldable pub enqueue :
      NotificationSettings
      → String
      → String
      → Bool
      → Message
      → F64
      → Outbox
      → Option (Outbox × Bool)
  unfolding destination
  enqueue s key kind recovery message now box = elim (calls.to_json message) [
    | none ↦ none
    | some body ↦ some (
        if ltb (length box.rows) max_pending
        then (
          record {
            rows =
                box.rows
                +++ (record {
                  id = box.next_id;
                  alert_key = key;
                  host_id = message.host_id;
                  kind = kind;
                  recovery = recovery;
                  destination = destination s;
                  body = body;
                  attempts = 0;
                  next_attempt = now;
                  created_at = now;
                }
                    ∷ []);
            next_id = suc box.next_id;
          },
          true,
        )
        else (box, false))
  ]

  -- What comes of one row: a message for another destination, or one that is no longer wanted, is
  -- done with; `none` where its body is no message.
  unfoldable pub attempt : NotificationSettings → Row → Option Outcome
  unfolding destination wanted
  attempt s row =
      if not (str_eq row.destination (destination s)) || not (wanted s row.kind row.recovery)
      then some (record { id = row.id; attempts = row.attempts; accepted = true })
      else elim (calls.from_json row.body) [
        | none ↦ none
        | some message ↦
            some (record { id = row.id; attempts = row.attempts; accepted = calls.send message })
      ]

  -- One run: `order` is the order in which the requests end, and `later` what other tasks make of
  -- the table meanwhile.
  unfoldable pub deliver :
      NotificationSettings
      → F64
      → F64
      → (List (Option Outcome) → List (Option Outcome))
      → (Outbox → Outbox)
      → Outbox
      → Outbox × Option ℕ
  unfolding due attempt settle
  deliver s now then_now order later box =
      settle then_now (order (map (attempt s) (due now box.rows))) 0 (later box)
