-- ===== src/Examples/Outbox.antt =====
-- The notification queue with two messages of one alert.
use hope.Base.{
  ℕ, ◌≤◌, ◌≡◌, ◌⊎◌, refl, inl, Bool, true, false, Option, none, some, List, [], ◌∷◌, arith, float,
  f64_le, length,
}
use hope.Server.Outbox.{
  NotificationSettings, Message, Row, Outbox, Calls, Outcome, max_pending, due, settle, enqueue,
}
use hope.Server.Outbox.Order.{In, SameMessage, due_lem, settle-keeps}
use hope.Server.Outbox.Bounds.{IsQueue, IsNewest, enqueue_lem}

abbrev hello : Message
hello = record { title = "t"; body = "b"; priority = 3; tags = ""; host_id = none }

abbrev calls : Calls
calls = record {
  hash = λ text. text;
  to_json = λ m. some "{}";
  from_json = λ text. some hello;
  send = λ m. true;
}

abbrev settings : NotificationSettings
settings = record {
  ntfy_enabled = true;
  ntfy_server = "s";
  ntfy_topic = "t";
  notify_new_devices = true;
  notify_offline = true;
  notify_resources = true;
  notify_recovery = true;
}

abbrev row : ℕ → Row
row id = record {
  id = id;
  alert_key = "host:offline";
  host_id = none;
  kind = "offline";
  recovery = false;
  destination = "s\nt";
  body = "{}";
  attempts = 0;
  next_attempt = float 10;
  created_at = float 10;
}

abbrev two_rows : Outbox
two_rows = record { rows = row 1 ∷ row 2 ∷ []; next_id = 3 }

two_rows-IsQueue : IsQueue two_rows
two_rows-IsQueue = record { bounded = omega arith; given = (omega arith, (omega arith, tt)) }

due_lem_example :
    (length (due (float 20) two_rows.rows) ≤ 4)
    × ((r : Row)
        → In r (due (float 20) two_rows.rows)
        → In r two_rows.rows
          × (f64_le r.next_attempt (float 20) ≡ true)
          × ((older : Row)
              → In older two_rows.rows
              → older.alert_key ≡ r.alert_key
              → r.id ≤ older.id))
    × ((r s : Row)
        → In r (due (float 20) two_rows.rows)
        → In s (due (float 20) two_rows.rows)
        → r.alert_key ≡ s.alert_key
        → r.id ≡ s.id)
due_lem_example = due_lem (float 20) two_rows.rows

abbrev failed : List (Option Outcome)
failed = some (record { id = 1; attempts = 0; accepted = false }) ∷ []

settle-keeps_example :
    (s : Row) × In s (settle (float 20) failed 0 two_rows).0.rows × SameMessage (row 1) s
settle-keeps_example =
    settle-keeps (float 20) failed 0 two_rows (row 1) (inl refl) ((λ e. refl), tt)

enqueue_lem_example :
    (after : Outbox) × (added : Bool) × (enqueue calls settings "k" "offline" false hello
        (float 20)
        two_rows
      ≡ some (after, added))
    × IsQueue after
    × (((added ≡ true)
          × (row : Row) × IsNewest calls settings "k" "offline" "{}" false hello
              (float 20)
              two_rows
              after
              row)
        ⊎ ((added ≡ false) × (after ≡ two_rows) × (2 ≡ max_pending)))
enqueue_lem_example =
    enqueue_lem calls settings "k" "offline" "{}" false hello (float 20) two_rows two_rows-IsQueue
      refl
