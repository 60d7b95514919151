-- ===== src/Examples/Notify.antt =====
-- Alerts of a machine whose disk is full.
use hope.Base.{
  Bool, true, false, none, some, [], ◌∷◌, ◌≡◌, refl, float, ◌-ℤ◌, f64_lt, f64_le, f64_sub,
}
use hope.Protocol.Types.{Host, Disk, new_host, no_metrics}
use hope.Server.Notify.{Figures}
use hope.Server.Notify.Cleared.{Told, evaluate-Told}
use hope.Server.Notify.Evaluation.{Alerts, AlertRow, Orders, current_of, last_scan, evaluate}
use hope.Server.Notify.Replays.{evaluate-no_replay}
use hope.Server.Notify.Rows.{IsOrder}
use hope.Server.Outbox.{NotificationSettings, Calls}

abbrev plain : Calls
plain = record {
  hash = λ s. s;
  to_json = λ m. some m.title;
  from_json = λ s. none;
  send = λ m. true;
}

-- The figures of a disk that is nearly full.
abbrev nearly_full : Figures
nearly_full = record { times = λ x y. float 95; over = λ x y. float 0; rounded = λ x. "95" }

abbrev as_listed : Orders
as_listed = record { problems = λ es. es; before = λ rs. rs }

same-IsOrder {ℓ} : {A : Type ℓ} → IsOrder {A = A} (λ xs. xs)
same-IsOrder = record { old = λ xs x m. m; new = λ xs x m. m }

abbrev asked : Bool → NotificationSettings
asked enabled = record {
  ntfy_enabled = enabled;
  ntfy_server = "https://ntfy.sh";
  ntfy_topic = "home";
  notify_new_devices = true;
  notify_offline = true;
  notify_resources = true;
  notify_recovery = true;
}

abbrev root_disk : Disk
root_disk = record {
  name = "sda";
  mount = "/";
  filesystem = "ext4";
  total_bytes = float 100;
  available_bytes = float 5;
}

abbrev machine : Host
machine = record (new_host "h" "host" "agent") {
  agent_id = some "a";
  last_report = some (float 1000);
  metrics_received_at = some (float 1000);
  metrics = some (record no_metrics { disks = root_disk ∷ [] });
}

abbrev no_alerts : Alerts
no_alerts = record { rows = []; box = record { rows = []; next_id = 1 } }

-- The alert that opens.
abbrev disk_alert : AlertRow
disk_alert = record {
  key = "h:disk:/";
  host_id = "h";
  kind = "resource";
  message = "/ on host is 95% full";
  opened_at = float 1010;
}

evaluate-no_replay_example :
    (after : Alerts) × (evaluate plain
        (asked false)
        (float 1010)
        nearly_full
        as_listed
        []
        (λ id. none)
        (machine ∷ [])
        []
        no_alerts
      ≡ some after)
    × (after.box ≡ no_alerts.box)
    × (evaluate plain
          (asked true)
          (float 1010)
          nearly_full
          as_listed
          []
          (λ id. none)
          (machine ∷ [])
          []
          after
        ≡ some after)
evaluate-no_replay_example =
    evaluate-no_replay plain (asked false) (asked true) (float 1010) nearly_full as_listed []
      (λ id. none) (machine ∷ []) [] no_alerts same-IsOrder same-IsOrder refl

abbrev told_alerts : Alerts
told_alerts = record {
  rows = disk_alert ∷ [];
  box = record {
    rows =
        record {
          id = 1;
          alert_key = "h:disk:/";
          host_id = some "h";
          kind = "resource";
          recovery = false;
          destination = "https://ntfy.sh\nhome";
          body = "/ on host is 95% full";
          attempts = 0;
          next_attempt = float 1010;
          created_at = float 1010;
        }
        ∷ [];
    next_id = 2;
  };
}

evaluate-Told_example :
    Told plain
      (asked true)
      (float 1010)
      (machine ∷ [])
      (current_of nearly_full (float 1010) (last_scan [] (λ id. none)) (machine ∷ []) [])
      "h:disk:/"
      no_alerts
      told_alerts
unfolding evaluate f64_lt f64_sub ◌-ℤ◌ f64_le
evaluate-Told_example =
    evaluate-Told plain (asked true) (float 1010) nearly_full as_listed [] (λ id. none)
      (machine ∷ []) [] no_alerts told_alerts "h:disk:/" same-IsOrder same-IsOrder refl
