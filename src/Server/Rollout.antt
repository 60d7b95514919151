-- ===== src/Server/Rollout.antt =====
-- `schedule_auto_update` of hope-server/src/agents.rs: the automatic update of the fleet, one agent
-- at a time. The release on offer is what `current_linux_x86_64` of releases.rs finds. How a float
-- is written and read back is a parameter. The lists of hosts are read again after an expired
-- request is cleared, which the code does in its own copy.
pub mod Single
use hope.Base.{
  ℕ, String, Bool, true, false, not, ◌&&◌, ◌||◌, Option, none, some, List, [], ◌∷◌, any, find,
  sort_by, F64, float, str_eq, str_lt, f64_lt, f64_le, f64_sub, or_default, if◌then◌else◌,
}
use hope.Protocol.Types.{Host, update_request_seconds}
use hope.Protocol.Validation.Values.{is_empty}
use hope.Protocol.Version.{version_newer}
use hope.Server.Database.{Database, is_text, set_meta, find_host, put_host, hosts_by_name}
use hope.Server.Updates.{
  pending_update, is_given, auto_eligible, set_update_request, clear_request, is_automatic,
  agent_name,
}

-- `to_string` and `parse` of an f64.
pub record FloatText : Type 0 where
  pub show : F64 → String
  pub read : String → Option F64

-- An automatic request that its agent has not answered yet.
unfoldable pub in_flight : F64 → Host → Bool
unfolding pending_update
in_flight at h = is_automatic h && is_given (pending_update h at)

abbrev lapsed : F64 → Option F64 → Bool
lapsed at none = false
lapsed at (some requested) = f64_le update_request_seconds (f64_sub at requested)

unfoldable pub expired : F64 → Host → Bool
expired at h = is_automatic h && lapsed at h.update_requested_at

unfoldable pub failed_host : String → Host → Host
unfolding clear_request
failed_host release_id h = record (clear_request h) {
  auto_update_failed_release_id = some release_id;
}

abbrev is_off : Option String → Bool
is_off none = false
is_off (some enabled) = not (str_eq enabled "true")

unfoldable pub is_paused : String → Database → Bool
is_paused release_id db =
    is_off (db.meta "agent_auto_updates_enabled")
    || is_text (db.meta "auto_update_blocked_release_id") release_id

-- The rollout of a release starts with fresh entries.
unfoldable pub begin_release : String → Database → Database
unfolding set_meta
begin_release release_id db =
    if is_text (db.meta "auto_update_release_id") release_id
    then db
    else set_meta "auto_update_last_queued_at" "0" (
        set_meta "auto_update_blocked_release_id" "" (
          set_meta "auto_update_canary_passed" "false" (
            set_meta "auto_update_canary_agent" ""
              (set_meta "auto_update_release_id" release_id db))))

unfoldable pub canary_passed : Database → Bool
canary_passed db = is_text (db.meta "auto_update_canary_passed") "true"

unfoldable pub canary : Database → String
canary db = or_default "" (db.meta "auto_update_canary_agent")

-- The canary by its agent is still at work.
unfoldable pub canary_waits : F64 → Database → Bool
unfolding canary_passed canary find_host in_flight
canary_waits at db =
    not (canary_passed db)
    && not (is_empty (canary db))
    && elim (find_host (canary db) db) [ none ↦ false | some h ↦ in_flight at h ]

module _ (text : FloatText) (release_id release : String) (at : F64) where
  abbrev last_queued : Option String → F64
  last_queued none = float 0
  last_queued (some value) = or_default (float 0) (text.read value)

  unfoldable pub is_spacing : Database → Bool
  unfolding canary_passed
  is_spacing db =
      canary_passed db
      && f64_lt (f64_sub at (last_queued (db.meta "auto_update_last_queued_at"))) (float 900)

  abbrev asked_host : Host → Host
  asked_host = set_update_request release_id release "automatic" at

  unfoldable pub may_ask : Host → Bool
  may_ask h = auto_eligible h release release_id && not (is_given (pending_update h at))

  abbrev by_id : List Host → List Host
  by_id hosts = sort_by (λ a b. str_lt a.id b.id) hosts

  unfoldable pub queue_host : Host → Database → Database
  unfolding set_meta put_host
  queue_host h db =
      set_meta "auto_update_last_queued_at" (text.show at)
        (record db { hosts = put_host (asked_host h) db.hosts })

  unfoldable pub ask_found : Option Host → Database → Database
  unfolding queue_host
  ask_found none db = db
  ask_found (some h) db =
      set_meta "auto_update_canary_agent" (agent_name h.id h.agent_id) (queue_host h db)

  -- The first host in the order of the identities that may be asked, as the canary.
  unfoldable pub ask_canary : String → Database → Database
  unfolding may_ask ask_found
  ask_canary name db =
      ask_found
        (find (λ h. (is_empty name || str_eq (agent_name h.id h.agent_id) name) && may_ask h)
          (by_id (hosts_by_name db)))
        db

  abbrev canary_row : Database → Option Host
  canary_row db =
      if is_empty (canary db)
      then none
      else find (λ h. str_eq (agent_name h.id h.agent_id) (canary db)) (hosts_by_name db)

  abbrev is_updated : Option String → Bool
  is_updated none = false
  is_updated (some have) = not (version_newer release have)

  unfoldable pub with_row : Option Host → Database → Database
  unfolding ask_canary canary set_meta
  with_row none db = ask_canary (canary db) db
  with_row (some h) db =
      if is_updated h.agent_version
      then set_meta "auto_update_last_queued_at" (text.show at)
          (set_meta "auto_update_canary_passed" "true" db)
      else if not (auto_eligible h release release_id)
      then ask_canary "" (set_meta "auto_update_canary_agent" "" db)
      else ask_canary (canary db) db

  unfoldable pub with_canary : Database → Database
  unfolding with_row canary
  with_canary db = with_row (canary_row db) db

  -- A request that was stored without its canary is taken over.
  unfoldable pub recover : Host → Database → Database
  unfolding canary
  recover h db =
      if is_empty (canary db) && is_text h.update_target_release_id release_id
      then set_meta "auto_update_canary_agent" (agent_name h.id h.agent_id) db
      else db

  unfoldable pub choose_canary : Database → Database
  unfolding in_flight recover with_canary
  choose_canary db = elim (find (in_flight at) (hosts_by_name db)) [
    | some h ↦ recover h db
    | none ↦ with_canary db
  ]

  unfoldable pub queue_found : Option Host → Database → Database
  unfolding queue_host
  queue_found none db = db
  queue_found (some h) db = queue_host h db

  unfoldable pub choose_next : Database → Database
  unfolding in_flight may_ask queue_found
  choose_next db =
      if any (in_flight at) (hosts_by_name db)
      then db
      else queue_found (find may_ask (by_id (hosts_by_name db))) db

  unfoldable pub choose : Bool → Database → Database
  unfolding choose_canary choose_next
  choose false db = choose_canary db
  choose true db = choose_next db

  unfoldable pub expire : Host → Database → Database
  unfolding choose failed_host canary_passed set_meta put_host
  expire h db =
      let expired_release = or_default release_id h.update_target_release_id in
      let cleared = record db { hosts = put_host (failed_host expired_release h) db.hosts } in
      if str_eq expired_release release_id
      then set_meta "auto_update_blocked_release_id" release_id cleared
      else choose (canary_passed db) cleared

  unfoldable pub expire_found : Option Host → Database → Database
  unfolding expire choose canary_passed
  expire_found none db = choose (canary_passed db) db
  expire_found (some h) db = expire h db

  unfoldable pub advance_rollout : Database → Database
  unfolding canary_waits is_spacing expired expire_found
  advance_rollout db =
      if canary_waits at db || is_spacing db
      then db
      else expire_found (find (expired at) (hosts_by_name db)) db

unfoldable pub schedule : FloatText → Option (String × String) → F64 → Database → Database
unfolding is_paused advance_rollout begin_release
schedule text none at db = db
schedule text (some (release_id, release)) at db =
    if is_paused release_id db
    then db
    else advance_rollout text release_id release at (begin_release release_id db)
