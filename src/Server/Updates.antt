-- ===== src/Server/Updates.antt =====
-- hope-server/src/agents.rs: what a host's record says about a requested update of its agent, and
-- the requests of the administrator. The release on offer is an argument: its number in the
-- directory of releases, and its version.
use Prim.Native.String.{◌++◌ as ◌joined◌}
use hope.Base.{
  ℕ, suc, String, Bool, true, false, not, ◌&&◌, ◌||◌, Option, none, some, List, [], ◌∷◌, any, F64,
  str_eq, f64_lt, f64_sub, codes, contains, starts_with, ends_with, to_ascii_lowercase,
  eq_ignore_ascii_case, if◌then◌else◌,
}
use hope.Protocol.Types.{CollectorStatus, Host, Inventory, update_request_seconds}
use hope.Protocol.Version.{version_newer}
use hope.Server.Database.{Database, is_text, set_meta, put_host, hosts_by_name}
use hope.Server.Errors.{ApiError, ApiResult, ok, err, bad, not_found}

-- Of an agent's version, where it is known.
abbrev outdated : String → Option String → Bool
outdated target none = true
outdated target (some have) = version_newer target have

-- The version to update to, from the time of the request and its target.
abbrev pending : Option String → F64 → Option F64 → Option String → Option String
pending version at none target = none
pending version at (some requested) none = none
pending version at (some requested) (some target) =
    if outdated target version && f64_lt (f64_sub at requested) update_request_seconds
    then some target
    else none

unfoldable pub pending_update : Host → F64 → Option String
pending_update h at = pending h.agent_version at h.update_requested_at h.update_target

abbrev pub is_given {ℓ} : {A : Type ℓ} → Option A → Bool
is_given none = false
is_given (some a) = true

unfoldable pub settle_update_request : F64 → Host → Host
unfolding pending_update
settle_update_request at h =
    if is_given h.update_requested_at && not (is_given (pending_update h at))
    then record h { update_requested_at = none; update_target = none }
    else h

is_linux_os : String → Bool
is_linux_os os = contains (codes "linux") (codes (to_ascii_lowercase os))

unfoldable pub is_supported : Option Inventory → Bool
unfolding is_linux_os
is_supported none = false
is_supported (some i) = is_linux_os i.os && eq_ignore_ascii_case i.architecture "x86_64"

abbrev runs_older : String → Option String → Bool
runs_older release none = false
runs_older release (some have) = version_newer release have

unfoldable pub update_blocker : Host → String → Option String
unfolding is_supported
update_blocker h release =
    if not (is_given h.agent_id) || h.agent_revoked || h.agent_uninstalled
    then some "This host has no active agent to update"
    else if not (is_supported h.inventory)
    then some "Agent releases currently target Linux x86_64 hosts only"
    else if not (runs_older release h.agent_version)
    then some
        "This agent already runs the release the server offers, or has not reported its version"
    else if not (any (λ c. str_eq c.name "agent_update" && c.available) h.collectors)
    then some
        "This agent has no working updater. Run the upgrade command on the host once; later updates can start from H.O.P.E"
    else none

unfoldable pub reports_update_failure_for : String → String → Bool
reports_update_failure_for detail release_id =
    starts_with (codes "The last update failed") (codes detail)
    && ends_with (codes ("for release " joined release_id)) (codes detail)

abbrev failing : String → CollectorStatus → Option String → Bool
failing release_id c none = false
failing release_id c (some detail) =
    str_eq c.name "agent_update" && reports_update_failure_for detail release_id

unfoldable pub failure_reported : Host → String → Bool
failure_reported h release_id = any (λ c. failing release_id c c.detail) h.collectors

-- Whether the request has failed, and the host after the reading.
unfoldable pub reported_failure : Host → String → Bool × Host
unfolding failure_reported
reported_failure h release_id =
    let failed = failure_reported h release_id in
    if h.update_failure_predates_request
    then (false, record h { update_failure_predates_request = failed })
    else (failed, h)

unfoldable pub auto_eligible : Host → String → String → Bool
unfolding update_blocker
auto_eligible h release release_id =
    not h.auto_update_excluded
    && not (is_text h.auto_update_failed_release_id release_id)
    && is_supported h.inventory
    && not (is_given (update_blocker h release))

unfoldable pub set_update_request : String → String → String → F64 → Host → Host
unfolding failure_reported
set_update_request release_id release source at h =
    let asked = record h {
      update_requested_at = some at;
      update_target = some release;
      update_target_release_id = some release_id;
      update_request_source = some source;
    } in
    record asked { update_failure_predates_request = failure_reported asked release_id }

-- The four fields of a request.
unfoldable pub clear_request : Host → Host
clear_request h = record h {
  update_requested_at = none;
  update_target = none;
  update_target_release_id = none;
  update_request_source = none;
}

-- `offered_release`.
abbrev pub no_release : ApiError
no_release = bad "This server publishes no signed agent release for Linux x86_64 to update to"

module _ (release_id release : String) (at : F64) where
  abbrev asked_by_hand : Host → Host
  asked_by_hand = set_update_request release_id release "manual" at

  -- The loop of `request_all_updates`: the hosts that were asked, and their number.
  unfoldable pub ask_all : List Host → Database → ℕ × Database
  ask_all [] db = (0, db)
  ask_all (h ∷ hs) db =
      let more = ask_all hs (
        if is_given (update_blocker h release)
        then db
        else record db { hosts = put_host (asked_by_hand h) db.hosts }) in
      if is_given (update_blocker h release) then more else (suc more.0, more.1)

  abbrev ask_one : Host → Database → Database × ApiResult Bool
  ask_one h db = elim (update_blocker h release) [
    | some reason ↦ (db, err (bad reason))
    | none ↦ (record db { hosts = put_host (asked_by_hand h) db.hosts }, ok true)
  ]

-- `request_update`, with the host that the address names.
unfoldable pub request_update :
    Option (String × String) → F64 → Option Host → Database → Database × ApiResult Bool
request_update offered at none db = (db, err not_found)
request_update none at (some h) db = (db, err no_release)
request_update (some (release_id, release)) at (some h) db = ask_one release_id release at h db

unfoldable pub request_all_updates :
    Option (String × String) → F64 → Database → Database × ApiResult ℕ
unfolding ask_all
request_all_updates none at db = (db, err no_release)
request_all_updates (some (release_id, release)) at db =
    let (count, after) = ask_all release_id release at (hosts_by_name db) db in (after, ok count)

-- `host.agent_id.as_deref().unwrap_or(&host.id)`
abbrev pub agent_name : String → Option String → String
agent_name id none = id
agent_name id (some agent_id) = agent_id

abbrev pub is_automatic : Host → Bool
is_automatic h = is_text h.update_request_source "automatic"

abbrev excluded_host : Bool → Host → Host
excluded_host excluded h =
    let marked = record h { auto_update_excluded = excluded } in
    if excluded && is_automatic h then clear_request marked else marked

-- `set_auto_update_exclusion`, with the host that the address names.
unfoldable pub set_auto_update_exclusion : Bool → Option Host → Database → Database × ApiResult Bool
set_auto_update_exclusion excluded none db = (db, err not_found)
set_auto_update_exclusion excluded (some h) db =
    let freed =
      if excluded && is_text (db.meta "auto_update_canary_agent") (agent_name h.id h.agent_id)
      then set_meta "auto_update_canary_agent" "" db
      else db in
    (record freed { hosts = put_host (excluded_host excluded h) freed.hosts }, ok excluded)
