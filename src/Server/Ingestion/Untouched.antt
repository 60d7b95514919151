-- ===== src/Server/Ingestion/Untouched.antt =====
-- The steps of a report that leave the live figures of a host, and the heads, alone.
use hope.Base.{
  ◌≡◌, refl, ◌∙◌, inl, inr, String, Bool, true, false, not, ◌&&◌, Option, none, some, List, [], ◌∷◌,
  arith, F64, if_both, Bool-cases, find,
}
use hope.Protocol.Types.{AgentReport, CollectorStatus, Host, Metrics}
use hope.Server.Database.{Database, is_text, put_agent_host, set_meta}
use hope.Server.Updates.{
  is_given, pending_update, clear_request, reported_failure, settle_update_request,
}
use hope.Server.Ingestion.{Elsewhere, is_crowded, add_sample}
use hope.Server.Ingestion.Transaction.{
  Settled, settle_outcome, record_success, record_failure, reconciled, failed_by_hand,
  settle_manual, failed_rollout, settle_automatic, unsettled, given_up, rolled_out,
}

-- The agent of a host and its live figures.
abbrev pub live_part : Host → Option String × Option F64 × Option Metrics × List CollectorStatus
live_part h = (h.agent_id, h.last_collected_at, h.metrics, h.collectors)

-- A record, or what was settled of it, with the agent and the live figures of another.
record IsKept (h k : Host) : Type 0 where
  kept : live_part h ≡ live_part k

record IsSettled (s : Settled) (k : Host) : Type 0 where
  kept : live_part s.host ≡ live_part k

reported_failure-live : (h : Host) (id : String) → live_part (reported_failure h id).1 ≡ live_part h
unfolding reported_failure
reported_failure-live h id = elim (Bool-cases h.update_failure_predates_request) [
  | inl before ↦ rw (before, reported_failure) refl
  | inr fresh ↦ rw (fresh, reported_failure) refl
]

failed_by_hand-live : (p : Bool × Host) → live_part (failed_by_hand p) ≡ live_part p.1
unfolding clear_request
failed_by_hand-live (true, h) = refl
failed_by_hand-live (false, h) = refl

settle_manual-live : (id : Option String) (h : Host) → live_part (settle_manual id h) ≡ live_part h
settle_manual-live none h = refl
settle_manual-live (some id) h =
    failed_by_hand-live (reported_failure h id) ∙ reported_failure-live h id

failed_rollout-live :
    (id : String) (p : Bool × Host) → live_part (failed_rollout id p).host ≡ live_part p.1
unfolding clear_request
failed_rollout-live id (true, h) = refl
failed_rollout-live id (false, h) = refl

given_up-IsSettled : (id : String) (h : Host) → IsSettled (given_up id h) h
unfolding clear_request
given_up-IsSettled id h = record { kept = refl }

rolled_out-IsSettled : (h : Host) → IsSettled (rolled_out h) h
unfolding clear_request
rolled_out-IsSettled h = record { kept = refl }

failed_rollout-IsSettled :
    (id : String) (h : Host) → IsSettled (failed_rollout id (reported_failure h id)) h
failed_rollout-IsSettled id h = record {
  kept = failed_rollout-live id (reported_failure h id) ∙ reported_failure-live h id;
}

settle_automatic-IsSettled :
    (at : F64) (target id : Option String) (h : Host)
    → IsSettled (settle_automatic at target id h) h
unfolding clear_request
settle_automatic-IsSettled at none id h = record { kept = refl }
settle_automatic-IsSettled at (some target) none h = record { kept = refl }
settle_automatic-IsSettled at (some target) (some id) h =
    if_both (λ s. IsSettled s h) _ (given_up-IsSettled id h)
      (if_both (λ s. IsSettled s h) _ (rolled_out-IsSettled h) (failed_rollout-IsSettled id h))

unsettled-IsSettled : (h k : Host) → IsKept h k → IsSettled (unsettled h) k
unsettled-IsSettled h k e = record { kept = e.kept }

settle_manual-IsKept : (id : Option String) (h : Host) → IsKept (settle_manual id h) h
settle_manual-IsKept id h = record { kept = settle_manual-live id h }

same-IsKept : (h : Host) → IsKept h h
same-IsKept h = record { kept = refl }

automatic-IsSettled :
    (at : F64) (h k : Host)
    → IsKept h k
    → IsSettled (settle_automatic at h.update_target h.update_target_release_id h) k
automatic-IsSettled at h k e = record {
  kept = (settle_automatic-IsSettled at h.update_target h.update_target_release_id h).kept ∙ e.kept;
}

pub settle_outcome-live :
    (at : F64) (live : Bool) (h : Host) → live_part (settle_outcome at live h).host ≡ live_part h
unfolding settle_outcome
settle_outcome-live at live h =
    let by_hand =
      if_both (λ k. IsKept k h) (live && is_text h.update_request_source "manual")
        (settle_manual-IsKept h.update_target_release_id h) (same-IsKept h) in
    let settled : IsSettled (settle_outcome at live h) h =
      if_both (λ s. IsSettled s h) _ (automatic-IsSettled at _ h by_hand)
        (unsettled-IsSettled _ h by_hand) in
    settled.kept

pub settle_update_request-live :
    (at : F64) (h : Host) → live_part (settle_update_request at h) ≡ live_part h
unfolding settle_update_request
settle_update_request-live at h =
    elim (Bool-cases (is_given h.update_requested_at && not (is_given (pending_update h at)))) [
      | inl over ↦ rw (over, settle_update_request) refl
      | inr waits ↦ rw (waits, settle_update_request) refl
    ]

-- Two databases with the same heads and the same hosts.
pub record SameReports (a b : Database) : Type 0 where
  pub heads : a.heads ≡ b.heads
  pub hosts : a.hosts ≡ b.hosts

pub SameReports-refl : (db : Database) → SameReports db db
SameReports-refl db = record { heads = refl; hosts = refl }

pub SameReports-trans : {a b c : Database} → SameReports a b → SameReports b c → SameReports a c
SameReports-trans f g = record { heads = f.heads ∙ g.heads; hosts = f.hosts ∙ g.hosts }

set_meta-SameReports : (key value : String) (db : Database) → SameReports (set_meta key value db) db
unfolding set_meta
set_meta-SameReports key value db = record { heads = refl; hosts = refl }

pub record_failure-SameReports :
    (id : Option String) (db : Database) → SameReports (record_failure id db) db
unfolding record_failure
record_failure-SameReports none db = SameReports-refl db
record_failure-SameReports (some id) db = set_meta-SameReports _ id db

pub record_success-SameReports :
    (id : String) (at : F64) (show : F64 → String) (success : Bool) (db : Database)
    → SameReports (record_success id at show success db) db
unfolding record_success
record_success-SameReports id at show success db =
    if_both (λ d. SameReports d db) _
      (SameReports-trans (set_meta-SameReports _ _ _) (set_meta-SameReports _ _ db))
      (SameReports-refl db)

pub reconciled-SameReports :
    (elsewhere : Elsewhere) (changed : Bool) (db : Database)
    → SameReports (reconciled elsewhere changed db) db
reconciled-SameReports elsewhere false db = record { heads = refl; hosts = refl }
reconciled-SameReports elsewhere true db = record { heads = refl; hosts = refl }

pub add_sample-SameReports : (r : AgentReport) (db : Database) → SameReports (add_sample r db) db
unfolding add_sample
add_sample-SameReports r db = elim (Bool-cases (is_crowded r db)) [
  | inl crowded ↦ rw (crowded, add_sample) (SameReports-refl db)
  | inr free ↦ rw (free, add_sample) (record { heads = refl; hosts = refl })
]

-- The row that an agent's host is found by holds what was written to it.
pub find-put_agent_host :
    (agent_id : String) (h k : Host) (hosts : List Host)
    → is_text h.agent_id agent_id ≡ true
    → find (λ x. is_text x.agent_id agent_id) hosts ≡ some k
    → find (λ x. is_text x.agent_id agent_id) (put_agent_host agent_id h hosts) ≡ some h
unfolding put_agent_host
find-put_agent_host agent_id h k [] own e = cc
find-put_agent_host agent_id h k (x ∷ xs) own e =
    ground (arith, own, find-put_agent_host agent_id h k xs own)
