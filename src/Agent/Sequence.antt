-- ===== src/Agent/Sequence.antt =====
-- hope-agent/src/sequence.rs: report order is reserved on disk before a sample is queued. The
-- counter file is one of the four states that `load` tells apart; a write replaces it whole or
-- leaves it (config.rs, `write_private`), and may fail after it has replaced it.
pub mod Issued
use hope.Base.{
  ℕ, ◌+◌, String, Bool, true, false, Option, none, some, List, [], ◌∷◌, str_eq, ltb, leb, max,
  if◌then◌else◌,
}
use hope.Protocol.Types.{AgentReport, max_report_sequence}

pub record Sequence : Type 0 where
  pub agent_id : String
  pub reserved : ℕ

pub data Error : Type 0 where
  invalid_state unreadable_state invalid_watermark exhausted invalid_server_watermark : Error
  write_failed : Error

pub data Result {ℓ} (A : Type ℓ) : Type ℓ where
  ok : A → Result A
  err : Error → Result A

-- report-sequence.json: absent, not readable, not a counter, or a counter.
pub data CounterFile : Type 0 where
  missing unreadable corrupt : CounterFile
  stored : Sequence → CounterFile

-- How one `write_private` goes: done, failed with the old file in place, or failed after the
-- rename with the new file in place.
pub data Write : Type 0 where
  written kept_old failed_late : Write

-- The largest sequence among the queued reports of this agent.
unfoldable pub queued_max : String → List AgentReport → ℕ
queued_max id [] = 0
queued_max id (r ∷ rs) =
    max (if str_eq r.agent_id id then elim r.sequence [ none ↦ 0 | some n ↦ n ] else 0)
      (queued_max id rs)

unfoldable pub read_counter : CounterFile → Result (Option Sequence)
read_counter missing = ok none
read_counter unreadable = err unreadable_state
read_counter corrupt = err invalid_state
read_counter (stored s) = ok (some s)

unfoldable pub own_reserved : String → Option Sequence → ℕ
own_reserved id none = 0
own_reserved id (some s) = if str_eq s.agent_id id then s.reserved else 0

unfoldable pub checked : String → ℕ → Result Sequence
checked id reserved =
    if leb reserved max_report_sequence
    then ok (record { agent_id = id; reserved = reserved })
    else err invalid_watermark

unfoldable pub load : CounterFile → String → List AgentReport → Result Sequence
unfolding read_counter own_reserved checked
load file id queue = elim (read_counter file) [
  | err e ↦ err e
  | ok found ↦ checked id (max (own_reserved id found) (queued_max id queue))
]

-- The process's counter and the file.
pub record Store : Type 0 where
  pub counter : Sequence
  pub file : CounterFile

unfoldable pub after_write : Write → CounterFile → Sequence → CounterFile
after_write kept_old old new = old
after_write written old new = stored new
after_write failed_late old new = stored new

unfoldable pub write_result : Write → Result (Unit {0})
write_result written = ok tt
write_result kept_old = err write_failed
write_result failed_late = err write_failed

-- The counter in memory moves before the write, and stays moved where the write fails.
unfoldable pub advance : Write → ℕ → Store → Store × Result (Unit {0})
unfolding after_write write_result
advance w watermark s =
    if leb watermark max_report_sequence
    then (if ltb s.counter.reserved watermark
        then (
          record {
            counter = record s.counter { reserved = watermark };
            file = after_write w s.file (record s.counter { reserved = watermark });
          },
          write_result w,
        )
        else (s, ok tt))
    else (s, err invalid_server_watermark)

-- The number that was issued, once it stands on disk.
unfoldable pub issue : Store × Result (Unit {0}) → Store × Result ℕ
issue (s, ok _) = (s, ok s.counter.reserved)
issue (s, err e) = (s, err e)

unfoldable pub next : Write → Store → Store × Result ℕ
unfolding issue
next w s =
    if ltb s.counter.reserved max_report_sequence
    then issue (advance w (s.counter.reserved + 1) s)
    else (s, err exhausted)
