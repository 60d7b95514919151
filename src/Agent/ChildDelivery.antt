-- ===== src/Agent/ChildDelivery.antt =====
-- hope-agent/src/child_delivery.rs: the queue of child report batches, and what the answer to a
-- sent batch means. The queue is that of `Agent.Queue`, and the answer is read as for a report,
-- since both files write out the same code.
use hope.Base.{ℕ, String, Bool, Option, List, F64}
use hope.Protocol.Types.{ChildReportBatch}
use hope.Agent.Queue
use hope.Agent.Queue.{Item, Spool}
use hope.Agent.Delivery
use hope.Agent.Delivery.{Json, Wire, Sent, Outcome}

-- MAX_BATCHES
abbrev pub max_batches : ℕ
max_batches = 120

abbrev pub batch_item : Json ChildReportBatch → Item ChildReportBatch
batch_item json = record {
  identity = λ b. b.agent_id;
  key = λ b. b.batch_id;
  stamp = λ b. b.observed_at;
  max_items = max_batches;
  json_len = json.len;
  to_json_array = json.to_array;
  parse_array = json.parse_array;
}

module _ (json : Json ChildReportBatch) where
  abbrev pub decode : List ℕ → String → F64 → Option (Spool ChildReportBatch)
  decode = Queue.decode (batch_item json)

  abbrev pub push :
      ChildReportBatch → F64 → Spool ChildReportBatch → Option (Option (Spool ChildReportBatch))
  push = Queue.push (batch_item json)

  abbrev pub trim : F64 → Spool ChildReportBatch → Option (Spool ChildReportBatch)
  trim = Queue.trim (batch_item json)

  abbrev pub encode : Spool ChildReportBatch → Option (List ℕ)
  encode = Queue.encode (batch_item json)

  abbrev pub pop : String → Spool ChildReportBatch → Option (Spool ChildReportBatch)
  pop = Queue.pop (batch_item json)

-- The answer to a batch.
pub record ChildReportResponse : Type 0 where
  pub accepted : Bool
  pub duplicate : Bool

-- Here `Accepted` carries nothing.
pub data BatchOutcome : Type 0 where
  accepted : BatchOutcome
  retry : Option ℕ → BatchOutcome
  invalid : ℕ → BatchOutcome
  revoked : BatchOutcome

unfoldable pub without_answer : {R : Type 0} → Outcome R → BatchOutcome
without_answer (Outcome.accepted r) = accepted
without_answer (Outcome.retry delay) = retry delay
without_answer (Outcome.invalid status) = invalid status
without_answer Outcome.revoked = revoked

pub batch_outcome : Wire ChildReportResponse → ℕ → Sent → BatchOutcome
unfolding without_answer
batch_outcome wire now sent = without_answer (Delivery.classify (λ r. r.accepted) wire now sent)

abbrev pub backoff : ℕ → ℕ → ℕ
backoff = Delivery.backoff
