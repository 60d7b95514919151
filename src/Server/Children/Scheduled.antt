-- ===== src/Server/Children/Scheduled.antt =====
-- The agent's schedule and the server's order of batches: what an agent schedules is in order.
use hope.Base.{
  ℕ, suc, ◌+◌, ◌^◌, ◌≤◌, ◌<◌, ◌≡◌, refl, sym, ◌∙◌, subst, inl, inr, String, Bool, true, false,
  Option, none, some, List, [], ◌∷◌, arith, F64, length, some_eq, Option-cases, if◌then◌else◌,
}
use hope.Protocol.Types.{ChildReportBatch}
use hope.Agent.Children.{
  ChildSnapshot, ChildSchedule, Sizes, Names, inventory_due, counters_of, batch,
}
use hope.Agent.Children.Chunks.{IsPart, AreParts}
use hope.Agent.Children.Reported.{batch_lem, key}
use hope.Server.Children.{BatchHead, find_head, out_of_order}
use hope.Server.Children.Handler.{new_head, put_head}
use hope.Server.Children.Ordered.{find_head-put_head}

-- How batches arrive: each is lost, or taken, and then it may make its inventory whole.
pub data Delivery : List BatchHead → List ChildReportBatch → List BatchHead → Type 0 where
  done : {heads : List BatchHead} → Delivery heads [] heads
  lost :
      {p : ChildReportBatch} {ps : List ChildReportBatch} {heads after : List BatchHead}
      → Delivery heads ps after
      → Delivery heads (p ∷ ps) after
  taken :
      {p : ChildReportBatch} {ps : List ChildReportBatch} {heads after : List BatchHead}
      (whole : Bool)
      → Delivery (put_head whole p heads) ps after
      → Delivery heads (p ∷ ps) after

-- Each batch that is taken comes after the head that it meets.
abbrev pub AreInOrder :
    {heads after : List BatchHead} {ps : List ChildReportBatch} → Delivery heads ps after → Type 0
AreInOrder done = Unit
AreInOrder (lost rest) = AreInOrder rest
AreInOrder (taken {p} {heads = heads} whole rest) = (out_of_order p heads ≡ false) × AreInOrder rest

-- The head of a batch's reporter, source and scope is not beyond a sequence and a generation.
pub record IsWithin (b : ChildReportBatch) (heads : List BatchHead) (sequence generation : ℕ)
    : Type 0 where
  pub last :
      (h : BatchHead)
      → find_head b heads ≡ some h
      → (h.sequence ≤ sequence) × (h.inventory_generation ≤ generation)

-- Two batches of one reporter, source and scope.
record AreAlike (b c : ChildReportBatch) : Type 0 where
  agent : b.agent_id ≡ c.agent_id
  source : b.source ≡ c.source
  scope : b.source_scope ≡ c.source_scope

find_head-AreAlike :
    (b c : ChildReportBatch) (heads : List BatchHead)
    → AreAlike b c
    → find_head b heads ≡ find_head c heads
unfolding find_head
find_head-AreAlike b c heads s = rw (s.agent, s.source, s.scope) refl

IsWithin-out_of_order :
    (b c : ChildReportBatch) (heads : List BatchHead) (n g : ℕ)
    → AreAlike b c
    → IsWithin c heads n g
    → n < b.sequence
    → g ≤ b.inventory_generation
    → out_of_order b heads ≡ false
unfolding out_of_order
IsWithin-out_of_order b c heads n g s w later newer = elim (Option-cases (find_head b heads)) [
  | inl nothing ↦ rw nothing refl
  | inr (h, found) ↦
      let (sequence, generation) = w.last h (sym (find_head-AreAlike b c heads s) ∙ found) in
      rw found (ground arith)
]

new_head-within :
    (whole : Bool) (b : ChildReportBatch) (o : Option BatchHead)
    → ((h : BatchHead) → o ≡ some h → h.inventory_generation ≤ b.inventory_generation)
    → ((new_head whole b o).sequence ≡ b.sequence)
      × ((new_head whole b o).inventory_generation ≤ b.inventory_generation)
new_head-within whole b none small = (refl, omega arith)
new_head-within whole b (some h) small = (refl, omega (arith, small h refl))

IsWithin-put_head :
    (whole : Bool) (b c : ChildReportBatch) (heads : List BatchHead) (n g : ℕ)
    → AreAlike b c
    → IsWithin c heads n g
    → g ≤ b.inventory_generation
    → IsWithin c (put_head whole b heads) b.sequence b.inventory_generation
IsWithin-put_head whole b c heads n g s w newer = record {
  last = λ h found.
      let small : (x : BatchHead)
          → find_head b heads ≡ some x
          → x.inventory_generation ≤ b.inventory_generation =
        λ x e.
          let (sequence, generation) = w.last x (sym (find_head-AreAlike b c heads s) ∙ e) in
          omega (arith, generation, newer) in
      let (sequence, generation) = new_head-within whole b (find_head b heads) small in
      let is : h ≡ new_head whole b (find_head b heads) = some_eq (
        sym found
        ∙ sym (find_head-AreAlike b c (put_head whole b heads) s)
        ∙ find_head-put_head whole b heads) in
      (
        subst (λ (x : BatchHead). x.sequence ≤ b.sequence) (sym is) (omega (arith, sequence)),
        subst (λ (x : BatchHead). x.inventory_generation ≤ b.inventory_generation) (sym is)
            generation,
      );
}

IsWithin-le :
    (c : ChildReportBatch) (heads : List BatchHead) {n m g k : ℕ}
    → IsWithin c heads n g
    → n ≤ m
    → g ≤ k
    → IsWithin c heads m k
IsWithin-le c heads w few small = record {
  last = λ h found.
      let (sequence, generation) = w.last h found in
      (omega (arith, sequence, few), omega (arith, generation, small));
}

module _ (sizes : Sizes) (template c : ChildReportBatch) (same : AreAlike template c)
    (count : ℕ) where
  part-AreAlike :
      (index : ℕ) (p : ChildReportBatch) → IsPart sizes template count index p → AreAlike p c
  part-AreAlike index p is = record {
    agent = is.agent ∙ same.agent;
    source = is.source ∙ same.source;
    scope = is.scope ∙ same.scope;
  }

  -- Parts from an index on, which meet a head that is not beyond the one before.
  delivered :
      (index n g m : ℕ) (parts : List ChildReportBatch) (heads after : List BatchHead)
      → AreParts sizes template count index parts
      → IsWithin c heads n g
      → n < template.sequence + index
      → g ≤ template.inventory_generation
      → n ≤ m
      → template.sequence + index + length parts ≤ suc m
      → (d : Delivery heads parts after)
      → AreInOrder d × IsWithin c after m template.inventory_generation
  delivered index n g m [] heads after are w later newer few last done =
      (tt, IsWithin-le c heads w few newer)
  delivered index n g m (p ∷ ps) heads after are w later newer few last (lost rest) =
      delivered (suc index) n g m ps heads after are.1 w (omega (arith, later)) newer few
        (omega (arith, last)) rest
  delivered index n g m (p ∷ ps) heads after are w later newer few last (taken whole rest) =
      let is = are.0 in
      let alike = part-AreAlike index p is in
      let next =
        IsWithin-put_head whole p c heads n g alike w (omega (arith, is.generation, newer)) in
      let (ordered, within) =
        delivered (suc index) p.sequence p.inventory_generation m ps (put_head whole p heads) after
          are.1 next (omega (arith, is.sequence)) (omega (arith, is.generation))
          (omega (arith, is.sequence, last)) (omega (arith, last)) rest in
      (
        (
          IsWithin-out_of_order p c heads n g alike w (omega (arith, is.sequence, later))
              (omega (arith, is.generation, newer)),
          ordered,
        ),
        within,
      )

generation-le : (due : Bool) (old new : ℕ) → new ≡ (if due then old + 1 else old) → old ≤ new
generation-le true old new e = omega (arith, e)
generation-le false old new e = omega (arith, e)

-- A batch of a reporter, of the source and scope of a snapshot.
pub record IsFrom (snapshot : ChildSnapshot) (agent_id : String) (b : ChildReportBatch)
    : Type 0 where
  pub agent : b.agent_id ≡ agent_id
  pub source : b.source ≡ snapshot.source
  pub scope : b.source_scope ≡ snapshot.source_scope

-- Where the server's head is not beyond the agent's counters, the batches of a snapshot that the
-- schedule reports are in order as they arrive one after the other, though any of them may be lost.
-- Whatever arrived, the server's head is not beyond the new counters then.
pub batch-AreInOrder :
    (sizes : Sizes) (snapshot : ChildSnapshot) (agent_id : String) (at : F64) (names : Names)
    (s next : ChildSchedule) (parts : List ChildReportBatch) (b : ChildReportBatch)
    (heads after : List BatchHead)
    → suc (length snapshot.devices) < 2 ^ 32
    → batch sizes snapshot agent_id at names s ≡ some (parts, next)
    → IsFrom snapshot agent_id b
    → let old = counters_of (key sizes snapshot agent_id at names) s in
      IsWithin b heads old.sequence old.generation
      → (d : Delivery heads parts after)
      → let new = counters_of (key sizes snapshot agent_id at names) next in
        AreInOrder d × IsWithin b after new.sequence new.generation
batch-AreInOrder sizes snapshot agent_id at names s next parts b heads after small e from within d =
    let old = counters_of (key sizes snapshot agent_id at names) s in
    let new = counters_of (key sizes snapshot agent_id at names) next in
    let (r, on, paced) = batch_lem sizes snapshot agent_id at names s next parts small e in
    let alike : AreAlike r.template b = record {
      agent = r.agent ∙ sym from.agent;
      source = r.source ∙ sym from.source;
      scope = r.scope ∙ sym from.scope;
    } in
    let later : old.generation ≤ new.generation =
      generation-le (inventory_due at old) old.generation new.generation r.due in
    let (ordered, last) =
      delivered sizes r.template b alike (length parts) 0 old.sequence old.generation new.sequence
        parts heads after r.numbered within (omega (arith, r.first))
        (omega (arith, r.generation, later)) (omega (arith, r.last))
        (omega (arith, r.first, r.last)) d in
    (ordered, IsWithin-le b after last (omega arith) (omega (arith, r.generation)))
