-- ===== src/Agent/Children/Chunks.antt =====
-- The batches of one snapshot hold its devices in order, within the limit of the server, and are
-- numbered without a gap.
use mathlib.Core.List.{append_assoc}
use hope.Base.{
  ℕ, suc, ◌+◌, ◌^◌, ◌≤◌, ◌<◌, ◌≡◌, refl, ap, ◌∙◌, inl, inr, String, ◌&&◌, ◌||◌, Option, none, some,
  List, [], ◌∷◌, ◌++◌, map, arith, ltb, ◌==◌, length, some_eq, if_either, if_none, Option-cases,
  if◌then◌else◌,
}
use hope.Protocol.Types.{ChildDeviceReport, ChildReportBatch, max_agent_report_bytes}
use hope.Agent.Queue.{◌>>=◌}
use hope.Agent.Children.{
  Sizes, Names, checked_add, u32, chunks, number_parts, no_devices, comma, part_of,
}

-- A chain that gives a result gave one at its first step.
pub >>=-eq-some {ℓ κ} :
    {A : Type ℓ} {B : Type κ} (m : Option A) (f : A → Option B) {b : B}
    → (m >>= f) ≡ some b
    → (a : A) × (m ≡ some a) × (f a ≡ some b)
>>=-eq-some none f h = cc
>>=-eq-some (some a) f h = (a, refl, h)

abbrev pub concat : List (List ChildDeviceReport) → List ChildDeviceReport
concat [] = []
concat (ds ∷ rest) = ds ++ concat rest

pub checked_add_eq : (a b : ℕ) {c : ℕ} → checked_add a b ≡ some c → c ≡ a + b
unfolding checked_add
checked_add_eq a b h = ground arith

module _ (sizes : Sizes) where
  -- What the loop over the devices leaves.
  pub record Splits (current ds : List ChildDeviceReport) (groups : List (List ChildDeviceReport))
      : Type 0 where
    pub together : concat groups ≡ current ++ ds
    pub few : length groups ≤ suc (length ds)
    pub some_groups : 1 ≤ length groups

  start-Splits :
      (current : List ChildDeviceReport) (d : ChildDeviceReport) (ds : List ChildDeviceReport)
      {rest groups : List (List ChildDeviceReport)}
      → Splits (d ∷ []) ds rest
      → some (current ∷ rest) ≡ some groups
      → Splits current (d ∷ ds) groups
  start-Splits current d ds s e =
      let is = some_eq e in
      record {
        together = rw (← is) (ap (λ tail. current ++ tail) s.together);
        few = rw (← is) (omega (arith, s.few));
        some_groups = rw (← is) (omega arith);
      }

  pub chunks-Splits :
      (base : ℕ) (current : List ChildDeviceReport) (size : ℕ) (ds : List ChildDeviceReport)
      {groups : List (List ChildDeviceReport)}
      → chunks sizes base current size ds ≡ some groups
      → Splits current ds groups
  unfolding chunks
  chunks-Splits base current size [] e =
      let is = some_eq e in
      record {
        together = rw (← is) refl;
        few = rw (← is) (omega arith);
        some_groups = rw (← is) (omega arith);
      }
  chunks-Splits base current size (d ∷ ds) {groups} e = elim (Option-cases (sizes.device d)) [
    | inl missing ↦ cc (rw (missing, chunks) at e)
    | inr (n, found) ↦
        let is = rw (found, chunks) at e in
        elim (if_either (ltb max_agent_report_bytes (size + (n + comma current))) _ _ is) [
          | inl split ↦
              let (fits, rest_is) =
                if_none (no_devices current || ltb max_agent_report_bytes (base + n)) _ split in
              let (rest, at_rest, joined) =
                >>=-eq-some (chunks sizes base (d ∷ []) (base + n) ds) _ rest_is in
              start-Splits current d ds (chunks-Splits base (d ∷ []) (base + n) ds at_rest) joined
          | inr more ↦
              let s = chunks-Splits base (current ++ (d ∷ [])) (size + n + comma current) ds more in
              record {
                together = s.together ∙ append_assoc current (d ∷ []) ds;
                few = omega (arith, s.few);
                some_groups = s.some_groups;
              }
        ]
  ]

  -- One of several batches: its place, and that the server takes a body of its size.
  pub record IsPart (template : ChildReportBatch) (count index : ℕ) (part : ChildReportBatch)
      : Type 0 where
    pub sequence : part.sequence ≡ template.sequence + index
    pub generation : part.inventory_generation ≡ template.inventory_generation
    pub agent : part.agent_id ≡ template.agent_id
    pub source : part.source ≡ template.source
    pub scope : part.source_scope ≡ template.source_scope
    pub place : part.chunk_index ≡ index
    pub of_all : part.chunk_count ≡ count
    pub complete : part.complete ≡ (template.complete && (suc index == count))
    pub size : ℕ
    pub sized : sizes.batch part ≡ some size
    pub fits : size ≤ max_agent_report_bytes

  -- Batches from an index on.
  abbrev pub AreParts : ChildReportBatch → ℕ → ℕ → List ChildReportBatch → Type 0
  AreParts template count index [] = Unit
  AreParts template count index (part ∷ parts) =
      IsPart template count index part × AreParts template count (suc index) parts

  pub record Numbers (template : ChildReportBatch) (count index : ℕ)
      (groups : List (List ChildDeviceReport)) (parts : List ChildReportBatch) : Type 0 where
    pub numbered : AreParts template count index parts
    pub devices : map (λ (p : ChildReportBatch). p.devices) parts ≡ groups

  u32_small : (n : ℕ) → n < 2 ^ 32 → u32 n ≡ n
  unfolding u32
  u32_small n h = omega arith

  numbered_lem :
      (template : ChildReportBatch) (names : Names) (group : Option String) (count index : ℕ)
      (ds : List ChildDeviceReport) (rest : List (List ChildDeviceReport))
      {parts : List ChildReportBatch}
      → index + suc (length rest) ≤ count
      → count < 2 ^ 32
      → (sequence size : ℕ) (more : List ChildReportBatch)
      → checked_add template.sequence index ≡ some sequence
      → sizes.batch (part_of template names group template.complete count index sequence ds)
        ≡ some size
      → Numbers template count (suc index) rest more
      → (if ltb max_agent_report_bytes size
          then none
          else some (part_of template names group template.complete count index sequence ds ∷ more))
        ≡ some parts
      → Numbers template count index (ds ∷ rest) parts
  unfolding part_of
  numbered_lem template names group count index ds rest few small sequence size more next sized n
        joined =
      let part = part_of template names group template.complete count index sequence ds in
      let (fits, list) = if_none (ltb max_agent_report_bytes size) (some (part ∷ more)) joined in
      let is = some_eq list in
      let all = u32_small count small in
      let own : IsPart template count index part = record {
        sequence = checked_add_eq template.sequence index next;
        generation = refl;
        agent = refl;
        source = refl;
        scope = refl;
        place = u32_small index (omega (arith, few, small));
        of_all = all;
        complete = rw all refl;
        size = size;
        sized = sized;
        fits = ground (arith, fits);
      } in
      record {
        numbered = rw (← is) (own, n.numbered);
        devices = rw (← is) (ap (λ tail. ds ∷ tail) n.devices);
      }

  pub number_parts-Numbers :
      (template : ChildReportBatch) (names : Names) (group : Option String) (count index : ℕ)
      (groups : List (List ChildDeviceReport)) {parts : List ChildReportBatch}
      → index + length groups ≤ count
      → count < 2 ^ 32
      → number_parts sizes template names group template.complete template.sequence count index
          groups
        ≡ some parts
      → Numbers template count index groups parts
  unfolding number_parts
  number_parts-Numbers template names group count index [] few small e =
      let is = some_eq e in record { numbered = rw (← is) tt; devices = rw (← is) refl }
  number_parts-Numbers template names group count index (ds ∷ rest) few small e =
      elim (Option-cases (checked_add template.sequence index)) [
        | inl over ↦ cc (rw (over, number_parts) at e)
        | inr (sequence, next) ↦
            let part = part_of template names group template.complete count index sequence ds in
            elim (Option-cases (sizes.batch part)) [
              | inl unsized ↦ cc (rw (next, unsized, number_parts) at e)
              | inr (size, sized) ↦
                  elim (Option-cases (
                    number_parts sizes template names group template.complete template.sequence
                      count (suc index) rest)) [
                        | inl fails ↦ cc (rw (next, sized, fails, number_parts) at e)
                        | inr (more, at_more) ↦
                            let joined = rw (next, sized, at_more, number_parts) at e in
                            numbered_lem template names group count index ds rest few small sequence
                              size more next sized
                              (number_parts-Numbers template names group count (suc index) rest
                                (omega (arith, few)) small at_more)
                              joined
                      ]
            ]
      ]
