-- ===== src/Server/Notify/Told.antt =====
-- What opens an alert, and that it is said.
use mathlib.Core.List.{Memᴰ}
use mathlib.Core.List.Memᴰ
use hope.Base.{
  String, Bool, true, false, ◌&&◌, some, List, [], ◌∷◌, ◌≡◌, ◌⊎◌, refl, sym, ap, ◌∙◌, subst, inl,
  inr, F64, str_eq, str_eq_iff, Bool-cases, Option-cases, some_eq, ltb, length,
}
use hope.Agent.Children.Chunks.{>>=-eq-some}
use hope.Server.Notify.{Problem}
use hope.Server.Notify.Evaluation.{
  AlertRow, Alerts, Current, has_row, is_enabled, alert_row, insert_row, kind_of, opening_message,
  opening_wanted, announce, open_one, open_all,
}
use hope.Server.Notify.Rows.{mem-any, insert_row-kept, insert_row-from, has_row-mem}
use hope.Server.Outbox.{
  NotificationSettings, Message, Outbox, Row, Calls, enqueue, destination, max_pending,
}

-- A message about an alert waits in the queue.
pub record Said (key : String) (recovery : Bool) (box : Outbox) : Type 0 where
  pub row : Row
  pub waits : Memᴰ row box.rows
  pub about : row.alert_key ≡ key
  pub kind : row.recovery ≡ recovery

-- What is wanted is said.
abbrev pub SaidIf : Bool → String → Bool → Outbox → Type 0
SaidIf told key recovery box = (told ≡ false) ⊎ Said key recovery box

abbrev pub Grows : Outbox → Outbox → Type 0
Grows box after = (m : Row) → Memᴰ m box.rows → Memᴰ m after.rows

module _ (calls : Calls) (s : NotificationSettings) (now : F64) where
  -- An alert was opened for a problem that is there.
  pub record Opened (k : String) (es : Current) (box : Outbox) : Type 0 where
    pub problem : Problem × String
    pub there : Memᴰ problem es
    pub key : problem.0.key ≡ k
    pub said : SaidIf (is_enabled s && opening_wanted s problem.0) k false box

  enqueue-Said :
      (key kind : String) (recovery room : Bool) (m : Message) (box after : Outbox)
      → enqueue calls s key kind recovery m now box ≡ some (after, room)
      → Grows box after × ((room ≡ false) ⊎ Said key recovery after)
  unfolding enqueue
  enqueue-Said key kind recovery room m box after e = elim (Option-cases (calls.to_json m)) [
    | inl fails ↦ cc (rw (fails, enqueue) at e)
    | inr (body, json) ↦ elim (Bool-cases (ltb (length box.rows) max_pending)) [
      | inr full ↦
          let is = some_eq (rw (json, full, enqueue) at e) in
          let same : box ≡ after = ap (λ p. p.0) is in
          (λ x at. subst (λ (b : Outbox). Memᴰ x b.rows) same at, inl (sym (ap (λ p. p.1) is)))
      | inl free ↦
          let is = some_eq (rw (json, free, enqueue) at e) in
          let grown = ap (λ p. p.0) is in
          let row : Row = record {
            id = box.next_id;
            alert_key = key;
            host_id = m.host_id;
            kind = kind;
            recovery = recovery;
            destination = destination calls s;
            body = body;
            attempts = 0;
            next_attempt = now;
            created_at = now;
          } in
          (
            λ x at. subst (λ (b : Outbox). Memᴰ x b.rows) grown (Memᴰ.append_left (row ∷ []) at),
            inr (record {
              row = row;
              waits =
                  subst (λ (b : Outbox). Memᴰ row b.rows) grown
                    (Memᴰ.append_right box.rows (Memᴰ.head {xs = []} refl));
              about = refl;
              kind = refl;
            }),
          )
    ]
  ]

  pub announce-SaidIf :
      (key kind : String) (recovery told room : Bool) (m : Message) (box after : Outbox)
      → announce calls s now key kind recovery m told box ≡ some (after, room)
      → Grows box after × ((room ≡ false) ⊎ SaidIf (is_enabled s && told) key recovery after)
  announce-SaidIf key kind recovery told room m box after e =
      elim (Bool-cases (is_enabled s && told)) [
        | inr unwanted ↦
            let same : box ≡ after = ap (λ p. p.0) (some_eq (rw unwanted at e)) in
            (λ x at. subst (λ (b : Outbox). Memᴰ x b.rows) same at, inr (inl unwanted))
        | inl asked ↦
            let (grows, said) = enqueue-Said key kind recovery room m box after (rw asked at e) in
            (grows, elim said [ inl full ↦ inl full | inr is ↦ inr (inr is) ])
      ]

  -- What the first loop makes of the alerts.
  pub record Opening (es : Current) (a after : Alerts) : Type 0 where
    pub grows : Grows a.box after.box
    pub kept : (k : String) → has_row k a.rows ≡ true → has_row k after.rows ≡ true
    pub origin :
        (k : String)
        → has_row k after.rows ≡ true
        → (has_row k a.rows ≡ true) ⊎ Opened k es after.box

  unchanged : (es : Current) (a : Alerts) → Opening es a a
  unchanged es a = record { grows = λ m at. at; kept = λ k h. h; origin = λ k h. inl h }

  pub SaidIf-Grows :
      {told : Bool} {key : String} {recovery : Bool} {box after : Outbox}
      → Grows box after
      → SaidIf told key recovery box
      → SaidIf told key recovery after
  SaidIf-Grows grows (inl unwanted) = inl unwanted
  SaidIf-Grows grows (inr said) = inr (record {
    row = said.row;
    waits = grows said.row said.waits;
    about = said.about;
    kind = said.kind;
  })

  inserted-Opening :
      (p : Problem) (host_id : String) (a : Alerts) (box : Outbox)
      → Grows a.box box
      → SaidIf (is_enabled s && opening_wanted s p) p.key false box
      → Opening
          ((p, host_id) ∷ [])
          a
          (record { rows = insert_row (alert_row now p host_id) a.rows; box = box })
  inserted-Opening p host_id a box grows said =
      let row = alert_row now p host_id in
      record {
        grows = grows;
        kept = λ k h. insert_row-kept row a.rows k h;
        origin = λ k h.
            let (r, m, same) =
              mem-any (λ (d : AlertRow). str_eq d.key k) (insert_row row a.rows) h in
            let key : r.key ≡ k = (str_eq_iff r.key k).0 same in
            elim (insert_row-from row a.rows m) [
              | inl old ↦ inl (subst (λ x. has_row x a.rows ≡ true) key (has_row-mem r old))
              | inr own ↦
                  let is : p.key ≡ k = sym (ap (λ (d : AlertRow). d.key) own) ∙ key in
                  inr (record {
                    problem = (p, host_id);
                    there = Memᴰ.head refl;
                    key = is;
                    said =
                        subst (λ x. SaidIf (is_enabled s && opening_wanted s p) x false box) is
                          said;
                  })
            ];
      }

  open_one-Opening :
      (before : List AlertRow) (e : Problem × String) (a after : Alerts)
      → open_one calls s now before e a ≡ some after
      → Opening (e ∷ []) a after
  unfolding open_one
  open_one-Opening before (p, host_id) a after h = elim (Bool-cases (has_row p.key before)) [
    | inl old ↦
        subst (Opening ((p, host_id) ∷ []) a) (some_eq (rw (old, open_one) at h))
          (unchanged ((p, host_id) ∷ []) a)
    | inr fresh ↦
        let ((box, room), told, made) = >>=-eq-some _ _ (rw (fresh, open_one) at h) in
        let (grows, said) =
          announce-SaidIf p.key (kind_of p) false (opening_wanted s p) room
            (opening_message p host_id) a.box box told in
        subst (Opening ((p, host_id) ∷ []) a) (some_eq made) (elim (Bool-cases room) [
          | inl free ↦ rw free (
              inserted-Opening p host_id a box grows
                (elim said [ inl full ↦ cc (full, free) | inr is ↦ is ]))
          | inr full ↦
              rw full (record { grows = grows; kept = λ k has. has; origin = λ k has. inl has })
        ])
  ]

  Opening-cons :
      {e : Problem × String} {es : Current} {a mid after : Alerts}
      → Opening (e ∷ []) a mid
      → Opening es mid after
      → Opening (e ∷ es) a after
  Opening-cons first rest = record {
    grows = λ m at. rest.grows m (first.grows m at);
    kept = λ k h. rest.kept k (first.kept k h);
    origin = λ k h. elim (rest.origin k h) [
      | inr o ↦
          inr
            (record { problem = o.problem; there = Memᴰ.tail o.there; key = o.key; said = o.said })
      | inl at_mid ↦ elim (first.origin k at_mid) [
        | inl old ↦ inl old
        | inr o ↦ inr (record {
          problem = o.problem;
          there = Memᴰ.head (Memᴰ.eq_of_singleton o.there);
          key = o.key;
          said = SaidIf-Grows rest.grows o.said;
        })
      ]
    ];
  }

  pub open_all-Opening :
      (before : List AlertRow) (es : Current) (a after : Alerts)
      → open_all calls s now before es a ≡ some after
      → Opening es a after
  unfolding open_all
  open_all-Opening before [] a after h = subst (Opening [] a) (some_eq h) (unchanged [] a)
  open_all-Opening before (e ∷ es) a after h =
      let (mid, first, rest) = >>=-eq-some _ _ h in
      Opening-cons (open_one-Opening before e a mid first)
        (open_all-Opening before es mid after rest)
