-- ===== src/Server/Notify/Cleared.antt =====
-- What closes an alert, and the whole of an evaluation.
use mathlib.Core.List.{Memᴰ}
use mathlib.Core.List.Memᴰ
use hope.Base.{
  String, true, false, ◌&&◌, ◌||◌, Option, some, List, [], ◌∷◌, ◌≡◌, ◌⊎◌, refl, sym, ◌∙◌, subst,
  inl, inr, F64, str_eq, str_eq_iff, Bool-cases, some_eq, or_false,
}
use hope.Agent.Children.Chunks.{>>=-eq-some}
use hope.Protocol.Types.{Host, Network}
use hope.Server.Notify.{Problem, Figures}
use hope.Server.Notify.Evaluation.{
  AlertRow, Alerts, Current, Orders, has_key, has_row, current_of, last_scan, is_enabled,
  delete_row, is_unobserved, closing_wanted, resolved_message, close_one, close_all, settle_alerts,
  evaluate,
}
use hope.Server.Notify.Rows.{IsOrder, delete_row-kept, delete_row-false}
use hope.Server.Notify.Told.{SaidIf, Grows, Opened, SaidIf-Grows, announce-SaidIf, open_all-Opening}
use hope.Server.Outbox.{NotificationSettings, Outbox, Calls}

module _ (calls : Calls) (s : NotificationSettings) (now : F64) (hosts : List Host)
    (current : Current) where
  -- An alert was closed: its problem is not there, which its host's telemetry shows where it must.
  pub record Closed (k : String) (rs : List AlertRow) (box : Outbox) : Type 0 where
    pub row : AlertRow
    pub there : Memᴰ row rs
    pub key : row.key ≡ k
    pub absent : has_key k current ≡ false
    pub observed : is_unobserved hosts now row ≡ false
    pub said : SaidIf (is_enabled s && (closing_wanted s hosts row && s.notify_recovery)) k true box

  -- What the second loop makes of the alerts.
  record Closing (rs : List AlertRow) (a after : Alerts) : Type 0 where
    grows : Grows a.box after.box
    unopened : (k : String) → has_row k a.rows ≡ false → has_row k after.rows ≡ false
    closed :
        (k : String)
        → has_row k a.rows ≡ true
        → (has_row k after.rows ≡ true) ⊎ Closed k rs after.box

  unchanged : (rs : List AlertRow) (a : Alerts) → Closing rs a a
  unchanged rs a = record { grows = λ m at. at; unopened = λ k h. h; closed = λ k h. inl h }

  deleted-Closing :
      (r : AlertRow) (a : Alerts) (box : Outbox)
      → (has_key r.key current || is_unobserved hosts now r) ≡ false
      → Grows a.box box
      → SaidIf (is_enabled s && (closing_wanted s hosts r && s.notify_recovery)) r.key true box
      → Closing (r ∷ []) a (record { rows = delete_row r.key a.rows; box = box })
  deleted-Closing r a box cleared grows said =
      let (absent, observed) =
        or_false (has_key r.key current) (is_unobserved hosts now r) cleared in
      record {
        grows = grows;
        unopened = λ k h. delete_row-false r.key k a.rows h;
        closed = λ k h. elim (Bool-cases (str_eq k r.key)) [
          | inr other ↦ inl (delete_row-kept r.key k a.rows other ∙ h)
          | inl same ↦
              let key = sym ((str_eq_iff k r.key).0 same) in
              inr (record {
                row = r;
                there = Memᴰ.head refl;
                key = key;
                absent = subst (λ x. has_key x current ≡ false) key absent;
                observed = observed;
                said =
                    subst
                      (λ x.
                        SaidIf (is_enabled s && (closing_wanted s hosts r && s.notify_recovery)) x
                          true box)
                      key said;
              })
        ];
      }

  close_one-Closing :
      (r : AlertRow) (a after : Alerts)
      → close_one calls s now hosts current r a ≡ some after
      → Closing (r ∷ []) a after
  unfolding close_one
  close_one-Closing r a after h =
      elim (Bool-cases (has_key r.key current || is_unobserved hosts now r)) [
        | inl held ↦
            subst (Closing (r ∷ []) a) (some_eq (rw (held, close_one) at h)) (unchanged (r ∷ []) a)
        | inr cleared ↦
            let ((box, room), told, made) = >>=-eq-some _ _ (rw (cleared, close_one) at h) in
            let (grows, said) =
              announce-SaidIf calls s now r.key r.kind true
                (closing_wanted s hosts r && s.notify_recovery) room (resolved_message r) a.box box
                told in
            subst (Closing (r ∷ []) a) (some_eq made) (elim (Bool-cases room) [
              | inl free ↦ rw free (
                  deleted-Closing r a box cleared grows
                    (elim said [ inl full ↦ cc (full, free) | inr is ↦ is ]))
              | inr full ↦
                  rw full
                    (record { grows = grows; unopened = λ k has. has; closed = λ k has. inl has })
            ])
      ]

  Closing-cons :
      {r : AlertRow} {rs : List AlertRow} {a mid after : Alerts}
      → Closing (r ∷ []) a mid
      → Closing rs mid after
      → Closing (r ∷ rs) a after
  Closing-cons first rest = record {
    grows = λ m at. rest.grows m (first.grows m at);
    unopened = λ k h. rest.unopened k (first.unopened k h);
    closed = λ k h. elim (first.closed k h) [
      | inr c ↦ inr (record {
        row = c.row;
        there = Memᴰ.head (Memᴰ.eq_of_singleton c.there);
        key = c.key;
        absent = c.absent;
        observed = c.observed;
        said = SaidIf-Grows calls s now rest.grows c.said;
      })
      | inl stays ↦ elim (rest.closed k stays) [
        | inl still ↦ inl still
        | inr c ↦ inr (record {
          row = c.row;
          there = Memᴰ.tail c.there;
          key = c.key;
          absent = c.absent;
          observed = c.observed;
          said = c.said;
        })
      ]
    ];
  }

  close_all-Closing :
      (rs : List AlertRow) (a after : Alerts)
      → close_all calls s now hosts current rs a ≡ some after
      → Closing rs a after
  unfolding close_all
  close_all-Closing [] a after h = subst (Closing [] a) (some_eq h) (unchanged [] a)
  close_all-Closing (r ∷ rs) a after h =
      let (mid, first, rest) = >>=-eq-some _ _ h in
      Closing-cons (close_one-Closing r a mid first) (close_all-Closing rs mid after rest)

  -- What becomes of the alert of a key: nothing, or it is opened, or closed.
  abbrev pub Told : String → Alerts → Alerts → Type 0
  Told k a after =
      (has_row k after.rows ≡ has_row k a.rows)
      ⊎ (((has_row k a.rows ≡ false) × Opened calls s now k current after.box)
          ⊎ Closed k a.rows after.box)

  settle_alerts-Told :
      (orders : Orders) (k : String) (a after : Alerts)
      → IsOrder orders.problems
      → IsOrder orders.before
      → settle_alerts calls s now orders hosts current a ≡ some after
      → Told k a after
  unfolding settle_alerts
  settle_alerts-Told orders k a after problems_order rows_order h =
      let (mid, opened, closed) = >>=-eq-some _ _ h in
      let first = open_all-Opening calls s now a.rows (orders.problems current) a mid opened in
      let second = close_all-Closing (orders.before a.rows) mid after closed in
      elim (Bool-cases (has_row k a.rows)) [
        | inl old ↦ elim (second.closed k (first.kept k old)) [
          | inl still ↦ inl (still ∙ sym old)
          | inr c ↦ inr (
              inr (record {
                row = c.row;
                there = rows_order.old a.rows c.row c.there;
                key = c.key;
                absent = c.absent;
                observed = c.observed;
                said = c.said;
              }))
        ]
        | inr free ↦ elim (Bool-cases (has_row k mid.rows)) [
          | inr none_yet ↦ inl (second.unopened k none_yet ∙ sym free)
          | inl there ↦ elim (first.origin k there) [
            | inl old ↦ cc (old, free)
            | inr o ↦ inr (
                inl (
                  free,
                  record {
                    problem = o.problem;
                    there = problems_order.old current o.problem o.there;
                    key = o.key;
                    said = SaidIf-Grows calls s now second.grows o.said;
                  },
                ))
          ]
        ]
      ]

-- In an evaluation, an alert that opens has a problem that is there, and an alert that closes was
-- open, has no problem with its key, and is not one of a resource of which its host says nothing.
-- A message about either waits in the queue where the settings want one.
pub evaluate-Told :
    (calls : Calls) (s : NotificationSettings) (now : F64) (figures : Figures) (orders : Orders)
    (networks : List Network) (finished : String → Option F64) (hosts : List Host)
    (checked : List (Problem × String)) (a after : Alerts) (k : String)
    → IsOrder orders.problems
    → IsOrder orders.before
    → evaluate calls s now figures orders networks finished hosts checked a ≡ some after
    → Told calls s now hosts
        (current_of figures now (last_scan networks finished) hosts checked)
        k
        a
        after
unfolding evaluate
evaluate-Told calls s now figures orders networks finished hosts checked a after k problems_order
      rows_order h =
    settle_alerts-Told calls s now hosts
      (current_of figures now (last_scan networks finished) hosts checked) orders k a after
      problems_order rows_order h
