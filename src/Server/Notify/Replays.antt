-- ===== src/Server/Notify/Replays.antt =====
-- Notifications that are turned on say nothing of the alerts that are open.
use mathlib.Core.List.{Memᴰ}
use mathlib.Core.List.Memᴰ
use hope.Base.{
  String, Bool, true, false, not, ◌||◌, Option, some, List, [], ◌∷◌, ◌≡◌, ◌⊎◌, refl, sym, ap, ◌∙◌,
  subst, inl, inr, F64, str_eq, str_eq_iff, Bool-cases,
}
use hope.Protocol.Types.{Host, Network}
use hope.Server.Notify.{Problem, Figures}
use hope.Server.Notify.Evaluation.{
  AlertRow, Alerts, Current, Orders, has_key, has_row, current_of, last_scan, is_enabled, alert_row,
  insert_row, delete_row, is_unobserved, open_one, open_all, close_one, close_all, settle_alerts,
  evaluate,
}
use hope.Server.Notify.Rows.{
  IsOrder, mem-filter, str_eq_own, has_key-mem, insert_row-kept, insert_row-own, insert_row-from,
  delete_row-kept,
}
use hope.Server.Outbox.{NotificationSettings, Calls}

-- The alert of a problem that is there, or of which nothing is known.
abbrev stays : List Host → Current → F64 → AlertRow → Bool
stays hosts current now row = has_key row.key current || is_unobserved hosts now row

-- What the first loop makes of the alerts, without a message.
record Opens (before : List AlertRow) (es : Current) (a after : Alerts) : Type 0 where
  box : after.box ≡ a.box
  all_open :
      (e : Problem × String)
      → Memᴰ e es
      → (has_row e.0.key before ≡ true) ⊎ (has_row e.0.key after.rows ≡ true)
  kept : (k : String) → has_row k a.rows ≡ true → has_row k after.rows ≡ true
  origin :
      (r : AlertRow)
      → Memᴰ r after.rows
      → Memᴰ r a.rows ⊎ ((e : Problem × String) × Memᴰ e es × (r.key ≡ e.0.key))

-- What the second loop makes of them.
record Closes (hosts : List Host) (current : Current) (now : F64) (rs : List AlertRow)
    (a after : Alerts) : Type 0 where
  box : after.box ≡ a.box
  kept :
      (k : String)
      → has_key k current ≡ true
      → has_row k a.rows ≡ true
      → has_row k after.rows ≡ true
  origin : (r : AlertRow) → Memᴰ r after.rows → Memᴰ r a.rows
  gone : (r : AlertRow) → Memᴰ r after.rows → Memᴰ r rs → stays hosts current now r ≡ true

module _ (calls : Calls) (now : F64) (s : NotificationSettings)
    (silent : is_enabled s ≡ false) where
  open_one-silent :
      (before : List AlertRow) (e : Problem × String) (a : Alerts)
      → (after : Alerts) × (open_one calls s now before e a ≡ some after)
        × Opens before (e ∷ []) a after
  unfolding open_one
  open_one-silent before (p, host_id) a = elim (Bool-cases (has_row p.key before)) [
    | inl old ↦ (
      a,
      rw (old, open_one) refl,
      record {
        box = refl;
        all_open = λ e m. inl (rw (Memᴰ.eq_of_singleton m) old);
        kept = λ k h. h;
        origin = λ r m. inl m;
      },
    )
    | inr fresh ↦
        let row = alert_row now p host_id in
        (
          record { rows = insert_row row a.rows; box = a.box },
          rw (fresh, silent, open_one) refl,
          record {
            box = refl;
            all_open = λ e m. inr (rw (Memᴰ.eq_of_singleton m) (insert_row-own row a.rows));
            kept = λ k h. insert_row-kept row a.rows k h;
            origin = λ r m. elim (insert_row-from row a.rows m) [
              | inl old ↦ inl old
              | inr own ↦ inr ((p, host_id), Memᴰ.head refl, ap (λ (d : AlertRow). d.key) own)
            ];
          },
        )
  ]

  Opens-cons :
      {before : List AlertRow} {e : Problem × String} {es : Current} {a mid after : Alerts}
      → Opens before (e ∷ []) a mid
      → Opens before es mid after
      → Opens before (e ∷ es) a after
  Opens-cons first rest = record {
    box = rest.box ∙ first.box;
    all_open = λ d m. elim (Memᴰ.cases_cons m) [
      | inr later ↦ rest.all_open d later
      | inl own ↦ elim (first.all_open d (Memᴰ.head own)) [
        | inl old ↦ inl old
        | inr opened ↦ inr (rest.kept d.0.key opened)
      ]
    ];
    kept = λ k h. rest.kept k (first.kept k h);
    origin = λ r m. elim (rest.origin r m) [
      | inr (d, at, key) ↦ inr (d, Memᴰ.tail at, key)
      | inl mid_row ↦ elim (first.origin r mid_row) [
        | inl old ↦ inl old
        | inr (d, at, key) ↦ inr (d, Memᴰ.head (Memᴰ.eq_of_singleton at), key)
      ]
    ];
  }

  open_all-silent :
      (before : List AlertRow) (es : Current) (a : Alerts)
      → (after : Alerts) × (open_all calls s now before es a ≡ some after) × Opens before es a after
  unfolding open_all
  open_all-silent before [] a = (
    a,
    refl,
    record {
      box = refl;
      all_open = λ e m. absurd (Memᴰ.not-nil m);
      kept = λ k h. h;
      origin = λ r m. inl m;
    },
  )
  open_all-silent before (e ∷ es) a =
      let (mid, first_is, first) = open_one-silent before e a in
      let (after, rest_is, rest) = open_all-silent before es mid in
      (after, rw (first_is, open_all) rest_is, Opens-cons first rest)

  module _ (hosts : List Host) (current : Current) where
    close_one-silent :
        (r : AlertRow) (a : Alerts)
        → (after : Alerts) × (close_one calls s now hosts current r a ≡ some after)
          × Closes hosts current now (r ∷ []) a after
    unfolding close_one
    close_one-silent r a = elim (Bool-cases (stays hosts current now r)) [
      | inl held ↦ (
        a,
        rw (held, close_one) refl,
        record {
          box = refl;
          kept = λ k c h. h;
          origin = λ x m. m;
          gone = λ x m own.
              subst (λ d. stays hosts current now d ≡ true) (sym (Memᴰ.eq_of_singleton own)) held;
        },
      )
      | inr cleared ↦ (
        record { rows = delete_row r.key a.rows; box = a.box },
        rw (cleared, silent, close_one) refl,
        record {
          box = refl;
          kept = λ k c h. elim (Bool-cases (str_eq k r.key)) [
            | inr other ↦ delete_row-kept r.key k a.rows other ∙ h
            | inl same ↦
                let held : has_key r.key current ≡ true =
                  subst (λ x. has_key x current ≡ true) ((str_eq_iff k r.key).0 same) c in
                cc (rw held at cleared)
          ];
          origin = λ x m. (mem-filter (λ (d : AlertRow). not (str_eq d.key r.key)) a.rows m).0;
          gone = λ x m own.
              let apart = (mem-filter (λ (d : AlertRow). not (str_eq d.key r.key)) a.rows m).1 in
              let same : str_eq x.key r.key ≡ true =
                rw (Memᴰ.eq_of_singleton own) (str_eq_own r.key) in
              cc (rw same at apart);
        },
      )
    ]

    Closes-cons :
        {r : AlertRow} {rs : List AlertRow} {a mid after : Alerts}
        → Closes hosts current now (r ∷ []) a mid
        → Closes hosts current now rs mid after
        → Closes hosts current now (r ∷ rs) a after
    Closes-cons first rest = record {
      box = rest.box ∙ first.box;
      kept = λ k c h. rest.kept k c (first.kept k c h);
      origin = λ x m. first.origin x (rest.origin x m);
      gone = λ x m own. elim (Memᴰ.cases_cons own) [
        | inl here ↦ first.gone x (rest.origin x m) (Memᴰ.head here)
        | inr later ↦ rest.gone x m later
      ];
    }

    close_all-silent :
        (rs : List AlertRow) (a : Alerts)
        → (after : Alerts) × (close_all calls s now hosts current rs a ≡ some after)
          × Closes hosts current now rs a after
    unfolding close_all
    close_all-silent [] a = (
      a,
      refl,
      record {
        box = refl;
        kept = λ k c h. h;
        origin = λ x m. m;
        gone = λ x m own. absurd (Memᴰ.not-nil own);
      },
    )
    close_all-silent (r ∷ rs) a =
        let (mid, first_is, first) = close_one-silent r a in
        let (after, rest_is, rest) = close_all-silent rs mid in
        (after, rw (first_is, close_all) rest_is, Closes-cons first rest)

module _ (calls : Calls) (now : F64) (t : NotificationSettings) where
  -- Where each problem is an open alert, the first loop does nothing.
  open_all-done :
      (before : List AlertRow) (es : Current) (a : Alerts)
      → ((e : Problem × String) → Memᴰ e es → has_row e.0.key before ≡ true)
      → open_all calls t now before es a ≡ some a
  unfolding open_all open_one
  open_all-done before [] a old = refl
  open_all-done before (e ∷ es) a old =
      rw (old e (Memᴰ.head refl), open_one, open_all)
        (open_all-done before es a (λ d m. old d (Memᴰ.tail m)))

  -- Where each alert stays, the second loop does nothing.
  close_all-done :
      (hosts : List Host) (current : Current) (rs : List AlertRow) (a : Alerts)
      → ((r : AlertRow) → Memᴰ r rs → stays hosts current now r ≡ true)
      → close_all calls t now hosts current rs a ≡ some a
  unfolding close_all close_one
  close_all-done hosts current [] a held = refl
  close_all-done hosts current (r ∷ rs) a held =
      rw (held r (Memᴰ.head refl), close_one, close_all)
        (close_all-done hosts current rs a (λ d m. held d (Memᴰ.tail m)))

-- What an evaluation without messages leaves behind stays as it is in another one, with any settings.
settle_alerts-again :
    (calls : Calls) (now : F64) (s : NotificationSettings) (orders : Orders) (hosts : List Host)
    (current : Current) (a : Alerts)
    → IsOrder orders.problems
    → IsOrder orders.before
    → is_enabled s ≡ false
    → (after : Alerts) × (settle_alerts calls s now orders hosts current a ≡ some after)
      × (after.box ≡ a.box)
      × ((t : NotificationSettings)
          → settle_alerts calls t now orders hosts current after ≡ some after)
unfolding settle_alerts
settle_alerts-again calls now s orders hosts current a problems_order rows_order silent =
    let (mid, opened, first) =
      open_all-silent calls now s silent a.rows (orders.problems current) a in
    let (after, closed, second) =
      close_all-silent calls now s silent hosts current (orders.before a.rows) mid in
    let is_current : (e : Problem × String)
        → Memᴰ e (orders.problems current)
        → has_key e.0.key current ≡ true =
      λ e m. has_key-mem e current (problems_order.old current e m) in
    let all_open : (e : Problem × String)
        → Memᴰ e (orders.problems current)
        → has_row e.0.key after.rows ≡ true =
      λ e m.
        second.kept e.0.key (is_current e m)
          (elim (first.all_open e m) [ inl old ↦ first.kept e.0.key old | inr there ↦ there ]) in
    let held : (r : AlertRow)
        → Memᴰ r (orders.before after.rows)
        → stays hosts current now r ≡ true =
      λ r m.
        let left = rows_order.old after.rows r m in
        elim (first.origin r (second.origin r left)) [
          | inl old ↦ second.gone r left (rows_order.new a.rows r old)
          | inr (e, at, key) ↦
              let is : has_key r.key current ≡ true = rw key (is_current e at) in rw is refl
        ] in
    (
      after,
      rw (opened, settle_alerts) closed,
      second.box ∙ first.box,
      λ t.
          let open_is =
            open_all-done calls now t after.rows (orders.problems current) after all_open in
          rw (open_is, settle_alerts)
            (close_all-done calls now t hosts current (orders.before after.rows) after held),
    )

-- With notifications turned off, an evaluation changes only the alerts, not the queue of messages.
-- After it, an evaluation of the same problems with any settings changes nothing: turning
-- notifications on does not replay what was open before.
pub evaluate-no_replay :
    (calls : Calls) (s t : NotificationSettings) (now : F64) (figures : Figures) (orders : Orders)
    (networks : List Network) (finished : String → Option F64) (hosts : List Host)
    (checked : List (Problem × String)) (a : Alerts)
    → IsOrder orders.problems
    → IsOrder orders.before
    → is_enabled s ≡ false
    → (after : Alerts) × (evaluate calls s now figures orders networks finished hosts checked a
        ≡ some after)
      × (after.box ≡ a.box)
      × (evaluate calls t now figures orders networks finished hosts checked after ≡ some after)
unfolding evaluate
evaluate-no_replay calls s t now figures orders networks finished hosts checked a problems_order
      rows_order silent =
    let (after, first, box, again) =
      settle_alerts-again calls now s orders hosts
        (current_of figures now (last_scan networks finished) hosts checked) a problems_order
        rows_order silent in
    (after, first, box, again t)
