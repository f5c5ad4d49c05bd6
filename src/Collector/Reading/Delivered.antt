-- ===== src/Collector/Reading/Delivered.antt =====
-- What the reading queries say of a well-formed outbox.
use lite_checker.Prelude.{
  ◌≡◌, ◌↔◌, refl, ap, arith, String, Bool, true, false, Option, none, some, List, [], ◌∷◌, ◌&&◌,
  not, keep, length, All, Some, string_eq, nat_eq, ◌==◌, option_beq, beq_refl, Bool-cases, inl, inr,
  and-eq_true,
}
use lite_checker.Collector.Rows.{
  Kind, report, recovery, offline_alert, note_kind_beq, Notification, Db,
}
use lite_checker.Collector.Rows.Valid.{IsValidRow, IsValidOutbox}
use lite_checker.Collector.Reading.{report_of, delivered_row, all_rows, notification_delivered}

-- a row of the report of this event that was not queued again
pub record IsReportRow (event : String) (n : Notification) : Type 0 where
  pub of_event : n.event_id ≡ some event
  pub of_report : n.kind ≡ report
  pub latest : n.requeued ≡ false

is_report : (k : Kind) → note_kind_beq k report ≡ true → k ≡ report
is_report report h = refl
is_report recovery h = absurd (cc h)
is_report offline_alert h = absurd (cc h)

is_event : (o : Option String) (event : String) → option_beq o (some event) ≡ true → o ≡ some event
is_event none event h = absurd (cc h)
is_event (some e) event h = ap some ((string_eq.same_iff e event).0 h)

not-true : (b : Bool) → not b ≡ true → b ≡ false
not-true true h = absurd (cc h)
not-true false h = refl

report_of-IsReportRow :
    (event : String) (n : Notification) → (report_of event n ≡ true) ↔ IsReportRow event n
report_of-IsReportRow event n = (
  λ h.
      let (both, q) =
        and-eq_true (option_beq n.event_id (some event) && note_kind_beq n.kind report)
          (not n.requeued) h in
      let (e, k) =
        and-eq_true (option_beq n.event_id (some event)) (note_kind_beq n.kind report) both in
      record {
        of_event = is_event n.event_id event e;
        of_report = is_report n.kind k;
        latest = not-true n.requeued q;
      },
  λ r. rw (r.of_event, r.of_report, r.latest, beq_refl event) refl,
)

delivered_row-valid : (n : Notification) → IsValidRow n → delivered_row n ≡ n.completed
delivered_row-valid n v = ground arith

module _ (event : String) where
  -- the rows of the report are completed, and there is one
  abbrev pub IsCompleted : List Notification → Type 0
  IsCompleted ns = All (λ n. IsReportRow event n → n.completed ≡ true) ns

  kept-Some :
      (ns : List Notification)
      → (not (length (keep (report_of event) ns) == 0) ≡ true) ↔ Some (IsReportRow event) ns
  kept-Some [] = (λ h. cc h, λ h. absurd h)
  kept-Some (n ∷ ns) = elim (Bool-cases (report_of event n)) [
    | inl e ↦ rw e (λ h. inl ((report_of-IsReportRow event n).0 e), λ h. ground arith)
    | inr e ↦
        let none_here : ¬ IsReportRow event n = λ r. cc (e, (report_of-IsReportRow event n).1 r) in
        let ih = kept-Some ns in
        rw e (λ h. inr (ih.0 h), λ h. elim h [ inl r ↦ absurd (none_here r) | inr s ↦ ih.1 s ])
  ]

  kept-IsCompleted :
      (ns : List Notification)
      → All IsValidRow ns
      → (all_rows delivered_row (keep (report_of event) ns) ≡ true) ↔ IsCompleted ns
  kept-IsCompleted [] v = (λ h. tt, λ h. refl)
  kept-IsCompleted (n ∷ ns) (valid, v) =
      let ih = kept-IsCompleted ns v in
      elim (Bool-cases (report_of event n)) [
        | inr e ↦ rw e (
          λ h. ((λ r. absurd (cc (e, (report_of-IsReportRow event n).1 r))), ih.0 h),
          λ h. ih.1 h.1,
        )
        | inl e ↦
            rw (e, delivered_row-valid n valid)
              (
                λ h. let (here, rest) = and-eq_true n.completed _ h in ((λ r. here), ih.0 rest),
                λ h. rw (h.0 ((report_of-IsReportRow event n).0 e), ih.1 h.1) refl,
              )
      ]

-- In a well-formed outbox the report of an event counts as delivered exactly when there is a row of
-- that event's report that was not queued again, and every such row is completed.
pub notification_delivered-valid :
    (event : String) (db : Db)
    → IsValidOutbox db
    → (notification_delivered event db ≡ true)
      ↔ (Some (IsReportRow event) db.notifications × IsCompleted event db.notifications)
unfolding notification_delivered
notification_delivered-valid event db v = (
  λ h.
      let (some_row, completed) = and-eq_true _ _ h in
      (
        (kept-Some event db.notifications).0 some_row,
        (kept-IsCompleted event db.notifications v.rows).0 completed,
      ),
  λ (some_row, completed).
      rw
        (
          (kept-Some event db.notifications).1 some_row,
          (kept-IsCompleted event db.notifications v.rows).1 completed,
        )
        refl,
)
