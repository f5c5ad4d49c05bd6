-- ===== src/Collector/Outbox/Requeued.antt =====
-- The well-formed outbox under `requeue_dead_letter`.
use lite_checker.Prelude.{
  ℕ, ◌-◌, ◌≡◌, String, true, Option, none, some, List, arith, refl, inl, inr, Bool-cases,
  Option-cases, ◌&&◌, ◌||◌, not, ltb, ◌==◌, nat_eq, string_eq, any_of, length, drop,
}
use lite_checker.Collector.Rows.{
  Kind, DedupeKey, key_beq, for_requeue, Notification, Db, Answer, done, failed, transaction,
  Limits, first_where,
}
use lite_checker.Collector.Rows.Valid.{IsValidRow, IsValidOutbox}
use lite_checker.Collector.Rows.Tables.{first_where-All, first_where-append}
use lite_checker.Collector.Queue.{insert_notification, ensure_pending_capacity}
use lite_checker.Collector.Outbox.Valid.{mark_requeued-IsValidRow}
use lite_checker.Collector.Outbox.{has_id}
use lite_checker.Collector.DeadLetters.{
  mark_requeued, requeue_copy, requeue_row, requeue_link, unmarked, requeue_dead_letter,
}
use lite_checker.Collector.Outbox.Invariant.{
  found-IsValidOutbox, Kept, commit-IsValidOutbox, guard-IsValidOutbox, insert_notification-Kept,
}

-- The row is still found after an insertion.
abbrev Found : ℕ → Notification → Answer (ℕ × Db) → Type 0
Found id n (done (i, db)) = first_where (has_id id) db.notifications ≡ some n
Found id n (failed e) = Unit

module _ (db : Db) (v : IsValidOutbox db) (l : Limits) (id now : ℕ) where
  insert-Found :
      (n : Notification) (kind : Kind) (agent : String) (event : Option String) (next : Option ℕ)
      (chunks : List String) (key : DedupeKey)
      → first_where (has_id id) db.notifications ≡ some n
      → Found id n (insert_notification kind agent event now next chunks key db)
  unfolding insert_notification
  insert-Found n kind agent event next chunks key e =
      elim (Bool-cases (any_of (λ m. key_beq m.dedupe_key key) db.notifications)) [
        | inl f ↦ rw f tt
        | inr f ↦ rw f (elim (Bool-cases (length chunks == 0)) [
          | inl g ↦ rw g tt
          | inr g ↦ rw g (first_where-append (has_id id) db.notifications _ e)
        ])
      ]

  requeue_link-Kept :
      (n : Notification) (r : Answer (ℕ × Db))
      → IsValidRow n
      → n.dead_letter ≡ true
      → Kept r
      → Found id n r
      → Kept (requeue_link l id now r)
  unfolding requeue_link mark_requeued
  requeue_link-Kept n (failed e) w d h k = tt
  requeue_link-Kept n (done (clone, d')) w d h k =
      elim (Bool-cases (any_of (unmarked l id now) d'.notifications)) [
        | inr e ↦ rw e tt
        | inl e ↦ rw e (
            found-IsValidOutbox id (unmarked l id now) (mark_requeued clone now) d' n k
              (λ m q. ground arith) (λ m. refl) (mark_requeued-IsValidRow n w clone now d) h)
      ]

  requeue_copy-Kept :
      (n : Notification)
      → first_where (has_id id) db.notifications ≡ some n
      → n.dead_letter ≡ true
      → Kept (requeue_copy l id now n db)
  unfolding requeue_copy
  requeue_copy-Kept n e d =
      elim (Bool-cases (
        ltb n.next_chunk n.chunk_count
        && length (drop n.next_chunk n.bodies) == n.chunk_count - n.next_chunk)) [
          | inr f ↦ rw f tt
          | inl f ↦
              rw f
                (elim (Bool-cases (
                  ensure_pending_capacity l n.agent_id 1 (length (drop n.next_chunk n.bodies))
                    db)) [
                      | inr g ↦ rw g tt
                      | inl g ↦ rw g (
                          requeue_link-Kept n _
                            (first_where-All IsValidRow (has_id id) db.notifications n v.rows e).0 d
                            (insert_notification-Kept n.kind n.agent_id n.event_id now (some now) _
                              (for_requeue id) db v)
                            (insert-Found n n.kind n.agent_id n.event_id (some now) _
                              (for_requeue id) e))
                    ])
        ]

  requeue_row-Kept :
      (o : Option Notification)
      → first_where (has_id id) db.notifications ≡ o
      → Kept (requeue_row l id now o db)
  unfolding requeue_row
  requeue_row-Kept none e = tt
  requeue_row-Kept (some n) e = elim (Bool-cases (n.completed || not n.dead_letter)) [
    | inl f ↦ simp f tt
    | inr f ↦ simp f (elim (Bool-cases n.requeued) [
      | inl g ↦ simp g (elim (Option-cases n.requeued_notification_id) [
        | inl h ↦ simp h tt
        | inr (i, h) ↦ simp h v
      ])
      | inr g ↦ simp g (requeue_copy-Kept n e (ground arith))
    ])
  ]

  pub requeue_dead_letter-IsValidOutbox : IsValidOutbox (requeue_dead_letter l id now db).1
  unfolding requeue_dead_letter transaction
  requeue_dead_letter-IsValidOutbox =
      guard-IsValidOutbox _ _ _ (commit-IsValidOutbox db _ v (requeue_row-Kept _ refl)) v
