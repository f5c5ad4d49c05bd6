-- ===== src/Collector/Dispatch/Progress.antt =====
-- A call that ends a delivery for good leaves fewer waiting chunks.
use lite_checker.Prelude.{
  ℕ, ◌+◌, ◌≤◌, ◌<◌, ◌≡◌, refl, String, Bool, true, ◌&&◌, not, Option, none, some, leb, nat_eq,
  string_eq, arith, Bool-cases, inl, inr,
}
use lite_checker.Collector.Rows.{
  Notification, Db, Answer, done, failed, Limits, transaction, commit, pending, update_where,
  first_where,
}
use lite_checker.Collector.Rows.Valid.{IsValidOutbox}
use lite_checker.Collector.Names.{safe_name, safe_error_code}
use lite_checker.Collector.Outbox.{
  Claim, has_id, claim_stands, lease_expired, advance, prune_completed, acknowledge_row,
  acknowledge_chunk,
}
use lite_checker.Collector.DeadLetters.{fail_row, failure_row, record_notification_failure}
use lite_checker.Collector.Dispatch.Less.{
  all_waiting, advance-waiting, advance-fewer, parked-waiting, pending-waiting, update_where-fewer,
  all_waiting-prune_history,
}

abbrev pub OnDone : {A : Type 0} → (A → Db → Type 0) → Answer A × Db → Type 0
OnDone P (done a, d) = P a d
OnDone P (failed e, d) = Unit

abbrev pub OnBody : {A : Type 0} → (A → Db → Type 0) → Answer (A × Db) → Type 0
OnBody P (done (a, d)) = P a d
OnBody P (failed e) = Unit

commit-OnDone :
    {A : Type 0} (P : A → Db → Type 0) (db : Db) (x : Answer (A × Db))
    → OnBody P x
    → OnDone P (commit db x)
commit-OnDone P db (done (a, d)) h = h
commit-OnDone P db (failed e) h = tt

stands-pending :
    (c : Claim) (owner : String) (n : Notification)
    → claim_stands c owner n ≡ true
    → pending n ≡ true
unfolding claim_stands
stands-pending c owner n h = ground arith

-- fewer chunks wait than before
abbrev pub IsLess : Db → Db → Type 0
IsLess db d = all_waiting d.notifications < all_waiting db.notifications

module _ (c : Claim) (owner : String) (db : Db) (v : IsValidOutbox db) where
  prune_completed-waiting :
      (l : Limits) (now : Option ℕ) (n : Notification) (d : Db)
      → all_waiting (prune_completed l c owner now n d).notifications ≤ all_waiting d.notifications
  unfolding prune_completed
  prune_completed-waiting l none n d = omega arith
  prune_completed-waiting l (some t) n d =
      elim (Bool-cases (leb n.chunk_count (n.next_chunk + 1))) [
        | inl f ↦ rw f (all_waiting-prune_history l n.agent_id t l.max_events_per_agent d)
        | inr f ↦ rw f (omega arith)
      ]

  acknowledge_row-IsLess :
      (l : Limits) (now : Option ℕ) (o : Option Notification)
      → first_where (has_id c.notification_id) db.notifications ≡ o
      → OnBody (λ u d. IsLess db d) (acknowledge_row l c owner now o db)
  unfolding acknowledge_row
  acknowledge_row-IsLess l now none e = tt
  acknowledge_row-IsLess l now (some n) e =
      elim (Bool-cases (not (lease_expired now n) && claim_stands c owner n)) [
        | inr t ↦ rw t tt
        | inl t ↦
            let stands : claim_stands c owner n ≡ true = ground (arith, t) in
            let moved : Db = record db {
              notifications = update_where (has_id c.notification_id) advance db.notifications;
            } in
            let less =
              update_where-fewer advance advance-waiting advance-fewer (has_id c.notification_id)
                db.notifications n v.rows e (stands-pending c owner n stands) in
            let pruned = prune_completed-waiting l now n moved in rw t (omega arith)
      ]

  pub acknowledge_chunk-IsLess :
      (l : Limits) (now : Option ℕ)
      → OnDone (λ u d. IsLess db d) (acknowledge_chunk l c owner now db)
  unfolding acknowledge_chunk transaction
  acknowledge_chunk-IsLess l now = elim (Bool-cases (safe_name owner)) [
    | inr t ↦ rw t tt
    | inl t ↦ rw t (commit-OnDone (λ u d. IsLess db d) db _ (acknowledge_row-IsLess l now _ refl))
  ]

  module _ (code : String) (now : ℕ) (permanent : Bool) (max_attempts delay : ℕ) where
    abbrev Parks : Bool → Db → Type 0
    Parks b d = b ≡ true → IsLess db d

    failure_row-Parks :
        (o : Option Notification)
        → first_where (has_id c.notification_id) db.notifications ≡ o
        → OnBody Parks (failure_row c owner code now permanent max_attempts delay o db)
    unfolding failure_row
    failure_row-Parks none e = tt
    failure_row-Parks (some n) e = elim (Bool-cases (claim_stands c owner n)) [
      | inr t ↦ rw t tt
      | inl t ↦ rw t (λ last. rw last (
          update_where-fewer (fail_row code now delay true)
            (λ m w. omega (arith, parked-waiting code now delay m))
            (λ m w h. omega (arith, parked-waiting code now delay m, pending-waiting m w h))
            (has_id c.notification_id) db.notifications n v.rows e (stands-pending c owner n t)))
    ]

    pub record_notification_failure-Parks :
        OnDone
          (λ b d. b ≡ true → IsLess db d)
          (record_notification_failure c owner code now permanent max_attempts delay db)
    unfolding record_notification_failure transaction
    record_notification_failure-Parks =
        elim (Bool-cases (
          safe_name owner
          && safe_error_code code
          && leb 1 max_attempts
          && leb max_attempts 100
          && leb delay 3600000000)) [
            | inr t ↦ rw t tt
            | inl t ↦ rw t (commit-OnDone Parks db _ (failure_row-Parks _ refl))
          ]
