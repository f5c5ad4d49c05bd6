-- ===== src/Collector/Outbox/Kept.antt =====
-- The well-formed outbox under the operations of Outbox.antt, failures and retries.
use lite_checker.Prelude.{
  ℕ, ◌+◌, ◌≤◌, ◌≡◌, String, Bool, Option, none, some, arith, refl, inl, inr, Bool-cases,
  Option-cases, ◌&&◌, not, leb, nat_eq, string_eq, any_of, get_elem?,
}
use lite_checker.Collector.Rows.{Notification, Db, transaction, Limits, first_where}
use lite_checker.Collector.Rows.Valid.{IsValidRow, IsValidOutbox}
use lite_checker.Collector.Rows.Tables.{first_where-All}
use lite_checker.Collector.History.Keeps.{prune_history-IsValidOutbox}
use lite_checker.Collector.Outbox.Valid.{
  take_lease-IsValidRow, advance-IsValidRow, drop_lease-IsValidRow, fail_row-IsValidRow,
  rearm-IsValidRow,
}
use lite_checker.Collector.Outbox.{
  Claim, claimable, take_lease, claim_row, claim_head, claim_body, claim_notification, has_id,
  claim_stands, lease_expired, advance, prune_completed, acknowledge_row, acknowledge_chunk,
  drop_lease, release_notification, reset_notification_leases, due, held_by_other,
}
use lite_checker.Collector.DeadLetters.{
  fail_row, failure_row, record_notification_failure, rearm, retry_dead_letters,
}
use lite_checker.Collector.Outbox.Invariant.{
  update-IsValidOutbox, found-IsValidOutbox, Kept, commit-IsValidOutbox, guard-IsValidOutbox,
}
use lite_checker.Collector.Names.{safe_name, safe_error_code}

module _ (owner : String) (now lease : ℕ) (db : Db) (v : IsValidOutbox db) where
  claim_row-Kept : (n : Notification) → Kept (claim_row owner now lease n db)
  unfolding claim_row claimable take_lease
  claim_row-Kept n =
      elim (Bool-cases (any_of (claimable owner now n.notification_id) db.notifications)) [
        | inr e ↦ rw e v
        | inl e ↦ rw e (elim (Option-cases (get_elem? n.bodies n.next_chunk)) [
          | inl f ↦ rw (f, Kept) tt
          | inr (body, f) ↦
              rw (f, Kept)
                (update-IsValidOutbox (claimable owner now n.notification_id)
                  (take_lease owner (now + lease)) db (λ m. refl)
                  (λ m h w. take_lease-IsValidRow m w owner (now + lease) (ground arith)) v)
        ])
      ]

  claim_head-Kept : (o : Option Notification) → Kept (claim_head owner now lease o db)
  unfolding claim_head
  claim_head-Kept none = v
  claim_head-Kept (some n) = elim (Bool-cases (due now n)) [
    | inr e ↦ simp e v
    | inl e ↦ simp e (elim (Bool-cases (held_by_other owner now n)) [
      | inl f ↦ simp f v
      | inr f ↦ simp f (claim_row-Kept n)
    ])
  ]

  pub claim_notification-IsValidOutbox : IsValidOutbox (claim_notification owner now lease db).1
  unfolding claim_notification transaction claim_body
  claim_notification-IsValidOutbox =
      guard-IsValidOutbox _ _ _ (commit-IsValidOutbox db _ v (claim_head-Kept _)) v

module _ (l : Limits) (c : Claim) (owner : String) (now : Option ℕ) (db : Db)
    (v : IsValidOutbox db) where
  prune_completed-IsValidOutbox :
      (n : Notification) (d : Db)
      → IsValidOutbox d
      → IsValidOutbox (prune_completed l c owner now n d)
  unfolding prune_completed
  prune_completed-IsValidOutbox n d w = elim (Option-cases now) [
    | inl e ↦ rw e w
    | inr (t, e) ↦ rw e (elim (Bool-cases (leb n.chunk_count (n.next_chunk + 1))) [
      | inl f ↦ rw f (prune_history-IsValidOutbox l n.agent_id t l.max_events_per_agent d w)
      | inr f ↦ rw f w
    ])
  ]

  acknowledge_row-Kept :
      (o : Option Notification)
      → first_where (has_id c.notification_id) db.notifications ≡ o
      → Kept (acknowledge_row l c owner now o db)
  unfolding acknowledge_row advance claim_stands
  acknowledge_row-Kept none e = tt
  acknowledge_row-Kept (some n) e =
      elim (Bool-cases (not (lease_expired now n) && claim_stands c owner n)) [
        | inr f ↦ simp f tt
        | inl f ↦ simp f (
            prune_completed-IsValidOutbox n _ (
              found-IsValidOutbox c.notification_id (has_id c.notification_id) advance db n e
                (λ m k. k) (λ m. refl)
                (advance-IsValidRow n
                  (first_where-All IsValidRow (has_id c.notification_id) db.notifications n v.rows
                    e).0
                  (ground arith))
                v))
      ]

  pub acknowledge_chunk-IsValidOutbox : IsValidOutbox (acknowledge_chunk l c owner now db).1
  unfolding acknowledge_chunk transaction
  acknowledge_chunk-IsValidOutbox =
      guard-IsValidOutbox _ _ _ (commit-IsValidOutbox db _ v (acknowledge_row-Kept _ refl)) v

module _ (db : Db) (v : IsValidOutbox db) where
  pub release_notification-IsValidOutbox :
      (c : Claim) (owner : String) → IsValidOutbox (release_notification c owner db).1
  unfolding release_notification drop_lease
  release_notification-IsValidOutbox c owner =
      guard-IsValidOutbox _ _ _
        (update-IsValidOutbox _ drop_lease db (λ n. refl) (λ n e w. drop_lease-IsValidRow n w) v) v

  pub reset_notification_leases-IsValidOutbox : IsValidOutbox (reset_notification_leases db)
  unfolding reset_notification_leases drop_lease
  reset_notification_leases-IsValidOutbox =
      update-IsValidOutbox _ drop_lease db (λ n. refl) (λ n e w. drop_lease-IsValidRow n w) v

  pub retry_dead_letters-IsValidOutbox : (now : ℕ) → IsValidOutbox (retry_dead_letters now db).1
  unfolding retry_dead_letters rearm
  retry_dead_letters-IsValidOutbox now =
      update-IsValidOutbox _ (rearm now) db (λ n. refl)
        (λ n e w. rearm-IsValidRow n w now (ground arith) (ground arith)) v

  module _ (c : Claim) (owner code : String) (now : ℕ) (permanent : Bool)
      (max_attempts delay : ℕ) where
    failure_row-Kept :
        (o : Option Notification)
        → max_attempts ≤ 100
        → first_where (has_id c.notification_id) db.notifications ≡ o
        → Kept (failure_row c owner code now permanent max_attempts delay o db)
    unfolding failure_row fail_row claim_stands
    failure_row-Kept none m e = tt
    failure_row-Kept (some n) m e = elim (Bool-cases (claim_stands c owner n)) [
      | inr f ↦ rw f tt
      | inl f ↦ rw f (
          found-IsValidOutbox c.notification_id (has_id c.notification_id) _ db n e (λ m k. k)
            (λ m. refl)
            (fail_row-IsValidRow n
              (first_where-All IsValidRow (has_id c.notification_id) db.notifications n v.rows e).0
              code now delay max_attempts permanent (ground arith) m)
            v)
    ]

    pub record_notification_failure-IsValidOutbox :
        IsValidOutbox
          (record_notification_failure c owner code now permanent max_attempts delay db).1
    unfolding record_notification_failure transaction
    record_notification_failure-IsValidOutbox =
        elim (Bool-cases (
          safe_name owner
          && safe_error_code code
          && leb 1 max_attempts
          && leb max_attempts 100
          && leb delay 3600000000)) [
            | inr e ↦ rw e v
            | inl e ↦ rw e (commit-IsValidOutbox db _ v (failure_row-Kept _ (ground arith) refl))
          ]
