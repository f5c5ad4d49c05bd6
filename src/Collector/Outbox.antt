-- ===== src/Collector/Outbox.antt =====
-- The outbox of collector/db.py: a notification is claimed under a lease, acknowledged chunk by chunk,
-- and released.
pub mod Valid
pub mod Invariant
pub mod Kept
pub mod Requeued
pub mod Lease
use lite_checker.Prelude.{
  ℕ, ◌+◌, ◌-◌, String, Bool, true, false, Option, none, some, List, [], ◌∷◌, ◌++◌, ◌&&◌, ◌||◌, not,
  ltb, leb, length, drop, get_elem?, any_of, string_eq, nat_eq, option_beq, ◌==◌, if◌then◌else◌,
}
use lite_checker.Collector.Rows.{
  Kind, Notification, Db, DbError, Answer, done, failed, Tx, transaction, Limits, pending,
  for_requeue, update_where, first_where, count_where, claim_lost, outbox_corrupt, bad_argument,
  dead_letter_not_found, dead_letter_invalid, requeue_conflict, backpressure,
}
use lite_checker.Collector.Names.{safe_name, safe_error_code}
use lite_checker.Collector.History.{prune_history}
use lite_checker.Collector.Queue.{insert_notification, ensure_pending_capacity}

-- `ClaimedNotification`
pub record Claim : Type 0 where
  pub notification_id : ℕ
  pub kind : Kind
  pub chunk_index : ℕ
  pub chunk_count : ℕ
  pub body : String

-- `next_attempt_us IS NULL OR next_attempt_us <= now`
unfoldable pub due : ℕ → Notification → Bool
due now n = elim n.next_attempt_us [ none ↦ true | some t ↦ leb t now ]

-- another owner's lease that has not run out
unfoldable pub held_by_other : String → ℕ → Notification → Bool
held_by_other owner now n = elim n.lease_until_us [
  | none ↦ false
  | some until ↦ ltb now until && not (option_beq n.lease_owner (some owner))
]

-- the WHERE of the UPDATE of a claim
unfoldable pub claimable : String → ℕ → ℕ → Notification → Bool
unfolding due
claimable owner now id n =
    n.notification_id == id
    && pending n
    && due now n
    && (elim n.lease_until_us [ none ↦ true | some until ↦ leb until now ]
        || option_beq n.lease_owner (some owner))

unfoldable pub take_lease : String → ℕ → Notification → Notification
take_lease owner until n = record n { lease_owner = some owner; lease_until_us = some until }

module _ (owner : String) (now lease : ℕ) where
  unfoldable pub claim_row : Notification → Tx (Option Claim)
  claim_row n db =
      if any_of (claimable owner now n.notification_id) db.notifications
      then elim (get_elem? n.bodies n.next_chunk) [
        | none ↦ failed outbox_corrupt
        | some body ↦ done (
          some (record {
            notification_id = n.notification_id;
            kind = n.kind;
            chunk_index = n.next_chunk;
            chunk_count = n.chunk_count;
            body = body;
          }),
          record db {
            notifications =
                update_where (claimable owner now n.notification_id)
                  (take_lease owner (now + lease)) db.notifications;
          },
        )
      ]
      else done (none, db)

  unfoldable pub claim_head : Option Notification → Tx (Option Claim)
  claim_head none db = done (none, db)
  claim_head (some n) db =
      if not (due now n)
      then done (none, db)
      else if held_by_other owner now n
      then done (none, db)
      else claim_row n db

  unfoldable pub claim_body : Tx (Option Claim)
  claim_body db = claim_head (first_where pending db.notifications) db

  -- The lease is in microseconds, between one second and 300.
  unfoldable pub claim_notification : Db → Answer (Option Claim) × Db
  claim_notification db =
      if safe_name owner && leb 1000000 lease && leb lease 300000000
      then transaction claim_body db
      else (failed bad_argument, db)

abbrev pub has_id : ℕ → Notification → Bool
has_id id n = n.notification_id == id

-- `notification-claim-lost`: the row is finished, or another claim has taken its place
unfoldable pub claim_stands : Claim → String → Notification → Bool
claim_stands c owner n =
    not n.completed
    && not n.dead_letter
    && option_beq n.lease_owner (some owner)
    && n.next_chunk == c.chunk_index

-- the lease has run out, where a time is given
unfoldable pub lease_expired : Option ℕ → Notification → Bool
lease_expired none n = false
lease_expired (some now) n = elim n.lease_until_us [ none ↦ true | some until ↦ leb until now ]

unfoldable pub advance : Notification → Notification
advance n = record n {
  next_chunk = n.next_chunk + 1;
  completed = leb n.chunk_count (n.next_chunk + 1);
  lease_owner = none;
  lease_until_us = none;
  attempt_count = 0;
  next_attempt_us = none;
  last_error_code = none;
  last_error_at_us = none;
}

module _ (l : Limits) (c : Claim) (owner : String) (now : Option ℕ) where
  unfoldable pub prune_completed : Notification → Db → Db
  prune_completed n db = elim now [
    | none ↦ db
    | some t ↦
        if leb n.chunk_count (n.next_chunk + 1)
        then prune_history l n.agent_id t l.max_events_per_agent db
        else db
  ]

  unfoldable pub acknowledge_row : Option Notification → Tx (Unit {0})
  acknowledge_row none db = failed claim_lost
  acknowledge_row (some n) db =
      if not (lease_expired now n) && claim_stands c owner n
      then done (
        tt,
        prune_completed n (record db {
          notifications = update_where (has_id c.notification_id) advance db.notifications;
        }),
      )
      else failed claim_lost

  unfoldable pub acknowledge_chunk : Db → Answer (Unit {0}) × Db
  acknowledge_chunk db =
      if safe_name owner
      then transaction
          (λ d. acknowledge_row (first_where (has_id c.notification_id) d.notifications) d) db
      else (failed bad_argument, db)

unfoldable pub drop_lease : Notification → Notification
drop_lease n = record n { lease_owner = none; lease_until_us = none }

unfoldable pub release_notification : Claim → String → Db → Answer (Unit {0}) × Db
release_notification c owner db =
    if safe_name owner
    then (
      done tt,
      record db {
        notifications =
            update_where
              (λ n.
                has_id c.notification_id n && option_beq n.lease_owner (some owner) && pending n)
              drop_lease db.notifications;
      },
    )
    else (failed bad_argument, db)

abbrev pub has_lease : Notification → Bool
has_lease n =
    elim n.lease_owner [ none ↦ false | some _ ↦ true ]
    || elim n.lease_until_us [ none ↦ false | some _ ↦ true ]

unfoldable pub reset_notification_leases : Db → Db
reset_notification_leases db = record db {
  notifications = update_where (λ n. pending n && has_lease n) drop_lease db.notifications;
}
