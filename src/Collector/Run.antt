-- ===== src/Collector/Run.antt =====
-- Sequences of calls of `CollectorDB`, by any number of agents, dispatchers and operators.
use lite_checker.Prelude.{ℕ, String, Bool, Option, List, [], ◌∷◌}
use lite_checker.Collector.Rows.{Agent, Db, Limits}
use lite_checker.Collector.Rows.Valid.{IsValidOutbox}
use lite_checker.Collector.Outbox.{
  Claim, claim_notification, acknowledge_chunk, release_notification, reset_notification_leases,
}
use lite_checker.Collector.DeadLetters.{
  record_notification_failure, retry_dead_letters, requeue_dead_letter,
}
use lite_checker.Collector.Outbox.Kept.{
  claim_notification-IsValidOutbox, acknowledge_chunk-IsValidOutbox,
  release_notification-IsValidOutbox, reset_notification_leases-IsValidOutbox,
  record_notification_failure-IsValidOutbox, retry_dead_letters-IsValidOutbox,
}
use lite_checker.Collector.Outbox.Requeued.{requeue_dead_letter-IsValidOutbox}
use lite_checker.Collector.Reports.{AgentReport, Messages, accept_report}
use lite_checker.Collector.Reports.Kept.{accept_report-IsValidOutbox}
use lite_checker.Collector.Registry.{AgentIdentity, sync_registry}
use lite_checker.Collector.Offline.{offline_transitions}
use lite_checker.Collector.Offline.Kept.{offline_transitions-IsValidOutbox}

-- One call of a method of `CollectorDB`, with its arguments.
pub data Operation : Type 0 where
  claim : String → ℕ → ℕ → Operation
  acknowledge : Claim → String → Option ℕ → Operation
  release : Claim → String → Operation
  reset : Operation
  fail : Claim → String → String → ℕ → Bool → ℕ → ℕ → Operation
  retry : ℕ → Operation
  requeue : ℕ → ℕ → Operation
  accept : Messages → AgentReport → ℕ → String → Operation
  sync : List AgentIdentity → ℕ → Operation
  sweep : (Agent → ℕ → ℕ → Bool → List String) → ℕ → Operation

-- The database after the call, whether it returned or raised.
unfoldable pub perform : Limits → Operation → Db → Db
perform l (claim owner now lease) db = (claim_notification owner now lease db).1
perform l (acknowledge c owner now) db = (acknowledge_chunk l c owner now db).1
perform l (release c owner) db = (release_notification c owner db).1
perform l reset db = reset_notification_leases db
perform l (fail c owner code now permanent max delay) db =
    (record_notification_failure c owner code now permanent max delay db).1
perform l (retry now) db = (retry_dead_letters now db).1
perform l (requeue id now) db = (requeue_dead_letter l id now db).1
perform l (accept m r now agent) db = (accept_report l m r now agent db).1
perform l (sync is now) db = sync_registry is now db
perform l (sweep alert now) db = (offline_transitions l alert now db).1

unfoldable pub perform_all : Limits → List Operation → Db → Db
perform_all l [] db = db
perform_all l (o ∷ rest) db = perform_all l rest (perform l o db)

perform-IsValidOutbox :
    (l : Limits) (o : Operation) (db : Db) → IsValidOutbox db → IsValidOutbox (perform l o db)
unfolding perform sync_registry
perform-IsValidOutbox l (sync is now) db v = record {
  rows = v.rows;
  order = v.order;
  given = v.given;
}
perform-IsValidOutbox l (claim owner now lease) db v =
    claim_notification-IsValidOutbox owner now lease db v
perform-IsValidOutbox l (acknowledge c owner now) db v =
    acknowledge_chunk-IsValidOutbox l c owner now db v
perform-IsValidOutbox l (release c owner) db v = release_notification-IsValidOutbox db v c owner
perform-IsValidOutbox l reset db v = reset_notification_leases-IsValidOutbox db v
perform-IsValidOutbox l (fail c owner code now permanent max delay) db v =
    record_notification_failure-IsValidOutbox db v c owner code now permanent max delay
perform-IsValidOutbox l (retry now) db v = retry_dead_letters-IsValidOutbox db v now
perform-IsValidOutbox l (requeue id now) db v = requeue_dead_letter-IsValidOutbox db v l id now
perform-IsValidOutbox l (accept m r now agent) db v =
    accept_report-IsValidOutbox l m r now agent db v
perform-IsValidOutbox l (sweep alert now) db v = offline_transitions-IsValidOutbox l alert now db v

-- Whatever registries are read, reports accepted, sweeps run and operations performed on a
-- well-formed outbox, in whatever order and with whatever arguments, stale claims included, it stays
-- well formed: the progress is within the chunks, completion is having sent every chunk, no row is
-- both completed and a dead letter, only pending rows are leased, no row has more than 100 attempts,
-- and ids are unique and increase.
pub perform_all-IsValidOutbox :
    (l : Limits) (os : List Operation) (db : Db)
    → IsValidOutbox db
    → IsValidOutbox (perform_all l os db)
unfolding perform_all
perform_all-IsValidOutbox l [] db v = v
perform_all-IsValidOutbox l (o ∷ rest) db v =
    perform_all-IsValidOutbox l rest (perform l o db) (perform-IsValidOutbox l o db v)
