-- ===== src/Collector/Dispatch.antt =====
-- `NotificationDispatcher` of collector/telegram.py: the outbox is drained chunk by chunk. Other calls
-- of the database may come between its own.
pub mod Less
pub mod Progress
pub mod Ends
use lite_checker.Prelude.{
  ℕ, zero, suc, ◌+◌, String, Bool, true, false, Option, none, some, List, [], ◌∷◌, ◌++◌,
  if◌then◌else◌,
}
use lite_checker.Collector.Rows.{Db, Answer, done, failed, Limits}
use lite_checker.Collector.Outbox.{
  Claim, claim_notification, acknowledge_chunk, reset_notification_leases,
}
use lite_checker.Collector.DeadLetters.{record_notification_failure}
use lite_checker.Collector.Run.{Operation, perform_all}

-- `sender.send_chunks` returns, raises `TelegramPermanentError`, `TelegramTransientError` or another
-- `TelegramError`, overruns the timeout, or raises something else.
pub data Sending : Type 0 where
  delivered : Sending
  refused_for_good failed_for_now : String → Sending
  overran broke : Sending

pub record Dispatcher : Type 0 where
  pub limits : Limits
  pub owner : String
  -- times are in microseconds
  pub lease : ℕ
  pub max_delivery_attempts : ℕ
  pub retry_delay : ℕ
  pub clock : ℕ → ℕ
  pub sender : ℕ → String → Sending
  -- the calls of others before a call of the dispatcher
  pub others : ℕ → List Operation
  pub lock_acquired : Bool

pub record Desk : Type 0 where
  pub db : Db
  pub tick : ℕ
  -- the bodies given to the sender
  pub sent : List String

-- it returns, or raises `NotificationDispatchError`
pub data Drained : Type 0 where
  ended dispatch_failed unfinished : Drained

module _ (d : Dispatcher) where
  abbrev pub found : Desk → Db
  found w = perform_all d.limits (d.others w.tick) w.db

  abbrev pub on_db : {A : Type 0} → (ℕ → Db → Answer A × Db) → Desk → Answer A × Desk
  on_db call w =
      let answer = call (d.clock w.tick) (found w) in
      (answer.0, record { db = answer.1; tick = w.tick + 1; sent = w.sent })

  -- `await self._sender.send_chunks([claim.body])`
  abbrev pub give_out : String → Desk → Desk
  give_out body w = record { db = w.db; tick = w.tick + 1; sent = w.sent ++ (body ∷ []) }

  module _ (next : Desk → Drained × Desk) where
    abbrev pub after_acknowledge : Answer (Unit {0}) × Desk → Drained × Desk
    after_acknowledge (done u, w) = next w
    after_acknowledge (failed e, w) = (dispatch_failed, w)

    -- `if terminal: continue`
    abbrev pub after_failure : Answer Bool × Desk → Drained × Desk
    after_failure (done true, w) = next w
    after_failure (done false, w) = (ended, w)
    after_failure (failed e, w) = (dispatch_failed, w)

    -- `_record_failure`
    abbrev pub record_failure : Claim → String → Bool → Desk → Drained × Desk
    record_failure c code permanent w = after_failure (
        on_db
          (λ now.
            record_notification_failure c d.owner code now permanent d.max_delivery_attempts
              d.retry_delay)
          w)

    abbrev pub settle : Claim → Sending → Desk → Drained × Desk
    settle c delivered w =
        after_acknowledge (on_db (λ now. acknowledge_chunk d.limits c d.owner (some now)) w)
    settle c (refused_for_good code) w = record_failure c code true w
    settle c (failed_for_now code) w = record_failure c code false w
    settle c overran w = record_failure c "telegram-send-timeout" false w
    settle c broke w = record_failure c "telegram-unknown" false w

    abbrev pub after_claim : Answer (Option Claim) × Desk → Drained × Desk
    after_claim (failed e, w) = (dispatch_failed, w)
    after_claim (done none, w) = (ended, w)
    after_claim (done (some c), w) = settle c (d.sender w.tick c.body) (give_out c.body w)

  -- `_drain_locked`, for at most so many claims
  unfoldable pub drain_locked : ℕ → Desk → Drained × Desk
  drain_locked zero w = (unfinished, w)
  drain_locked (suc fuel) w =
      after_claim (λ v. drain_locked fuel v)
        (on_db (λ now. claim_notification d.owner now d.lease) w)

  abbrev pub reset : Desk → Desk
  reset w = record { db = reset_notification_leases (found w); tick = w.tick + 1; sent = w.sent }

  -- `drain`
  unfoldable pub drain : ℕ → Desk → Drained × Desk
  unfolding drain_locked
  drain fuel w = if d.lock_acquired then drain_locked fuel (reset w) else (ended, w)
