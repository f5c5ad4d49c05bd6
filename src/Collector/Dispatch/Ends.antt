-- ===== src/Collector/Dispatch/Ends.antt =====
-- Draining the outbox comes to an end.
use lite_checker.Prelude.{
  ℕ, zero, suc, ◌+◌, ◌≤◌, ◌<◌, ◌≡◌, refl, sym, ap, subst, ◌∙◌, String, Bool, true, false, Option,
  none, some, List, [], arith, if◌then◌else◌,
}
use lite_checker.Collector.Rows.{Db, Answer, done, failed}
use lite_checker.Collector.Rows.Valid.{IsValidOutbox}
use lite_checker.Collector.Outbox.{
  take_lease, Claim, claim_notification, acknowledge_chunk, reset_notification_leases,
}
use lite_checker.Collector.Outbox.Kept.{
  claim_notification-IsValidOutbox, acknowledge_chunk-IsValidOutbox,
  reset_notification_leases-IsValidOutbox, record_notification_failure-IsValidOutbox,
}
use lite_checker.Collector.Outbox.Lease.{ClaimedAnswer, claim_notification-Claimed}
use lite_checker.Collector.DeadLetters.{record_notification_failure}
use lite_checker.Collector.Run.{perform_all}
use lite_checker.Collector.Dispatch.Less.{
  all_waiting, update_where-take_lease, update_where-drop_lease,
}
use lite_checker.Collector.Dispatch.Progress.{
  OnDone, IsLess, acknowledge_chunk-IsLess, record_notification_failure-Parks,
}
use lite_checker.Collector.Dispatch.{
  Sending, delivered, refused_for_good, failed_for_now, overran, broke, Dispatcher, Desk, Drained,
  ended, unfinished, found, after_acknowledge, after_failure, record_failure, settle, after_claim,
  drain_locked, reset, drain,
}

-- it returned or raised, and left a well-formed outbox
abbrev pub IsEnd : Drained × Desk → Type 0
IsEnd (r, w) = (¬ (r ≡ unfinished)) × IsValidOutbox w.db

abbrev chunks_of : Desk → ℕ
chunks_of w = all_waiting w.db.notifications

module _ (d : Dispatcher) (quiet : (t : ℕ) → d.others t ≡ []) where
  found-same : (w : Desk) → found d w ≡ w.db
  unfolding perform_all
  found-same w = rw (quiet w.tick) refl

  module _ (k : ℕ) (next : Desk → Drained × Desk)
      (again : (v : Desk) → IsValidOutbox v.db → chunks_of v < k → IsEnd (next v)) where
    after_acknowledge-IsEnd :
        (w : Desk) (a : Answer (Unit {0})) (db' : Db) (t : ℕ) (s : List String)
        → IsValidOutbox db'
        → OnDone (λ u e. IsLess w.db e) (a, db')
        → chunks_of w ≤ k
        → IsEnd (after_acknowledge d next (a, record { db = db'; tick = t; sent = s }))
    after_acknowledge-IsEnd w (done u) db' t s v less few = again _ v (omega arith)
    after_acknowledge-IsEnd w (failed e) db' t s v less few = (λ h. absurd (cc h), v)

    after_failure-IsEnd :
        (w : Desk) (a : Answer Bool) (db' : Db) (t : ℕ) (s : List String)
        → IsValidOutbox db'
        → OnDone (λ b e. b ≡ true → IsLess w.db e) (a, db')
        → chunks_of w ≤ k
        → IsEnd (after_failure d next (a, record { db = db'; tick = t; sent = s }))
    after_failure-IsEnd w (done true) db' t s v less few =
        let fewer = less refl in again _ v (omega arith)
    after_failure-IsEnd w (done false) db' t s v less few = (λ h. absurd (cc h), v)
    after_failure-IsEnd w (failed e) db' t s v less few = (λ h. absurd (cc h), v)

    module _ (c : Claim) (w : Desk) (v : IsValidOutbox w.db) (few : chunks_of w ≤ k) where
      record_failure-IsEnd :
          (code : String) (permanent : Bool) → IsEnd (record_failure d next c code permanent w)
      record_failure-IsEnd code permanent =
          subst
            (λ e. IsEnd (
              after_failure d next (
                (record_notification_failure c d.owner code (d.clock w.tick) permanent
                    d.max_delivery_attempts d.retry_delay e).0,
                record {
                  db =
                      (record_notification_failure c d.owner code (d.clock w.tick) permanent
                        d.max_delivery_attempts d.retry_delay e).1;
                  tick = w.tick + 1;
                  sent = w.sent;
                },
              )))
            (sym (found-same w))
            (after_failure-IsEnd w _ _ _ _
              (record_notification_failure-IsValidOutbox w.db v c d.owner code (d.clock w.tick)
                permanent d.max_delivery_attempts d.retry_delay)
              (record_notification_failure-Parks c d.owner w.db v code (d.clock w.tick) permanent
                d.max_delivery_attempts d.retry_delay)
              few)

      settle-IsEnd : (x : Sending) → IsEnd (settle d next c x w)
      settle-IsEnd delivered =
          subst
            (λ e. IsEnd (
              after_acknowledge d next (
                (acknowledge_chunk d.limits c d.owner (some (d.clock w.tick)) e).0,
                record {
                  db = (acknowledge_chunk d.limits c d.owner (some (d.clock w.tick)) e).1;
                  tick = w.tick + 1;
                  sent = w.sent;
                },
              )))
            (sym (found-same w))
            (after_acknowledge-IsEnd w _ _ _ _
              (acknowledge_chunk-IsValidOutbox d.limits c d.owner (some (d.clock w.tick)) w.db v)
              (acknowledge_chunk-IsLess c d.owner w.db v d.limits (some (d.clock w.tick))) few)
      settle-IsEnd (refused_for_good code) = record_failure-IsEnd code true
      settle-IsEnd (failed_for_now code) = record_failure-IsEnd code false
      settle-IsEnd overran = record_failure-IsEnd "telegram-send-timeout" false
      settle-IsEnd broke = record_failure-IsEnd "telegram-unknown" false

    after_claim-IsEnd :
        (w : Desk) (a : Answer (Option Claim)) (db' : Db) (t now : ℕ) (s : List String)
        → IsValidOutbox db'
        → ClaimedAnswer d.owner now d.lease w.db (a, db')
        → chunks_of w ≤ k
        → IsEnd (after_claim d next (a, record { db = db'; tick = t; sent = s }))
    unfolding take_lease
    after_claim-IsEnd w (failed e) db' t now s v claimed few = (λ h. absurd (cc h), v)
    after_claim-IsEnd w (done none) db' t now s v claimed few = (λ h. absurd (cc h), v)
    after_claim-IsEnd w (done (some c)) db' t now s v claimed few =
        let same : all_waiting db'.notifications ≡ chunks_of w =
          ap (λ (e : Db). all_waiting e.notifications) claimed.leaves
          ∙ update_where-take_lease _ d.owner (now + d.lease) w.db.notifications in
        settle-IsEnd c _ v (omega arith) (d.sender t c.body)

  drain_locked-IsEnd :
      (fuel : ℕ) (w : Desk)
      → IsValidOutbox w.db
      → chunks_of w < fuel
      → IsEnd (drain_locked d fuel w)
  unfolding drain_locked
  drain_locked-IsEnd zero w v few = absurd (omega arith)
  drain_locked-IsEnd (suc k) w v few =
      subst
        (λ e. IsEnd (
          after_claim d (λ u. drain_locked d k u)
            (
              (claim_notification d.owner (d.clock w.tick) d.lease e).0,
              record {
                db = (claim_notification d.owner (d.clock w.tick) d.lease e).1;
                tick = w.tick + 1;
                sent = w.sent;
              },
            )))
        (sym (found-same w))
        (after_claim-IsEnd k (λ u. drain_locked d k u) (drain_locked-IsEnd k) w _ _ _
          (d.clock w.tick) _
          (claim_notification-IsValidOutbox d.owner (d.clock w.tick) d.lease w.db v)
          (claim_notification-Claimed d.owner (d.clock w.tick) d.lease w.db) (omega arith))

  reset-kept :
      (w : Desk)
      → IsValidOutbox w.db
      → IsValidOutbox (reset d w).db × (chunks_of (reset d w) ≡ chunks_of w)
  unfolding reset_notification_leases
  reset-kept w v =
      subst
        (λ e.
          IsValidOutbox (reset_notification_leases e)
          × (all_waiting (reset_notification_leases e).notifications ≡ chunks_of w))
        (sym (found-same w))
        (
          reset_notification_leases-IsValidOutbox w.db v,
          update_where-drop_lease _ w.db.notifications,
        )

  locked-IsEnd :
      (fuel : ℕ) (w : Desk) (b : Bool)
      → IsValidOutbox w.db
      → chunks_of w < fuel
      → IsEnd (if b then drain_locked d fuel (reset d w) else (ended, w))
  locked-IsEnd fuel w false v few = (λ h. absurd (cc h), v)
  locked-IsEnd fuel w true v few =
      let (kept, same) = reset-kept w v in drain_locked-IsEnd fuel (reset d w) kept (omega arith)

  -- If nobody else writes meanwhile, draining a well-formed outbox returns or raises, whatever the
  -- sender, the clock, the lease and the bounds are: one claim more than there are waiting chunks is
  -- enough, since each claim that goes on leaves fewer. The outbox is well formed afterwards.
  pub drain-IsEnd :
      (fuel : ℕ) (w : Desk)
      → IsValidOutbox w.db
      → all_waiting w.db.notifications < fuel
      → (¬ ((drain d fuel w).0 ≡ unfinished)) × IsValidOutbox (drain d fuel w).1.db
  unfolding drain
  drain-IsEnd fuel w v few = locked-IsEnd fuel w d.lock_acquired v few
