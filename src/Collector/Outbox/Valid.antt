-- ===== src/Collector/Outbox/Valid.antt =====
-- The well-formed rows under the changes that the operations make.
use lite_checker.Prelude.{ℕ, ◌+◌, ◌≤◌, ◌≡◌, String, Bool, true, false, arith, leb, ◌||◌}
use lite_checker.Collector.Rows.{Notification, pending}
use lite_checker.Collector.Rows.Valid.{IsValidRow}
use lite_checker.Collector.Outbox.{take_lease, advance, drop_lease}
use lite_checker.Collector.DeadLetters.{fail_row, rearm, mark_requeued, unresolved}

module _ (n : Notification) (v : IsValidRow n) where
  pub take_lease-IsValidRow :
      (owner : String) (until : ℕ) → pending n ≡ true → IsValidRow (take_lease owner until n)
  unfolding take_lease
  take_lease-IsValidRow owner until h = ground arith

  pub advance-IsValidRow : pending n ≡ true → IsValidRow (advance n)
  unfolding advance
  advance-IsValidRow h = ground arith

  pub drop_lease-IsValidRow : IsValidRow (drop_lease n)
  unfolding drop_lease
  drop_lease-IsValidRow = ground arith

  pub fail_row-IsValidRow :
      (code : String) (now delay max_attempts : ℕ) (permanent : Bool)
      → pending n ≡ true
      → max_attempts ≤ 100
      → IsValidRow (fail_row code now delay (permanent || leb max_attempts (n.attempt_count + 1)) n)
  unfolding fail_row
  fail_row-IsValidRow code now delay max_attempts permanent h m = ground arith

  pub rearm-IsValidRow :
      (now : ℕ) → n.completed ≡ false → unresolved n ≡ true → IsValidRow (rearm now n)
  unfolding rearm
  rearm-IsValidRow now h k = ground arith

  pub mark_requeued-IsValidRow :
      (clone now : ℕ) → n.dead_letter ≡ true → IsValidRow (mark_requeued clone now n)
  unfolding mark_requeued
  mark_requeued-IsValidRow clone now h = ground arith
