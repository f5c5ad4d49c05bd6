-- ===== src/Collector/Rows/Valid.antt =====
-- What every row of the outbox satisfies, and the order of the rows.
use lite_checker.Prelude.{ℕ, ◌≤◌, ◌<◌, ◌≡◌, true, false, none, List, [], ◌∷◌, length, All}
use lite_checker.Collector.Rows.{Notification, Db, pending}

-- The CHECK constraints of the table, and what the columns say together: progress, completion, dead
-- letters, leases and attempts.
pub record IsValidRow (n : Notification) : Type 0 where
  pub counted : length n.bodies ≡ n.chunk_count
  pub within : n.next_chunk ≤ n.chunk_count
  pub finished : n.completed ≡ true → n.next_chunk ≡ n.chunk_count
  pub unfinished : n.completed ≡ false → n.next_chunk < n.chunk_count
  pub parked : n.dead_letter ≡ true → n.completed ≡ false
  pub unleased : pending n ≡ false → n.lease_owner ≡ none
  pub paired : n.lease_owner ≡ none → n.lease_until_us ≡ none
  pub attempts : n.attempt_count ≤ 100
  pub may_retry : pending n ≡ true → n.attempt_count < 100
  pub settled : n.requeued ≡ true → n.dead_letter ≡ true
  pub linked : n.requeued ≡ false → n.requeued_notification_id ≡ none

-- The ids increase along the table, from above `lo`.
abbrev pub Ascending : ℕ → List Notification → Type 0
Ascending lo [] = Unit
Ascending lo (n ∷ rest) = (lo < n.notification_id) × Ascending n.notification_id rest

-- The outbox is well formed: its rows are, the order of the table is that of the ids, and no id is
-- above the last that was given.
pub record IsValidOutbox (db : Db) : Type 0 where
  pub rows : All IsValidRow db.notifications
  pub order : Ascending 0 db.notifications
  pub given : All (λ n. n.notification_id ≤ db.last_id) db.notifications
