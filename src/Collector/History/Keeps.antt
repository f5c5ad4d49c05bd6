-- ===== src/Collector/History/Keeps.antt =====
-- The well-formed outbox under `_prune_history`.
use lite_checker.Prelude.{
  ℕ, ◌≤◌, ◌≡◌, true, List, [], ◌∷◌, arith, All, inl, inr, Bool-cases, String, ltb,
}
use lite_checker.Collector.Rows.{Notification, Db, Limits}
use lite_checker.Collector.Rows.Valid.{IsValidRow, Ascending, IsValidOutbox}
use lite_checker.Collector.Rows.Tables.{All-delete_where, Ascending-weaken, Ascending-delete_where}
use lite_checker.Collector.History.{
  unlink, unlink_all, aged, trim_step, trim_completed, prune_notifications, prune_history,
}

module _ (P : Notification → Type 0)
    (closed : (left : List Notification) (n : Notification) → P n → P (unlink left n)) where
  All-unlink_all : (left ns : List Notification) → All P ns → All P (unlink_all left ns)
  unfolding unlink_all
  All-unlink_all left [] h = tt
  All-unlink_all left (n ∷ ns) h = (closed left n h.0, All-unlink_all left ns h.1)

  All-trim_step :
      (max : ℕ) (n : Notification) (r : List Notification × ℕ)
      → P n
      → All P r.0
      → All P (trim_step max n r).0
  All-trim_step max n (left, seen) h k = elim (Bool-cases n.completed) [
    | inr e ↦ simp e (h, k)
    | inl e ↦ simp e (elim (Bool-cases (ltb seen max)) [ inl f ↦ rw f (h, k) | inr f ↦ rw f k ])
  ]

  All-trim_completed :
      (max : ℕ) (ns : List Notification) → All P ns → All P (trim_completed max ns).0
  unfolding trim_completed
  All-trim_completed max [] h = tt
  All-trim_completed max (n ∷ ns) h =
      All-trim_step max n (trim_completed max ns) h.0 (All-trim_completed max ns h.1)

  pub All-prune_notifications :
      (l : Limits) (now : ℕ) (ns : List Notification)
      → All P ns
      → All P (prune_notifications l now ns)
  unfolding prune_notifications
  All-prune_notifications l now ns h = All-unlink_all _ _ (
      All-trim_completed l.max_completed_notifications _
        (All-unlink_all _ _ (All-delete_where P (aged l now) ns h)))

unlink-IsValidRow :
    (left : List Notification) (n : Notification) → IsValidRow n → IsValidRow (unlink left n)
unfolding unlink
unlink-IsValidRow left n v = ground arith

unlink-id :
    (left : List Notification) (n : Notification)
    → (unlink left n).notification_id ≡ n.notification_id
unfolding unlink
unlink-id left n = ground arith

Ascending-unlink_all :
    (left : List Notification) (lo : ℕ) (ns : List Notification)
    → Ascending lo ns
    → Ascending lo (unlink_all left ns)
unfolding unlink_all
Ascending-unlink_all left lo [] h = tt
Ascending-unlink_all left lo (n ∷ ns) h =
    rw unlink-id (h.0, Ascending-unlink_all left n.notification_id ns h.1)

Ascending-trim_step :
    (max lo : ℕ) (n : Notification) (r : List Notification × ℕ)
    → Ascending lo (n ∷ r.0)
    → Ascending lo (trim_step max n r).0
Ascending-trim_step max lo n (left, seen) h =
    let shorter : Ascending lo left =
      Ascending-weaken (λ x. true) lo n.notification_id left (omega arith) h.1 in
    elim (Bool-cases n.completed) [
      | inr e ↦ simp e h
      | inl e ↦ simp e (elim (Bool-cases (ltb seen max)) [ inl f ↦ rw f h | inr f ↦ rw f shorter ])
    ]

Ascending-trim_completed :
    (max lo : ℕ) (ns : List Notification) → Ascending lo ns → Ascending lo (trim_completed max ns).0
unfolding trim_completed
Ascending-trim_completed max lo [] h = tt
Ascending-trim_completed max lo (n ∷ ns) h =
    Ascending-trim_step max lo n (trim_completed max ns)
      (h.0, Ascending-trim_completed max n.notification_id ns h.1)

-- Pruning keeps the outbox well formed.
pub prune_history-IsValidOutbox :
    (l : Limits) (agent : String) (now max : ℕ) (db : Db)
    → IsValidOutbox db
    → IsValidOutbox (prune_history l agent now max db)
unfolding prune_history
prune_history-IsValidOutbox l agent now max db v = record {
  rows = All-prune_notifications IsValidRow unlink-IsValidRow l now db.notifications v.rows;
  order =
      unfold prune_notifications in
      Ascending-unlink_all _ 0 _ (
        Ascending-trim_completed l.max_completed_notifications 0 _ (
          Ascending-unlink_all _ 0 _
            (Ascending-delete_where (aged l now) 0 db.notifications v.order)));
  given =
      All-prune_notifications (λ n. n.notification_id ≤ db.last_id) (λ left n h. rw unlink-id h) l
        now db.notifications v.given;
}
