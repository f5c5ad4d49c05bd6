-- ===== src/Collector/History.antt =====
-- `_prune_history` of collector/db.py, and the foreign keys that its deletions act on.
pub mod Keeps
pub mod Spares
pub mod Lasts
use Prim.Native.String.{compare}
use Prim.Native.Nat.{Ordering}
use lite_checker.Prelude.{
  ℕ, ◌+◌, String, Bool, true, false, Option, none, some, List, [], ◌∷◌, ◌&&◌, ◌||◌, not, ltb, leb,
  any_of, string_eq, nat_eq, option_beq, ◌==◌, if◌then◌else◌,
}
use lite_checker.Collector.Rows.{
  Notification, Event, Db, Limits, pending, delete_where, count_where,
}

-- `ON DELETE SET NULL` of `requeued_notification_id`, for the rows that are left
unfoldable pub unlink : List Notification → Notification → Notification
unlink left n = elim n.requeued_notification_id [
  | none ↦ n
  | some id ↦
      if any_of (λ m. m.notification_id == id) left
      then n
      else record n { requeued_notification_id = none }
]

unfoldable pub unlink_all : List Notification → List Notification → List Notification
unlink_all left [] = []
unlink_all left (n ∷ rest) = unlink left n ∷ unlink_all left rest

-- completed, and created before the retention
abbrev pub aged : Limits → ℕ → Notification → Bool
aged l now n = n.completed && ltb (n.created_at_us + l.completed_retention_us) now

abbrev pub trim_step : ℕ → Notification → List Notification × ℕ → List Notification × ℕ
trim_step max n (left, seen) =
    if n.completed
    then (if ltb seen max then (n ∷ left, seen + 1) else (left, seen + 1))
    else (n ∷ left, seen)

-- `WHERE completed = 1 ORDER BY notification_id DESC LIMIT -1 OFFSET max`: of the completed rows, all
-- but the `max` newest go. The second component counts the completed rows that were seen.
unfoldable pub trim_completed : ℕ → List Notification → List Notification × ℕ
trim_completed max [] = ([], 0)
trim_completed max (n ∷ rest) = trim_step max n (trim_completed max rest)

unfoldable pub prune_notifications : Limits → ℕ → List Notification → List Notification
prune_notifications l now ns =
    let young = delete_where (aged l now) ns in
    let young' = unlink_all young young in
    let newest = (trim_completed l.max_completed_notifications young').0 in unlink_all newest newest

-- a notification that still stands for its event
abbrev pub protects : String → Notification → Bool
protects event n =
    option_beq n.event_id (some event) && (pending n || n.dead_letter && not n.requeued)

unfoldable pub protected : List Notification → Event → Bool
protected ns e = any_of (protects e.event_id) ns

-- `ORDER BY received_at_us DESC, event_id DESC`
unfoldable pub newer : Event → Event → Bool
newer e f =
    ltb f.received_at_us e.received_at_us
    || f.received_at_us == e.received_at_us
      && elim (compare f.event_id e.event_id) [ Ordering.lt ↦ true | _ ↦ false ]

abbrev pub stale_event : Limits → List Notification → String → ℕ → Event → Bool
stale_event l ns agent now e =
    e.agent_id == agent && ltb (e.received_at_us + l.event_retention_us) now && not (protected ns e)

abbrev pub ordinary : List Notification → String → Event → Bool
ordinary ns agent e = e.agent_id == agent && not (protected ns e)

-- an ordinary event with `max` newer ones before it
abbrev pub surplus : List Notification → String → ℕ → List Event → Event → Bool
surplus ns agent max all e =
    ordinary ns agent e && leb max (count_where (λ f. ordinary ns agent f && newer f e) all)

unfoldable pub prune_events : Limits → List Notification → String → ℕ → ℕ → List Event → List Event
prune_events l ns agent now max es =
    let recent = delete_where (stale_event l ns agent now) es in
    delete_where (surplus ns agent max recent) recent

unfoldable pub prune_history : Limits → String → ℕ → ℕ → Db → Db
prune_history l agent now max_events db =
    let ns = prune_notifications l now db.notifications in
    record db { notifications = ns; events = prune_events l ns agent now max_events db.events }
