-- ===== src/Collector/History/Spares.antt =====
-- `_prune_history` and the events whose notifications are pending.
use lite_checker.Prelude.{
  ℕ, ◌≡◌, Bool, true, false, none, some, List, [], ◌∷◌, arith, refl, any_of, ◌&&◌, String,
  string_eq, option_beq,
}
use lite_checker.Collector.Rows.{Notification, Event, Db, Limits, pending, first_where}
use lite_checker.Collector.Rows.Queries.{
  any_of-delete_where, any_of_mono, first_where-delete_where, first_where-delete_none,
}
use lite_checker.Collector.History.{
  unlink, unlink_all, aged, trim_step, trim_completed, prune_notifications, protects, protected,
  stale_event, prune_events, prune_history,
}

-- a pending notification of the event
abbrev pub awaits : String → Notification → Bool
awaits event n = option_beq n.event_id (some event) && pending n

unlink-awaits :
    (event : String) (left : List Notification) (n : Notification)
    → awaits event (unlink left n) ≡ awaits event n
unfolding unlink
unlink-awaits event left n = ground arith

any_of-unlink_all :
    (event : String) (left ns : List Notification)
    → any_of (awaits event) ns ≡ true
    → any_of (awaits event) (unlink_all left ns) ≡ true
unfolding unlink_all
any_of-unlink_all event left [] h = h
any_of-unlink_all event left (n ∷ ns) h =
    ground (arith, unlink-awaits event left n, any_of-unlink_all event left ns)

any_of-trim_step :
    (event : String) (max : ℕ) (n : Notification) (r : List Notification × ℕ)
    → any_of (awaits event) (n ∷ r.0) ≡ true
    → any_of (awaits event) (trim_step max n r).0 ≡ true
any_of-trim_step event max n (left, seen) h = ground arith

any_of-trim_completed :
    (event : String) (max : ℕ) (ns : List Notification)
    → any_of (awaits event) ns ≡ true
    → any_of (awaits event) (trim_completed max ns).0 ≡ true
unfolding trim_completed
any_of-trim_completed event max [] h = h
any_of-trim_completed event max (n ∷ ns) h =
    any_of-trim_step event max n (trim_completed max ns)
      (ground (arith, any_of-trim_completed event max ns))

aged-awaits :
    (event : String) (l : Limits) (now : ℕ) (n : Notification)
    → awaits event n ≡ true
    → aged l now n ≡ false
aged-awaits event l now n h = ground arith

pub any_of-prune_notifications :
    (event : String) (l : Limits) (now : ℕ) (ns : List Notification)
    → any_of (awaits event) ns ≡ true
    → any_of (awaits event) (prune_notifications l now ns) ≡ true
unfolding prune_notifications
any_of-prune_notifications event l now ns h = any_of-unlink_all event _ _ (
    any_of-trim_completed event l.max_completed_notifications _ (
      any_of-unlink_all event _ _
        (any_of-delete_where (awaits event) (aged l now) ns (aged-awaits event l now) h)))

-- an event with a pending notification is protected
awaited-protected :
    (ns : List Notification) (e : Event)
    → any_of (awaits e.event_id) ns ≡ true
    → protected ns e ≡ true
unfolding protected
awaited-protected ns e h =
    any_of_mono (awaits e.event_id) (protects e.event_id) ns (λ n k. ground arith) h

-- Pruning never deletes an event that has a pending notification: where a query finds it before, the
-- query finds it after.
pub prune_history-event :
    (l : Limits) (agent : String) (now max : ℕ) (db : Db) (p : Event → Bool) (e : Event)
    → first_where p db.events ≡ some e
    → any_of (awaits e.event_id) db.notifications ≡ true
    → first_where p (prune_history l agent now max db).events ≡ some e
unfolding prune_history prune_events
prune_history-event l agent now max db p e f h =
    let ns = prune_notifications l now db.notifications in
    let safe =
      awaited-protected ns e (any_of-prune_notifications e.event_id l now db.notifications h) in
    first_where-delete_where p _ _
      (first_where-delete_where p (stale_event l ns agent now) db.events f (ground (arith, safe)))
      (ground (arith, safe))

pub prune_history-no_event :
    (l : Limits) (agent : String) (now max : ℕ) (db : Db) (p : Event → Bool)
    → first_where p db.events ≡ none
    → first_where p (prune_history l agent now max db).events ≡ none
unfolding prune_history prune_events
prune_history-no_event l agent now max db p f =
    first_where-delete_none p _ _ (first_where-delete_none p _ db.events f)

pub prune_history-agents :
    (l : Limits) (agent : String) (now max : ℕ) (db : Db)
    → (prune_history l agent now max db).agents ≡ db.agents
unfolding prune_history
prune_history-agents l agent now max db = refl
