-- ===== src/Collector/Reports/Enqueued.antt =====
-- What `_enqueue_notification` and the other writes of `accept_report` leave alone, and what they add.
use lite_checker.Prelude.{
  ℕ, ◌≡◌, ◌∙◌, true, none, some, List, [], ◌∷◌, refl, inl, inr, any_of, length, Bool-cases, String,
  string_eq, nat_eq, ◌==◌, beq_refl,
}
use lite_checker.Collector.Rows.{
  Kind, DedupeKey, for_event, key_beq, Db, Answer, done, failed, database_error,
}
use lite_checker.Collector.Rows.Valid.{IsValidOutbox}
use lite_checker.Collector.Rows.Queries.{any_of-append_new}
use lite_checker.Collector.Queue.{fresh, insert_notification}
use lite_checker.Collector.Outbox.Invariant.{Kept, insert_notification-Kept}
use lite_checker.Collector.History.Spares.{awaits}
use lite_checker.Collector.Reports.{and_store, no_id, enqueue_all}

-- The agents and the events are as before, and the event has a pending notification; a failure is an
-- error of the database.
abbrev pub Enqueued : String → Db → Answer Db → Type 0
Enqueued event db (failed e) = e ≡ database_error
Enqueued event db (done d) =
    (d.agents ≡ db.agents) × (d.events ≡ db.events) × (any_of (awaits event) d.notifications ≡ true)

insert_notification-Enqueued :
    (k : Kind) (agent event : String) (now : ℕ) (chunks : List String) (key : DedupeKey) (db : Db)
    → Enqueued event db (no_id (insert_notification k agent (some event) now none chunks key db))
unfolding insert_notification fresh
insert_notification-Enqueued k agent event now chunks key db =
    elim (Bool-cases (any_of (λ n. key_beq n.dedupe_key key) db.notifications)) [
      | inl e ↦ rw e refl
      | inr e ↦ rw e (elim (Bool-cases (length chunks == 0)) [
        | inl f ↦ rw f refl
        | inr f ↦ rw f (
          refl,
          refl,
          any_of-append_new (awaits event) db.notifications _ (rw (beq_refl event) refl),
        )
      ])
    ]

-- one more step of the same kind
and_store-Enqueued :
    (event : String) (db : Db) (r : Answer Db) (f : Db → Answer Db)
    → Enqueued event db r
    → ((d : Db) → any_of (awaits event) d.notifications ≡ true → Enqueued event d (f d))
    → Enqueued event db (and_store r f)
and_store-Enqueued event db (failed e) f h k = h
and_store-Enqueued event db (done d) f (a, b, c) k = join (f d) (k d c)
  where
    join : (s : Answer Db) → Enqueued event d s → Enqueued event db s
    join (failed e) h = h
    join (done u) (x, y, z) = (x ∙ a, y ∙ b, z)

more-Enqueued :
    (agent event : String) (now : ℕ) (ps : List (Kind × List String)) (db : Db)
    → any_of (awaits event) db.notifications ≡ true
    → Enqueued event db (enqueue_all agent event now ps db)
unfolding enqueue_all
more-Enqueued agent event now [] db h = (refl, refl, h)
more-Enqueued agent event now ((k, chunks) ∷ ps) db h =
    and_store-Enqueued event db _ (enqueue_all agent event now ps)
      (insert_notification-Enqueued k agent event now chunks (for_event k (some event)) db)
      (more-Enqueued agent event now ps)

pub enqueue_all-Enqueued :
    (agent event : String) (now : ℕ) (p : Kind × List String) (ps : List (Kind × List String))
    (db : Db)
    → Enqueued event db (enqueue_all agent event now (p ∷ ps) db)
unfolding enqueue_all
enqueue_all-Enqueued agent event now (k, chunks) ps db =
    and_store-Enqueued event db _ (enqueue_all agent event now ps)
      (insert_notification-Enqueued k agent event now chunks (for_event k (some event)) db)
      (more-Enqueued agent event now ps)

-- what a write of the database keeps of the outbox
abbrev pub StoreKept : Answer Db → Type 0
StoreKept (failed e) = Unit
StoreKept (done d) = IsValidOutbox d

pub and_store-StoreKept :
    (r : Answer Db) (f : Db → Answer Db)
    → StoreKept r
    → ((d : Db) → IsValidOutbox d → StoreKept (f d))
    → StoreKept (and_store r f)
and_store-StoreKept (failed e) f h k = tt
and_store-StoreKept (done d) f h k = k d h

no_id-StoreKept : (r : Answer (ℕ × Db)) → Kept r → StoreKept (no_id r)
no_id-StoreKept (failed e) h = tt
no_id-StoreKept (done (i, d)) h = h

pub enqueue_all-StoreKept :
    (agent event : String) (now : ℕ) (ps : List (Kind × List String)) (db : Db)
    → IsValidOutbox db
    → StoreKept (enqueue_all agent event now ps db)
unfolding enqueue_all
enqueue_all-StoreKept agent event now [] db v = v
enqueue_all-StoreKept agent event now ((k, chunks) ∷ ps) db v =
    and_store-StoreKept _ (enqueue_all agent event now ps)
      (no_id-StoreKept _ (
        insert_notification-Kept k agent (some event) now none chunks (for_event k (some event)) db
          v))
      (enqueue_all-StoreKept agent event now ps)
