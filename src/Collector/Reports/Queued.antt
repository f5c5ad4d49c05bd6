-- ===== src/Collector/Reports/Queued.antt =====
-- The rows that `accept_report` of collector/db.py adds to the notifications.
use lite_checker.Prelude.{
  ℕ, ◌+◌, if◌then◌else◌, ◌≡◌, false, Option, none, some, List, [], ◌∷◌, ◌++◌, refl, inl, inr,
  any_of, length, Some, All, Bool-cases, String, string_eq, nat_eq, ◌==◌,
}
use lite_checker.Collector.Rows.{
  Kind, for_event, key_beq, Notification, Boot, Db, Answer, done, failed, Limits,
}
use lite_checker.Collector.History.{unlink, prune_notifications}
use lite_checker.Collector.History.Lasts.{Some-prune_notifications}
use lite_checker.Collector.Queue.{fresh, insert_notification}
use lite_checker.Collector.Reports.{and_store, no_id, enqueue_all}

-- The row is a pending notification of the event with these chunks, of which none has been sent.
pub record IsQueued (agent event : String) (now : ℕ) (kind : Kind) (chunks : List String)
    (n : Notification) : Type 0 where
  pub of_kind : n.kind ≡ kind
  pub of_agent : n.agent_id ≡ agent
  pub of_event : n.event_id ≡ some event
  pub texts : n.bodies ≡ chunks
  pub count : n.chunk_count ≡ length chunks
  pub unsent : n.next_chunk ≡ 0
  pub created : n.created_at_us ≡ now
  pub unfinished : n.completed ≡ false
  pub alive : n.dead_letter ≡ false
  pub free : n.lease_owner ≡ none
  pub untried : n.attempt_count ≡ 0

pub unlink-IsQueued :
    {agent event : String} {now : ℕ} {kind : Kind} {chunks : List String} (left : List Notification)
    (n : Notification)
    → IsQueued agent event now kind chunks n
    → IsQueued agent event now kind chunks (unlink left n)
unfolding unlink
unlink-IsQueued {agent = agent} {event = event} {now = now} {kind = kind} {chunks = chunks} left n
      q =
    split n.requeued_notification_id
  where
    apart : IsQueued agent event now kind chunks (record n { requeued_notification_id = none })
    apart = record {
      of_kind = q.of_kind;
      of_agent = q.of_agent;
      of_event = q.of_event;
      texts = q.texts;
      count = q.count;
      unsent = q.unsent;
      created = q.created;
      unfinished = q.unfinished;
      alive = q.alive;
      free = q.free;
      untried = q.untried;
    }

    split :
        (o : Option ℕ)
        → IsQueued agent event now kind chunks (elim o [
          | none ↦ n
          | some id ↦
              if any_of (λ m. m.notification_id == id) left
              then n
              else record n { requeued_notification_id = none }
        ])
    split none = q
    split (some id) = elim (Bool-cases (any_of (λ m. m.notification_id == id) left)) [
      | inl e ↦ rw e q
      | inr e ↦ rw e apart
    ]

-- what holds of the database where the body returns
abbrev pub OnDone : (Db → Type 0) → Answer Db → Type 0
OnDone P (failed e) = Unit
OnDone P (done d) = P d

pub and_store-OnDone :
    (P Q : Db → Type 0) (r : Answer Db) (f : Db → Answer Db)
    → OnDone P r
    → ((d : Db) → P d → OnDone Q (f d))
    → OnDone Q (and_store r f)
and_store-OnDone P Q (failed e) f h k = tt
and_store-OnDone P Q (done d) f h k = k d h

Some-append : {A : Type 0} (P : A → Type 0) (xs ys : List A) → Some P xs → Some P (xs ++ ys)
Some-append P [] ys h = absurd h
Some-append P (x ∷ xs) ys (inl p) = inl p
Some-append P (x ∷ xs) ys (inr q) = inr (Some-append P xs ys q)

Some-last : {A : Type 0} (P : A → Type 0) (xs : List A) (x : A) → P x → Some P (xs ++ x ∷ [])
Some-last P [] x p = inl p
Some-last P (y ∷ xs) x p = inr (Some-last P xs x p)

module _ (agent event : String) (now : ℕ) where
  -- what one insertion keeps and adds
  insert-OnDone :
      (Q : Db → Type 0) (k : Kind) (chunks : List String) (db : Db)
      → Q (record db {
        last_id = db.last_id + 1;
        notifications =
            db.notifications
            ++ fresh
                (db.last_id + 1)
                k
                agent
                (some event)
                now
                none
                chunks
                (for_event k (some event))
              ∷ [];
      })
      → OnDone Q (
          no_id (
            insert_notification k agent (some event) now none chunks (for_event k (some event)) db))
  unfolding insert_notification
  insert-OnDone Q k chunks db q =
      elim (Bool-cases
        (any_of (λ n. key_beq n.dedupe_key (for_event k (some event))) db.notifications)) [
          | inl e ↦ rw e tt
          | inr e ↦
              rw e (elim (Bool-cases (length chunks == 0)) [ inl f ↦ rw f tt | inr f ↦ rw f q ])
        ]

  -- the boots, and the rows that were there
  pub enqueue_all-keeps :
      (P : Notification → Type 0) (bs : List Boot) (ps : List (Kind × List String)) (db : Db)
      → (db.boots ≡ bs) × Some P db.notifications
      → OnDone (λ d. (d.boots ≡ bs) × Some P d.notifications) (enqueue_all agent event now ps db)
  unfolding enqueue_all
  enqueue_all-keeps P bs [] db h = h
  enqueue_all-keeps P bs ((k, chunks) ∷ ps) db h =
      and_store-OnDone (λ d. (d.boots ≡ bs) × Some P d.notifications) _ _
        (enqueue_all agent event now ps)
        (insert-OnDone _ k chunks db (h.0, Some-append P db.notifications _ h.1))
        (enqueue_all-keeps P bs ps)

  abbrev pub AllQueued : List (Kind × List String) → List Notification → Type 0
  AllQueued ps ns = All (λ p. Some (IsQueued agent event now p.0 p.1) ns) ps

  fresh-IsQueued :
      (id : ℕ) (k : Kind) (chunks : List String)
      → IsQueued agent event now k chunks
          (fresh id k agent (some event) now none chunks (for_event k (some event)))
  unfolding fresh
  fresh-IsQueued id k chunks = record {
    of_kind = refl;
    of_agent = refl;
    of_event = refl;
    texts = refl;
    count = refl;
    unsent = refl;
    created = refl;
    unfinished = refl;
    alive = refl;
    free = refl;
    untried = refl;
  }

  both-OnDone :
      (P Q : Db → Type 0) (r : Answer Db) → OnDone P r → OnDone Q r → OnDone (λ d. P d × Q d) r
  both-OnDone P Q (failed e) p q = tt
  both-OnDone P Q (done d) p q = (p, q)

  -- Every message has its row, and the boots are as before.
  pub enqueue_all-AllQueued :
      (bs : List Boot) (ps : List (Kind × List String)) (db : Db)
      → db.boots ≡ bs
      → OnDone
          (λ d. (d.boots ≡ bs) × AllQueued ps d.notifications)
          (enqueue_all agent event now ps db)
  unfolding enqueue_all
  enqueue_all-AllQueued bs [] db h = (h, tt)
  enqueue_all-AllQueued bs ((k, chunks) ∷ ps) db h =
      let P = IsQueued agent event now k chunks in
      and_store-OnDone (λ d. (d.boots ≡ bs) × Some P d.notifications) _ _
        (enqueue_all agent event now ps)
        (insert-OnDone _ k chunks db
          (h, Some-last P db.notifications _ (fresh-IsQueued _ k chunks)))
        (λ d q.
          joined (enqueue_all agent event now ps d) (enqueue_all-keeps P bs ps d q)
            (enqueue_all-AllQueued bs ps d q.0))
    where
      joined :
          (r : Answer Db)
          → OnDone
              (λ d. (d.boots ≡ bs) × Some (IsQueued agent event now k chunks) d.notifications)
              r
          → OnDone (λ d. (d.boots ≡ bs) × AllQueued ps d.notifications) r
          → OnDone (λ d. (d.boots ≡ bs) × AllQueued ((k, chunks) ∷ ps) d.notifications) r
      joined (failed e) p q = tt
      joined (done d) p q = (p.0, (p.1, q.1))

  pub AllQueued-prune :
      (l : Limits) (ps : List (Kind × List String)) (ns : List Notification)
      → AllQueued ps ns
      → AllQueued ps (prune_notifications l now ns)
  AllQueued-prune l [] ns h = tt
  AllQueued-prune l ((k, chunks) ∷ ps) ns h = (
    Some-prune_notifications (IsQueued agent event now k chunks) unlink-IsQueued
        (λ n q. q.unfinished) l now ns h.0,
    AllQueued-prune l ps ns h.1,
  )
