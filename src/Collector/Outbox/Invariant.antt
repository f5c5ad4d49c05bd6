-- ===== src/Collector/Outbox/Invariant.antt =====
-- The well-formed outbox under the changes that the operations make.
use lite_checker.Prelude.{
  ℕ, ◌+◌, ◌≤◌, ◌<◌, ◌≡◌, String, Bool, true, false, Option, some, List, [], ◌∷◌, arith, sym, ap,
  subst, All, Some, inl, inr, Bool-cases, if◌then◌else◌, ◌==◌, nat_eq, string_eq, any_of, length,
}
use lite_checker.Collector.Rows.{
  Kind, DedupeKey, key_beq, Notification, Db, Answer, done, failed, commit, update_where,
  first_where,
}
use lite_checker.Collector.Rows.Valid.{IsValidRow, Ascending, IsValidOutbox}
use lite_checker.Collector.Rows.Tables.{
  All-update_where, Ascending-update_where, Ascending-append, All-append, All-map, All-of,
  first_where-All, first_where-Some,
}
use lite_checker.Collector.Queue.{fresh, insert_notification}
use lite_checker.Collector.Outbox.{has_id}

-- A change of the rows that a test selects.
pub update-IsValidOutbox :
    (p : Notification → Bool) (f : Notification → Notification) (db : Db)
    → ((n : Notification) → (f n).notification_id ≡ n.notification_id)
    → ((n : Notification) → p n ≡ true → IsValidRow n → IsValidRow (f n))
    → IsValidOutbox db
    → IsValidOutbox (record db { notifications = update_where p f db.notifications })
update-IsValidOutbox p f db same step v = record {
  rows = All-update_where IsValidRow p f db.notifications step v.rows;
  order = Ascending-update_where p f 0 db.notifications same v.order;
  given =
      All-update_where (λ n. n.notification_id ≤ db.last_id) p f db.notifications
        (λ n e h. rw same h) v.given;
}

no_id_below :
    (id lo : ℕ) (ns : List Notification)
    → id ≤ lo
    → Ascending lo ns
    → All (λ m. has_id id m ≡ false) ns
no_id_below id lo [] h a = tt
no_id_below id lo (n ∷ ns) h a =
    (ground arith, no_id_below id n.notification_id ns (omega arith) a.1)

id_above :
    (lo : ℕ) (ns : List Notification) (n : Notification)
    → Ascending lo ns
    → Some (λ m. m ≡ n) ns
    → lo < n.notification_id
id_above lo [] n a m = elim m [ ]
id_above lo (y ∷ ns) n a (inl e) = omega (arith, ap (λ (z : Notification). z.notification_id) e)
id_above lo (y ∷ ns) n a (inr m) = omega (arith, id_above y.notification_id ns n a.1 m)

-- An id names one row.
pub one_row :
    (lo : ℕ) (ns : List Notification) (n : Notification)
    → Ascending lo ns
    → Some (λ m. m ≡ n) ns
    → All (λ m. has_id n.notification_id m ≡ true → m ≡ n) ns
one_row lo [] n a m = tt
one_row lo (x ∷ ns) n a (inl e) = (
  λ h. e,
  All-map _ _ ns (λ m k h. absurd (cc (k, h)))
      (no_id_below n.notification_id x.notification_id ns
        (omega (arith, ap (λ (z : Notification). z.notification_id) e)) a.1),
)
one_row lo (x ∷ ns) n a (inr m) = (
  λ h. absurd (different (id_above x.notification_id ns n a.1 m) h),
  one_row x.notification_id ns n a.1 m,
)
  where
    different : x.notification_id < n.notification_id → has_id n.notification_id x ≡ true → ⊥
    different l h = ground arith

-- The row that a query by id found is the only one with that id.
pub one_found :
    (id : ℕ) (ns : List Notification) (n : Notification)
    → Ascending 0 ns
    → first_where (has_id id) ns ≡ some n
    → All (λ m. has_id id m ≡ true → m ≡ n) ns
one_found id ns n a e =
    let (_, h) = first_where-All (λ m. Unit {0}) (has_id id) ns n (All-of (λ m. tt) ns) e in
    let same : n.notification_id ≡ id = ground arith in
    All-map _ _ ns (λ m k l. k (rw same l)) (one_row 0 ns n a (first_where-Some (has_id id) ns n e))

-- A change of the row that a query by id found.
module _ (id : ℕ) (p : Notification → Bool) (f : Notification → Notification) (db : Db)
    (n : Notification) (found : first_where (has_id id) db.notifications ≡ some n)
    (selects : (m : Notification) → p m ≡ true → has_id id m ≡ true)
    (same : (m : Notification) → (f m).notification_id ≡ m.notification_id)
    (valid : IsValidRow (f n)) (v : IsValidOutbox db) where
  changed_rows :
      (ns : List Notification)
      → All IsValidRow ns
      → All (λ m. has_id id m ≡ true → m ≡ n) ns
      → All IsValidRow (update_where p f ns)
  unfolding update_where
  changed_rows [] h k = tt
  changed_rows (x ∷ ns) h k = elim (Bool-cases (p x)) [
    | inl e ↦
        rw e
          (subst (λ z. IsValidRow (f z)) (sym (k.0 (selects x e))) valid, changed_rows ns h.1 k.1)
    | inr e ↦ rw e (h.0, changed_rows ns h.1 k.1)
  ]

  pub found-IsValidOutbox :
      IsValidOutbox (record db { notifications = update_where p f db.notifications })
  found-IsValidOutbox = record {
    rows = changed_rows db.notifications v.rows (one_found id db.notifications n v.order found);
    order = Ascending-update_where p f 0 db.notifications same v.order;
    given =
        All-update_where (λ m. m.notification_id ≤ db.last_id) p f db.notifications
          (λ m e h. rw same h) v.given;
  }

-- The body of a transaction that returns leaves a well-formed outbox.
abbrev pub Kept : {A : Type 0} → Answer (A × Db) → Type 0
Kept (done (a, db)) = IsValidOutbox db
Kept (failed e) = Unit

pub commit-IsValidOutbox :
    {A : Type 0} (db : Db) (r : Answer (A × Db))
    → IsValidOutbox db
    → Kept r
    → IsValidOutbox (commit db r).1
commit-IsValidOutbox db (done (a, db')) v h = h
commit-IsValidOutbox db (failed e) v h = v

abbrev choose {ℓ} : {A : Type ℓ} → Bool → A → A → A
choose b x y = if b then x else y

-- the two ways through a guard
pub guard-IsValidOutbox :
    {A : Type 0} (b : Bool) (x y : A × Db)
    → IsValidOutbox x.1
    → IsValidOutbox y.1
    → IsValidOutbox (choose b x y).1
guard-IsValidOutbox true x y h k = h
guard-IsValidOutbox false x y h k = k

-- A new row under the next id.
pub insert_notification-Kept :
    (kind : Kind) (agent : String) (event : Option String) (now : ℕ) (next : Option ℕ)
    (chunks : List String) (key : DedupeKey) (db : Db)
    → IsValidOutbox db
    → Kept (insert_notification kind agent event now next chunks key db)
unfolding insert_notification
insert_notification-Kept kind agent event now next chunks key db v =
    elim (Bool-cases (any_of (λ n. key_beq n.dedupe_key key) db.notifications)) [
      | inl e ↦ rw e tt
      | inr e ↦ rw e (elim (Bool-cases (length chunks == 0)) [
        | inl f ↦ rw f tt
        | inr f ↦ rw f (record {
          rows = All-append IsValidRow db.notifications _ v.rows (unfold fresh in ground arith, tt);
          order =
              Ascending-append 0 db.last_id db.notifications
                (fresh (db.last_id + 1) kind agent event now next chunks key) v.order v.given
                (omega arith) (unfold fresh in omega arith);
          given =
              All-append _ db.notifications _
                (All-map _ _ db.notifications (λ m h. omega arith) v.given)
                (unfold fresh in omega arith, tt);
        })
      ])
    ]
