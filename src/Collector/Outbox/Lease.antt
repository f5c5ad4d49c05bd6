-- ===== src/Collector/Outbox/Lease.antt =====
-- What a claim hands out, and what its lease means for other owners.
use lite_checker.Prelude.{
  ℕ, ◌+◌, ◌<◌, ◌≡◌, ◌≢◌, ◌∙◌, String, Bool, true, false, List, [], ◌∷◌, All, ◌⊎◌, false≢true,
  Option, none, some, arith, refl, sym, ap, subst, Bool-cases, Option-cases, inl, inr,
  if◌then◌else◌, ◌&&◌, leb, nat_eq, string_eq, any_of, get_elem?, beq_refl, beq_ne,
}
use lite_checker.Collector.Rows.{
  Notification, Db, Answer, done, failed, DbError, outbox_corrupt, bad_argument, transaction,
  commit, pending, update_where, first_where,
}
use lite_checker.Collector.Rows.Tables.{first_where-update_where, first_where-All, All-of}
use lite_checker.Collector.Names.{safe_name}
use lite_checker.Collector.Outbox.{
  Claim, claimable, take_lease, claim_row, claim_head, claim_body, claim_notification, due,
  held_by_other,
}

-- The claim `c` is of the first pending row, which is due and free; the database gets the lease.
pub record Claimed (owner : String) (now lease : ℕ) (db : Db) (c : Claim) (db' : Db) : Type 0 where
  pub row : Notification
  pub head : first_where pending db.notifications ≡ some row
  pub due_now : due now row ≡ true
  pub free : held_by_other owner now row ≡ false
  pub same_id : c.notification_id ≡ row.notification_id
  pub same_chunk : c.chunk_index ≡ row.next_chunk
  pub body_at : get_elem? row.bodies row.next_chunk ≡ some c.body
  pub leaves : db' ≡ record db {
    notifications =
        update_where
          (claimable owner now row.notification_id)
          (λ m. record m { lease_owner = some owner; lease_until_us = some (now + lease) })
          db.notifications;
  }
  pub alone :
      (m : Notification)
      → claimable owner now row.notification_id m ≡ true
      → m.notification_id ≡ row.notification_id

-- the row that passed the tests of the SELECT is one that the UPDATE changes
free-claimable :
    (owner : String) (now : ℕ) (n : Notification)
    → pending n ≡ true
    → due now n ≡ true
    → held_by_other owner now n ≡ false
    → claimable owner now n.notification_id n ≡ true
unfolding claimable held_by_other due
free-claimable owner now n p d f = ground (arith, beq_refl n.notification_id)

claimable-id :
    (owner : String) (now id : ℕ) (m : Notification)
    → claimable owner now id m ≡ true
    → m.notification_id ≡ id
unfolding claimable
claimable-id owner now id m h = ground (arith, h)

none_of-All :
    (q : Notification → Bool) (ns : List Notification)
    → any_of q ns ≡ false
    → All (λ n. q n ≡ false) ns
none_of-All q [] e = tt
none_of-All q (n ∷ ns) e = (ground arith, none_of-All q ns (ground arith))

module _ (owner : String) (now lease : ℕ) (db : Db) where
  -- nothing is pending, or the first pending row is not due or is another owner's
  abbrev pub Idle : Type 0
  Idle =
      (first_where pending db.notifications ≡ none)
      ⊎ ((n : Notification) × (first_where pending db.notifications ≡ some n)
          × ((due now n ≡ false) ⊎ (held_by_other owner now n ≡ true)))

  -- the chunk that is next is not in the table
  abbrev pub Corrupt : DbError → Type 0
  Corrupt e =
      (e ≡ outbox_corrupt)
      × (n : Notification) × (first_where pending db.notifications ≡ some n)
      × (get_elem? n.bodies n.next_chunk ≡ none)

  abbrev pub valid : Bool
  valid = safe_name owner && leb 1000000 lease && leb lease 300000000

  abbrev pub ClaimedBody : Answer (Option Claim × Db) → Type 0
  ClaimedBody (done (some c, db')) = Claimed owner now lease db c db'
  ClaimedBody (done (none, db')) = (db' ≡ db) × Idle
  ClaimedBody (failed e) = Corrupt e

  abbrev pub ClaimedAnswer : Answer (Option Claim) × Db → Type 0
  ClaimedAnswer (done (some c), db') = Claimed owner now lease db c db'
  ClaimedAnswer (done none, db') = (db' ≡ db) × Idle
  ClaimedAnswer (failed e, db') = (db' ≡ db) × (((e ≡ bad_argument) × (valid ≡ false)) ⊎ Corrupt e)

  commit-Claimed : (r : Answer (Option Claim × Db)) → ClaimedBody r → ClaimedAnswer (commit db r)
  commit-Claimed (done (some c, db')) h = h
  commit-Claimed (done (none, db')) h = h
  commit-Claimed (failed e) h = (refl, inr h)

  claim_row-Claimed :
      (n : Notification)
      → first_where pending db.notifications ≡ some n
      → due now n ≡ true
      → held_by_other owner now n ≡ false
      → ClaimedBody (claim_row owner now lease n db)
  unfolding claim_row take_lease
  claim_row-Claimed n e d f =
      elim (Bool-cases (any_of (claimable owner now n.notification_id) db.notifications)) [
        | inr g ↦
            let (unclaimed, is_pending) =
              first_where-All (λ x. claimable owner now n.notification_id x ≡ false) pending
                db.notifications n (none_of-All _ db.notifications g) e in
            absurd (false≢true (sym unclaimed ∙ free-claimable owner now n is_pending d f))
        | inl g ↦ rw g (elim (Option-cases (get_elem? n.bodies n.next_chunk)) [
          | inl h ↦ rw (h, ClaimedBody) (refl, n, e, h)
          | inr (body, h) ↦
              rw (h, ClaimedBody)
                (record {
                  row = n;
                  head = e;
                  due_now = d;
                  free = f;
                  same_id = refl;
                  same_chunk = refl;
                  body_at = h;
                  leaves = refl;
                  alone = claimable-id owner now n.notification_id;
                })
        ])
      ]

  claim_head-Claimed :
      (o : Option Notification)
      → first_where pending db.notifications ≡ o
      → ClaimedBody (claim_head owner now lease o db)
  unfolding claim_head
  claim_head-Claimed none e = (refl, inl e)
  claim_head-Claimed (some n) e = elim (Bool-cases (due now n)) [
    | inr d ↦ simp d (refl, inr (n, e, inl d))
    | inl d ↦ simp d (elim (Bool-cases (held_by_other owner now n)) [
      | inl f ↦ simp f (refl, inr (n, e, inr f))
      | inr f ↦ simp f (claim_row-Claimed n e d f)
    ])
  ]

  -- A claim hands out the next chunk of the first pending notification, which is due and not under
  -- another owner's running lease, and writes nothing but the owner
  -- and the end of the lease of rows with its id. A call that hands out nothing
  -- changes nothing: no row is pending, or the first one is not due or held by another owner. A call
  -- that raises changes nothing either: its arguments are not valid, or the chunk is missing.
  pub claim_notification-Claimed : ClaimedAnswer (claim_notification owner now lease db)
  unfolding claim_notification transaction claim_body
  claim_notification-Claimed = elim (Bool-cases valid) [
    | inr e ↦ rw e (refl, inl (refl, e))
    | inl e ↦ rw e (commit-Claimed _ (claim_head-Claimed _ refl))
  ]

abbrev pub Leased : String → ℕ → Db → Type 0
Leased owner until db =
    (n : Notification) × (first_where pending db.notifications ≡ some n)
    × (n.lease_owner ≡ some owner)
    × (n.lease_until_us ≡ some until)

-- after a claim, the first pending row is under the claim's lease
pub Claimed-Leased :
    (owner : String) (now lease : ℕ) (db : Db) (c : Claim) (db' : Db)
    → Claimed owner now lease db c db'
    → Leased owner (now + lease) db'
unfolding take_lease
Claimed-Leased owner now lease db c db' k =
    let q = claimable owner now k.row.notification_id in
    let f = take_lease owner (now + lease) in
    let is_pending =
      (first_where-All (λ _. Unit {0}) pending db.notifications k.row (All-of (λ _. tt) _)
        k.head).1 in
    let taken : q k.row ≡ true = free-claimable owner now k.row is_pending k.due_now k.free in
    let moved = first_where-update_where pending q f db.notifications (λ _. refl) k.head in
    subst (λ d. Leased owner (now + lease) d) (sym k.leaves)
      (f k.row, moved ∙ ap (λ b. some (if b then f k.row else k.row)) taken, refl, refl)

-- a row under another owner's running lease is held
lease-held_by_other :
    (owner other : String) (now until : ℕ) (n : Notification)
    → n.lease_owner ≡ some owner
    → n.lease_until_us ≡ some until
    → other ≢ owner
    → now < until
    → held_by_other other now n ≡ true
unfolding held_by_other
lease-held_by_other owner other now until n e f ne lt =
    ground (arith, beq_ne owner other (λ p. ne (sym p)))

-- while the first pending row is under a lease, another owner's claim gets nothing
Leased-excludes :
    (owner other : String) (until now lease : ℕ) (db : Db)
    → Leased owner until db
    → other ≢ owner
    → now < until
    → (safe_name other && leb 1000000 lease && leb lease 300000000) ≡ true
    → claim_notification other now lease db ≡ (done none, db)
unfolding claim_notification transaction claim_body claim_head
Leased-excludes owner other until now lease db (n, head, e, f) ne lt valid =
    let held = lease-held_by_other owner other now until n e f ne lt in
    rw (valid, head)
      (elim (Bool-cases (due now n)) [ inr d ↦ simp d refl | inl d ↦ simp (d, held) refl ])

-- After an owner has claimed a chunk, and until the lease that this gave it runs out, the claim of
-- any other owner gets nothing and changes nothing, whatever lease it asks for.
pub claim_notification-excludes :
    (owner other : String) (now later lease wanted : ℕ) (db db' : Db) (c : Claim)
    → claim_notification owner now lease db ≡ (done (some c), db')
    → other ≢ owner
    → later < now + lease
    → (safe_name other && leb 1000000 wanted && leb wanted 300000000) ≡ true
    → claim_notification other later wanted db' ≡ (done none, db')
claim_notification-excludes owner other now later lease wanted db db' c e ne lt valid =
    let claimed =
      subst (ClaimedAnswer owner now lease db) e (claim_notification-Claimed owner now lease db) in
    Leased-excludes owner other (now + lease) later wanted db'
      (Claimed-Leased owner now lease db c db' claimed) ne lt valid
