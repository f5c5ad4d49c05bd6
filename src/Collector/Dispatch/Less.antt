-- ===== src/Collector/Dispatch/Less.antt =====
-- How many chunks wait in the outbox, and that each call of a dispatcher leaves fewer.
use lite_checker.Prelude.{
  ℕ, ◌+◌, ◌-◌, ◌≤◌, ◌<◌, ◌≡◌, refl, String, Bool, true, some, List, [], ◌∷◌, All, nat_eq, arith,
  Bool-cases, inl, inr, if◌then◌else◌,
}
use lite_checker.Collector.Rows.{
  Notification, Db, Limits, pending, update_where, first_where, delete_where,
}
use lite_checker.Collector.Rows.Valid.{IsValidRow}
use lite_checker.Collector.History.{
  unlink, unlink_all, aged, trim_step, trim_completed, prune_notifications, prune_history,
}
use lite_checker.Collector.Outbox.{take_lease, drop_lease, advance}
use lite_checker.Collector.DeadLetters.{fail_row}

-- the chunks of a row that wait
abbrev pub waiting : Notification → ℕ
waiting n = if pending n then n.chunk_count - n.next_chunk else 0

abbrev pub all_waiting : List Notification → ℕ
all_waiting [] = 0
all_waiting (n ∷ ns) = waiting n + all_waiting ns

pub update_where-take_lease :
    (p : Notification → Bool) (owner : String) (until : ℕ) (ns : List Notification)
    → all_waiting (update_where p (take_lease owner until) ns) ≡ all_waiting ns
unfolding update_where take_lease
update_where-take_lease p owner until [] = refl
update_where-take_lease p owner until (n ∷ ns) = elim (Bool-cases (p n)) [
  | inl t ↦ rw t (omega (arith, update_where-take_lease p owner until ns))
  | inr t ↦ rw t (omega (arith, update_where-take_lease p owner until ns))
]

pub advance-waiting : (n : Notification) → IsValidRow n → waiting (advance n) ≤ waiting n
unfolding advance
advance-waiting n v = ground arith

pub advance-fewer :
    (n : Notification) → IsValidRow n → pending n ≡ true → waiting (advance n) < waiting n
unfolding advance
advance-fewer n v h = ground arith

pub parked-waiting :
    (code : String) (now delay : ℕ) (n : Notification)
    → waiting (fail_row code now delay true n) ≡ 0
unfolding fail_row
parked-waiting code now delay n = ground arith

pub pending-waiting : (n : Notification) → IsValidRow n → pending n ≡ true → 0 < waiting n
pending-waiting n v h = ground arith

unlink-waiting : (left : List Notification) (n : Notification) → waiting (unlink left n) ≡ waiting n
unfolding unlink
unlink-waiting left n = ground arith

all_waiting-unlink_all :
    (left ns : List Notification) → all_waiting (unlink_all left ns) ≡ all_waiting ns
unfolding unlink_all
all_waiting-unlink_all left [] = refl
all_waiting-unlink_all left (n ∷ ns) =
    omega (arith, unlink-waiting left n, all_waiting-unlink_all left ns)

all_waiting-delete_where :
    (p : Notification → Bool) (ns : List Notification)
    → all_waiting (delete_where p ns) ≤ all_waiting ns
unfolding delete_where
all_waiting-delete_where p [] = omega arith
all_waiting-delete_where p (n ∷ ns) = elim (Bool-cases (p n)) [
  | inl t ↦ rw t (omega (arith, all_waiting-delete_where p ns))
  | inr t ↦ rw t (omega (arith, all_waiting-delete_where p ns))
]

all_waiting-trim_step :
    (max : ℕ) (n : Notification) (r : List Notification × ℕ)
    → all_waiting (trim_step max n r).0 ≤ waiting n + all_waiting r.0
all_waiting-trim_step max n (left, seen) = ground arith

all_waiting-trim_completed :
    (max : ℕ) (ns : List Notification) → all_waiting (trim_completed max ns).0 ≤ all_waiting ns
unfolding trim_completed
all_waiting-trim_completed max [] = omega arith
all_waiting-trim_completed max (n ∷ ns) =
    omega (
      arith,
      all_waiting-trim_step max n (trim_completed max ns),
      all_waiting-trim_completed max ns,
    )

pub all_waiting-prune_history :
    (l : Limits) (agent : String) (now max : ℕ) (db : Db)
    → all_waiting (prune_history l agent now max db).notifications ≤ all_waiting db.notifications
unfolding prune_history prune_notifications
all_waiting-prune_history l agent now max db =
    let young = delete_where (aged l now) db.notifications in
    let young' = unlink_all young young in
    let newest = (trim_completed l.max_completed_notifications young').0 in
    let a = all_waiting-delete_where (aged l now) db.notifications in
    let b = all_waiting-unlink_all young young in
    let c = all_waiting-trim_completed l.max_completed_notifications young' in
    let e = all_waiting-unlink_all newest newest in omega arith

-- an update that leaves no valid row with more, and a pending one with fewer
module _ (f : Notification → Notification)
    (same : (m : Notification) → IsValidRow m → waiting (f m) ≤ waiting m)
    (fewer : (m : Notification) → IsValidRow m → pending m ≡ true → waiting (f m) < waiting m)
    (p : Notification → Bool) where
  update_where-waiting :
      (ns : List Notification)
      → All IsValidRow ns
      → all_waiting (update_where p f ns) ≤ all_waiting ns
  unfolding update_where
  update_where-waiting [] v = omega arith
  update_where-waiting (n ∷ ns) (v, vs) = elim (Bool-cases (p n)) [
    | inl t ↦ rw t (omega (arith, same n v, update_where-waiting ns vs))
    | inr t ↦ rw t (omega (arith, update_where-waiting ns vs))
  ]

  pub update_where-fewer :
      (ns : List Notification) (n : Notification)
      → All IsValidRow ns
      → first_where p ns ≡ some n
      → pending n ≡ true
      → all_waiting (update_where p f ns) < all_waiting ns
  unfolding update_where first_where
  update_where-fewer [] n v e h = absurd (cc e)
  update_where-fewer (m ∷ ns) n (v, vs) e h = elim (Bool-cases (p m)) [
    | inl t ↦
        let own : some m ≡ some n = rw t at e in
        let it : m ≡ n = cc own in
        let first = fewer m v (rw it h) in rw t (omega (arith, first, update_where-waiting ns vs))
    | inr t ↦
        let later : first_where p ns ≡ some n = rw t at e in
        rw t (omega (arith, update_where-fewer ns n vs later h))
  ]

pub update_where-drop_lease :
    (p : Notification → Bool) (ns : List Notification)
    → all_waiting (update_where p drop_lease ns) ≡ all_waiting ns
unfolding update_where drop_lease
update_where-drop_lease p [] = refl
update_where-drop_lease p (n ∷ ns) = elim (Bool-cases (p n)) [
  | inl t ↦ rw t (omega (arith, update_where-drop_lease p ns))
  | inr t ↦ rw t (omega (arith, update_where-drop_lease p ns))
]
