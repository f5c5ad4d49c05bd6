-- ===== src/Collector/History/Lasts.antt =====
-- What `_prune_history` of collector/db.py leaves of the notifications that are not completed.
use lite_checker.Prelude.{
  ℕ, ◌+◌, ◌≡◌, Bool, true, false, List, [], ◌∷◌, inl, inr, Some, ltb, nat_eq, if◌then◌else◌,
}
use lite_checker.Collector.Rows.{Notification, Limits, delete_where}
use lite_checker.Collector.History.{
  unlink, unlink_all, aged, trim_step, trim_completed, prune_notifications,
}

-- a property of rows that are not completed, whatever a row was requeued as
module _ (P : Notification → Type 0)
    (unlinked : (left : List Notification) (n : Notification) → P n → P (unlink left n))
    (unfinished : (n : Notification) → P n → n.completed ≡ false) where
  Some-unlink_all : (left ns : List Notification) → Some P ns → Some P (unlink_all left ns)
  unfolding unlink_all
  Some-unlink_all left [] h = absurd h
  Some-unlink_all left (n ∷ ns) (inl p) = inl (unlinked left n p)
  Some-unlink_all left (n ∷ ns) (inr q) = inr (Some-unlink_all left ns q)

  Some-delete_where :
      (l : Limits) (now : ℕ) (ns : List Notification)
      → Some P ns
      → Some P (delete_where (aged l now) ns)
  unfolding delete_where
  Some-delete_where l now [] h = absurd h
  Some-delete_where l now (n ∷ ns) (inl p) = simp (unfinished n p) (inl p)
  Some-delete_where l now (n ∷ ns) (inr q) = split (aged l now n) (Some-delete_where l now ns q)
    where
      split :
          (t : Bool)
          → Some P (delete_where (aged l now) ns)
          → Some P (if t then delete_where (aged l now) ns else n ∷ delete_where (aged l now) ns)
      split true h = h
      split false h = inr h

  Some-trim_step :
      (max : ℕ) (n : Notification) (r : List Notification × ℕ)
      → Some P (n ∷ r.0)
      → Some P (trim_step max n r).0
  Some-trim_step max n (left, seen) (inl p) = simp (unfinished n p) (inl p)
  Some-trim_step max n (left, seen) (inr q) = split n.completed (ltb seen max)
    where
      split :
          (t u : Bool)
          → let r : List Notification × ℕ =
              if t
              then (if u then (n ∷ left, seen + 1) else (left, seen + 1))
              else (n ∷ left, seen) in
            Some P r.0
      split true true = inr q
      split true false = q
      split false u = inr q

  Some-trim_completed :
      (max : ℕ) (ns : List Notification) → Some P ns → Some P (trim_completed max ns).0
  unfolding trim_completed
  Some-trim_completed max [] h = absurd h
  Some-trim_completed max (n ∷ ns) (inl p) = Some-trim_step max n (trim_completed max ns) (inl p)
  Some-trim_completed max (n ∷ ns) (inr q) =
      Some-trim_step max n (trim_completed max ns) (inr (Some-trim_completed max ns q))

  pub Some-prune_notifications :
      (l : Limits) (now : ℕ) (ns : List Notification)
      → Some P ns
      → Some P (prune_notifications l now ns)
  unfolding prune_notifications
  Some-prune_notifications l now ns h = Some-unlink_all _ _ (
      Some-trim_completed l.max_completed_notifications _
        (Some-unlink_all _ _ (Some-delete_where l now ns h)))
