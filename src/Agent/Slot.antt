-- ===== src/Agent/Slot.antt =====
-- The place of a report in the file, among the calls of other processes.
use lite_checker.Prelude.{
  Bool, true, false, Option, none, some, List, ◌≡◌, ◌<◌, ◌⊎◌, ◌∙◌, refl, sym, ap, subst, not, ◌&&◌,
  ◌==◌, string_eq, nat_eq, inl, inr, Bool-cases, arith, and-eq_true, beq_refl,
}
use lite_checker.Json.{Fields}
use lite_checker.State.{Reply, ok, refused, File, Host, locked, write_object}
use lite_checker.State.Pending.{
  Identity, PendingState, pending_identity, read_pending, clear_over, is_none, same_identity,
  owned_by, tests_owner, clear,
}
use lite_checker.State.Pending.Envelope.{IsMark, read_pending-envelope}
use lite_checker.State.Pending.Readable.{
  IsState, IsMarkOpt, Holds, read_pending-IsState, same_identity-eq,
}
use lite_checker.State.Pending.Follows.{AheadOpt, Follows}
use lite_checker.State.Pending.Delivery.{Operation, perform_all, perform_all-Follows}

-- the mark is this event's or a later one's
abbrev pub IsHeld : Identity → PendingState → Type 0
IsHeld i s = (n : Identity) × (s.high_water ≡ some n) × ((i.sequence < n.sequence) ⊎ (n ≡ i))

-- as before, and this event is not pending
abbrev pub IsGone : Identity → PendingState → Type 0
IsGone i s =
    (n : Identity) × (s.high_water ≡ some n)
    × ((i.sequence < n.sequence) ⊎ ((n ≡ i) × (s.report ≡ none)))

abbrev Missing : Option Fields → Type 0
Missing r = r ≡ none

abbrev pub InFile : (PendingState → Type 0) → File → Type 0
InFile P f = (s : PendingState) × (read_pending f ≡ ok s) × P s

module _ (i : Identity) (os : List Operation) (f : File) where
  abbrev ahead :
      (s : PendingState) (n : Identity)
      → read_pending f ≡ ok s
      → s.high_water ≡ some n
      → (t : PendingState) × (read_pending (perform_all os f) ≡ ok t) × AheadOpt (some n) s.report t
  ahead s n e m =
      let (t, p, l) = subst (λ r. Follows r (perform_all os f)) e (perform_all-Follows os f) in
      (t, p, subst (λ o. AheadOpt o s.report t) m l)

  pub perform_all-IsHeld : InFile (IsHeld i) f → InFile (IsHeld i) (perform_all os f)
  perform_all-IsHeld (s, e, (n, m, d)) = go d (ahead s n e m)
    where
      go :
          (i.sequence < n.sequence) ⊎ (n ≡ i)
          → ((t : PendingState) × (read_pending (perform_all os f) ≡ ok t)
              × AheadOpt (some n) s.report t)
          → InFile (IsHeld i) (perform_all os f)
      go (inl a) (t, p, (x, u, inl b)) = (t, p, (x, u, inl (omega arith)))
      go (inl a) (t, p, (x, u, inr (q, b))) = (t, p, (x, u, inl (rw q a)))
      go (inr a) (t, p, (x, u, inl b)) = (t, p, (x, u, inl (rw (sym a) b)))
      go (inr a) (t, p, (x, u, inr (q, b))) = (t, p, (x, u, inr (q ∙ a)))

  pub perform_all-IsGone : InFile (IsGone i) f → InFile (IsGone i) (perform_all os f)
  perform_all-IsGone (s, e, (n, m, d)) = go d (ahead s n e m)
    where
      go :
          (i.sequence < n.sequence) ⊎ ((n ≡ i) × (s.report ≡ none))
          → ((t : PendingState) × (read_pending (perform_all os f) ≡ ok t)
              × AheadOpt (some n) s.report t)
          → InFile (IsGone i) (perform_all os f)
      go (inl a) (t, p, (x, u, inl b)) = (t, p, (x, u, inl (omega arith)))
      go (inl a) (t, p, (x, u, inr (q, b))) = (t, p, (x, u, inl (rw q a)))
      go (inr (a, r)) (t, p, (x, u, inl b)) = (t, p, (x, u, inl (rw (sym a) b)))
      go (inr (a, r)) (t, p, (x, u, inr (q, b))) = (t, p, (x, u, inr (q ∙ a, b r)))

-- What is pending once an event is gone has a later sequence.
pub IsGone-later :
    (i : Identity) (f : File) (u : PendingState) (d : Fields)
    → InFile (IsGone i) f
    → read_pending f ≡ ok u
    → u.report ≡ some d
    → (j : Identity) × (pending_identity d ≡ ok j) × (i.sequence < j.sequence)
IsGone-later i f u d (s, e, (n, m, gone)) p g =
    let same : s ≡ u = ok-injective (sym e ∙ p) in
    let reported : s.report ≡ some d = ap (λ (x : PendingState). x.report) same ∙ g in
    let k : IsState s = subst (Holds IsState) e (read_pending-IsState f) in
    let mark : IsMark n s.report = subst (λ o. IsMarkOpt o s.report) m k in
    (n, mark.agrees d reported, later gone reported)
  where
    ok-injective : {x y : PendingState} → ok x ≡ ok y → x ≡ y
    ok-injective e = cc e

    later :
        (i.sequence < n.sequence) ⊎ ((n ≡ i) × (s.report ≡ none))
        → s.report ≡ some d
        → i.sequence < n.sequence
    later (inl a) h = a
    later (inr (q, r)) h = absurd (cc (r, h))

module _ (i : Identity) (f : File) where
  owner :
      (o : Option Identity) (r : Option Fields)
      → (elim o [ none ↦ false | some m ↦ not (is_none r) && same_identity m i ]) ≡ true
      → (n : Identity) × (o ≡ some n) × ((i.sequence < n.sequence) ⊎ (n ≡ i))
  owner none r h = absurd (cc h)
  owner (some m) r h =
      let (pending, same) = and-eq_true (not (is_none r)) (same_identity m i) h in
      (m, refl, inr (same_identity-eq m i same))

  abbrev tested : Reply PendingState → Reply Bool × File
  tested r = elim r [ refused e ↦ (refused e, f) | ok s ↦ (ok (owned_by i s), f) ]

  tested-IsHeld :
      (r : Reply PendingState)
      → read_pending f ≡ r
      → (tested r).0 ≡ ok true
      → InFile (IsHeld i) (tested r).1
  tested-IsHeld (refused e) q t = absurd (cc t)
  tested-IsHeld (ok s) q t = (s, q, owner s.high_water s.report (cc t))

  abbrev OwnerHeld : Host → Reply Identity → Type 0
  OwnerHeld h r = (tests_owner h r f).0 ≡ ok true → InFile (IsHeld i) (tests_owner h r f).1

  tests_own : (h : Host) → OwnerHeld h (ok i)
  unfolding locked
  tests_own h = elim (Bool-cases h.acquires) [
    | inr a ↦ simp a (λ u. absurd (cc u))
    | inl a ↦ simp a (elim (Bool-cases h.releases) [
      | inr b ↦ simp b (λ u. absurd (cc u))
      | inl b ↦ simp b (tested-IsHeld (read_pending f) refl)
    ])
  ]

  -- a test that finds the report pending shows its mark
  pub tests_owner-IsHeld : (h : Host) (r : Reply Identity) → r ≡ ok i → OwnerHeld h r
  tests_owner-IsHeld h r e = subst (OwnerHeld h) (sym e) (tests_own h)

  module _ (h : Host) (b : Bool) where
    abbrev ClearGone : Reply Bool × File → Type 0
    ClearGone r = r.0 ≡ ok b → InFile (IsGone i) r.1

    cleared :
        (n : Identity) (r : Option Fields)
        → read_pending f ≡ ok (record { high_water = some n; report = r })
        → (i.sequence < n.sequence) ⊎ (n ≡ i)
        → IsMark n r
        → ClearGone (clear_over h i.event_id (some n) r f)
    unfolding clear_over write_object
    cleared n none q (inl d) k = λ e. (_, q, (n, refl, inl d))
    cleared n none q (inr d) k = λ e. (_, q, (n, refl, inr (d, refl)))
    cleared n (some c) q d k = elim (Bool-cases (n.event_id == i.event_id)) [
      | inl a ↦ simp a (elim (Bool-cases h.writes) [
        | inr w ↦ simp w (λ e. absurd (cc e))
        | inl w ↦ simp w (λ e. (
          _,
          read_pending-envelope n none (record { named = k.named; agrees = λ x p. absurd (cc p) }),
          (n, refl, gone d),
        ))
      ])
      | inr a ↦ simp a (λ e. (_, q, (n, refl, other a d)))
    ]
      where
        gone :
            (i.sequence < n.sequence) ⊎ (n ≡ i)
            → (i.sequence < n.sequence) ⊎ ((n ≡ i) × Missing none)
        gone (inl x) = inl x
        gone (inr x) = inr (x, refl)

        other :
            (n.event_id == i.event_id) ≡ false
            → (i.sequence < n.sequence) ⊎ (n ≡ i)
            → (i.sequence < n.sequence) ⊎ ((n ≡ i) × (some c ≡ none))
        other a (inl x) = inl x
        other a (inr x) =
            absurd (cc (a, ap (λ (y : Identity). y.event_id == i.event_id) x, beq_refl i.event_id))

    -- A clear that returns leaves the event gone, whether it found it or not.
    pub clear-IsGone : InFile (IsHeld i) f → ClearGone (clear h i.event_id f)
    unfolding clear locked
    clear-IsGone (s, e, (n, m, d)) =
        let k : IsState s = subst (Holds IsState) e (read_pending-IsState f) in
        let mark : IsMark n s.report = subst (λ o. IsMarkOpt o s.report) m k in
        let q : read_pending f ≡ ok (record { high_water = some n; report = s.report }) =
          e ∙ ap (λ o. ok (record { high_water = o; report = s.report })) m in
        rw q (elim (Bool-cases h.acquires) [
          | inr a ↦ simp a (λ u. absurd (cc u))
          | inl a ↦ simp a (elim (Bool-cases h.releases) [
            | inr r ↦ simp r (λ u. absurd (cc u))
            | inl r ↦ simp r (cleared n s.report q d mark)
          ])
        ])
