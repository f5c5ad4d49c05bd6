-- ===== src/State/Pending/Follows.antt =====
-- How the high water mark of `PendingReportStore` moves.
use lite_checker.Prelude.{
  String, true, false, Option, none, some, ◌≡◌, ◌<◌, ◌∙◌, refl, sym, ap, subst, ◌==◌, string_eq,
  nat_eq, arith, inl, inr, ◌⊎◌, Bool-cases, ltb,
}
use lite_checker.Json.{Fields}
use lite_checker.State.{Reply, ok, refused, File, Host, write_object}
use lite_checker.State.Pending.{
  Identity, PendingState, pending_identity, read_pending, envelope, save_over, replace_over,
  clear_over,
}
use lite_checker.State.Pending.Envelope.{IsMark, read_pending-envelope}
use lite_checker.State.Pending.Readable.{IsMarkOpt, identity-named, identity-eq}

-- From the mark `m` and the report `r` on: a later sequence, or the same event at the same sequence,
-- with no report if there was none.
abbrev pub Ahead : Identity → Option Fields → Identity → Option Fields → Type 0
Ahead m r n q = (m.sequence < n.sequence) ⊎ ((n ≡ m) × (r ≡ none → q ≡ none))

abbrev pub AheadOpt : Option Identity → Option Fields → PendingState → Type 0
AheadOpt none r t = Unit
AheadOpt (some m) r t = (n : Identity) × (t.high_water ≡ some n) × Ahead m r n t.report

abbrev pub Later : PendingState → PendingState → Type 0
Later s t = AheadOpt s.high_water s.report t

-- what a file that gave `s` may become
abbrev pub After : PendingState → File → Type 0
After s f = (t : PendingState) × (read_pending f ≡ ok t) × Later s t

-- what a file may become: if it gave no state, it gives none
abbrev pub Follows : Reply PendingState → File → Type 0
Follows (refused e) f = read_pending f ≡ refused e
Follows (ok s) f = After s f

pub Later-refl : (s : PendingState) → Later s s
Later-refl s = go s.high_water refl
  where
    go : (o : Option Identity) → s.high_water ≡ o → AheadOpt o s.report s
    go none e = tt
    go (some m) e = (m, e, inr (refl, λ h. h))

pub unchanged : (s : PendingState) (f : File) → read_pending f ≡ ok s → After s f
unchanged s f e = (s, e, Later-refl s)

pub Later-trans : (s t u : PendingState) → Later s t → Later t u → Later s u
Later-trans s t u h k = go s.high_water h
  where
    next :
        (n : Identity)
        → t.high_water ≡ some n
        → (x : Identity) × (u.high_water ≡ some x) × Ahead n t.report x u.report
    next n e = subst (λ o. AheadOpt o t.report u) e k

    join :
        (m n : Identity)
        → Ahead m s.report n t.report
        → ((x : Identity) × (u.high_water ≡ some x) × Ahead n t.report x u.report)
        → AheadOpt (some m) s.report u
    join m n (inl a) (x, e, inl b) = (x, e, inl (omega arith))
    join m n (inl a) (x, e, inr (q, b)) = (x, e, inl (rw q a))
    join m n (inr (p, a)) (x, e, inl b) = (x, e, inl (rw (sym p) b))
    join m n (inr (p, a)) (x, e, inr (q, b)) = (x, e, inr (q ∙ p, λ h. b (a h)))

    go : (o : Option Identity) → AheadOpt o s.report t → AheadOpt o s.report u
    go none h = tt
    go (some m) (n, e, a) = join m n a (next n e)

written-After :
    (h : Host) (i : Identity) (r : Option Fields) (s : PendingState) (f : File)
    → read_pending f ≡ ok s
    → IsMark i r
    → Later s (record { high_water = some i; report = r })
    → After s (write_object h (envelope i r) true f).1
unfolding write_object
written-After h i r s f e k l = elim (Bool-cases h.writes) [
  | inl w ↦ simp w (record { high_water = some i; report = r }, read_pending-envelope i r k, l)
  | inr w ↦ simp w (unchanged s f e)
]

module _ (h : Host) (d : Fields) (i : Identity) (own : pending_identity d ≡ ok i) where
  -- the report and its own identity
  own-IsMark : IsMark i (some d)
  own-IsMark = record {
    named = identity-named d i own;
    agrees = λ c e. ap pending_identity (sym (cc e)) ∙ own;
  }

  newer :
      (m : Identity) (r : Option Fields) (f : File)
      → read_pending f ≡ ok (record { high_water = some m; report = r })
      → ltb i.sequence m.sequence ≡ false
      → (i.sequence == m.sequence) ≡ false
      → After
          (record { high_water = some m; report = r })
          (write_object h (envelope i (some d)) true f).1
  newer m r f e a b = written-After h i (some d) _ f e own-IsMark (i, refl, inl (ground arith))

  pub save_over-After :
      (o : Option Identity) (r : Option Fields) (f : File)
      → read_pending f ≡ ok (record { high_water = o; report = r })
      → After (record { high_water = o; report = r }) (save_over h d i o r f).1
  unfolding save_over
  save_over-After none r f e = written-After h i (some d) _ f e own-IsMark tt
  save_over-After (some m) none f e = elim (Bool-cases (ltb i.sequence m.sequence)) [
    | inl a ↦ simp a (unchanged _ f e)
    | inr a ↦ simp a (elim (Bool-cases (i.sequence == m.sequence)) [
      | inr b ↦ simp b (newer m none f e a b)
      | inl b ↦ simp b (elim (Bool-cases (i.event_id == m.event_id)) [
        | inl g ↦ simp g (unchanged _ f e)
        | inr g ↦ simp g (unchanged _ f e)
      ])
    ])
  ]
  save_over-After (some m) (some c) f e = elim (Bool-cases (ltb i.sequence m.sequence)) [
    | inl a ↦ simp a (unchanged _ f e)
    | inr a ↦ simp a (elim (Bool-cases (i.sequence == m.sequence)) [
      | inr b ↦ simp b (newer m (some c) f e a b)
      | inl b ↦ simp b (elim (Bool-cases (i.event_id == m.event_id)) [
        | inr g ↦ simp g (unchanged _ f e)
        | inl g ↦ simp g (
            written-After h i (some d) _ f e own-IsMark
              (i, refl, inr (identity-eq i m g b, λ q. absurd (cc q))))
      ])
    ])
  ]

  pub replace_over-After :
      (o : Option Identity) (r : Option Fields) (f : File)
      → read_pending f ≡ ok (record { high_water = o; report = r })
      → After (record { high_water = o; report = r }) (replace_over h d i o r f).1
  unfolding replace_over
  replace_over-After none r f e = unchanged _ f e
  replace_over-After (some m) none f e = unchanged _ f e
  replace_over-After (some m) (some c) f e = elim (Bool-cases (m.event_id == i.event_id)) [
    | inr a ↦ simp a (unchanged _ f e)
    | inl a ↦ simp a (elim (Bool-cases (i.sequence == m.sequence)) [
      | inr b ↦ simp b (unchanged _ f e)
      | inl b ↦ simp b (
          let same = identity-eq m i a (
            (nat_eq.same_iff m.sequence i.sequence).1
              (sym ((nat_eq.same_iff i.sequence m.sequence).0 b))) in
          written-After h m (some d) _ f e (subst (λ z. IsMark z (some d)) (sym same) own-IsMark)
            (m, refl, inr (refl, λ q. absurd (cc q))))
    ])
  ]

pub clear_over-After :
    (h : Host) (id : String) (o : Option Identity) (r : Option Fields) (f : File)
    → IsMarkOpt o r
    → read_pending f ≡ ok (record { high_water = o; report = r })
    → After (record { high_water = o; report = r }) (clear_over h id o r f).1
unfolding clear_over
clear_over-After h id none r f k e = unchanged _ f e
clear_over-After h id (some m) none f k e = unchanged _ f e
clear_over-After h id (some m) (some c) f k e = elim (Bool-cases (m.event_id == id)) [
  | inr a ↦ simp a (unchanged _ f e)
  | inl a ↦ simp a (
      written-After h m none _ f e (record { named = k.named; agrees = λ d q. cc q })
        (m, refl, inr (refl, λ q. refl)))
]
