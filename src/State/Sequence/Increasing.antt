-- ===== src/State/Sequence/Increasing.antt =====
-- The order of the numbers of `SequenceStore`.
use lite_checker.Prelude.{
  ℕ, ◌+◌, ◌≤◌, ◌≡◌, refl, List, [], ◌∷◌, arith, Bool-cases, inl, inr, string_eq,
}
use lite_checker.Json.{obj, get}
use lite_checker.State.{Reply, ok, refused, File, holds, Host, locked, write_object, read_object}
use lite_checker.State.Sequence.{
  next, next_body, read_next, next_of, next_fields, numbers, keep_number,
}

-- the numbers stand in increasing order, from `lo` on
abbrev pub Rising : ℕ → List ℕ → Type 0
Rising lo [] = Unit
Rising lo (n ∷ ns) = (lo ≤ n) × Rising (n + 1) ns

-- what a file can give, where it is one from which `lo` or more is read, if anything is
abbrev pub FromAbove : ℕ → Reply ℕ → Type 0
FromAbove lo (ok n) = lo ≤ n
FromAbove lo (refused e) = Unit

-- one call: its number is at least `lo`, and the next one is greater
abbrev Stepped : ℕ → Reply ℕ × File → Type 0
Stepped lo (ok n, f) = (lo ≤ n) × FromAbove (n + 1) (read_next f)
Stepped lo (refused e, f) = FromAbove lo (read_next f)

read-written : (n : ℕ) → read_next (holds (obj (next_fields n))) ≡ ok n
unfolding read_next read_object next_of get
read-written n = refl

-- what a step leaves behind is still above `lo`
Stepped-FromAbove : (lo : ℕ) (r : Reply ℕ × File) → Stepped lo r → FromAbove lo (read_next r.1)
Stepped-FromAbove lo (refused e, f) h = h
Stepped-FromAbove lo (ok n, f) (le, h) = lower (read_next f) h
  where
    lower : (r : Reply ℕ) → FromAbove (n + 1) r → FromAbove lo r
    lower (ok m) h = omega arith
    lower (refused e) h = tt

next_body-Stepped :
    (h : Host) (lo : ℕ) (f : File) (r : Reply ℕ)
    → read_next f ≡ r
    → FromAbove lo r
    → Stepped lo (next_body h r f)
unfolding next_body write_object
next_body-Stepped h lo f (refused e) q k = rw (q, FromAbove) tt
next_body-Stepped h lo f (ok n) q k = elim (Bool-cases h.writes) [
  | inl w ↦ simp w (k, rw (read-written (n + 1)) (omega arith))
  | inr w ↦ simp w (rw q k)
]

next-Stepped : (h : Host) (lo : ℕ) (f : File) → FromAbove lo (read_next f) → Stepped lo (next h f)
unfolding next locked
next-Stepped h lo f k =
    let body = next_body-Stepped h lo f (read_next f) refl k in
    elim (Bool-cases h.acquires) [
      | inr a ↦ simp a k
      | inl a ↦ simp a (elim (Bool-cases h.releases) [
        | inl r ↦ simp r body
        | inr r ↦ simp r (Stepped-FromAbove lo (next_body h (read_next f) f) body)
      ])
    ]

kept-Rising :
    (lo : ℕ) (hs : List Host) (r : Reply ℕ × File)
    → Stepped lo r
    → ((m : ℕ) → FromAbove m (read_next r.1) → Rising m (numbers hs r.1))
    → Rising lo (keep_number r.0 (numbers hs r.1))
kept-Rising lo hs (ok n, f) (le, k) rest = (le, rest (n + 1) k)
kept-Rising lo hs (refused e, f) k rest = rest lo k

numbers-FromAbove :
    (hs : List Host) (lo : ℕ) (f : File) → FromAbove lo (read_next f) → Rising lo (numbers hs f)
unfolding numbers
numbers-FromAbove [] lo f k = tt
numbers-FromAbove (h ∷ hs) lo f k =
    kept-Rising lo hs (next h f) (next-Stepped h lo f k) (λ m. numbers-FromAbove hs m (next h f).1)

-- The numbers that a series of `next` calls returns are all different and increase, from the number
-- in the file on, whichever of the calls fail at the lock, at the write or at the release.
pub numbers-Rising :
    (hs : List Host) (f : File) (lo : ℕ) → read_next f ≡ ok lo → Rising lo (numbers hs f)
numbers-Rising hs f lo e = numbers-FromAbove hs lo f (rw (e, FromAbove) (omega arith))
