-- ===== src/Collector/Chunks/Newlines.antt =====
-- Where the last newline of a text is.
use lite_checker.Prelude.{
  ℕ, zero, suc, ◌+◌, ◌≤◌, ◌<◌, ◌≡◌, refl, Bool, true, false, Option, none, some, List, [], ◌∷◌,
  length, take, drop, nat_eq, ◌==◌, arith, if◌then◌else◌,
}
use lite_checker.Collector.Chunks.{last_newline}

-- there is a newline at this place
abbrev pub newline_at : List ℕ → ℕ → Bool
newline_at [] i = false
newline_at (c ∷ cs) zero = c == 10
newline_at (c ∷ cs) (suc i) = newline_at cs i

pub newline_at-lt : (xs : List ℕ) (i : ℕ) → newline_at xs i ≡ true → i < length xs
newline_at-lt [] i h = absurd (cc h)
newline_at-lt (c ∷ cs) zero h = omega arith
newline_at-lt (c ∷ cs) (suc i) h = omega (arith, newline_at-lt cs i h)

pub newline_at-take :
    (n : ℕ) (xs : List ℕ) (i : ℕ) → i < n → newline_at (take n xs) i ≡ newline_at xs i
newline_at-take zero xs i h = absurd (omega arith)
newline_at-take (suc n) [] i h = refl
newline_at-take (suc n) (c ∷ cs) zero h = refl
newline_at-take (suc n) (c ∷ cs) (suc i) h = newline_at-take n cs i (omega arith)

pub newline_at-drop :
    (n : ℕ) (xs : List ℕ) (i : ℕ) → newline_at (drop n xs) i ≡ newline_at xs (n + i)
newline_at-drop zero xs i = let same : 0 + i ≡ i = omega arith in rw same refl
newline_at-drop (suc n) [] i = refl
newline_at-drop (suc n) (c ∷ cs) i =
    let same : suc n + i ≡ suc (n + i) = omega arith in rw same (newline_at-drop n cs i)

-- the step of `last_newline`
abbrev later : Option ℕ → Bool → Option ℕ
later last here = elim last [ some i ↦ some (i + 1) | none ↦ if here then some 0 else none ]

later-none : (here : Bool) (i : ℕ) → later none here ≡ some i → (here ≡ true) × (i ≡ 0)
later-none true i h = let same : 0 ≡ i = cc h in (refl, omega arith)
later-none false i h = absurd (cc h)

later-at :
    (c : ℕ) (cs : List ℕ) (last : Option ℕ) (i : ℕ)
    → ((k : ℕ) → last ≡ some k → newline_at cs k ≡ true)
    → later last (c == 10) ≡ some i
    → newline_at (c ∷ cs) i ≡ true
later-at c cs (some k) zero ih h = let same : k + 1 ≡ 0 = cc h in absurd (omega arith)
later-at c cs (some k) (suc i) ih h =
    let same : k + 1 ≡ suc i = cc h in let before : k ≡ i = omega arith in ih i (rw before refl)
later-at c cs none i ih h = let (here, first) = later-none (c == 10) i h in rw first here

pub last_newline-at : (xs : List ℕ) (i : ℕ) → last_newline xs ≡ some i → newline_at xs i ≡ true
unfolding last_newline
last_newline-at [] i h = absurd (cc h)
last_newline-at (c ∷ cs) i h = later-at c cs (last_newline cs) i (last_newline-at cs) h

abbrev Behind : Option ℕ → ℕ → Type 0
Behind last i = (k : ℕ) × (last ≡ some k) × (i ≤ k)

later-Behind : (last : Option ℕ) (here : Bool) → here ≡ true → Behind (later last here) 0
later-Behind none here h = (0, rw h refl, omega arith)
later-Behind (some k) here h = (k + 1, refl, omega arith)

-- a newline is not behind the last one
pub newline_at-last :
    (xs : List ℕ) (i : ℕ) → newline_at xs i ≡ true → (k : ℕ) × (last_newline xs ≡ some k) × (i ≤ k)
unfolding last_newline
newline_at-last [] i h = absurd (cc h)
newline_at-last (c ∷ cs) zero h = later-Behind (last_newline cs) (c == 10) h
newline_at-last (c ∷ cs) (suc i) h =
    let (k, e, le) = newline_at-last cs i h in (k + 1, rw e refl, omega arith)
