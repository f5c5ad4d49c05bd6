-- ===== src/Collector/Telegram/Closed.antt =====
-- The end of a call: what it says of the attempts, its code, and its waits.
use lite_checker.Prelude.{
  ℕ, ◌+◌, ◌≤◌, ◌<◌, ◌≡◌, ◌⊎◌, String, Bool, true, false, ◌&&◌, Option, List, leb, count, nat_eq,
  All, length, string_eq,
}
use lite_checker.Collector.Names.{safe_error_code}
use lite_checker.Collector.Telegram.{
  Exchange, Sent, returned, permanent_error, transient_error, value_error, overflow_error,
  longest_wait,
}
use lite_checker.Collector.Telegram.Judged.{IsAccepting, retryable, IsStrange, IsHuge}

module _ (seconds : String → Option ℕ) where
  -- The attempts from the first on that were made before this one could be repeated.
  abbrev pub Tried : (ℕ → Exchange) → ℕ → ℕ → Type 0
  Tried answers first i = (j : ℕ) → first ≤ j → j < i → retryable (answers j) ≡ true

  -- an attempt that ends the call, after others that could be repeated
  abbrev pub EndsAt : (Exchange → Type 0) → (ℕ → Exchange) → ℕ → ℕ → Type 0
  EndsAt P answers first left =
      (i : ℕ) × (first ≤ i) × (i < first + left) × P (answers i) × Tried answers first i

  abbrev pub IsFinal : Exchange → Type 0
  IsFinal x = retryable x ≡ false

  -- How a call ends whose attempts begin with `first`.
  abbrev pub IsClosed : (ℕ → Exchange) → ℕ → ℕ → Sent → Type 0
  IsClosed answers first left returned = EndsAt IsAccepting answers first left
  IsClosed answers first left (permanent_error code) =
      (safe_error_code code ≡ true) × EndsAt IsFinal answers first left
  IsClosed answers first left (transient_error code) =
      (safe_error_code code ≡ true) × Tried answers first (first + left)
  IsClosed answers first left value_error = EndsAt (IsStrange seconds) answers first left
  IsClosed answers first left overflow_error = EndsAt (IsHuge seconds) answers first left

  abbrev IsConcluded : (ℕ → Exchange) → ℕ → ℕ → Sent × List ℕ → Type 0
  IsConcluded answers first left r =
      IsClosed answers first left r.0 × (length r.1 < left) × All (λ t. t ≤ longest_wait) r.1

  abbrev pub short_enough : String → Bool
  short_enough chunk = leb 1 (count chunk) && leb (count chunk) 4096

  -- the end of a call for a text, with the waits that it made
  pub record IsDone (max_attempts : ℕ) (chunk : String) (answers : ℕ → Exchange) (r : Sent × List ℕ)
      : Type 0 where
    pub closed :
        ((short_enough chunk ≡ true) × IsClosed answers 1 max_attempts r.0)
        ⊎ ((short_enough chunk ≡ false) × (r.0 ≡ permanent_error "telegram-message-invalid"))
    pub few : length r.1 < max_attempts
    pub short : All (λ t. t ≤ longest_wait) r.1
