-- ===== src/Collector/Telegram/Judged.antt =====
-- What an attempt of `TelegramClient` in collector/telegram.py means, for each response.
use Prim.Native.String.{◌++◌}
use lite_checker.Prelude.{
  ℕ, zero, suc, ◌+◌, ◌*◌, ◌≤◌, ◌<◌, ◌≡◌, refl, sym, subst, String, Bool, true, false, ◌&&◌, ◌||◌,
  Option, none, some, leb, decimal, nat_eq, ◌==◌, arith, Bool-cases, inl, inr, and-eq_true,
  and_then, ap, string_eq,
}
use lite_checker.Json.{pos, negsuc, Json, int, real}
use lite_checker.Collector.Names.{safe_error_code}
use lite_checker.Collector.Telegram.{
  Body, read, encoding_invalid, length_invalid, too_large, interrupted, within, sub, delay_of,
  Delay, no_delay, overflows, waits, float_limit, if_read, if_there, or_backoff, limited,
  http_error, final, Exchange, no_response, responded, Verdict, accepted, permanent, again, no_code,
  overflowed, is_accepted, longest_wait, retry_after, backoff, judge,
}

abbrev all_safe : ℕ → Bool
all_safe zero = true
all_safe (suc n) = safe_error_code ("telegram-http-" ++ decimal n) && all_safe n

all_safe-600 : all_safe 600 ≡ true
unfolding safe_error_code decimal
all_safe-600 = refl

all_safe-at :
    (k n : ℕ) → all_safe k ≡ true → n < k → safe_error_code ("telegram-http-" ++ decimal n) ≡ true
all_safe-at zero n h lt = absurd (omega arith)
all_safe-at (suc k) n h lt =
    let (here, rest) =
      and-eq_true (safe_error_code ("telegram-http-" ++ decimal k)) (all_safe k) h in
    elim (Bool-cases (n == k)) [
      | inl t ↦ let same : n ≡ k = ground (arith, t) in rw same here
      | inr t ↦ all_safe-at k n rest (ground (arith, t))
    ]

-- the exchange that accepts the message
abbrev pub IsAccepting : Exchange → Type 0
IsAccepting x =
    (payload : Option Json) × (x ≡ responded 200 (read payload)) × (is_accepted payload ≡ true)

-- a failure that another attempt may mend: no response, one that breaks off, or one of these statuses
abbrev pub retryable : Exchange → Bool
retryable no_response = true
retryable (responded status interrupted) = true
retryable (responded status body) =
    status == 429 || status == 408 || status == 425 || leb 500 status && leb status 599

abbrev IsShort : Delay → Type 0
IsShort (waits t) = t ≤ longest_wait
IsShort _ = Unit

module _ (seconds : String → Option ℕ) where
  -- a response that has a status without a code
  abbrev pub IsStrange : Exchange → Type 0
  IsStrange x =
      (status : ℕ) × (payload : Option Json) × (x ≡ responded status (read payload))
      × ((leb 100 status && leb status 599) ≡ false)

  -- a response that asks for a delay which no float holds
  abbrev pub IsHuge : Exchange → Type 0
  IsHuge x =
      (payload : Option Json) × (x ≡ responded 429 (read payload))
      × (retry_after seconds payload ≡ overflows)

  abbrev pub IsJudged : Exchange → Verdict → Type 0
  IsJudged x accepted = IsAccepting x
  IsJudged x (permanent code) = (safe_error_code code ≡ true) × (retryable x ≡ false)
  IsJudged x (again code delay) =
      (safe_error_code code ≡ true) × (delay ≤ longest_wait) × (retryable x ≡ true)
  IsJudged x no_code = IsStrange x
  IsJudged x overflowed = IsHuge x

  within-IsShort : (n : ℕ) → IsShort (within seconds n)
  within-IsShort n = elim (Bool-cases (leb n longest_wait)) [
    | inl t ↦ rw t (ground (arith, t))
    | inr t ↦ rw t tt
  ]

  if_read-IsShort : (o : Option ℕ) → IsShort (if_read seconds o)
  if_read-IsShort none = tt
  if_read-IsShort (some n) = within-IsShort n

  delay_of-IsShort : (j : Json) → IsShort (delay_of seconds j)
  delay_of-IsShort (int (pos n)) = elim (Bool-cases (leb float_limit n)) [
    | inl t ↦ rw t tt
    | inr t ↦ rw t (within-IsShort (n * 1000000))
  ]
  delay_of-IsShort (int (negsuc n)) = elim (Bool-cases (leb float_limit (n + 1))) [
    | inl t ↦ rw t tt
    | inr t ↦ rw t tt
  ]
  delay_of-IsShort (real t) = if_read-IsShort (seconds t)
  delay_of-IsShort _ = tt

  if_there-IsShort : (o : Option Json) → IsShort (if_there seconds o)
  if_there-IsShort none = tt
  if_there-IsShort (some j) = delay_of-IsShort j

  retry_after-IsShort : (payload : Option Json) → IsShort (retry_after seconds payload)
  unfolding retry_after
  retry_after-IsShort payload =
      if_there-IsShort (and_then (and_then payload (sub "parameters")) (sub "retry_after"))

  backoff-short : (attempt : ℕ) → backoff seconds attempt ≤ longest_wait
  backoff-short attempt = omega arith

  or_backoff-IsJudged :
      (attempt : ℕ) (payload : Option Json) (d : Delay)
      → retry_after seconds payload ≡ d
      → IsShort d
      → IsJudged (responded 429 (read payload)) (or_backoff seconds attempt d)
  unfolding safe_error_code
  or_backoff-IsJudged attempt payload no_delay e h = (refl, backoff-short attempt, refl)
  or_backoff-IsJudged attempt payload overflows e h = (payload, refl, e)
  or_backoff-IsJudged attempt payload (waits t) e h = (refl, h, refl)

  limited-IsJudged :
      (attempt : ℕ) (body : Body) → IsJudged (responded 429 body) (limited seconds attempt body)
  unfolding safe_error_code
  limited-IsJudged attempt interrupted = (refl, backoff-short attempt, refl)
  limited-IsJudged attempt (read payload) =
      or_backoff-IsJudged attempt payload _ refl (retry_after-IsShort payload)
  limited-IsJudged attempt encoding_invalid = (refl, backoff-short attempt, refl)
  limited-IsJudged attempt length_invalid = (refl, backoff-short attempt, refl)
  limited-IsJudged attempt too_large = (refl, backoff-short attempt, refl)

  http_error-IsJudged :
      (status : ℕ) (payload : Option Json)
      → retryable (responded status (read payload)) ≡ false
      → IsJudged (responded status (read payload)) (http_error seconds status)
  http_error-IsJudged status payload last = elim (Bool-cases (leb 100 status && leb status 599)) [
    | inr t ↦ rw t (status, payload, refl, t)
    | inl t ↦ rw t (all_safe-at 600 status all_safe-600 (ground (arith, t)), last)
  ]

  final-IsJudged :
      (attempt status : ℕ) (body : Body)
      → (status == 429 || status == 408 || status == 425 || leb 500 status && leb status 599)
        ≡ false
      → IsJudged (responded status body) (final seconds attempt status body)
  unfolding safe_error_code
  final-IsJudged attempt status interrupted h = (refl, backoff-short attempt, refl)
  final-IsJudged attempt status encoding_invalid h = (refl, h)
  final-IsJudged attempt status length_invalid h = (refl, h)
  final-IsJudged attempt status too_large h = (refl, h)
  final-IsJudged attempt status (read payload) h = elim (Bool-cases (status == 200)) [
    | inr t ↦ rw t (http_error-IsJudged status payload h)
    | inl t ↦ rw t (elim (Bool-cases (is_accepted payload)) [
      | inr u ↦ rw u (refl, h)
      | inl u ↦ rw u (
          let same : status ≡ 200 = ground (arith, t) in
          (payload, ap (λ n. responded n (read payload)) same, u))
    ])
  ]

  repeated :
      (status : ℕ) (body : Body)
      → (status == 408 || status == 425 || leb 500 status && leb status 599) ≡ true
      → retryable (responded status body) ≡ true
  repeated status interrupted h = refl
  repeated status (read payload) h = ground (arith, h)
  repeated status encoding_invalid h = ground (arith, h)
  repeated status length_invalid h = ground (arith, h)
  repeated status too_large h = ground (arith, h)

  pub judge-IsJudged : (attempt : ℕ) (x : Exchange) → IsJudged x (judge seconds attempt x)
  unfolding judge safe_error_code
  judge-IsJudged attempt no_response = (refl, backoff-short attempt, refl)
  judge-IsJudged attempt (responded status body) = elim (Bool-cases (status == 429)) [
    | inl t ↦
        let same : status ≡ 429 = ground (arith, t) in
        rw t (
          subst (λ n. IsJudged (responded n body) (limited seconds attempt body)) (sym same)
            (limited-IsJudged attempt body))
    | inr t ↦
        rw t
          (elim (Bool-cases (status == 408 || status == 425 || leb 500 status && leb status 599)) [
            | inl u ↦ rw u (refl, backoff-short attempt, repeated status body u)
            | inr u ↦ rw u (final-IsJudged attempt status body (ground (arith, t, u)))
          ])
  ]
