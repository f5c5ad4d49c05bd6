-- ===== src/Collector/Telegram.antt =====
-- `TelegramClient` of collector/telegram.py: a text is sent in a bounded number of attempts, and each
-- failure has a closed code. The transport gives an `Exchange` for each attempt, and closes. Delays are in
-- microseconds.
pub mod Closed
pub mod Judged
use Prim.Native.String.{◌++◌}
use lite_checker.Prelude.{
  ℕ, zero, suc, ◌+◌, ◌-◌, ◌*◌, ◌^◌, min, String, Bool, true, false, ◌&&◌, ◌||◌, Option, none, some,
  List, [], ◌∷◌, leb, ltb, count, decimal, nat_eq, string_eq, ◌==◌, and_then, if◌then◌else◌,
}
use lite_checker.Json.{pos, negsuc, Json, boolean, int, real, obj, get}
use lite_checker.Collector.Dispatch.{Sending, delivered, refused_for_good, failed_for_now}
use lite_checker.Collector.Dispatch

-- `_read_bounded` and `_parse_json`: the payload, or the exception of the reading
pub data Body : Type 0 where
  read : Option Json → Body
  encoding_invalid length_invalid too_large interrupted : Body

-- a response, or an exception before it
pub data Exchange : Type 0 where
  no_response : Exchange
  responded : ℕ → Body → Exchange

-- what an attempt means: the message is accepted, `TelegramPermanentError`, a failure that may be
-- retried after a delay, the `ValueError` of a code that is not closed, or an `OverflowError`
pub data Verdict : Type 0 where
  accepted : Verdict
  permanent : String → Verdict
  again : String → ℕ → Verdict
  no_code overflowed : Verdict

-- the call returns, raises one of the two errors, `ValueError`, or `OverflowError`
pub data Sent : Type 0 where
  returned : Sent
  permanent_error transient_error : String → Sent
  value_error overflow_error : Sent

abbrev is_true : Json → Bool
is_true (boolean b) = b
is_true _ = false

abbrev is_number : Json → Bool
is_number (int n) = true
is_number _ = false

abbrev sub : String → Json → Option Json
sub k (obj d) = get d k
sub k _ = none

abbrev holds : (Json → Bool) → Option Json → Bool
holds p none = false
holds p (some j) = p j

-- `_accepted`
unfoldable pub is_accepted : Option Json → Bool
is_accepted payload =
    holds is_true (and_then payload (sub "ok"))
    && holds is_number (and_then (and_then payload (sub "result")) (sub "message_id"))

abbrev pub longest_wait : ℕ
longest_wait = 60000000

-- the first integer that `float` does not take
abbrev pub float_limit : ℕ
float_limit = 2 ^ 1024 - 2 ^ 970

-- the delay that a response asks for, if there is one; `float` may raise `OverflowError`
pub data Delay : Type 0 where
  no_delay overflows : Delay
  waits : ℕ → Delay

module _ (seconds : String → Option ℕ) where
  abbrev within : ℕ → Delay
  within n = if leb n longest_wait then waits n else no_delay

  abbrev if_read : Option ℕ → Delay
  if_read none = no_delay
  if_read (some n) = within n

  -- the delay that a number says, if it is at most a minute; `seconds` reads a float that is not
  -- negative
  abbrev delay_of : Json → Delay
  delay_of (int (pos n)) = if leb float_limit n then overflows else within (n * 1000000)
  delay_of (int (negsuc n)) = if leb float_limit (n + 1) then overflows else no_delay
  delay_of (real t) = if_read (seconds t)
  delay_of _ = no_delay

  abbrev if_there : Option Json → Delay
  if_there none = no_delay
  if_there (some j) = delay_of j

  -- `_retry_after`
  unfoldable pub retry_after : Option Json → Delay
  retry_after payload =
      if_there (and_then (and_then payload (sub "parameters")) (sub "retry_after"))

  -- `_backoff`
  abbrev pub backoff : ℕ → ℕ
  backoff attempt = min 1000000 (250000 * 2 ^ (attempt - 1))

  abbrev or_backoff : ℕ → Delay → Verdict
  or_backoff attempt no_delay = again "telegram-rate-limited" (backoff attempt)
  or_backoff attempt overflows = overflowed
  or_backoff attempt (waits t) = again "telegram-rate-limited" t

  -- status 429
  abbrev limited : ℕ → Body → Verdict
  limited attempt interrupted = again "telegram-network" (backoff attempt)
  limited attempt (read payload) = or_backoff attempt (retry_after payload)
  limited attempt _ = again "telegram-rate-limited" (backoff attempt)

  -- `TelegramPermanentError(f"telegram-http-{status}")`
  abbrev http_error : ℕ → Verdict
  http_error status =
      if leb 100 status && leb status 599
      then permanent ("telegram-http-" ++ decimal status)
      else no_code

  abbrev final : ℕ → ℕ → Body → Verdict
  final attempt status interrupted = again "telegram-network" (backoff attempt)
  final attempt status encoding_invalid = permanent "telegram-content-encoding-invalid"
  final attempt status length_invalid = permanent "telegram-response-invalid"
  final attempt status too_large = permanent "telegram-response-too-large"
  final attempt status (read payload) =
      if status == 200
      then (if is_accepted payload then accepted else permanent "telegram-response-invalid")
      else http_error status

  unfoldable pub judge : ℕ → Exchange → Verdict
  unfolding retry_after is_accepted
  judge attempt no_response = again "telegram-network" (backoff attempt)
  judge attempt (responded status body) =
      if status == 429
      then limited attempt body
      else if status == 408 || status == 425 || leb 500 status && leb status 599
      then again "telegram-server-error" (backoff attempt)
      else final attempt status body

  -- The end of an attempt, with the delays that were slept; `rest` are the further attempts.
  abbrev pub conclude : Bool → Sent × List ℕ → Verdict → Sent × List ℕ
  conclude last rest accepted = (returned, [])
  conclude last rest (permanent code) = (permanent_error code, [])
  conclude last rest no_code = (value_error, [])
  conclude last rest overflowed = (overflow_error, [])
  conclude true rest (again code delay) = (transient_error code, [])
  conclude false rest (again code delay) = (rest.0, delay ∷ rest.1)

  -- the loop of `_send_one`, from an attempt on
  unfoldable pub send_from : ℕ → ℕ → (ℕ → Exchange) → Sent × List ℕ
  unfolding judge
  send_from zero attempt answers = (returned, [])
  send_from (suc left) attempt answers =
      let rest = send_from left (attempt + 1) answers in
      conclude (left == 0) rest (judge attempt (answers attempt))

  -- `send_chunks` of one chunk
  unfoldable pub send_chunk : ℕ → String → (ℕ → Exchange) → Sent × List ℕ
  unfolding send_from
  send_chunk max_attempts chunk answers =
      if leb 1 (count chunk) && leb (count chunk) 4096
      then send_from max_attempts 1 answers
      else (permanent_error "telegram-message-invalid", [])

-- what the dispatcher sees
abbrev pub sending_of : Sent → Sending
sending_of returned = delivered
sending_of (permanent_error code) = refused_for_good code
sending_of (transient_error code) = failed_for_now code
sending_of value_error = Dispatch.broke
sending_of overflow_error = Dispatch.broke
