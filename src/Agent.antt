-- ===== src/Agent.antt =====
-- agent.py: the delivery of a report to the collector. Between two of its calls other processes may
-- save, replace and clear reports in the same file.
pub mod Slot
pub mod Sent
pub mod Delivered
pub mod Accepted
pub mod Calm
pub mod Cycle
use lite_checker.Prelude.{
  ℕ, ◌+◌, String, Bool, true, false, Option, none, some, List, [], ◌∷◌, ◌++◌, not, nat_eq, ◌==◌,
  if◌then◌else◌,
}
use lite_checker.Json.{pos, int, text, Fields, field}
use lite_checker.State.{Reply, ok, refused, not_released, File, Host, Step}
use lite_checker.State.Pending.{load, save, replace_if_event, clear, is_pending}
use lite_checker.State.Pending.Delivery.{Operation, perform_all}

-- the parts of `AgentReport` that the delivery reads or sets, and the others
pub record AgentReport : Type 0 where
  pub event_id : String
  pub sequence : ℕ
  pub dropped_report_count : ℕ
  pub others : Fields

-- `model_dump`
unfoldable pub model_dump : AgentReport → Fields
model_dump r = field "event_id" (text r.event_id) (
    field "sequence" (int (pos r.sequence))
      (field "dropped_report_count" (int (pos r.dropped_report_count)) r.others))

-- What the host, the other processes and the collector do at each call.
pub record Surroundings : Type 0 where
  pub host : ℕ → Host
  -- the calls of other processes before this one
  pub others : ℕ → List Operation
  -- `sender.send` returns
  pub collector_accepts : ℕ → Bool
  -- `AgentReport.model_validate`
  pub validate : Fields → Option AgentReport
  -- the delivery lock is acquired in time, and released
  pub lock_acquired : Bool
  pub lock_released : Bool

pub record World : Type 0 where
  pub file : File
  pub tick : ℕ
  -- the reports given to the sender, the first one first, and whether each was accepted
  pub sent : List (AgentReport × Bool)

abbrev pub Process : Type 0 → Type 0
Process A = World → Reply A × World

abbrev pub after : {A B : Type 0} → Reply A × World → (A → Process B) → Reply B × World
after (ok a, w) f = f a w
after (refused e, w) f = (refused e, w)

infixl 5 ◌>>=◌
abbrev pub ◌>>=◌ : {A B : Type 0} → Process A → (A → Process B) → Process B
◌>>=◌ m f w = after (m w) f

abbrev pub give : {A : Type 0} → A → Process A
give a w = (ok a, w)

module _ (s : Surroundings) where
  -- a call of the store, after the calls of others
  abbrev pub call : {A : Type 0} → (Host → Step A) → Process A
  call step w =
      let answer = step (s.host w.tick) (perform_all (s.others w.tick) w.file) in
      (answer.0, record { file = answer.1; tick = w.tick + 1; sent = w.sent })

  -- `sender.send`, and whether it returned
  abbrev pub send : AgentReport → Process Bool
  send r w = (
    ok (s.collector_accepts w.tick),
    record {
      file = w.file;
      tick = w.tick + 1;
      sent = w.sent ++ ((r, s.collector_accepts w.tick) ∷ []);
    },
  )

  abbrev pub count_of : Bool → ℕ
  count_of true = 0
  count_of false = 1

  abbrev pub retry : Option AgentReport → Process ℕ
  retry none = give 1
  retry (some r) = do accepted ← send r; give (count_of accepted)

  -- `_retry_pending`
  unfoldable pub retry_pending : Option Fields → Process ℕ
  retry_pending none = give 0
  retry_pending (some raw) = retry (s.validate raw)

  abbrev pub owns : AgentReport → Process Bool
  owns r = call (λ h. is_pending h r.event_id r.sequence)

  abbrev pub clear_if : Bool → AgentReport → Process (AgentReport × Bool)
  clear_if false r = give (r, false)
  clear_if true r = do cleared ← call (λ h. clear h r.event_id); give (r, true)

  -- the last check and the send
  unfoldable pub send_current : AgentReport → Bool → Process (AgentReport × Bool)
  send_current r false = give (r, false)
  send_current r true = do accepted ← send r; clear_if accepted r

  unfoldable pub check_and_send : AgentReport → Process (AgentReport × Bool)
  unfolding send_current
  check_and_send r = do current ← owns r; send_current r current

  abbrev pub if_replaced : AgentReport → Bool → Process (AgentReport × Bool)
  if_replaced r false = give (r, false)
  if_replaced r true = check_and_send r

  -- the replacement by the report that counts the dropped one
  unfoldable pub count_dropped : AgentReport → ℕ → Process (AgentReport × Bool)
  unfolding check_and_send
  count_dropped r n =
      if n == 0
      then check_and_send r
      else (let counted : AgentReport = record r { dropped_report_count = n } in
          do
            replaced ← call (λ h. replace_if_event h r.event_id (model_dump counted))
            if_replaced counted replaced)

  abbrev pub after_retry : AgentReport → ℕ → Bool → Process (AgentReport × Bool)
  after_retry r n false = give (r, false)
  after_retry r n true = count_dropped r n

  abbrev pub retry_first : AgentReport → Option Fields → Bool → Process (AgentReport × Bool)
  retry_first r previous false = give (r, false)
  retry_first r previous true = do
    dropped ← retry_pending previous
    current ← owns r
    after_retry r dropped current

  -- the body of `_deliver_current`, under the lock
  unfoldable pub deliver_locked : AgentReport → Option Fields → Process (AgentReport × Bool)
  unfolding retry_pending count_dropped
  deliver_locked r previous = do current ← owns r; retry_first r previous current

  -- an error of the release stands in for the result
  abbrev pub release : Reply (AgentReport × Bool) × World → Reply (AgentReport × Bool) × World
  release (answer, w) = if s.lock_released then (answer, w) else (refused not_released, w)

  -- `_deliver_current`
  unfoldable pub deliver_current : AgentReport → Option Fields → Process (AgentReport × Bool)
  unfolding deliver_locked
  deliver_current r previous w =
      if s.lock_acquired then release (deliver_locked r previous w) else (ok (r, false), w)

  abbrev pub if_owned : AgentReport → Option Fields → Bool → Process (AgentReport × Bool)
  if_owned r previous false = give (r, false)
  if_owned r previous true = deliver_current r previous

  -- `deliver_report`
  unfoldable pub deliver_report : AgentReport → Process (AgentReport × Bool)
  unfolding deliver_current model_dump
  deliver_report r = do
    previous ← call load
    owned ← call (λ h. save h (model_dump r))
    if_owned r previous owned
