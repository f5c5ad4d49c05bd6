-- ===== src/State/Acks.antt =====
-- `CollectorAckStore` of state.py: the last event that the collector accepted. Times are microseconds;
-- `show_time` and `read_time` are `isoformat` and `datetime.fromisoformat`.
pub mod Recent
use lite_checker.Prelude.{
  ℕ, ◌+◌, ◌*◌, String, Bool, true, false, Option, none, some, ◌&&◌, not, leb, count, string_eq,
  nat_eq, ◌==◌, Outcome, returned, raised, value_error, if◌then◌else◌,
}
use lite_checker.Json.{Json, text, obj, Fields, end, field, get}
use lite_checker.State.{
  Reply, ok, refused, ack_malformed, File, absent, Host, Step, locked, read_object, write_object,
}

abbrev pub ack_fields : String → String → Fields
ack_fields id time = field "accepted_at" (text time) (field "event_id" (text id) end)

-- `CollectorAckStore.record`
unfoldable pub record_ack : (ℕ → String) → Host → String → ℕ → Step (Unit {0})
unfolding locked write_object
record_ack show_time h id now f =
    if leb 1 (count id) && leb (count id) 512
    then locked h (write_object h (ack_fields id (show_time now)) tt) f
    else (refused ack_malformed, f)

abbrev read_ack : File → Reply (Option Fields)
read_ack absent = ok none
read_ack f = elim (read_object f) [ refused e ↦ refused e | ok d ↦ ok (some d) ]

abbrev pub within : ℕ → ℕ → Option ℕ → Bool
within now max_age none = false
within now max_age (some then_) = leb then_ now && leb now (then_ + max_age * 1000000)

module _ (read_time : String → Option ℕ) (now max_age : ℕ) where
  abbrev dated : Option Json → Option Json → Bool
  dated (some (text id)) (some (text time)) = not (id == "") && within now max_age (read_time time)
  dated _ _ = false

  abbrev judge : Reply (Option Fields) → Bool
  judge (refused e) = false
  judge (ok none) = false
  judge (ok (some d)) = dated (get d "event_id") (get d "accepted_at")

  -- `CollectorAckStore.is_recent`
  unfoldable pub is_recent : Host → File → Outcome Bool
  unfolding locked read_object get
  is_recent h f =
      if max_age == 0
      then raised value_error
      else returned (judge (locked h (λ g. (read_ack g, g)) f).0)
