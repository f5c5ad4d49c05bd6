-- ===== src/State/Pending.antt =====
-- `PendingReportStore` of state.py: at most one unsent report, under a high water mark.
pub mod Envelope
pub mod Readable
pub mod Follows
pub mod Delivery
pub mod Working
use lite_checker.Prelude.{
  ℕ, String, Bool, true, false, Option, none, some, ◌||◌, ◌&&◌, not, ltb, ◌==◌, nat_eq, string_eq,
  if◌then◌else◌,
}
use lite_checker.Json.{ℤ, pos, Json, null, int, text, obj, Fields, end, field, get, has_key}
use lite_checker.State.{
  StateError, malformed, report_malformed, sequence_conflict, event_mismatch, Reply, ok, refused,
  File, absent, Host, Step, locked, read_object, write_object,
}

-- The event and the sequence of a report or of a file.
pub record Identity : Type 0 where
  pub event_id : String
  pub sequence : ℕ

-- `_PendingState`: the first two fields are both there or both not.
pub record PendingState : Type 0 where
  pub high_water : Option Identity
  pub report : Option Fields

-- a non-empty event and a sequence that is a natural number
unfoldable pub identity_at : StateError → Option Json → Option Json → Reply Identity
identity_at e (some (text id)) (some (int (pos n))) =
    if id == "" then refused e else ok (record { event_id = id; sequence = n })
identity_at e _ _ = refused e

-- `_pending_identity`
unfoldable pub pending_identity : Fields → Reply Identity
pending_identity d = identity_at report_malformed (get d "event_id") (get d "sequence")

unfoldable pub same_identity : Identity → Identity → Bool
same_identity a b = a.event_id == b.event_id && a.sequence == b.sequence

unfoldable pub is_version_one : Option Json → Bool
is_version_one (some (int (pos n))) = n == 1
is_version_one _ = false

unfoldable pub agreed : Identity → Fields → Reply Identity → Reply PendingState
agreed i d (refused e) = refused e
agreed i d (ok j) =
    if same_identity j i
    then ok (record { high_water = some i; report = some d })
    else refused malformed

-- the value under "pending", which agrees with the mark
unfoldable pub checked_pending : Identity → Option Json → Reply PendingState
checked_pending i none = refused malformed
checked_pending i (some null) = ok (record { high_water = some i; report = none })
checked_pending i (some (obj d)) = agreed i d (pending_identity d)
checked_pending i (some _) = refused malformed

abbrev pub with_mark : Option Json → Reply Identity → Reply PendingState
with_mark v (refused e) = refused e
with_mark v (ok i) = checked_pending i v

-- `_pending_state_from_envelope`
unfoldable pub from_envelope : Fields → Reply PendingState
from_envelope d =
    if is_version_one (get d "schema_version")
    then with_mark (get d "pending")
        (identity_at malformed (get d "high_water_event_id") (get d "high_water_sequence"))
    else refused malformed

unfoldable pub is_envelope : Fields → Bool
is_envelope d =
    has_key d "high_water_sequence" || has_key d "high_water_event_id" || has_key d "pending"

-- a file of the format before the envelope is the report itself
abbrev pub from_report : Fields → Reply Identity → Reply PendingState
from_report d (refused e) = refused e
from_report d (ok i) = ok (record { high_water = some i; report = some d })

unfoldable pub from_object : Reply Fields → Reply PendingState
from_object (refused e) = refused e
from_object (ok d) = if is_envelope d then from_envelope d else from_report d (pending_identity d)

-- `_read_pending_state_unlocked`
unfoldable pub read_pending : File → Reply PendingState
read_pending absent = ok (record { high_water = none; report = none })
read_pending f = from_object (read_object f)

unfoldable pub report_value : Option Fields → Json
report_value none = null
report_value (some d) = obj d

-- the envelope, with its keys in the order of `sort_keys`
unfoldable pub envelope : Identity → Option Fields → Fields
envelope i r = field "high_water_event_id" (text i.event_id) (
    field "high_water_sequence" (int (pos i.sequence))
      (field "pending" (report_value r) (field "schema_version" (int (pos 1)) end)))

-- `PendingReportStore.load`
unfoldable pub load : Host → Step (Option Fields)
load h =
    locked h (λ f. elim (read_pending f) [ refused e ↦ (refused e, f) | ok s ↦ (ok s.report, f) ])

-- `pending is None`
abbrev pub is_none : Option Fields → Bool
is_none none = true
is_none (some _) = false

abbrev pub owned_by : Identity → PendingState → Bool
owned_by i s = elim s.high_water [
  | none ↦ false
  | some m ↦ not (is_none s.report) && same_identity m i
]

-- the reading of the state and its test, under the lock
abbrev pub tests_owner : Host → Reply Identity → Step Bool
tests_owner h (refused e) f = (refused e, f)
tests_owner h (ok i) f =
    locked h
      (λ g. elim (read_pending g) [ refused e ↦ (refused e, g) | ok s ↦ (ok (owned_by i s), g) ]) f

-- `PendingReportStore.is_pending`
unfoldable pub is_pending : Host → String → ℕ → Step Bool
is_pending h id n =
    tests_owner h (identity_at report_malformed (some (text id)) (some (int (pos n))))

-- The bodies of the transitions, on the mark and the report that the file holds.
module _ (h : Host) (d : Fields) (i : Identity) where
  unfoldable pub save_over : Option Identity → Option Fields → Step Bool
  save_over none r f = write_object h (envelope i (some d)) true f
  save_over (some m) r f =
      if ltb i.sequence m.sequence
      then (ok false, f)
      else if i.sequence == m.sequence && not (i.event_id == m.event_id)
      then (refused sequence_conflict, f)
      else if i.sequence == m.sequence && is_none r
      then (ok false, f)
      else write_object h (envelope i (some d)) true f

  unfoldable pub replace_over : Option Identity → Option Fields → Step Bool
  replace_over none r f = (ok false, f)
  replace_over (some m) r f =
      if is_none r || not (m.event_id == i.event_id)
      then (ok false, f)
      else if i.sequence == m.sequence
      then write_object h (envelope m (some d)) true f
      else (refused sequence_conflict, f)

unfoldable pub clear_over : Host → String → Option Identity → Option Fields → Step Bool
clear_over h id none r f = (ok false, f)
clear_over h id (some m) r f =
    if is_none r || not (m.event_id == id)
    then (ok false, f)
    else write_object h (envelope m none) true f

abbrev pub on_state : (Option Identity → Option Fields → Step Bool) → Reply PendingState → Step Bool
on_state body (refused e) f = (refused e, f)
on_state body (ok s) f = body s.high_water s.report f

-- a step that reads the state under the lock
abbrev pub on_pending : Host → (Option Identity → Option Fields → Step Bool) → Step Bool
on_pending h body = locked h (λ f. on_state body (read_pending f) f)

-- a step that first reads the identity of its report
abbrev pub on_identity : (Identity → Step Bool) → Reply Identity → Step Bool
on_identity body (refused e) f = (refused e, f)
on_identity body (ok i) f = body i f

-- `PendingReportStore.save`
unfoldable pub save : Host → Fields → Step Bool
save h d = on_identity (λ i. on_pending h (save_over h d i)) (pending_identity d)

-- `PendingReportStore.replace_if_event`
unfoldable pub replace_if_event : Host → String → Fields → Step Bool
replace_if_event h id d =
    on_identity
      (λ i f.
        if i.event_id == id
        then on_pending h (replace_over h d i) f
        else (refused event_mismatch, f))
      (pending_identity d)

-- `PendingReportStore.clear`
unfoldable pub clear : Host → String → Step Bool
clear h id = on_pending h (clear_over h id)
