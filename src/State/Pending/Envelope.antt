-- ===== src/State/Pending/Envelope.antt =====
-- The envelope of `PendingReportStore`, written and read.
use lite_checker.Prelude.{false, Option, none, some, ◌≡◌, refl, ◌==◌, string_eq, nat_eq, beq_refl}
use lite_checker.Json.{obj, Fields, get, has_key}
use lite_checker.State.{ok, holds, read_object}
use lite_checker.State.Pending.{
  Identity, identity_at, pending_identity, same_identity, is_version_one, checked_pending, agreed,
  from_envelope, is_envelope, from_object, read_pending, report_value, envelope,
}

-- the mark is not empty, and is that of the report
pub record IsMark (i : Identity) (r : Option Fields) : Type 0 where
  pub named : (i.event_id == "") ≡ false
  pub agrees : (d : Fields) → r ≡ some d → pending_identity d ≡ ok i

checked-report :
    (i : Identity) (r : Option Fields)
    → IsMark i r
    → checked_pending i (some (report_value r)) ≡ ok (record { high_water = some i; report = r })
unfolding checked_pending report_value same_identity agreed
checked-report i none k = refl
checked-report i (some d) k = rw (k.agrees d refl, beq_refl i.event_id, beq_refl i.sequence) refl

pub read_pending-envelope :
    (i : Identity) (r : Option Fields)
    → IsMark i r
    → read_pending (holds (obj (envelope i r))) ≡ ok (record { high_water = some i; report = r })
unfolding read_pending read_object from_object is_envelope has_key get envelope from_envelope
    is_version_one identity_at
read_pending-envelope i r k = rw k.named (checked-report i r k)
