-- ===== src/Tests/Stores.antt =====
-- The stores of state.py: two reports, and a host that fails and then works.
use lite_checker.Prelude.{ℕ, ◌<◌, ◌≡◌, ◌∙◌, refl, ap, sym, String, true, false, some, List, [], ◌∷◌}
use lite_checker.Json.{get, has_key, pos, int, text, obj, Fields, end, field}
use lite_checker.State.{Host, File, holds, ok, locked, read_object, write_object}
use lite_checker.State.Sequence.{numbers, next, next_body, next_of, read_next, next_fields}
use lite_checker.State.Sequence.Increasing.{Rising, numbers-Rising}
use lite_checker.State.Pending.{
  Identity, PendingState, envelope, pending_identity, read_pending, clear, identity_at, from_object,
  is_envelope, from_envelope, is_version_one, checked_pending, agreed, same_identity, clear_over,
  report_value, save, save_over,
}
use lite_checker.State.Pending.Envelope.{IsMark, read_pending-envelope}
use lite_checker.State.Pending.Follows.{Follows}
use lite_checker.State.Pending.Delivery.{
  Operation, saved, perform, perform_all, perform_all-Follows, clear-perform_all,
}

abbrev works : Host
works = record { acquires = true; writes = true; releases = true }

abbrev loses_release : Host
loses_release = record { acquires = true; writes = true; releases = false }

abbrev cannot_write : Host
cannot_write = record { acquires = true; writes = false; releases = true }

read_seven : read_next (holds (obj (next_fields 7))) ≡ ok 7
unfolding read_next read_object next_of get
read_seven = refl

numbers-Rising_example :
    Rising 7
      (numbers (works ∷ loses_release ∷ cannot_write ∷ works ∷ []) (holds (obj (next_fields 7))))
numbers-Rising_example =
    numbers-Rising (works ∷ loses_release ∷ cannot_write ∷ works ∷ []) (holds (obj (next_fields 7)))
      7 read_seven

-- a lost release leaves out a number, a failed write does not
numbers_skip :
    numbers (works ∷ loses_release ∷ cannot_write ∷ works ∷ []) (holds (obj (next_fields 7)))
    ≡ 7 ∷ 9 ∷ []
unfolding numbers next locked next_body write_object read_next read_object next_of get
numbers_skip = refl

abbrev report : String → ℕ → Fields
report id n = field "event_id" (text id) (field "sequence" (int (pos n)) end)

abbrev mark : String → ℕ → Identity
mark id n = record { event_id = id; sequence = n }

abbrev third_saved : File
third_saved = holds (obj (envelope (mark "a:b:3" 3) (some (report "a:b:3" 3))))

abbrev third : PendingState
third = record { high_water = some (mark "a:b:3" 3); report = some (report "a:b:3" 3) }

report-pending_identity : pending_identity (report "a:b:3" 3) ≡ ok (mark "a:b:3" 3)
unfolding pending_identity identity_at get
report-pending_identity = refl

third-IsMark : IsMark (mark "a:b:3" 3) (some (report "a:b:3" 3))
third-IsMark = record {
  named = refl;
  agrees = λ d e. ap pending_identity (sym (cc e)) ∙ report-pending_identity;
}

third_read : read_pending third_saved ≡ ok third
third_read = read_pending-envelope (mark "a:b:3" 3) (some (report "a:b:3" 3)) third-IsMark

read_pending-envelope_example : read_pending third_saved ≡ ok third
read_pending-envelope_example =
    read_pending-envelope (mark "a:b:3" 3) (some (report "a:b:3" 3)) third-IsMark

-- the third report is cleared, saved again in vain, and followed by the fourth
abbrev calls : List Operation
calls = saved works (report "a:b:3" 3) ∷ saved works (report "a:b:4" 4) ∷ []

perform_all-Follows_example : Follows (read_pending third_saved) (perform_all calls third_saved)
perform_all-Follows_example = perform_all-Follows calls third_saved

abbrev fourth : PendingState
fourth = record { high_water = some (mark "a:b:4" 4); report = some (report "a:b:4" 4) }

third_cleared : (clear works "a:b:3" third_saved).0 ≡ ok true
unfolding clear locked read_pending from_object read_object is_envelope has_key get from_envelope
    is_version_one identity_at checked_pending agreed same_identity pending_identity clear_over
    write_object envelope report_value
third_cleared = refl

calls_read : read_pending (perform_all calls (clear works "a:b:3" third_saved).1) ≡ ok fourth
unfolding clear locked read_pending from_object read_object is_envelope has_key get from_envelope
    is_version_one identity_at checked_pending agreed same_identity pending_identity clear_over
    write_object envelope report_value perform_all perform save save_over
calls_read = refl

abbrev Final : Type 0
Final =
    (m j : Identity) × (third.high_water ≡ some m)
    × (m.event_id ≡ "a:b:3")
    × (pending_identity (report "a:b:4" 4) ≡ ok j)
    × (m.sequence < j.sequence)

clear-perform_all_example : Final
clear-perform_all_example =
    clear-perform_all works "a:b:3" calls third_saved third fourth (report "a:b:4" 4) third_read
      third_cleared calls_read refl
