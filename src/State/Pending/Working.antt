-- ===== src/State/Pending/Working.antt =====
-- The calls of `PendingReportStore` by a host that works.
use lite_checker.Prelude.{
  ℕ, ◌<◌, ◌≡◌, ◌∙◌, refl, ap, sym, true, false, Option, none, some, arith, string_eq, nat_eq, ltb,
  ◌==◌, beq_refl,
}
use lite_checker.Json.{Fields, obj}
use lite_checker.State.{ok, File, holds, Host, locked, write_object}
use lite_checker.State.Pending.{
  Identity, PendingState, pending_identity, identity_at, read_pending, envelope, load, save,
  save_over, replace_if_event, replace_over, clear, clear_over, is_pending, same_identity,
}
use lite_checker.State.Pending.Envelope.{read_pending-envelope}

abbrev pub works : Host
works = record { acquires = true; writes = true; releases = true }

-- the calls of the store on a file that holds this report
module _ (i : Identity) (named : (i.event_id == "") ≡ false) (d : Fields)
    (agrees : pending_identity d ≡ ok i) where
  abbrev pub held : File
  held = holds (obj (envelope i (some d)))

  held-read : read_pending held ≡ ok (record { high_water = some i; report = some d })
  held-read =
      read_pending-envelope i (some d)
        (record { named = named; agrees = λ c e. ap pending_identity (sym (cc e)) ∙ agrees })

  pub held-is_pending : is_pending works i.event_id i.sequence held ≡ (ok true, held)
  unfolding is_pending identity_at locked same_identity
  held-is_pending = rw (named, held-read, beq_refl i.event_id, beq_refl i.sequence) refl

  pub held-clear : clear works i.event_id held ≡ (ok true, holds (obj (envelope i none)))
  unfolding clear locked clear_over write_object
  held-clear = rw (held-read, beq_refl i.event_id) refl

  pub held-replace_if_event :
      (c : Fields)
      → pending_identity c ≡ ok i
      → replace_if_event works i.event_id c held ≡ (ok true, holds (obj (envelope i (some c))))
  unfolding replace_if_event locked replace_over write_object
  held-replace_if_event c e =
      rw (e, beq_refl i.event_id, held-read, beq_refl i.event_id, beq_refl i.sequence) refl

-- a report above the mark is saved
abbrev pub Below : Option Identity → ℕ → Type 0
Below none n = Unit
Below (some m) n = m.sequence < n

pub save-works :
    (f : File) (s : PendingState) (i : Identity) (d : Fields)
    → read_pending f ≡ ok s
    → pending_identity d ≡ ok i
    → Below s.high_water i.sequence
    → save works d f ≡ (ok true, holds (obj (envelope i (some d))))
unfolding save locked save_over write_object
save-works f s i d read agrees below = rw (agrees, read) (over s.high_water s.report below)
  where
    over :
        (o : Option Identity) (r : Option Fields)
        → Below o i.sequence
        → save_over works d i o r f ≡ (ok true, holds (obj (envelope i (some d))))
    over none r h = refl
    over (some m) r h =
        let later : ltb i.sequence m.sequence ≡ false = ground arith in
        let other : (i.sequence == m.sequence) ≡ false = ground arith in rw (later, other) refl

pub load-works :
    (f : File) (s : PendingState) → read_pending f ≡ ok s → load works f ≡ (ok s.report, f)
unfolding load locked
load-works f s read = rw read refl
