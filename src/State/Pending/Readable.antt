-- ===== src/State/Pending/Readable.antt =====
-- The states that a file of `PendingReportStore` can give.
use lite_checker.Prelude.{
  true, false, Option, none, some, ◌≡◌, ◌∙◌, refl, sym, ap, subst, ◌==◌, string_eq, nat_eq, inl,
  inr, Bool-cases, and-eq_true,
}
use lite_checker.Json.{Json, null, obj, text, int, pos, Fields, get}
use lite_checker.State.{StateError, Reply, ok, refused, File, absent, broken, holds}
use lite_checker.State.Pending.{
  Identity, PendingState, identity_at, pending_identity, same_identity, agreed, with_mark,
  is_version_one, checked_pending, from_envelope, is_envelope, from_object, from_report,
  read_pending,
}
use lite_checker.State.Pending.Envelope.{IsMark}

abbrev pub Holds {ℓ} : {A : Type 0} → (A → Type ℓ) → Reply A → Type ℓ
Holds P (ok a) = P a
Holds P (refused e) = Unit

abbrev pub IsMarkOpt : Option Identity → Option Fields → Type 0
IsMarkOpt none r = r ≡ none
IsMarkOpt (some i) r = IsMark i r

-- a state that a file can give: its mark is that of its report
abbrev pub IsState : PendingState → Type 0
IsState s = IsMarkOpt s.high_water s.report

identity_at-named :
    (e : StateError) (a b : Option Json)
    → Holds (λ i. (i.event_id == "") ≡ false) (identity_at e a b)
unfolding identity_at
identity_at-named e (some (text id)) (some (int (pos n))) = elim (Bool-cases (id == "")) [
  | inl t ↦ rw t tt
  | inr t ↦ rw t t
]
identity_at-named e _ _ = tt

pub identity-named :
    (d : Fields) (i : Identity) → pending_identity d ≡ ok i → (i.event_id == "") ≡ false
unfolding pending_identity
identity-named d i h = subst (Holds (λ i. (i.event_id == "") ≡ false)) h (identity_at-named _ _ _)

pub identity-eq :
    (a b : Identity) → (a.event_id == b.event_id) ≡ true → (a.sequence == b.sequence) ≡ true → a ≡ b
identity-eq a b e f =
    let p = (string_eq.same_iff a.event_id b.event_id).0 e in
    let q = (nat_eq.same_iff a.sequence b.sequence).0 f in
    λ i. record { event_id = p i; sequence = q i }

pub same_identity-eq : (a b : Identity) → same_identity a b ≡ true → a ≡ b
unfolding same_identity
same_identity-eq a b h =
    let (e, f) = and-eq_true (a.event_id == b.event_id) (a.sequence == b.sequence) h in
    identity-eq a b e f

agreed-IsState :
    (i : Identity) (d : Fields) (r : Reply Identity)
    → pending_identity d ≡ r
    → (i.event_id == "") ≡ false
    → Holds IsState (agreed i d r)
unfolding agreed
agreed-IsState i d (refused e) q n = tt
agreed-IsState i d (ok j) q n = elim (Bool-cases (same_identity j i)) [
  | inr e ↦ rw e tt
  | inl e ↦ rw e (record {
    named = n;
    agrees = λ c h. ap pending_identity (sym (cc h)) ∙ q ∙ ap ok (same_identity-eq j i e);
  })
]

checked_pending-IsState :
    (i : Identity) (v : Option Json)
    → (i.event_id == "") ≡ false
    → Holds IsState (checked_pending i v)
unfolding checked_pending
checked_pending-IsState i (some null) n = record { named = n; agrees = λ d h. cc h }
checked_pending-IsState i (some (obj d)) n = agreed-IsState i d (pending_identity d) refl n
checked_pending-IsState i _ n = tt

with_mark-IsState :
    (v : Option Json) (r : Reply Identity)
    → Holds (λ i. (i.event_id == "") ≡ false) r
    → Holds IsState (with_mark v r)
with_mark-IsState v (refused e) h = tt
with_mark-IsState v (ok i) h = checked_pending-IsState i v h

from_report-IsState :
    (d : Fields) (r : Reply Identity) → pending_identity d ≡ r → Holds IsState (from_report d r)
from_report-IsState d (refused e) q = tt
from_report-IsState d (ok i) q = record {
  named = identity-named d i q;
  agrees = λ c h. ap pending_identity (sym (cc h)) ∙ q;
}

from_object-IsState : (r : Reply Fields) → Holds IsState (from_object r)
unfolding from_object from_envelope
from_object-IsState (refused e) = tt
from_object-IsState (ok d) = elim (Bool-cases (is_envelope d)) [
  | inr e ↦ rw e (from_report-IsState d _ refl)
  | inl e ↦ rw e (elim (Bool-cases (is_version_one (get d "schema_version"))) [
    | inr v ↦ rw v tt
    | inl v ↦ rw v (with_mark-IsState (get d "pending") _ (identity_at-named _ _ _))
  ])
]

pub read_pending-IsState : (f : File) → Holds IsState (read_pending f)
unfolding read_pending
read_pending-IsState absent = refl
read_pending-IsState broken = from_object-IsState _
read_pending-IsState (holds v) = from_object-IsState _
