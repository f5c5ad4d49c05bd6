-- ===== src/State/Pending/Delivery.antt =====
-- What a series of calls of `PendingReportStore` does to the mark, and what `clear` ends.
use lite_checker.Prelude.{
  String, Bool, true, Option, none, some, List, [], ◌∷◌, ◌≡◌, ◌<◌, ◌∙◌, refl, sym, ap, subst, ◌==◌,
  string_eq, nat_eq, inl, inr, Bool-cases,
}
use lite_checker.Json.{Fields}
use lite_checker.State.{Reply, ok, refused, File, Host, Step, locked, write_object}
use lite_checker.State.Pending.{
  Identity, PendingState, pending_identity, read_pending, clear_over, on_state, on_pending,
  on_identity, save, replace_if_event, clear,
}
use lite_checker.State.Pending.Envelope.{IsMark, read_pending-envelope}
use lite_checker.State.Pending.Readable.{IsState, IsMarkOpt, Holds, read_pending-IsState}
use lite_checker.State.Pending.Follows.{
  Ahead, After, Follows, Later-trans, unchanged, save_over-After, replace_over-After,
  clear_over-After,
}

-- One call that writes, with its arguments and what the host does.
pub data Operation : Type 0 where
  saved : Host → Fields → Operation
  replaced : Host → String → Fields → Operation
  cleared : Host → String → Operation

-- The file after the call, whether it returned or raised.
unfoldable pub perform : Operation → File → File
perform (saved h d) f = (save h d f).1
perform (replaced h id d) f = (replace_if_event h id d f).1
perform (cleared h id) f = (clear h id f).1

unfoldable pub perform_all : List Operation → File → File
perform_all [] f = f
perform_all (o ∷ os) f = perform_all os (perform o f)

same-Follows : (r : Reply PendingState) (f : File) → read_pending f ≡ r → Follows r f
same-Follows (refused e) f q = q
same-Follows (ok s) f q = unchanged s f q

-- what the body of a transition must do
abbrev BodyAfter : (Option Identity → Option Fields → Step Bool) → Type 0
BodyAfter body =
    (s : PendingState) (f : File)
    → IsState s
    → read_pending f ≡ ok s
    → After s (body s.high_water s.report f).1

on_state-Follows :
    (body : Option Identity → Option Fields → Step Bool) (r : Reply PendingState) (f : File)
    → BodyAfter body
    → Holds IsState r
    → read_pending f ≡ r
    → Follows r (on_state body r f).1
on_state-Follows body (refused e) f b v q = q
on_state-Follows body (ok s) f b v q = b s f v q

on_pending-Follows :
    (h : Host) (body : Option Identity → Option Fields → Step Bool) (f : File)
    → BodyAfter body
    → Follows (read_pending f) (on_pending h body f).1
unfolding locked
on_pending-Follows h body f b =
    let step = on_state-Follows body (read_pending f) f b (read_pending-IsState f) refl in
    elim (Bool-cases h.acquires) [
      | inr a ↦ simp a (same-Follows (read_pending f) f refl)
      | inl a ↦ simp a (elim (Bool-cases h.releases) [ inl r ↦ simp r step | inr r ↦ simp r step ])
    ]

on_identity-Follows :
    (body : Identity → Step Bool) (r : Reply Identity) (f : File)
    → ((i : Identity) → r ≡ ok i → Follows (read_pending f) (body i f).1)
    → Follows (read_pending f) (on_identity body r f).1
on_identity-Follows body (refused e) f b = same-Follows (read_pending f) f refl
on_identity-Follows body (ok i) f b = b i refl

perform-Follows : (o : Operation) (f : File) → Follows (read_pending f) (perform o f)
unfolding perform save replace_if_event clear
perform-Follows (saved h d) f = on_identity-Follows _ (pending_identity d) f (λ i own.
    on_pending-Follows h _ f (λ s f k e. save_over-After h d i own s.high_water s.report f e))
perform-Follows (replaced h id d) f = on_identity-Follows _ (pending_identity d) f (λ i own.
    elim (Bool-cases (i.event_id == id)) [
      | inr e ↦ simp e (same-Follows (read_pending f) f refl)
      | inl e ↦ simp e (
          on_pending-Follows h _ f
            (λ s f k e. replace_over-After h d i own s.high_water s.report f e))
    ])
perform-Follows (cleared h id) f =
    on_pending-Follows h _ f (λ s f k e. clear_over-After h id s.high_water s.report f k e)

Follows-trans :
    (r : Reply PendingState) (f g : File) → Follows r f → Follows (read_pending f) g → Follows r g
Follows-trans (refused e) f g h k = subst (λ x. Follows x g) h k
Follows-trans (ok s) f g (t, q, l) k =
    let (u, p, m) = subst (λ x. Follows x g) q k in (u, p, Later-trans s t u l m)

-- Whatever reports are saved, replaced and cleared, by hosts that may fail at the lock, the write or
-- the release: from a file with a mark on, the mark never moves back to an earlier sequence, one
-- sequence is never given to a second event, and an event without a report gets none again. A file
-- that is refused is refused in the same way after it.
pub perform_all-Follows :
    (os : List Operation) (f : File) → Follows (read_pending f) (perform_all os f)
unfolding perform_all
perform_all-Follows [] f = same-Follows (read_pending f) f refl
perform_all-Follows (o ∷ os) f =
    Follows-trans (read_pending f) (perform o f) (perform_all os (perform o f))
      (perform-Follows o f) (perform_all-Follows os (perform o f))

-- what a clear that returns true has done
abbrev Clears : String → PendingState → Reply Bool × File → Type 0
Clears id s r =
    r.0 ≡ ok true
    → (m : Identity) × (s.high_water ≡ some m)
      × (m.event_id ≡ id)
      × (read_pending r.1 ≡ ok (record { high_water = some m; report = none }))

clear_over-Clears :
    (h : Host) (id : String) (o : Option Identity) (r : Option Fields) (f : File)
    → IsMarkOpt o r
    → Clears id (record { high_water = o; report = r }) (clear_over h id o r f)
unfolding clear_over write_object
clear_over-Clears h id none r f k = λ e. absurd (cc e)
clear_over-Clears h id (some m) none f k = λ e. absurd (cc e)
clear_over-Clears h id (some m) (some c) f k = elim (Bool-cases (m.event_id == id)) [
  | inr a ↦ simp a (λ e. absurd (cc e))
  | inl a ↦ simp a (elim (Bool-cases h.writes) [
    | inr w ↦ simp w (λ e. absurd (cc e))
    | inl w ↦ simp w (λ e. (
      m,
      refl,
      (string_eq.same_iff m.event_id id).0 a,
      read_pending-envelope m none (record { named = k.named; agrees = λ d q. absurd (cc q) }),
    ))
  ])
]

clear-Clears :
    (h : Host) (id : String) (f : File) (s : PendingState)
    → read_pending f ≡ ok s
    → Clears id s (clear h id f)
unfolding clear locked
clear-Clears h id f s q =
    let k : IsState s = subst (Holds IsState) q (read_pending-IsState f) in
    rw q (elim (Bool-cases h.acquires) [
      | inr a ↦ simp a (λ e. absurd (cc e))
      | inl a ↦ simp a (elim (Bool-cases h.releases) [
        | inr r ↦ simp r (λ e. absurd (cc e))
        | inl r ↦ simp r (clear_over-Clears h id s.high_water s.report f k)
      ])
    ])

-- Once `clear` has returned true for an event, no series of calls, failing or not, brings it back:
-- a report that is pending afterwards has a later sequence than the cleared one had.
pub clear-perform_all :
    (h : Host) (id : String) (os : List Operation) (f : File) (s u : PendingState) (d : Fields)
    → read_pending f ≡ ok s
    → (clear h id f).0 ≡ ok true
    → read_pending (perform_all os (clear h id f).1) ≡ ok u
    → u.report ≡ some d
    → (m j : Identity) × (s.high_water ≡ some m)
      × (m.event_id ≡ id)
      × (pending_identity d ≡ ok j)
      × (m.sequence < j.sequence)
clear-perform_all h id os f s u d q c p g =
    let (m, e, named, gone) = clear-Clears h id f s q c in
    let g' = (clear h id f).1 in
    let (t, pt, (n, en, ahead)) =
      subst (λ x. Follows x (perform_all os g')) gone (perform_all-Follows os g') in
    let same : t ≡ u = ok-injective (sym pt ∙ p) in
    let reported : t.report ≡ some d = ap (λ (x : PendingState). x.report) same ∙ g in
    let k : IsState t = subst (Holds IsState) pt (read_pending-IsState (perform_all os g')) in
    let mark : IsMark n t.report = subst (λ o. IsMarkOpt o t.report) en k in
    (m, n, e, named, mark.agrees d reported, later m n t.report ahead reported)
  where
    ok-injective : {x y : PendingState} → ok x ≡ ok y → x ≡ y
    ok-injective e = cc e

    later :
        (m n : Identity) (r : Option Fields)
        → Ahead m none n r
        → r ≡ some d
        → m.sequence < n.sequence
    later m n r (inl a) h = a
    later m n r (inr (p, b)) h = absurd (cc (b refl, h))
