-- ===== src/Update/Check/Ends.antt =====
-- What holds when a call of an update ends, by a result or an exception.
use lite_checker.Prelude.{ℕ, ◌≡◌, Bool, true, false, string_eq, Outcome, returned, raised}
use lite_checker.Update.Machine.{Machine, Turn, after, rescue, give, release_as, released}

-- what holds of the machine after a call that returns, and after one that raises
abbrev pub Ends :
    {A : Type 0} → (A → Machine → Type 0) → (Machine → Type 0) → Outcome A × Machine → Type 0
Ends Q E (returned a, w) = Q a w
Ends Q E (raised x, w) = E w

pub after-Ends :
    {A B : Type 0} (Q : A → Machine → Type 0) (R : B → Machine → Type 0) (E : Machine → Type 0)
    (r : Outcome A × Machine) (k : A → Turn B)
    → Ends Q E r
    → ((a : A) (w : Machine) → Q a w → Ends R E (k a w))
    → Ends R E (after r k)
after-Ends Q R E (returned a, w) k q h = h a w q
after-Ends Q R E (raised x, w) k q h = q

pub rescue-Ends :
    {A : Type 0} (Q : A → Machine → Type 0) (E E' : Machine → Type 0) (r : Outcome A × Machine)
    (h : Turn A)
    → Ends Q E r
    → ((w : Machine) → E w → Ends Q E' (h w))
    → Ends Q E' (rescue r h)
rescue-Ends Q E E' (returned a, w) h q k = q
rescue-Ends Q E E' (raised x, w) h q k = k w q

pub released-Ends :
    {A : Type 0} (Q : A → Machine → Type 0) (E E' : Machine → Type 0) (releases : ℕ → Bool)
    (r : Outcome A × Machine)
    → Ends Q E r
    → ((a : A) (w : Machine) → Q a w → E' w)
    → ((w : Machine) → E w → E' w)
    → Ends Q E' (released releases r)
released-Ends {A = A} Q E E' releases (o, w) q h k = split (releases w.tick) o q
  where
    split : (t : Bool) (o : Outcome A) → Ends Q E (o, w) → Ends Q E' (release_as t o w)
    split true (returned a) q = q
    split true (raised x) q = k w q
    split false (returned a) q = h a w q
    split false (raised x) q = k w q

-- a release changes nothing else
pub released-Keeps :
    {A : Type 0} (P : Machine → Type 0) (releases : ℕ → Bool) (r : Outcome A × Machine)
    → P r.1
    → P (released releases r).1
released-Keeps {A = A} P releases (o, w) p = split (releases w.tick)
  where
    split : (t : Bool) → P (release_as t o w).1
    split true = p
    split false = p

-- what holds after a call that tells whether it succeeded
abbrev pub Either : (Machine → Type 0) → (Machine → Type 0) → Bool → Machine → Type 0
Either Q E true w = Q w
Either Q E false w = E w

abbrev pub Never : Machine → Type 0
Never w = ⊥

pub succeeds-Ends :
    {A : Type 0} (Q E : Machine → Type 0) (r : Outcome A × Machine)
    → Ends (λ _. Q) E r
    → Ends (Either Q E) Never (rescue (after r (λ _. give true)) (give false))
succeeds-Ends Q E (returned a, w) q = q
succeeds-Ends Q E (raised x, w) q = q

-- a handler that gives a value lets the chain go on
pub rescued-returns :
    {A B : Type 0} (r : Outcome A × Machine) (d : A) (k : A → Turn B)
    → ((x : A) (v : Machine) → (a : B) × ((k x v).0 ≡ returned a))
    → (a : B) × ((after (rescue r (give d)) k).0 ≡ returned a)
rescued-returns (returned x, w) d k h = h x w
rescued-returns (raised e, w) d k h = h d w

pub Ends-returned :
    {A : Type 0} (P : Machine → Type 0) (r : Outcome A × Machine)
    → (a : A) × (r.0 ≡ returned a)
    → P r.1
    → Ends (λ _. P) Never r
Ends-returned P (returned x, w) q p = p
Ends-returned P (raised e, w) (a, q) p = absurd (cc q)

-- the end of a chain of calls
pub after-Last :
    {A B : Type 0} (Q : A → Machine → Type 0) (E S : Machine → Type 0) (r : Outcome A × Machine)
    (k : A → Turn B)
    → Ends Q E r
    → ((w : Machine) → E w → S w)
    → ((a : A) (w : Machine) → Q a w → S (k a w).1)
    → S (after r k).1
after-Last Q E S (returned a, w) k q weaken h = h a w q
after-Last Q E S (raised x, w) k q weaken h = weaken w q

-- a predicate of the machine holds however the call ends
pub Ends-both :
    {A : Type 0} (P : Machine → Type 0) (r : Outcome A × Machine) → Ends (λ _ w. P w) P r → P r.1
Ends-both P (returned a, w) h = h
Ends-both P (raised x, w) h = h
