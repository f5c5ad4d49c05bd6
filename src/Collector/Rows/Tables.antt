-- ===== src/Collector/Rows/Tables.antt =====
-- Laws of the table operations: updates, deletions, queries and counts.
use lite_checker.Prelude.{
  ℕ, ◌≤◌, ◌<◌, ◌≡◌, Bool, true, false, some, List, [], ◌∷◌, ◌++◌, arith, refl, All, Some, inl, inr,
  ◌⊎◌, if◌then◌else◌, Bool-cases, ap, subst,
}
use lite_checker.Collector.Rows.Valid.{Ascending}
use lite_checker.Collector.Rows.{Notification, update_where, first_where, delete_where}

module _ {A : Type 0} where
  pub All-update_where :
      (P : A → Type 0) (p : A → Bool) (f : A → A) (xs : List A)
      → ((x : A) → p x ≡ true → P x → P (f x))
      → All P xs
      → All P (update_where p f xs)
  unfolding update_where
  All-update_where P p f [] step h = tt
  All-update_where P p f (x ∷ xs) step h = elim (Bool-cases (p x)) [
    | inl e ↦ rw e (step x e h.0, All-update_where P p f xs step h.1)
    | inr e ↦ rw e (h.0, All-update_where P p f xs step h.1)
  ]

  pub All-delete_where :
      (P : A → Type 0) (p : A → Bool) (xs : List A) → All P xs → All P (delete_where p xs)
  unfolding delete_where
  All-delete_where P p [] h = tt
  All-delete_where P p (x ∷ xs) h = elim (Bool-cases (p x)) [
    | inl e ↦ rw e (All-delete_where P p xs h.1)
    | inr e ↦ rw e (h.0, All-delete_where P p xs h.1)
  ]

  pub All-append : (P : A → Type 0) (xs ys : List A) → All P xs → All P ys → All P (xs ++ ys)
  All-append P [] ys h k = k
  All-append P (x ∷ xs) ys h k = (h.0, All-append P xs ys h.1 k)

  pub All-map : (P Q : A → Type 0) (xs : List A) → ((x : A) → P x → Q x) → All P xs → All Q xs
  All-map P Q [] f h = tt
  All-map P Q (x ∷ xs) f h = (f x h.0, All-map P Q xs f h.1)

  pub All-of : {P : A → Type 0} → ((x : A) → P x) → (xs : List A) → All P xs
  All-of f [] = tt
  All-of f (x ∷ xs) = (f x, All-of f xs)

  -- what a query finds has the properties of every row, and passes the test
  pub first_where-All :
      (P : A → Type 0) (p : A → Bool) (xs : List A) (x : A)
      → All P xs
      → first_where p xs ≡ some x
      → P x × (p x ≡ true)
  unfolding first_where
  first_where-All P p [] x h e = absurd (cc e)
  first_where-All P p (y ∷ xs) x h e = go (p y) refl e (first_where-All P p xs x h.1)
    where
      found : some y ≡ some x → p y ≡ true → P x × (p x ≡ true)
      found e f = subst (λ z. P z × (p z ≡ true)) (cc e) (h.0, f)

      go :
          (b : Bool)
          → p y ≡ b
          → (if b then some y else first_where p xs) ≡ some x
          → (first_where p xs ≡ some x → P x × (p x ≡ true))
          → P x × (p x ≡ true)
      go true f g ih = found g f
      go false f g ih = ih g

  -- an update that does not touch the tested columns commutes with the query
  pub first_where-update_where :
      (p q : A → Bool) (f : A → A) (xs : List A)
      → ((x : A) → p (f x) ≡ p x)
      → {x : A} → first_where p xs ≡ some x
      → first_where p (update_where q f xs) ≡ some (if q x then f x else x)
  unfolding first_where update_where
  first_where-update_where p q f [] same e = absurd (cc e)
  first_where-update_where p q f (y ∷ xs) same {x} e =
      ground (arith, same y, first_where-update_where p q f xs same {x = x})

  pub first_where-append :
      (p : A → Bool) (xs ys : List A) {x : A}
      → first_where p xs ≡ some x
      → first_where p (xs ++ ys) ≡ some x
  unfolding first_where
  first_where-append p [] ys e = absurd (cc e)
  first_where-append p (y ∷ xs) ys {x} e = ground (arith, first_where-append p xs ys {x = x})

  pub first_where-Some :
      (p : A → Bool) (xs : List A) (x : A) → first_where p xs ≡ some x → Some (λ y. y ≡ x) xs
  unfolding first_where
  first_where-Some p [] x e = absurd (cc e)
  first_where-Some p (y ∷ xs) x e = go (p y) e (first_where-Some p xs x)
    where
      go :
          (b : Bool)
          → (if b then some y else first_where p xs) ≡ some x
          → (first_where p xs ≡ some x → Some (λ z. z ≡ x) xs)
          → (y ≡ x) ⊎ Some (λ z. z ≡ x) xs
      go true e ih = inl (cc)
      go false e ih = inr (ih e)

  -- an update of the found row alone, after which it still passes the test
  pub first_where-update_one :
      (p q : A → Bool) (f : A → A) (xs : List A) (x : A)
      → first_where p xs ≡ some x
      → All (λ y. q y ≡ true → y ≡ x) xs
      → q x ≡ true
      → p x ≡ true
      → p (f x) ≡ true
      → first_where p (update_where q f xs) ≡ some (f x)
  unfolding first_where update_where
  first_where-update_one p q f [] x e one k h g = absurd (cc e)
  first_where-update_one p q f (y ∷ xs) x e one k h g =
      let ih = first_where-update_one p q f xs x in
      elim (Bool-cases (p y)) [
        | inl py ↦ let same : y ≡ x = ground arith in rw same (rw (k, g) refl)
        | inr py ↦
            let other : q y ≡ false = different (q y) refl py in
            rw (other, py) (ih (ground arith) one.1 k h g)
      ]
    where
      different : (b : Bool) → q y ≡ b → p y ≡ false → q y ≡ false
      different false e f = e
      different true e f = absurd (cc (ap p (one.0 e), h, f))

-- Laws of the tables of notifications.
module _ (p : Notification → Bool) where
  pub Ascending-weaken :
      (lo lo' : ℕ) (ns : List Notification) → lo ≤ lo' → Ascending lo' ns → Ascending lo ns
  Ascending-weaken lo lo' [] h k = tt
  Ascending-weaken lo lo' (n ∷ ns) h k = (omega arith, k.1)

  pub Ascending-update_where :
      (f : Notification → Notification) (lo : ℕ) (ns : List Notification)
      → ((n : Notification) → (f n).notification_id ≡ n.notification_id)
      → Ascending lo ns
      → Ascending lo (update_where p f ns)
  unfolding update_where
  Ascending-update_where f lo [] same h = tt
  Ascending-update_where f lo (n ∷ ns) same h = elim (Bool-cases (p n)) [
    | inl e ↦ rw e (rw same (h.0, Ascending-update_where f n.notification_id ns same h.1))
    | inr e ↦ rw e (h.0, Ascending-update_where f n.notification_id ns same h.1)
  ]

  pub Ascending-delete_where :
      (lo : ℕ) (ns : List Notification) → Ascending lo ns → Ascending lo (delete_where p ns)
  unfolding delete_where
  Ascending-delete_where lo [] h = tt
  Ascending-delete_where lo (n ∷ ns) h = elim (Bool-cases (p n)) [
    | inl e ↦ rw e (
        Ascending-weaken lo n.notification_id (delete_where p ns) (omega arith)
          (Ascending-delete_where n.notification_id ns h.1))
    | inr e ↦ rw e (h.0, Ascending-delete_where n.notification_id ns h.1)
  ]

pub Ascending-append :
    (lo last : ℕ) (ns : List Notification) (n : Notification)
    → Ascending lo ns
    → All (λ m. m.notification_id ≤ last) ns
    → lo ≤ last
    → last < n.notification_id
    → Ascending lo (ns ++ n ∷ [])
Ascending-append lo last [] n h k l m = (omega arith, tt)
Ascending-append lo last (x ∷ ns) n h k l m =
    (h.0, Ascending-append x.notification_id last ns n h.1 k.1 k.0 m)
