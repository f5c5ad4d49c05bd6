-- ===== src/Collector/Rows/Queries.antt =====
-- Laws of the queries over tables that rows are deleted from and appended to.
use lite_checker.Prelude.{
  ◌≡◌, Bool, true, false, none, some, List, [], ◌∷◌, ◌++◌, arith, any_of, refl,
}
use lite_checker.Collector.Rows.{first_where, delete_where}

module _ {A : Type 0} (p : A → Bool) where
  -- a deletion that spares the found row
  pub first_where-delete_where :
      (d : A → Bool) (xs : List A) {x : A}
      → first_where p xs ≡ some x
      → d x ≡ false
      → first_where p (delete_where d xs) ≡ some x
  unfolding first_where delete_where
  first_where-delete_where d [] e k = absurd (cc e)
  first_where-delete_where d (y ∷ xs) {x} e k =
      ground (arith, first_where-delete_where d xs {x = x})

  pub first_where-delete_none :
      (d : A → Bool) (xs : List A)
      → first_where p xs ≡ none
      → first_where p (delete_where d xs) ≡ none
  unfolding first_where delete_where
  first_where-delete_none d [] e = refl
  first_where-delete_none d (y ∷ xs) e = ground (arith, first_where-delete_none d xs)

  -- a new row is found when no other was
  pub first_where-append_new :
      (xs : List A) (x : A)
      → first_where p xs ≡ none
      → p x ≡ true
      → first_where p (xs ++ x ∷ []) ≡ some x
  unfolding first_where
  first_where-append_new [] x e k = rw k refl
  first_where-append_new (y ∷ xs) x e k = ground (arith, first_where-append_new xs x)

  pub any_of-append : (xs ys : List A) → any_of p xs ≡ true → any_of p (xs ++ ys) ≡ true
  any_of-append [] ys e = absurd (cc e)
  any_of-append (x ∷ xs) ys e = ground (arith, any_of-append xs ys)

  pub any_of-append_new : (xs : List A) (x : A) → p x ≡ true → any_of p (xs ++ x ∷ []) ≡ true
  any_of-append_new [] x e = rw e refl
  any_of-append_new (y ∷ xs) x e = ground (arith, any_of-append_new xs x)

  pub any_of-delete_where :
      (d : A → Bool) (xs : List A)
      → ((x : A) → p x ≡ true → d x ≡ false)
      → any_of p xs ≡ true
      → any_of p (delete_where d xs) ≡ true
  unfolding delete_where
  any_of-delete_where d [] k e = absurd (cc e)
  any_of-delete_where d (x ∷ xs) k e = ground (arith, k x, any_of-delete_where d xs k)

  pub any_of_mono :
      (q : A → Bool) (xs : List A)
      → ((x : A) → p x ≡ true → q x ≡ true)
      → any_of p xs ≡ true
      → any_of q xs ≡ true
  any_of_mono q [] k e = absurd (cc e)
  any_of_mono q (x ∷ xs) k e = ground (arith, k x, any_of_mono q xs k)
