-- ===== src/Update/Manifest/Gives.antt =====
-- What the readings of a JSON value in update_manifest.py give.
use lite_checker.Prelude.{
  ℕ, ◌≡◌, refl, String, Bool, true, false, Option, none, some, string_eq, nat_eq, subst,
}
use lite_checker.Json.{Json, null, boolean, int, real, text, arr, obj, pos, negsuc, Fields, get}
use lite_checker.Update.Manifest.{◌>>=◌, require, text_of, nat_of}

-- what holds of a result, if there is one
abbrev pub Gives : {A : Type 0} → (A → Type 0) → Option A → Type 0
Gives P none = Unit
Gives P (some a) = P a

pub bind-Gives :
    {A B : Type 0} (P : B → Type 0) (m : Option A) (k : A → Option B)
    → ((a : A) → m ≡ some a → Gives P (k a))
    → Gives P (m >>= k)
bind-Gives P none k h = tt
bind-Gives P (some a) k h = h a refl

pub require-Gives :
    {B : Type 0} (P : B → Type 0) (t : Bool) (k : Option B)
    → (t ≡ true → Gives P k)
    → Gives P (require t >>= λ _. k)
require-Gives P true k h = h refl
require-Gives P false k h = tt

pub Gives-eq_some :
    {A : Type 0} (P : A → Type 0) (m : Option A) {a : A} → Gives P m → m ≡ some a → P a
Gives-eq_some P m {a} g e = subst (Gives P) e g

pub text_of-eq : (j : Json) (s : String) → text_of j ≡ some s → j ≡ text s
text_of-eq (text t) s h = cc
text_of-eq null s h = cc
text_of-eq (boolean t) s h = cc
text_of-eq (int n) s h = cc
text_of-eq (real t) s h = cc
text_of-eq (arr js) s h = cc
text_of-eq (obj d) s h = cc

pub nat_of-eq : (j : Json) (n : ℕ) → nat_of j ≡ some n → j ≡ int (pos n)
nat_of-eq (int (pos m)) n h = cc
nat_of-eq (int (negsuc m)) n h = cc
nat_of-eq null n h = cc
nat_of-eq (boolean t) n h = cc
nat_of-eq (real t) n h = cc
nat_of-eq (text t) n h = cc
nat_of-eq (arr js) n h = cc
nat_of-eq (obj d) n h = cc

-- the entry of a text, of a number
pub text_at : (d : Fields) (k s : String) → (get d k >>= text_of) ≡ some s → get d k ≡ some (text s)
text_at d k s =
    Gives-eq_some (λ t. get d k ≡ some (text t)) (get d k >>= text_of)
      (bind-Gives (λ t. get d k ≡ some (text t)) (get d k) text_of
        (λ j at. is_text j at (text_of j) refl))
  where
    is_text :
        (j : Json)
        → get d k ≡ some j
        → (o : Option String) → text_of j ≡ o
        → Gives (λ t. get d k ≡ some (text t)) o
    is_text j at none e = tt
    is_text j at (some t) e = cc (at, text_of-eq j t e)

pub nat_at :
    (d : Fields) (k : String) (n : ℕ) → (get d k >>= nat_of) ≡ some n → get d k ≡ some (int (pos n))
nat_at d k n =
    Gives-eq_some (λ m. get d k ≡ some (int (pos m))) (get d k >>= nat_of)
      (bind-Gives (λ m. get d k ≡ some (int (pos m))) (get d k) nat_of
        (λ j at. is_nat j at (nat_of j) refl))
  where
    is_nat :
        (j : Json)
        → get d k ≡ some j
        → (o : Option ℕ) → nat_of j ≡ o
        → Gives (λ m. get d k ≡ some (int (pos m))) o
    is_nat j at none e = tt
    is_nat j at (some m) e = cc (at, nat_of-eq j m e)
